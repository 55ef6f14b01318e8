-- ===== src/Dependency/Memo.antt =====
-- The check's cache against a check that computes each time.
use unoc_network_simulator.Prelude.{
  ℕ, suc, ◌≤◌, ◌≡◌, refl, ap, sym, ◌∙◌, subst, true, false, Option, none, some, List, [], ◌∷◌,
  arith, ◌==◌, Bool-cases, Option-cases, inl, inr, ==_iff,
}
use unoc_network_simulator.Prelude.Dicts.{get, put, get-put}
use unoc_network_simulator.Model.{is_router, Device}
use unoc_network_simulator.Model.Tables.{Tables}
use unoc_network_simulator.Pathfinding.Networkx.{Networkx}
use unoc_network_simulator.Dependency.Defs.{
  UpstreamL3Result, of_other, compute_upstream, UpstreamCache, same_version, refreshed,
  has_upstream_l3_or_anchor,
}

-- The tables change and the version is bumped, or a device is asked for.
pub data Ask : Type 0 where
  change : Tables → Ask
  ask : Device → Ask

module _ (nx : Networkx) (strip_if0 : ℕ → Option ℕ) where
  abbrev pub Cache : Type 0
  Cache = UpstreamCache nx strip_if0

  -- The results with the cache, from a version and tables on.
  abbrev pub run_cached : List Ask → ℕ → Tables → Cache → List UpstreamL3Result
  run_cached [] v t c = []
  run_cached (change t' ∷ asks) v t c = run_cached asks (suc v) t' c
  run_cached (ask d ∷ asks) v t c =
      let r = has_upstream_l3_or_anchor nx strip_if0 v t d c in r.0 ∷ run_cached asks v t r.1

  abbrev pub run_computed : List Ask → Tables → List UpstreamL3Result
  run_computed [] t = []
  run_computed (change t' ∷ asks) t = run_computed asks t'
  run_computed (ask d ∷ asks) t = compute_upstream nx strip_if0 t d ∷ run_computed asks t

  abbrev NotAfter : Option ℕ → ℕ → Type 0
  NotAfter none v = Unit {0}
  NotAfter (some w) v = w ≤ v

  -- The version is not ahead, and at this version the results are those that the tables give.
  record IsCurrent (v : ℕ) (t : Tables) (c : Cache) : Type 0 where
    behind : NotAfter c.version v
    right :
        same_version nx strip_if0 c.version v ≡ true
        → (d : Device) (r : UpstreamL3Result) → get d.id c.results ≡ some r
        → r ≡ of_other nx strip_if0 t d

  NotAfter-suc : (o : Option ℕ) (v : ℕ) → NotAfter o v → NotAfter o (suc v)
  NotAfter-suc none v h = h
  NotAfter-suc (some w) v h = omega (arith, h)

  bumped : (o : Option ℕ) (v : ℕ) → NotAfter o v → same_version nx strip_if0 o (suc v) ≡ false
  bumped none v h = refl
  bumped (some w) v h = ground (arith, h)

  refreshed-IsCurrent :
      (v : ℕ) (t : Tables) (c : Cache)
      → IsCurrent v t c
      → IsCurrent v t (refreshed nx strip_if0 v c)
        × (same_version nx strip_if0 (refreshed nx strip_if0 v c).version v ≡ true)
  refreshed-IsCurrent v t c h = elim (Bool-cases (same_version nx strip_if0 c.version v)) [
    | inl same ↦ rw same (h, same)
    | inr old ↦ rw old (
      record { behind = omega arith; right = λ k d r e. absurd (ground arith) },
      ground (arith, ==_iff v v),
    )
  ]

  -- The check of a device that is no router looks only at its identifier.
  of_other-id :
      (t : Tables) (d e : Device)
      → d.id ≡ e.id
      → of_other nx strip_if0 t d ≡ of_other nx strip_if0 t e
  unfolding of_other
  of_other-id t d e h = ap (λ (i : ℕ). at_id i) h
    where
      at_id : ℕ → UpstreamL3Result
      at_id i = of_other nx strip_if0 t (record d { id = i })

  stored-IsCurrent :
      (v : ℕ) (t : Tables) (c : Cache) (d : Device)
      → IsCurrent v t c
      → IsCurrent v t (record c { results = put d.id (of_other nx strip_if0 t d) c.results })
  stored-IsCurrent v t c d h = record {
    behind = h.behind;
    right = λ same e r k. elim (Bool-cases (d.id == e.id)) [
      | inl here ↦
          let known : some (of_other nx strip_if0 t d) ≡ some r =
            sym (get-put e.id d.id (of_other nx strip_if0 t d) c.results ∙ rw here refl) ∙ k in
          sym (ap (λ (o : Option UpstreamL3Result). elim o [ none ↦ r | some z ↦ z ]) known)
          ∙ of_other-id t d e ((==_iff d.id e.id).0 here)
      | inr other ↦
          h.right same e r
            (sym (get-put e.id d.id (of_other nx strip_if0 t d) c.results ∙ rw other refl) ∙ k)
    ];
  }

  computed :
      (t : Tables) (d : Device)
      → is_router d.type ≡ false
      → compute_upstream nx strip_if0 t d ≡ of_other nx strip_if0 t d
  unfolding compute_upstream
  computed t d other = rw other refl

  -- An answer is the computed one, and leaves a cache that is current.
  answer-IsCurrent :
      (v : ℕ) (t : Tables) (d : Device) (c : Cache)
      → IsCurrent v t c
      → let r = has_upstream_l3_or_anchor nx strip_if0 v t d c in
        (r.0 ≡ compute_upstream nx strip_if0 t d) × IsCurrent v t r.1
  unfolding has_upstream_l3_or_anchor
  answer-IsCurrent v t d c h = elim (Bool-cases (is_router d.type)) [
    | inl router ↦ rw router (refl, h)
    | inr other ↦
        let c' = refreshed nx strip_if0 v c in
        let (h', same) = refreshed-IsCurrent v t c h in
        elim (Option-cases (get d.id c'.results)) [
          | inr (r, e) ↦ rw (other, e) (h'.right same d r e ∙ sym (computed t d other), h')
          | inl miss ↦
              rw (other, miss)
                (
                  refl,
                  subst
                      (λ (r : UpstreamL3Result).
                        IsCurrent v t (record c' { results = put d.id r c'.results }))
                      (sym (computed t d other)) (stored-IsCurrent v t c' d h'),
                )
        ]
  ]

  run_cached_current :
      (asks : List Ask) (v : ℕ) (t : Tables) (c : Cache)
      → IsCurrent v t c
      → run_cached asks v t c ≡ run_computed asks t
  run_cached_current [] v t c h = refl
  run_cached_current (change t' ∷ asks) v t c h = run_cached_current asks (suc v) t' c (record {
    behind = NotAfter-suc c.version v h.behind;
    right = λ same d r e. absurd (ground (arith, same, bumped c.version v h.behind));
  })
  run_cached_current (ask d ∷ asks) v t c h =
      let (right, next) = answer-IsCurrent v t d c h in
      let rest = (has_upstream_l3_or_anchor nx strip_if0 v t d c).1 in
      ap (◌∷ (run_cached asks v t rest)) right
      ∙ ap (compute_upstream nx strip_if0 t d ∷◌) (run_cached_current asks v t rest next)

  -- If each change of the tables bumps the topology version, any run of questions gets from the cached
  -- check the results that computing each anew would give.
  pub run_cached-eq :
      (asks : List Ask) (v : ℕ) (t : Tables)
      → run_cached asks v t (record { version = none; results = [] }) ≡ run_computed asks t
  run_cached-eq asks v t =
      run_cached_current asks v t (record { version = none; results = [] })
        (record { behind = tt; right = λ same d r e. absurd (ground arith) })
