-- ===== src/Search/Sweep/Seek/Ahead.antt =====
-- A sweep that stops when a neighbour that is not yet visited has a property.
use unoc_network_simulator.Prelude.{
  ℕ, zero, suc, ◌+◌, ◌≤◌, ◌≡◌, refl, ap, sym, ◌∙◌, ◌↔◌, inl, inr, Bool, true, false, not, ◌&&◌,
  ◌||◌, some, List, [], ◌∷◌, arith, Bool-cases, List-cases, length, any, ==_refl,
}
use unoc_network_simulator.Prelude.Sets.{contains}
use unoc_network_simulator.Search.Walks.{Walk, seed, step}
use unoc_network_simulator.Search.Flood.{Frontier, IsPush}
use unoc_network_simulator.Search.Sweep.{
  visit, sweep, edges, sweep_ends, sweep_correct, enqueue-reached, enqueue-queue, Inv, Inv-skip,
  Inv-visit,
}
use unoc_network_simulator.Search.Sweep.Seek.{seek, some_list_inj, any-false, any-true, any_some}

-- The test inside the `for` loop.
abbrev pub ahead : (ℕ → List ℕ) → (ℕ → Bool) → List ℕ → ℕ → Bool
ahead next q checked u = any (λ v. not (contains v checked) && q v) (next u)

module _ (next : ℕ → List ℕ) (push : List ℕ → ℕ → List ℕ) (p : IsPush push) (seeds : List ℕ)
    (q : ℕ → Bool) (r : List ℕ)
    (whole : (v : ℕ) → Walk seeds next (λ _. true) v → contains v r ≡ true) where
  -- No node that is queued or visited has the property.
  abbrev IsBare : Frontier → Type 0
  IsBare s = (v : ℕ) → (contains v s.reached || contains v s.queue) ≡ true → q v ≡ false

  IsBare-visit :
      (s : Frontier) (u : ℕ) (rest : List ℕ)
      → s.queue ≡ u ∷ rest
      → ahead next q (u ∷ s.reached) u ≡ false
      → IsBare s
      → IsBare (visit next push (record s { queue = rest }) u)
  unfolding visit
  IsBare-visit s u rest e miss bare v m =
      let s' : Frontier = record { reached = u ∷ s.reached; queue = rest } in
      let flag = ap (contains v) (enqueue-reached next push p s' (next u)) in
      let wait = enqueue-queue next push p s' (next u) v in
      let hold = ap (contains v) e in
      elim (Bool-cases (contains v s.reached || contains v s.queue)) [
        | inl old ↦ bare v old
        | inr new ↦ elim (Bool-cases (q v)) [
          | inr f ↦ f
          | inl t ↦
              let tested : (not (contains v (u ∷ s.reached)) && q v) ≡ true =
                ground (arith, new, hold, t) in
              let found =
                any-true (λ w. not (contains w (u ∷ s.reached)) && q w) (next u) v
                  (ground (arith, m, new, flag, wait, hold)) tested in
              absurd (ground (arith, sym miss ∙ found))
        ]
      ]

  ahead_of_sweep :
      (fuel : ℕ) (s : Frontier)
      → Inv next push p seeds s
      → IsBare s
      → sweep next push fuel s ≡ some r
      → seek next push (ahead next q) fuel s ≡ some (any q r)
  unfolding sweep seek
  ahead_of_sweep zero s h bare e = elim (List-cases s.queue) [
    | inl k ↦
        let same : s.reached ≡ r = some_list_inj s.reached r (ground arith) in
        rw k (
          ap (λ b. some b)
            (sym (any-false q r (λ w m. bare w (ground (arith, ap (contains w) same, m))))))
    | inr (u, rest, k) ↦ absurd (ground arith)
  ]
  ahead_of_sweep (suc fuel) s h bare e = elim (List-cases s.queue) [
    | inl k ↦
        let same : s.reached ≡ r = some_list_inj s.reached r (ground arith) in
        rw k (
          ap (λ b. some b)
            (sym (any-false q r (λ w m. bare w (ground (arith, ap (contains w) same, m))))))
    | inr (u, rest, k) ↦
        let s' : Frontier = record { reached = s.reached; queue = rest } in
        elim (Bool-cases (contains u s.reached)) [
          | inl t ↦
              rw (k, t, seek)
                (ahead_of_sweep fuel s' (Inv-skip next push p seeds s u rest k t h)
                  (λ v m. bare v (ground (arith, ap (contains v) k, m))) (ground arith))
          | inr f ↦ elim (Bool-cases (ahead next q (u ∷ s.reached) u)) [
            | inl hit ↦
                let (v, edge, good) =
                  any_some (λ w. not (contains w (u ∷ s.reached)) && q w) (next u) hit in
                let here = h.waiting u (ground (arith, ap (contains u) k, ==_refl u)) in
                rw (k, f, hit, seek)
                  (ap (λ b. some b)
                    (sym
                      (any-true q r v (whole v (step u v here edge refl)) (ground (arith, good)))))
            | inr miss ↦
                rw (k, f, miss, seek)
                  (ahead_of_sweep fuel (visit next push s' u)
                    (Inv-visit next push p seeds s u rest k f h) (IsBare-visit s u rest k miss bare)
                    (ground arith))
          ]
        ]
  ]

-- With enough fuel the loop ends, and it finds a neighbour exactly if a node on a walk has the
-- property, if no seed has it.
pub ahead_iff :
    (next : ℕ → List ℕ) (push : List ℕ → ℕ → List ℕ) (p : IsPush push) (seeds : List ℕ)
    (q : ℕ → Bool) (nodes : List ℕ) (known : (v : ℕ) → contains v nodes ≡ false → next v ≡ [])
    (fuel : ℕ) (queue : List ℕ)
    → ((v : ℕ) → contains v queue ≡ contains v seeds)
    → edges next nodes [] + length queue ≤ fuel
    → ((v : ℕ) → contains v seeds ≡ true → q v ≡ false)
    → (b : Bool) × (seek next push (ahead next q) fuel (record { reached = []; queue = queue })
        ≡ some b)
      × ((b ≡ true) ↔ ((v : ℕ) × Walk seeds next (λ _. true) v × (q v ≡ true)))
ahead_iff next push p seeds q nodes known fuel queue same enough bare =
    let start : Frontier = record { reached = []; queue = queue } in
    let (r, ends) = sweep_ends next push p nodes known fuel start enough in
    let exact = sweep_correct next push p seeds fuel queue r same ends in
    let begun : Inv next push p seeds start = record {
      sound = λ w m. absurd (ground arith);
      waiting = λ w m. seed w (sym (same w) ∙ m);
      seeded = λ w m. ground (arith, same w);
      closed = λ u w m edge. absurd (ground arith);
    } in
    (
      any q r,
      ahead_of_sweep next push p seeds q r (λ v w. (exact v).1 w) fuel start begun
          (λ v m. bare v (sym (same v) ∙ m)) ends,
      (
        λ h. let (v, m, g) = any_some q r h in (v, (exact v).0 m, g),
        λ (v, w, g). any-true q r v ((exact v).1 w) g,
      ),
    )
