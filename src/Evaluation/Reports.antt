-- ===== src/Evaluation/Reports.antt =====
-- The baseline that `recompute_dirty` builds, and the transitions that it leads to.
use unoc_network_simulator.Prelude.{
  ℕ, ◌≡◌, refl, sym, ap, ◌∙◌, subst, Bool, true, Option, none, some, List, [], ◌∷◌, arith,
  Bool-cases, inl, inr, ◌⊎◌, ==_iff, ◌==◌,
}
use unoc_network_simulator.Model.{
  Device, Status, DeviceRole, active, passive, always_online, derive_role,
}
use unoc_network_simulator.Model.Tables.{Tables, get_device, id-get_device}
use unoc_network_simulator.Evaluation.Defs.{
  Resolvers, Cache, cached, resolved, evaluate_device_status,
}
use unoc_network_simulator.Evaluation.Verdict.{evaluate_device_status-cached}
use unoc_network_simulator.Evaluation.Recompute.{status_before, transitions}
use unoc_network_simulator.Evaluation.Transitions.{Agrees, transitions-none}
use unoc_network_simulator.Evaluation.Dirty.{
  rows_of, cons_some, or_false, upstream_cache, cache_row, evaluated, baseline_of,
}

-- Every row given is the row of its key.
abbrev pub AllRows : List Device → List Device → Type 0
AllRows rows [] = Unit {0}
AllRows rows (d ∷ ds) = (get_device rows d.id ≡ some d) × AllRows rows ds

cons_some-AllRows :
    (rows : List Device) (i : ℕ) (o : Option Device) (ds : List Device)
    → get_device rows i ≡ o
    → AllRows rows ds
    → AllRows rows (cons_some o ds)
cons_some-AllRows rows i none ds e h = h
cons_some-AllRows rows i (some d) ds e h =
    (subst (λ (j : ℕ). get_device rows j ≡ some d) (sym (id-get_device rows i d e)) e, h)

rows_of-AllRows : (rows : List Device) (is : List ℕ) → AllRows rows (rows_of rows is)
rows_of-AllRows rows [] = tt
rows_of-AllRows rows (i ∷ is) =
    cons_some-AllRows rows i (get_device rows i) (rows_of rows is) refl (rows_of-AllRows rows is)

some_status_inj : (x y : Status) → some x ≡ some y → x ≡ y
some_status_inj x y h = ap (λ (o : Option Status). elim o [ none ↦ x | some z ↦ z ]) h

some_device_inj : (x y : Device) → some x ≡ some y → x ≡ y
some_device_inj x y h = ap (λ (o : Option Device). elim o [ none ↦ x | some z ↦ z ]) h

same_row :
    (rows : List Device) (x d : Device)
    → get_device rows x.id ≡ some x
    → get_device rows d.id ≡ some d
    → (x.id == d.id) ≡ true
    → x ≡ d
same_row rows x d cur row same =
    let at_d = subst (λ (j : ℕ). get_device rows j ≡ some x) ((==_iff x.id d.id).0 same) cur in
    some_device_inj x d (sym at_d ∙ row)

-- An entry of the baseline is the evaluation of the row of its key.
evaluated_row :
    (res : Resolvers) (c : Cache) (rows ds : List Device) (d : Device) (s : Status)
    → AllRows rows ds
    → get_device rows d.id ≡ some d
    → status_before (evaluated res c ds) d.id ≡ some s
    → s ≡ evaluate_device_status res (some c) d
unfolding evaluated
evaluated_row res c rows [] d s h row e = ground arith
evaluated_row res c rows (x ∷ xs) d s (cur, h) row e = elim (Bool-cases (x.id == d.id)) [
  | inr other ↦ evaluated_row res c rows xs d s h row (ground arith)
  | inl same ↦
      let first : evaluate_device_status res (some c) x ≡ s =
        some_status_inj _ s (ground (arith, same)) in
      sym first ∙ ap (evaluate_device_status res (some c)) (same_row rows x d cur row same)
]

cached-cache_row :
    (res : Resolvers) (x : Device) (role : DeviceRole) (c : Cache) (i : ℕ) (b : Bool)
    → cached (cache_row res x role c) i ≡ some b
    → ((role ≡ active) × ((x.id == i) ≡ true) × (or_false (res.has_upstream_l3_or_anchor x) ≡ b))
      ⊎ (cached c i ≡ some b)
cached-cache_row res x passive c i b h = inr h
cached-cache_row res x always_online c i b h = inr h
cached-cache_row res x active c i b h = elim (Bool-cases (x.id == i)) [
  | inl t ↦ inl (refl, t, ground arith)
  | inr f ↦ inr (ground arith)
]

cached_row :
    (res : Resolvers) (rows ds : List Device) (d : Device) (b : Bool)
    → AllRows rows ds
    → get_device rows d.id ≡ some d
    → cached (upstream_cache res ds) d.id ≡ some b
    → (derive_role d.type ≡ active) × (b ≡ or_false (res.has_upstream_l3_or_anchor d))
unfolding upstream_cache
cached_row res rows [] d b h row e = ground arith
cached_row res rows (x ∷ xs) d b (cur, h) row e =
    elim (cached-cache_row res x (derive_role x.type) (upstream_cache res xs) d.id b e) [
      | inr later ↦ cached_row res rows xs d b h row later
      | inl (role, same, found) ↦
          let xd = same_row rows x d cur row same in
          (
            ap (λ (y : Device). derive_role y.type) (sym xd) ∙ role,
            sym found ∙ ap (λ y. or_false (res.has_upstream_l3_or_anchor y)) xd,
          )
    ]

-- The two resolvers answer alike for active devices, and raise no exception.
abbrev pub Agree : Resolvers → Type 0
Agree res =
    (d : Device)
    → derive_role d.type ≡ active
    → resolved res d ≡ some (or_false (res.has_upstream_l3_or_anchor d))

module _ (res : Resolvers) (agree : Agree res) (t : Tables) where
  abbrev rows : List Device
  rows = t.devices

  Agrees-of_rows :
      (all ds : List Device)
      → AllRows rows all
      → AllRows rows ds
      → Agrees res rows (evaluated res (upstream_cache res all) all) ds
  Agrees-of_rows all [] h k = tt
  Agrees-of_rows all (d ∷ ds) h (cur, k) =
      let c = upstream_cache res all in
      let same = evaluate_device_status-cached res d c (λ b e.
        let (role, found) = cached_row res rows all d b h cur e in
        agree d role ∙ ap (λ x. some x) (sym found)) in
      (cur, λ s e. evaluated_row res c rows all d s h cur e ∙ same, Agrees-of_rows all ds h k)

  -- Where the resolvers agree, a recompute of any rows with the baseline that `recompute_dirty` builds
  -- of them reports no transition.
  pub transitions_of_own_baseline :
      (is : List ℕ) → transitions res t.devices (baseline_of res t is) (rows_of t.devices is) ≡ []
  unfolding baseline_of
  transitions_of_own_baseline is =
      let all = rows_of-AllRows t.devices is in
      transitions-none res t.devices (baseline_of res t is) (rows_of t.devices is)
        (Agrees-of_rows (rows_of t.devices is) (rows_of t.devices is) all all)
