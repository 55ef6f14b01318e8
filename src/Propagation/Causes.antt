-- ===== src/Propagation/Causes.antt =====
-- The loop of `detect_causal_chain_python`, from the changed devices to its result.
use unoc_network_simulator.Prelude.{
  ℕ, zero, suc, ◌+◌, ◌≤◌, ◌≡◌, ap, true, false, some, List, [], ◌∷◌, arith, ◌==◌, length,
  Bool-cases, List-cases, inl, inr, ==_iff,
}
use unoc_network_simulator.Prelude.Sets.{contains}
use unoc_network_simulator.Model.Tables.{Tables, device_ids, contains-device_ids}
use unoc_network_simulator.Search.Sweep.{edges, edges-cons, edges-cons-le}
use unoc_network_simulator.Propagation.Chain.{
  path_of, Causes, done, follow, expand, trace_causes, start_paths, detect_causal_chain, dependents,
  propagates, origin,
}
use unoc_network_simulator.Propagation.Routes.{
  Routed, Inv, Inv-skip, Inv-follow, follow-visited, follow-length,
}

-- A device that has no row affects nothing.
dependents-nil :
    (t : Tables) (u : ℕ) → contains u (device_ids t.devices) ≡ false → dependents t u ≡ []
unfolding dependents propagates
dependents-nil t u h = ground (arith, contains-device_ids t.devices u)

expand-eq :
    (t : Tables) (s : Causes) (u : ℕ) (base : List ℕ)
    → path_of s.paths u ≡ some base
    → expand t s u ≡ some (follow base (record s { visited = u ∷ s.visited }) (dependents t u))
unfolding follow
expand-eq t s u base e = elim (List-cases (dependents t u)) [
  | inl k ↦ ground arith
  | inr (v, vs, k) ↦ ground arith
]

module _ (t : Tables) (changed : List ℕ) where
  abbrev work : Causes → ℕ
  work s = edges (dependents t) (device_ids t.devices) s.visited + length s.queue

  work-follow :
      (s : Causes) (u : ℕ) (rest : List ℕ) (base : List ℕ)
      → s.queue ≡ u ∷ rest
      → contains u s.visited ≡ false
      → suc
          (work (follow base (record s { visited = u ∷ s.visited; queue = rest }) (dependents t u)))
        ≤ work s
  work-follow s u rest base e new =
      let s' : Causes = record s { visited = u ∷ s.visited; queue = rest } in
      let nodes = device_ids t.devices in
      elim (Bool-cases (contains u nodes)) [
        | inl known ↦ rw (follow-visited t changed base s' (dependents t u)) (
            omega (
              arith,
              follow-length t changed base s' (dependents t u),
              edges-cons (dependents t) nodes u s.visited known new,
              ap length e,
            ))
        | inr unknown ↦ rw (follow-visited t changed base s' (dependents t u)) (
            omega (
              arith,
              follow-length t changed base s' (dependents t u),
              edges-cons-le (dependents t) nodes u s.visited,
              ap length (dependents-nil t u unknown),
              ap length e,
            ))
      ]

  trace_causes-done :
      (fuel : ℕ) (s : Causes)
      → Inv t changed s
      → work s ≤ fuel
      → (r : Causes) × (trace_causes t fuel s ≡ done r) × Inv t changed r × (r.queue ≡ [])
  unfolding trace_causes
  trace_causes-done zero s h w = (s, ground arith, h, ground arith)
  trace_causes-done (suc fuel) s h w = elim (List-cases s.queue) [
    | inl k ↦ (s, ground arith, h, k)
    | inr (u, rest, k) ↦ elim (Bool-cases (contains u s.visited)) [
      | inl old ↦
          let (r, e, inv, empty) =
            trace_causes-done fuel (record s { queue = rest }) (Inv-skip t changed s u rest k old h)
              (omega (arith, ap length k)) in
          (r, ground arith, inv, empty)
      | inr new ↦
          let (base, at_u, route) =
            h.queue_routed u (ground (arith, ap (contains u) k, ==_iff u u)) in
          let s' : Causes = record s { visited = u ∷ s.visited; queue = rest } in
          let (r, e, inv, empty) =
            trace_causes-done fuel (follow base s' (dependents t u))
              (Inv-follow t changed s u rest base k h route)
              (omega (arith, work-follow s u rest base k new)) in
          (r, ground (arith, expand-eq t (record s { queue = rest }) u base at_u), inv, empty)
    ]
  ]

  start-Routed :
      (vs : List ℕ) (v : ℕ)
      → ((w : ℕ) → contains w vs ≡ true → contains w changed ≡ true)
      → contains v vs ≡ true
      → Routed t changed (start_paths vs) v
  start-Routed [] v h m = absurd (ground arith)
  start-Routed (w ∷ ws) v h m = elim (Bool-cases (w == v)) [
    | inl same ↦ (w ∷ [], ground arith, origin v (w ∷ []) (h v m) (ground (arith, ==_iff w v)))
    | inr other ↦
        let (p, e, r) = start-Routed ws v (λ x k. h x (ground arith)) (ground arith) in
        (p, ground arith, r)
  ]

-- The detection ends without a KeyError. Its affected devices hold the changed ones and the
-- dependents of each that propagates, and each has a recorded path from a changed device.
pub detect_causal_chain-done :
    (t : Tables) (changed : List ℕ)
    → (r : Causes) × (detect_causal_chain t changed ≡ done r)
      × ((v : ℕ) → contains v changed ≡ true → contains v r.visited ≡ true)
      × ((u v : ℕ)
          → contains u r.visited ≡ true
          → contains v (dependents t u) ≡ true
          → contains v r.visited ≡ true)
      × ((v : ℕ) → contains v r.visited ≡ true → Routed t changed r.paths v)
unfolding detect_causal_chain
detect_causal_chain-done t changed =
    let start : Causes = record { visited = []; queue = changed; paths = start_paths changed } in
    let (r, e, inv, empty) =
      trace_causes-done t changed (edges (dependents t) (device_ids t.devices) [] + length changed)
        start
        (record {
          visited_routed = λ v m. absurd (ground arith);
          queue_routed = λ v m. start-Routed t changed changed v (λ w k. k) m;
          seeded = λ v m. ground arith;
          closed = λ u v m edge. absurd (ground arith);
        })
        (omega arith) in
    (
      r,
      e,
      λ v m. ground (arith, inv.seeded v m, ap (contains v) empty),
      λ u v m edge. ground (arith, inv.closed u v m edge, ap (contains v) empty),
      inv.visited_routed,
    )
