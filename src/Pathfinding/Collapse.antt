-- ===== src/Pathfinding/Collapse.antt =====
-- The optical path of the collapsed access edge.
use unoc_network_simulator.Prelude.{
  ℕ, ◌+◌, ◌≡◌, refl, ap, sym, ◌∙◌, true, false, ◌&&◌, Option, none, some, List, [], ◌∷◌, arith,
  ◌==◌, Bool-cases, inl, inr, is_some, then_get, either_way, ==_iff,
}
use unoc_network_simulator.Prelude.Sets.{contains}
use unoc_network_simulator.Prelude.Sorting.{insert_by, sort_by, Every, Every-sort_by}
use unoc_network_simulator.Search.Walks.{Walk, Route, here, go}
use unoc_network_simulator.Search.Sweep.{edges}
use unoc_network_simulator.Pathfinding.Networkx.{Networkx}
use unoc_network_simulator.Pathfinding.Shortest.{Entry, entry_before, first_target}
use unoc_network_simulator.Pathfinding.Heap.{IsFound, is_used, search_correct}
use unoc_network_simulator.Pathfinding.Defs.{
  DeviceRecord, LinkRecord, optical_nodes, type_in, optical_neighbors, is_olt_id, record_ends,
  sorted_neighbors, shortest_optical_path, last_of, long_enough, collapse_end,
}

is_used-insert_by : (x : Entry) (xs : List Entry) → is_used (insert_by entry_before x xs) ≡ true
is_used-insert_by x [] = refl
is_used-insert_by x (y ∷ ys) =
    either_way (λ l. is_used l ≡ true) (entry_before y x) _ (x ∷ y ∷ ys) refl refl

is_used-sort_by : (xs : List Entry) → is_used (sort_by entry_before xs) ≡ is_used xs
is_used-sort_by [] = refl
is_used-sort_by (x ∷ xs) = is_used-insert_by x (sort_by entry_before xs)

module _ (nx : Networkx) (ds : List DeviceRecord) (ls : List LinkRecord) where
  neighbors_none :
      (rows : List LinkRecord) (v : ℕ)
      → contains v (record_ends nx rows) ≡ false
      → optical_neighbors nx ds rows v ≡ []
  unfolding optical_neighbors
  neighbors_none [] v h = refl
  neighbors_none (l ∷ rows) v h =
      let a : (l.a_device_id == v) ≡ false = ground (arith, h) in
      let b : (l.b_device_id == v) ≡ false = ground (arith, h) in
      let rest = neighbors_none rows v (ground (arith, h)) in
      either_way (λ o. o ≡ [])
        (is_some (type_in nx (optical_nodes nx ds) l.a_device_id)
          && is_some (type_in nx (optical_nodes nx ds) l.b_device_id))
        _ _ (rw (a, b) rest) rest

  bounded : (v : ℕ) → contains v (record_ends nx ls) ≡ false → sorted_neighbors nx ds ls v ≡ []
  bounded v h = rw (neighbors_none ls v h) refl

  -- Another device on a walk from the source is an OLT.
  abbrev pub SeesOlt : ℕ → Type 0
  SeesOlt src =
      (v : ℕ) × Walk (src ∷ []) (sorted_neighbors nx ds ls) (λ _. true) v
      × ((v == src) ≡ false)
      × (is_olt_id nx ds v ≡ true)

  -- A path leads to an OLT along links; if there is none, no OLT can be come to.
  abbrev pub IsOpticalPath : ℕ → Option (List ℕ) → Type 0
  IsOpticalPath src none = SeesOlt src → ⊥
  IsOpticalPath src (some p) =
      (o : ℕ) × Route (sorted_neighbors nx ds ls) src p o × (is_olt_id nx ds o ≡ true)

  of_targets :
      (src : ℕ) (rows : List Entry)
      → Every (IsFound src (sorted_neighbors nx ds ls) (is_olt_id nx ds)) rows
      → (SeesOlt src → is_used rows ≡ true)
      → IsOpticalPath src (first_target rows)
  of_targets src [] h k = λ sees. absurd (ground (arith, k sees))
  of_targets src (e ∷ es) ((route, good), h) k = (e.node, route, good)

  -- `_shortest_optical_path` answers with a path to an OLT along links between optical devices, or
  -- with nothing, and then no other device that can be come to along them is an OLT.
  pub shortest_optical_path_correct :
      (src : ℕ) → IsOpticalPath src (shortest_optical_path nx ds ls src)
  unfolding shortest_optical_path
  shortest_optical_path_correct src =
      let adj = sorted_neighbors nx ds ls in
      let (t, ends, found, whole) =
        search_correct src adj (is_olt_id nx ds) (record_ends nx ls) bounded
          (edges adj (record_ends nx ls) [] + 1) (omega arith) in
      rw ends (
        of_targets src (sort_by entry_before t.targets)
          (Every-sort_by (IsFound src adj (is_olt_id nx ds)) entry_before t.targets found)
          (λ (v, walk, away, good). is_used-sort_by t.targets ∙ whole v walk away good))

  last_of-Route :
      (next : ℕ → List ℕ) (a b : ℕ) (p : List ℕ) → Route next a p b → last_of nx p ≡ some b
  last_of-Route next a _ _ (here _) = refl
  last_of-Route next a b _ (go _ c _ rest edge later) = rw (last_of-Route next c b rest later) refl

  long-Route :
      (next : ℕ → List ℕ) (a b : ℕ) (p : List ℕ)
      → Route next a p b
      → (a == b) ≡ false
      → long_enough nx p ≡ some b
  long-Route next a _ _ (here _) away = absurd (ground (arith, away))
  long-Route next a _ _ (go _ c _ _ edge (here _)) away = refl
  long-Route next a b _ (go _ c _ _ edge (go _ d _ rest next_edge later)) away =
      rw (last_of-Route next d b rest later) refl

  -- An ONT that sees another device that is an OLT has an end of its collapse, an OLT.
  pub collapse_end-SeesOlt :
      (src : ℕ)
      → is_olt_id nx ds src ≡ false
      → SeesOlt src
      → (o : ℕ) × (collapse_end nx ds ls src ≡ some o) × (is_olt_id nx ds o ≡ true)
  collapse_end-SeesOlt src bare sees =
      at_path (shortest_optical_path nx ds ls src) (shortest_optical_path_correct src)
    where
      at_path :
          (r : Option (List ℕ))
          → IsOpticalPath src r
          → (o : ℕ) × (then_get r (long_enough nx) ≡ some o) × (is_olt_id nx ds o ≡ true)
      at_path none h = absurd (h sees)
      at_path (some p) (o, route, good) =
          let apart : (src == o) ≡ false = elim (Bool-cases (src == o)) [
            | inr f ↦ f
            | inl t ↦
                absurd
                  (ground (arith, sym bare ∙ (ap (is_olt_id nx ds) ((==_iff src o).0 t) ∙ good)))
          ] in
          (o, long-Route (sorted_neighbors nx ds ls) src o p route apart, good)
