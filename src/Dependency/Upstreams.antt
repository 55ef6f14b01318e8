-- ===== src/Dependency/Upstreams.antt =====
-- When the upstream check says yes, and what its chain is.
use unoc_network_simulator.Prelude.{
  ℕ, ◌≡◌, refl, ap, sym, ◌∙◌, subst, ◌↔◌, Bool, true, false, ◌&&◌, Option, none, some, List, [],
  ◌∷◌, arith, ◌==◌, Bool-cases, Option-cases, inl, inr, is_some, either_way, ==_iff, ==_refl,
}
use unoc_network_simulator.Prelude.Sets.{contains, sorted, pick, contains-pick, contains-sorted}
use unoc_network_simulator.Prelude.Sorting.{insert_by, sort_by}
use unoc_network_simulator.Model.{is_router, Device}
use unoc_network_simulator.Model.Tables.{Tables, get_device}
use unoc_network_simulator.Search.Walks.{Walk}
use unoc_network_simulator.Pathfinding.Networkx.{Networkx, Laws}
use unoc_network_simulator.Dependency.Defs.{
  router_l3_chain, chain_before, best_of, logical_graph, is_router_node, candidate_of,
  candidates_of, among_routers, of_other, compute_upstream,
}

abbrev is_used : List (List ℕ) → Bool
is_used [] = false
is_used (x ∷ xs) = true

is_used-sort_by : (xs : List (List ℕ)) → is_used (sort_by chain_before xs) ≡ is_used xs
is_used-sort_by [] = refl
is_used-sort_by (x ∷ xs) = inserted (sort_by chain_before xs)
  where
    inserted : (ys : List (List ℕ)) → is_used (insert_by chain_before x ys) ≡ true
    inserted [] = refl
    inserted (y ∷ ys) =
        either_way (λ l. is_used l ≡ true) (chain_before y x) _ (x ∷ y ∷ ys) refl refl

best_of-ok : (i : ℕ) (ps : List (List ℕ)) → (best_of i ps).ok ≡ is_used ps
best_of-ok i [] = refl
best_of-ok i (p ∷ ps) = refl

module _ (nx : Networkx) (laws : Laws nx) (strip_if0 : ℕ → Option ℕ) (t : Tables) where
  -- A router of the logical graph that the device is connected to, and whose own trace succeeds.
  abbrev pub HasRouter : ℕ → Type 0
  HasRouter i =
      (n : ℕ) × (r : Device) × (get_device t.devices n ≡ some r)
      × ((elim (nx.type_of (logical_graph nx strip_if0 t) n) [
        | none ↦ false
        | some ty ↦ is_router ty
      ])
          ≡ true)
      × Walk (i ∷ []) (nx.neighbors (logical_graph nx strip_if0 t)) (λ _. true) n
      × ((router_l3_chain t r).ok ≡ true)

  abbrev g : nx.Graph
  g = logical_graph nx strip_if0 t

  used_of_member :
      (i n : ℕ) (ns : List ℕ)
      → contains n ns ≡ true
      → is_some (candidate_of nx strip_if0 t g i n) ≡ true
      → is_used (candidates_of nx strip_if0 t g i ns) ≡ true
  used_of_member i n [] m h = absurd (ground arith)
  used_of_member i n (k ∷ ns) m h = elim (Option-cases (candidate_of nx strip_if0 t g i k)) [
    | inr (p, e) ↦ rw e refl
    | inl e ↦ rw e (elim (Bool-cases (k == n)) [
      | inl same ↦
          let gone =
            subst (λ (x : ℕ). candidate_of nx strip_if0 t g i x ≡ none) ((==_iff k n).0 same) e in
          absurd (ground (arith, sym (ap is_some gone) ∙ h))
      | inr other ↦ used_of_member i n ns (ground (arith, m, other)) h
    ])
  ]

  keeps : (k n : ℕ) (ns : List ℕ) → contains n ns ≡ true → contains n (k ∷ ns) ≡ true
  keeps k n ns m = ground (arith, m)

  member_of_used :
      (i : ℕ) (ns : List ℕ)
      → is_used (candidates_of nx strip_if0 t g i ns) ≡ true
      → (n : ℕ) × (contains n ns ≡ true) × (is_some (candidate_of nx strip_if0 t g i n) ≡ true)
  member_of_used i [] h = absurd (ground arith)
  member_of_used i (k ∷ ns) h = elim (Option-cases (candidate_of nx strip_if0 t g i k)) [
    | inr (p, e) ↦ (k, ground (arith, ==_refl k), ap is_some e)
    | inl e ↦
        let h' : is_used (candidates_of nx strip_if0 t g i ns) ≡ true = rw e at h in
        let (n, m, c) = member_of_used i ns h' in (n, keeps k n ns m, c)
  ]

  among_routers-ok :
      (i : ℕ) (ns : List ℕ)
      → (among_routers nx strip_if0 t g i ns).ok ≡ is_used (candidates_of nx strip_if0 t g i ns)
  among_routers-ok i [] = refl
  among_routers-ok i (n ∷ ns) =
      best_of-ok i (sort_by chain_before (candidates_of nx strip_if0 t g i (n ∷ ns)))
      ∙ is_used-sort_by (candidates_of nx strip_if0 t g i (n ∷ ns))

  abbrev routers : ℕ → List ℕ
  routers i = pick (is_router_node nx strip_if0 g i) (nx.nodes g)

  candidate_there :
      (i n : ℕ)
      → is_some (candidate_of nx strip_if0 t g i n) ≡ true
      → (r : Device) × (get_device t.devices n ≡ some r) × ((router_l3_chain t r).ok ≡ true)
  unfolding candidate_of
  candidate_there i n h = elim (Option-cases (get_device t.devices n)) [
    | inl gone ↦ absurd (ground (arith, gone, h))
    | inr (r, e) ↦ elim (Bool-cases (router_l3_chain t r).ok) [
      | inl t ↦ (r, e, t)
      | inr f ↦ absurd (ground (arith, e, f, h))
    ]
  ]

  candidate_of-some :
      (i n : ℕ) (r : Device)
      → get_device t.devices n ≡ some r
      → (router_l3_chain t r).ok ≡ true
      → nx.has_path g i n ≡ true
      → is_some (candidate_of nx strip_if0 t g i n) ≡ true
  unfolding candidate_of
  candidate_of-some i n r e ok way =
      let (p, found) = laws.shortest_found g i n way in rw e (rw ok (rw found refl))

  -- For a device that is no router, the check says yes exactly if the device is in the logical graph
  -- and a router of the graph is connected to it whose row is there and whose own layer 3 trace
  -- succeeds, whatever graph library does what networkx documents.
  pub compute_upstream_iff :
      (d : Device)
      → is_router d.type ≡ false
      → ((compute_upstream nx strip_if0 t d).ok ≡ true)
        ↔ ((is_some (nx.type_of (logical_graph nx strip_if0 t) d.id) ≡ true) × HasRouter d.id)
  unfolding compute_upstream of_other
  compute_upstream_iff d other = rw other (elim (Bool-cases (is_some (nx.type_of g d.id))) [
    | inr out ↦
        rw out (λ h. absurd (ground arith), λ (here, rest). absurd (ground (arith, out, here)))
    | inl inside ↦
        let ns = sorted (routers d.id) in
        let ok = among_routers-ok d.id ns in
        let member : (n : ℕ)
            → contains n ns ≡ (contains n (nx.nodes g) && is_router_node nx strip_if0 g d.id n) =
          λ n.
            contains-sorted n (routers d.id)
            ∙ contains-pick (is_router_node nx strip_if0 g d.id) (nx.nodes g) n in
        rw inside (
          λ h.
              let (n, m, c) = member_of_used d.id ns (sym ok ∙ h) in
              let (r, row, good) = candidate_there d.id n c in
              (
                refl,
                (
                  n,
                  r,
                  row,
                  ground (arith, member n, m),
                  (laws.path_iff g d.id n inside).0 (ground (arith, member n, m)),
                  good,
                ),
              ),
          λ (here, (n, r, row, ty, walk, good)).
              let way = (laws.path_iff g d.id n inside).1 walk in
              ok
              ∙ used_of_member d.id n ns
                  (ground (arith, member n, laws.node g n (typed n ty), ty, way))
                  (candidate_of-some d.id n r row good way),
        )
  ])
    where
      typed :
          (n : ℕ)
          → (elim (nx.type_of g n) [ none ↦ false | some ty ↦ is_router ty ]) ≡ true
          → is_some (nx.type_of g n) ≡ true
      typed n h = elim (Option-cases (nx.type_of g n)) [
        | inl gone ↦ absurd (ground (arith, gone, h))
        | inr (ty, e) ↦ ap is_some e
      ]
