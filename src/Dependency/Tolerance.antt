-- ===== src/Dependency/Tolerance.antt =====
-- `dependency_ok` where there is no backbone gateway.
use unoc_network_simulator.Prelude.{
  ℕ, ◌≡◌, refl, ap, sym, ◌∙◌, ◌↔◌, Bool, true, false, ◌&&◌, ◌||◌, Option, none, some, List, [], ◌∷◌,
  arith, Bool-cases, Option-cases, inl, inr, is_some, any, ==_refl,
}
use unoc_network_simulator.Prelude.Sets.{contains, sorted, pick, contains-pick, contains-sorted}
use unoc_network_simulator.Prelude.Sorting.{sort_by}
use unoc_network_simulator.Model.{DeviceType, is_router, is_ont, Device}
use unoc_network_simulator.Model.Tables.{Tables}
use unoc_network_simulator.Search.Walks.{Walk}
use unoc_network_simulator.Pathfinding.Networkx.{Networkx, Laws}
use unoc_network_simulator.Dependency.Defs.{
  chain_before, best_of, logical_graph, is_router_node, candidates_of, among_routers, of_other,
  compute_upstream,
}
use unoc_network_simulator.Dependency.Access.{
  is_backbone, is_cpe, has_any, is_tolerant, only_no_l3, tolerates, dependency_ok,
}

module _ (nx : Networkx) (laws : Laws nx) (strip_if0 : ℕ → Option ℕ) (t : Tables) where
  abbrev g : nx.Graph
  g = logical_graph nx strip_if0 t

  abbrev is_router_type : Option DeviceType → Bool
  is_router_type none = false
  is_router_type (some ty) = is_router ty

  -- The device is in the logical graph, and connected to a router there.
  abbrev pub HasRouterNode : ℕ → Type 0
  HasRouterNode i =
      (is_some (nx.type_of (logical_graph nx strip_if0 t) i) ≡ true)
      × ((n : ℕ) × (is_router_type (nx.type_of (logical_graph nx strip_if0 t) n) ≡ true)
          × Walk (i ∷ []) (nx.neighbors (logical_graph nx strip_if0 t)) (λ _. true) n)

  best_of_either :
      (i : ℕ) (ps : List (List ℕ)) → ((best_of i ps).ok || only_no_l3 (best_of i ps).reasons) ≡ true
  best_of_either i [] = refl
  best_of_either i (p ∷ ps) = refl

  among_either :
      (i : ℕ) (ns : List ℕ)
      → ((among_routers nx strip_if0 t g i ns).ok
          || only_no_l3 (among_routers nx strip_if0 t g i ns).reasons)
        ≡ has_any ns
  among_either i [] = refl
  among_either i (n ∷ ns) =
      best_of_either i (sort_by chain_before (candidates_of nx strip_if0 t g i (n ∷ ns)))

  has_any-true : (n : ℕ) (ns : List ℕ) → contains n ns ≡ true → has_any ns ≡ true
  has_any-true n [] h = absurd (ground arith)
  has_any-true n (k ∷ ns) h = refl

  any_member : (ns : List ℕ) → has_any ns ≡ true → (n : ℕ) × (contains n ns ≡ true)
  any_member [] h = absurd (ground arith)
  any_member (n ∷ ns) h = (n, ground (arith, ==_refl n))

  router_there : (n : ℕ) → is_router_type (nx.type_of g n) ≡ true → is_some (nx.type_of g n) ≡ true
  router_there n h = elim (Option-cases (nx.type_of g n)) [
    | inl gone ↦ absurd (ground (arith, gone, h))
    | inr (ty, e) ↦ ap is_some e
  ]

  same_test :
      (i n : ℕ)
      → is_router_node nx strip_if0 g i n ≡ (is_router_type (nx.type_of g n) && nx.has_path g i n)
  same_test i n = elim (Option-cases (nx.type_of g n)) [
    | inl gone ↦ rw gone refl
    | inr (ty, e) ↦ rw e refl
  ]

  -- The check says yes, or only misses layer 3 at the routers, exactly if there is a router node.
  of_other_either :
      (d : Device)
      → ((of_other nx strip_if0 t d).ok || only_no_l3 (of_other nx strip_if0 t d).reasons) ≡ true
        ↔ HasRouterNode d.id
  unfolding of_other
  of_other_either d = elim (Bool-cases (is_some (nx.type_of g d.id))) [
    | inr out ↦
        rw out (λ h. absurd (ground arith), λ (here, rest). absurd (ground (arith, out, here)))
    | inl inside ↦
        let routers = pick (is_router_node nx strip_if0 g d.id) (nx.nodes g) in
        let either = among_either d.id (sorted routers) in
        let member : (n : ℕ)
            → contains n (sorted routers) ≡ (
                contains n (nx.nodes g)
                && (is_router_type (nx.type_of g n) && nx.has_path g d.id n)) =
          λ n.
            contains-sorted n routers
            ∙ (contains-pick (is_router_node nx strip_if0 g d.id) (nx.nodes g) n
                ∙ ap (λ b. contains n (nx.nodes g) && b) (same_test d.id n)) in
        rw inside (
          λ h.
              let (n, m) = any_member (sorted routers) (sym either ∙ h) in
              let way : nx.has_path g d.id n ≡ true = ground (arith, member n, m) in
              let ty : is_router_type (nx.type_of g n) ≡ true = ground (arith, member n, m) in
              (refl, (n, ty, (laws.path_iff g d.id n inside).0 way)),
          λ (here, (n, ty, walk)).
              let way = (laws.path_iff g d.id n inside).1 walk in
              let there = laws.node g n (router_there n ty) in
              either ∙ has_any-true n (sorted routers) (ground (arith, member n, there, ty, way)),
        )
  ]

  -- Where there is no backbone gateway, the dependencies of an OLT or an AON switch are satisfied
  -- exactly if the device is in the logical graph and connected to a router there; whether the router
  -- has layer 3 reachability does not matter.
  pub dependency_ok_iff :
      (d : Device)
      → is_router d.type ≡ false
      → is_ont d.type ≡ false
      → is_cpe d.type ≡ false
      → is_tolerant d.type ≡ true
      → any (λ r. is_backbone r.type) t.devices ≡ false
      → (dependency_ok nx strip_if0 t d ≡ true) ↔ HasRouterNode d.id
  unfolding dependency_ok compute_upstream
  dependency_ok_iff d not_router not_ont not_cpe tolerant no_backbone =
      let iff = of_other_either d in
      let res = of_other nx strip_if0 t d in
      rw (not_router, not_ont, not_cpe)
        (
          λ h. iff.0 (elim (Bool-cases res.ok) [
            | inl yes_it_is ↦ ground (arith, yes_it_is)
            | inr not_it ↦
                let policy : tolerates nx strip_if0 t d res ≡ true = rw not_it at h in
                ground (arith, policy, no_backbone)
          ]),
          λ parent. elim (Bool-cases res.ok) [
            | inl yes_it_is ↦ rw yes_it_is refl
            | inr not_it ↦ rw not_it (ground (arith, not_it, iff.1 parent, no_backbone, tolerant))
          ],
        )
