-- ===== src/Forwarding/Egress.antt =====
-- The interface by which `_step` of forwarding_service.py lets a router forward a flow.
use unoc_network_simulator.Prelude.{
  not, ℕ, zero, suc, ◌≡◌, refl, ap, inl, inr, Bool, true, Option, none, some, List, [], ◌∷◌, arith,
  ◌==◌, if◌then◌else◌, Bool-cases, Option-cases, subst, select, then_get, is_some,
}
use unoc_network_simulator.Prelude.Sets.{contains}
use unoc_network_simulator.Model.{Device, Interface, Route, Neighbor}
use unoc_network_simulator.Model.Tables.{Tables, get_interface, interfaces_of}
use unoc_network_simulator.Forwarding.Decision.{
  Destination, missing, malformed, address, Decision, forward_by, invalid_packet, no_device_vrf,
  no_route_found, next_hop_unresolved, egress_interface_unknown, invalid_route, match_length,
  best_match, Best, improve, better, route_of, resolve_next_hop_mac, get_forwarding_decision,
}
use unoc_network_simulator.Forwarding.Flow.{
  Flow, Verdict, drop, forward, MetaAction, l3_route, by_decision, by_local, by_local_route,
  fall_back, ids, local_routes, or_empty, owns, router_step, routes_of_vrf,
}

-- The interface is a row of the table that names the device.
abbrev pub IsOwn : Tables → Device → ℕ → Type 0
IsOwn t dev i = contains i (ids (interfaces_of t.interfaces dev.id)) ≡ true

abbrev keeps : (Route → Bool) → Option Route → Bool
keeps p none = true
keeps p (some r) = p r

-- What holds of the best so far and of every route of the list holds of the best.
improve_keeps :
    (p : Route → Bool) (plen : Option ℕ) (r : Route) (b : Best)
    → p r ≡ true
    → keeps p (route_of b) ≡ true
    → keeps p (route_of (improve plen r b)) ≡ true
improve_keeps p none r b h k = k
improve_keeps p (some plen) r b h k = elim (Bool-cases (better plen b)) [
  | inl t ↦ rw t h
  | inr f ↦ rw f k
]

best_match_keeps :
    (p : Route → Bool) (target : ℕ) (rs : List Route) (b : Best)
    → keeps p (route_of b) ≡ true
    → keeps p (route_of (best_match target (select p rs) b)) ≡ true
unfolding best_match
best_match_keeps p target [] b h = h
best_match_keeps p target (x ∷ xs) b h = elim (Bool-cases (p x)) [
  | inl t ↦ rw t (
      best_match_keeps p target xs (improve (match_length target x) x b)
        (improve_keeps p (match_length target x) x b t h))
  | inr f ↦ rw f (best_match_keeps p target xs b h)
]

contains-ids_of_own :
    (rows : List Interface) (i d : ℕ)
    → is_some (then_get (get_interface rows i) (λ r. if r.device_id == d then some r else none))
      ≡ true
    → contains i (ids (interfaces_of rows d)) ≡ true
contains-ids_of_own [] i d h = ground arith
contains-ids_of_own (x ∷ xs) i d h = elim (Bool-cases (x.id == i)) [
  | inl t ↦ elim (Bool-cases (x.device_id == d)) [
    | inl own ↦ ground arith
    | inr foreign ↦ absurd (ground arith)
  ]
  | inr f ↦ ground (arith, contains-ids_of_own xs i d)
]

forward_inj : {i j : ℕ} {b c : Bool} {m n : MetaAction} → forward i b m ≡ forward j c n → i ≡ j
forward_inj h = ap (λ (v : Verdict). elim v [ drop r a ↦ 0 | forward k b m ↦ k ]) h

by_local-own :
    (rows : List Neighbor) (o nh : Option ℕ) (i : ℕ) (here : Bool) (m : MetaAction)
    → by_local rows o nh ≡ forward i here m
    → or_empty o ≡ i
by_local-own rows none nh i here m h = ground arith
by_local-own rows (some j) none i here m h = ground arith
by_local-own rows (some j) (some ip) i here m h =
    elim (Option-cases (resolve_next_hop_mac rows j ip)) [
      | inl gone ↦ ground arith
      | inr (mac, e) ↦ ground arith
    ]

module _ (t : Tables) (dev : Device) where
  abbrev own_route : Route → Bool
  own_route r = contains (or_empty r.interface_id) (ids (interfaces_of t.interfaces dev.id))

  fall_back-IsOwn :
      (dst : Destination) (i : ℕ) (here : Bool) (m : MetaAction)
      → fall_back t dev dst ≡ forward i here m
      → IsOwn t dev i
  unfolding fall_back local_routes
  fall_back-IsOwn missing i here m h = ground arith
  fall_back-IsOwn malformed i here m h = ground arith
  fall_back-IsOwn (address a) i here m h =
      let rs = routes_of_vrf t.routes dev.vrf_id in
      let kept = best_match_keeps own_route a rs none refl in
      elim (Option-cases (route_of (best_match a (select own_route rs) none))) [
        | inl gone ↦ ground arith
        | inr (r, e) ↦
            let own : own_route r ≡ true =
              subst (λ (o : Option Route). keeps own_route o ≡ true) e kept in
            let at_i : or_empty r.interface_id ≡ i =
              by_local-own t.neighbors r.interface_id r.next_hop i here m (
                subst (λ (o : Option Route). by_local_route t.neighbors o ≡ forward i here m) e
                  h) in
            subst (λ (j : ℕ). IsOwn t dev j) at_i own
      ]

  by_decision-IsOwn :
      (dst : Destination) (d : Decision) (i : ℕ) (here : Bool) (m : MetaAction)
      → by_decision t dev dst d ≡ forward i here m
      → IsOwn t dev i
  by_decision-IsOwn dst (forward_by zero mac) i here m h = ground arith
  by_decision-IsOwn dst (forward_by (suc j) mac) i here m h =
      elim (Bool-cases (owns t dev (suc j))) [
        | inl own ↦
            let same : suc j ≡ i =
              forward_inj {b = not (is_some mac)} {c = here} {m = l3_route} {n = m}
                (ground arith) in
            subst (λ (k : ℕ). IsOwn t dev k) same
              (contains-ids_of_own t.interfaces (suc j) dev.id own)
        | inr foreign ↦ fall_back-IsOwn dst i here m (ground arith)
      ]
  by_decision-IsOwn dst invalid_packet i here m h = ground arith
  by_decision-IsOwn dst no_device_vrf i here m h = ground arith
  by_decision-IsOwn dst no_route_found i here m h = ground arith
  by_decision-IsOwn dst next_hop_unresolved i here m h = ground arith
  by_decision-IsOwn dst egress_interface_unknown i here m h = ground arith
  by_decision-IsOwn dst invalid_route i here m h = ground arith

-- A router that forwards a flow does so by an interface whose row names that router, also where the
-- routes of its VRF lead to interfaces of other devices.
pub router_step-IsOwn :
    (t : Tables) (dev : Device) (f : Flow) (i : ℕ) (here : Bool) (m : MetaAction)
    → router_step t dev f ≡ forward i here m
    → IsOwn t dev i
unfolding router_step
router_step-IsOwn t dev f i here m h =
    by_decision-IsOwn t dev f.destination_ip
      (get_forwarding_decision t f.current_device_id f.destination_ip) i here m h
