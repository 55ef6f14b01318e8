-- ===== src/Upstream/Hops.antt =====
-- The device that one step of `trace_l3_path_to_anchor` goes on to.
use unoc_network_simulator.Prelude.{
  ℕ, ◌≡◌, sym, subst, ◌≢◌, true, false, Option, none, some, List, [], ◌∷◌, ◌++◌, arith, Bool-cases,
  Option-cases, List-cases, inl, inr,
}
use unoc_network_simulator.Model.{Device, Link, Interface, is_router, forced_down}
use unoc_network_simulator.Model.Tables.{
  Tables, get_device, get_interface, id-get_device, peer_interface_id, interfaces_of,
}
use unoc_network_simulator.Upstream.Defs.{
  arrived, go, enter, peer_device, peers_on, links_at, upstream_candidates, preferred, access_hop,
  router_hop, resolve_peer_via_if, choose_link, best, hop_at, is_gateway, is_l3_router, Candidate,
  Collected, early, all, forward, forward_all, default_routes, collect_routes,
}

-- The device is the row of its key.
abbrev pub HasRow : Tables → Device → Type 0
HasRow t d = get_device t.devices d.id ≡ some d

abbrev AllRows : Tables → List Device → Type 0
AllRows t [] = Unit
AllRows t (d ∷ ds) = HasRow t d × AllRows t ds

module _ (t : Tables) where
  HasRow-get_device : (i : ℕ) (d : Device) → get_device t.devices i ≡ some d → HasRow t d
  HasRow-get_device i d e =
      subst (λ (k : ℕ). get_device t.devices k ≡ some d) (sym (id-get_device t.devices i d e)) e

  HasRow-peer_device : (i : ℕ) (ln : Link) (d : Device) → peer_device t i ln ≡ some d → HasRow t d
  HasRow-peer_device i ln d e =
      elim (Option-cases (get_interface t.interfaces (peer_interface_id ln i))) [
        | inl gone ↦ absurd (ground arith)
        | inr (p, there) ↦ HasRow-get_device p.device_id d (ground arith)
      ]

  AllRows-append : (xs ys : List Device) → AllRows t xs → AllRows t ys → AllRows t (xs ++ ys)
  AllRows-append [] ys h k = k
  AllRows-append (x ∷ xs) ys h k = (h.0, AllRows-append xs ys h.1 k)

  AllRows-peers_on : (i : ℕ) (lns : List Link) → AllRows t (peers_on t i lns)
  unfolding peers_on
  AllRows-peers_on i [] = tt
  AllRows-peers_on i (ln ∷ lns) = elim (Option-cases (peer_device t i ln)) [
    | inl e ↦ rw (e, peers_on) (AllRows-peers_on i lns)
    | inr (d, e) ↦ rw (e, peers_on) (HasRow-peer_device i ln d e, AllRows-peers_on i lns)
  ]

  AllRows-upstream_candidates : (is : List Interface) → AllRows t (upstream_candidates t is)
  unfolding upstream_candidates
  AllRows-upstream_candidates [] = tt
  AllRows-upstream_candidates (i ∷ is) =
      AllRows-append (peers_on t i.id (links_at t i.id)) (upstream_candidates t is)
        (AllRows-peers_on i.id (links_at t i.id)) (AllRows-upstream_candidates is)

  HasRow-preferred :
      (ds : List Device) (d : Device) → AllRows t ds → preferred ds ≡ some d → HasRow t d
  HasRow-preferred [] d h e = ground arith
  HasRow-preferred (x ∷ xs) d h e = elim (Option-cases (preferred xs)) [
    | inl none_left ↦ subst (HasRow t) (ground arith) h.0
    | inr (y, there) ↦ elim (Bool-cases (is_router x.type)) [
      | inl r ↦ subst (HasRow t) (ground arith) h.0
      | inr n ↦ elim (Bool-cases (is_router y.type)) [
        | inl r ↦ subst (HasRow t) (ground arith) (HasRow-preferred xs y h.1 there)
        | inr m ↦ subst (HasRow t) (ground arith) h.0
      ]
    ]
  ]

  HasRow-resolve_peer : (i ip : ℕ) (d : Device) → resolve_peer_via_if t i ip ≡ some d → HasRow t d
  unfolding resolve_peer_via_if
  HasRow-resolve_peer i ip d e = elim (Option-cases (choose_link t i ip)) [
    | inl gone ↦ absurd (ground arith)
    | inr (ln, there) ↦ HasRow-peer_device i ln d (ground arith)
  ]

  -- A peer that is entered is a row, and it is not forced down.
  abbrev pub Enters : Device → Type 0
  Enters p = HasRow t p × (forced_down p.admin_override_status ≡ false)

  Enters-enter : (d p : Device) → HasRow t d → enter d ≡ go p → Enters p
  Enters-enter d p h e = (subst (HasRow t) (ground arith) h, ground arith)

  Enters-access_hop : (dev p : Device) → access_hop t dev ≡ go p → Enters p
  unfolding access_hop
  Enters-access_hop dev p e = elim (List-cases (interfaces_of t.interfaces dev.id)) [
    | inl k ↦ absurd (ground arith)
    | inr (i, is, k) ↦ elim (Option-cases (preferred (upstream_candidates t (i ∷ is)))) [
      | inl gone ↦ absurd (ground arith)
      | inr (d, there) ↦
          Enters-enter d p
            (HasRow-preferred (upstream_candidates t (i ∷ is)) d
              (AllRows-upstream_candidates (i ∷ is)) there)
            (ground arith)
    ]
  ]

  Enters-forward : (c : Option Candidate) (p : Device) → forward t c ≡ go p → Enters p
  Enters-forward none p e = absurd (ground arith)
  Enters-forward (some c) p e = elim (Option-cases (get_interface t.interfaces c.egress)) [
    | inl gone ↦ absurd (ground arith)
    | inr (eg, there) ↦ elim (Option-cases (resolve_peer_via_if t eg.id c.next_hop)) [
      | inl lost ↦ absurd (ground arith)
      | inr (d, found) ↦
          Enters-enter d p (HasRow-resolve_peer eg.id c.next_hop d found) (ground arith)
    ]
  ]

  Enters-collected : (c : Collected) (p : Device) → forward_all t c ≡ go p → Enters p
  Enters-collected (early why) p e = absurd (ground arith)
  Enters-collected (all cs) p e = Enters-forward (best cs) p e

  Enters-router_hop : (dev p : Device) → router_hop t dev ≡ go p → Enters p
  unfolding router_hop
  Enters-router_hop dev p e = elim (List-cases (default_routes t dev)) [
    | inl k ↦ absurd (ground arith)
    | inr (r, rs, k) ↦ Enters-collected (collect_routes t dev (r ∷ rs)) p (ground arith)
  ]

  pub Enters-hop_at : (dev p : Device) → hop_at t dev ≡ go p → Enters p
  unfolding hop_at
  Enters-hop_at dev p e = elim (Bool-cases (is_l3_router dev.type)) [
    | inl r ↦ Enters-router_hop dev p (ground arith)
    | inr n ↦ Enters-access_hop dev p (ground arith)
  ]

  access_hop-ne-arrived : (dev : Device) → access_hop t dev ≢ arrived
  unfolding access_hop
  access_hop-ne-arrived dev = ground arith

  router_hop-ne-arrived : (dev : Device) → router_hop t dev ≢ arrived
  unfolding router_hop
  router_hop-ne-arrived dev = ground arith

  -- Where the trace arrives, there is a gateway that is not forced down.
  pub gateway_of_arrived :
      (dev : Device)
      → hop_at t dev ≡ arrived
      → (is_gateway dev.type ≡ true) × (forced_down dev.admin_override_status ≡ false)
  unfolding hop_at
  gateway_of_arrived dev e = (
    ground (arith, access_hop-ne-arrived dev, router_hop-ne-arrived dev),
    ground (arith, access_hop-ne-arrived dev, router_hop-ne-arrived dev),
  )
