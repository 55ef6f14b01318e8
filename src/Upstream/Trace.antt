-- ===== src/Upstream/Trace.antt =====
-- The walk of `trace_l3_path_to_anchor` and the chain that it returns.
use unoc_network_simulator.Prelude.{
  ℕ, zero, suc, ◌⊎◌, ◌<◌, ◌≡◌, refl, subst, Bool, true, false, ◌&&◌, ◌||◌, not, none, some, List,
  [], ◌∷◌, ◌++◌, arith, ◌==◌, length, Bool-cases, inl, inr, is_some, ==_iff,
}
use unoc_network_simulator.Prelude.Sets.{contains, contains-append}
use unoc_network_simulator.Model.{Device, forced_down}
use unoc_network_simulator.Model.Tables.{Tables, device_ids, contains-device_ids}
use unoc_network_simulator.Search.Walks.{unseen, unseen-cons-lt, unseen-le-length}
use unoc_network_simulator.Upstream.Defs.{
  DependencyCheckResult, Reason, fail, Hop, arrived, stop, go, loop, self_forced_down, no_vrf,
  hop_at, walk, trace_l3_path_to_anchor, is_gateway, is_l3_router,
}
use unoc_network_simulator.Upstream.Hops.{HasRow, Enters-hop_at, gateway_of_arrived}

-- The hops that the trace makes from `start`: the chain so far, and the device at its end.
pub data Hops (t : Tables) (start : Device) : List ℕ → Device → Type 0 where
  origin : (c : List ℕ) → c ≡ start.id ∷ [] → Hops t start c start
  onward :
      (c c' : List ℕ) (d p : Device)
      → Hops t start c d
      → hop_at t d ≡ go p
      → c' ≡ c ++ p.id ∷ []
      → Hops t start c' p

-- No key stands twice in the list.
abbrev pub distinct : List ℕ → Bool
distinct [] = true
distinct (x ∷ xs) = not (contains x xs) && distinct xs

distinct-snoc :
    (xs : List ℕ) (v : ℕ)
    → distinct xs ≡ true
    → contains v xs ≡ false
    → distinct (xs ++ v ∷ []) ≡ true
distinct-snoc [] v h k = refl
distinct-snoc (x ∷ xs) v h k =
    ground (arith, distinct-snoc xs v, contains-append x xs (v ∷ []), ==_iff x v, ==_iff v x)

-- A result that is not a failure: the chain leads over distinct devices to a live gateway.
pub record LeadsToGateway (t : Tables) (start : Device) (r : DependencyCheckResult) : Type 0 where
  pub gateway : Device
  pub hops : Hops t start r.chain gateway
  pub is_a_gateway : is_gateway gateway.type ≡ true
  pub live : forced_down gateway.admin_override_status ≡ false
  pub simple : distinct r.chain ≡ true

Hop-cases :
    (k : Hop) → (k ≡ arrived) ⊎ (((why : Reason) × (k ≡ stop why)) ⊎ ((p : Device) × (k ≡ go p)))
Hop-cases arrived = inl refl
Hop-cases (stop why) = inr (inl (why, refl))
Hop-cases (go p) = inr (inr (p, refl))

module _ (t : Tables) where
  abbrev nodes : List ℕ
  nodes = device_ids t.devices

  -- From a row, fuel above the number of rows that are not visited suffices.
  walk_ends :
      (fuel : ℕ) (visited chain : List ℕ) (dev : Device)
      → HasRow t dev
      → unseen nodes visited < fuel
      → (r : DependencyCheckResult) × (walk t fuel visited chain dev ≡ some r)
  unfolding walk
  walk_ends zero visited chain dev h w = absurd (omega arith)
  walk_ends (suc fuel) visited chain dev h w = elim (Bool-cases (contains dev.id visited)) [
    | inl old ↦ (fail loop chain, ground arith)
    | inr new ↦ elim (Hop-cases (hop_at t dev)) [
      | inl e ↦ (record { ok = true; reason = none; chain = chain }, ground arith)
      | inr (inl (why, e)) ↦ (fail why chain, ground arith)
      | inr (inr (p, e)) ↦
          let known : contains dev.id nodes ≡ true =
            contains-device_ids t.devices dev.id (ground arith) in
          let (row, _) = Enters-hop_at t dev p e in
          let (r, ends) =
            walk_ends fuel (dev.id ∷ visited) (chain ++ p.id ∷ []) p row
              (omega (arith, unseen-cons-lt nodes dev.id visited known new)) in
          (r, ground arith)
    ]
  ]

  -- The first round starts from a device that may be no row of the table.
  walk_from_start :
      (dev : Device)
      → (r : DependencyCheckResult) × (walk t (suc (suc (length nodes))) [] (dev.id ∷ []) dev
          ≡ some r)
  unfolding walk
  walk_from_start dev = elim (Hop-cases (hop_at t dev)) [
    | inl e ↦ (record { ok = true; reason = none; chain = dev.id ∷ [] }, ground arith)
    | inr (inl (why, e)) ↦ (fail why (dev.id ∷ []), ground arith)
    | inr (inr (p, e)) ↦
        let (row, _) = Enters-hop_at t dev p e in
        let (r, ends) =
          walk_ends (suc (length nodes)) (dev.id ∷ []) (dev.id ∷ p.id ∷ []) p row
            (omega (arith, unseen-le-length nodes (dev.id ∷ []))) in
        (r, ground arith)
  ]

  -- The trace ends for every device, also for one that is no row of the table.
  pub trace_ends :
      (dev : Device) → (r : DependencyCheckResult) × (trace_l3_path_to_anchor t dev ≡ some r)
  unfolding trace_l3_path_to_anchor
  trace_ends dev = elim (Bool-cases (forced_down dev.admin_override_status)) [
    | inl down ↦ (fail self_forced_down (dev.id ∷ []), ground arith)
    | inr live ↦ elim (Bool-cases (is_l3_router dev.type && not (is_some dev.vrf_id))) [
      | inl bare ↦ (fail no_vrf (dev.id ∷ []), ground arith)
      | inr has ↦ let (r, ends) = walk_from_start dev in (r, ground arith)
    ]
  ]

  -- `visited` holds the chain without its end.
  record Follows (start : Device) (visited chain : List ℕ) (dev : Device) : Type 0 where
    path : Hops t start chain dev
    same : (x : ℕ) → contains x chain ≡ (contains x visited || dev.id == x)
    once : contains dev.id visited ≡ false → distinct chain ≡ true

  walk_ok :
      (start : Device) (fuel : ℕ) (visited chain : List ℕ) (dev : Device)
      (r : DependencyCheckResult)
      → Follows start visited chain dev
      → walk t fuel visited chain dev ≡ some r
      → r.ok ≡ true
      → LeadsToGateway t start r
  unfolding walk
  walk_ok start zero visited chain dev r f e k = ground arith
  walk_ok start (suc fuel) visited chain dev r f e k = elim (Bool-cases (contains dev.id visited)) [
    | inl old ↦ absurd (ground arith)
    | inr new ↦ elim (Hop-cases (hop_at t dev)) [
      | inl a ↦
          let same_chain : chain ≡ r.chain = ground arith in
          record {
            gateway = dev;
            hops = subst (λ (c : List ℕ). Hops t start c dev) same_chain f.path;
            is_a_gateway = (gateway_of_arrived t dev a).0;
            live = (gateway_of_arrived t dev a).1;
            simple = subst (λ (c : List ℕ). distinct c ≡ true) same_chain (f.once new);
          }
      | inr (inl (why, a)) ↦ absurd (ground arith)
      | inr (inr (p, a)) ↦
          walk_ok start fuel (dev.id ∷ visited) (chain ++ p.id ∷ []) p r
            (record {
              path = onward chain (chain ++ p.id ∷ []) dev p f.path a refl;
              same = λ x. ground (arith, f.same x, contains-append x chain (p.id ∷ []));
              once = λ fresh. distinct-snoc chain p.id (f.once new) (ground (arith, f.same p.id));
            })
            (ground arith) k
    ]
  ]

-- A trace that is ok gives a chain of hops from the device to a gateway that is not forced down, and
-- no device stands twice in it.
pub trace_ok :
    (t : Tables) (dev : Device) (r : DependencyCheckResult)
    → trace_l3_path_to_anchor t dev ≡ some r
    → r.ok ≡ true
    → LeadsToGateway t dev r
unfolding trace_l3_path_to_anchor
trace_ok t dev r e k = elim (Bool-cases (forced_down dev.admin_override_status)) [
  | inl down ↦ absurd (ground arith)
  | inr live ↦ elim (Bool-cases (is_l3_router dev.type && not (is_some dev.vrf_id))) [
    | inl bare ↦ absurd (ground arith)
    | inr has ↦
        walk_ok t dev (suc (suc (length (device_ids t.devices)))) [] (dev.id ∷ []) dev r
          (record { path = origin (dev.id ∷ []) refl; same = λ x. ground arith; once = λ _. refl })
          (ground arith) k
  ]
]
