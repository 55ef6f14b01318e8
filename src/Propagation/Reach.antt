-- ===== src/Propagation/Reach.antt =====
-- The flood of `recompute_devices_status` against walks from the anchors over conducting devices.
use unoc_network_simulator.Prelude.{
  ℕ, ◌+◌, ◌≡◌, ◌∙◌, sym, ◌↔◌, Bool, true, false, ◌&&◌, some, List, [], ◌∷◌, arith, ◌==◌, length,
  any, Bool-cases, inl, inr,
}
use unoc_network_simulator.Prelude.Sets.{
  contains, sorted, contains-add, contains-sorted, length-sorted,
}
use unoc_network_simulator.Model.{Device}
use unoc_network_simulator.Model.Tables.{Tables, device_ids}
use unoc_network_simulator.Search.Walks.{Walk, seed, step, unseen-le-length}
use unoc_network_simulator.Search.Flood.{flood_ends, flood_correct}
use unoc_network_simulator.Propagation.Graph.{all_edges, has_edge}
use unoc_network_simulator.Propagation.Defs.{
  anchors, has_backbone_anchor, collect_anchors, conducts, is_up_candidate, not_overridden, push,
  sorted_targets, flood_reachable,
}
use unoc_network_simulator.Propagation.Queue.{
  push-IsPush, contains-sorted_targets, contains-conducts,
}

-- Reachability as the service means it: an anchor is reachable, and so is a conducting neighbour of
-- a reachable device.
pub data Conducted (max_km : ℕ) (t : Tables) : ℕ → Type 0 where
  anchor : (v : ℕ) → contains v (anchors t.devices) ≡ true → Conducted max_km t v
  hop :
      (u v : ℕ)
      → Conducted max_km t u
      → has_edge (all_edges max_km t) u v ≡ true
      → conducts t.devices v ≡ true
      → Conducted max_km t v

module _ (max_km : ℕ) (t : Tables) where
  abbrev Walked : ℕ → Type 0
  Walked v = Walk (anchors t.devices) (sorted_targets (all_edges max_km t)) (conducts t.devices) v

  to_Conducted : (v : ℕ) → Walked v → Conducted max_km t v
  to_Conducted v (seed _ m) = anchor v m
  to_Conducted v (step u _ w edge enter) =
      hop u v (to_Conducted u w) (sym (contains-sorted_targets (all_edges max_km t) u v) ∙ edge)
        enter

  to_Walked : (v : ℕ) → Conducted max_km t v → Walked v
  to_Walked v (anchor _ m) = seed v m
  to_Walked v (hop u _ w edge enter) =
      step u v (to_Walked u w) (contains-sorted_targets (all_edges max_km t) u v ∙ edge) enter

  -- The flood ends with a set, and the set holds exactly the devices that anchors reach.
  pub flood_reachable_iff :
      (r : List ℕ) × (flood_reachable max_km t ≡ some r)
      × ((v : ℕ) → (contains v r ≡ true) ↔ Conducted max_km t v)
  unfolding flood_reachable
  flood_reachable_iff =
      let seeds = anchors t.devices in
      let nodes = device_ids t.devices in
      let next = sorted_targets (all_edges max_km t) in
      let (r, ends) =
        flood_ends next (conducts t.devices) push push-IsPush nodes (contains-conducts t.devices)
          (length nodes + length seeds) (record { reached = seeds; queue = sorted seeds })
          (omega (arith, unseen-le-length nodes seeds, length-sorted seeds)) in
      (
        r,
        ends,
        λ v.
            let (sound, full) =
              flood_correct next (conducts t.devices) push push-IsPush seeds
                (length nodes + length seeds) (sorted seeds) r (λ w. contains-sorted w seeds) ends
                v in
            (λ m. to_Conducted v (sound m), λ c. full (to_Walked v c)),
      )

-- Some row with this key is not overridden, or overridden UP.
abbrev pub some_row_free : List Device → ℕ → Bool
some_row_free ds v = any (λ d. d.id == v && not_overridden d.admin_override_status) ds

anchor_is_free :
    (backbone : Bool) (ds : List Device) (v : ℕ)
    → contains v (collect_anchors backbone ds) ≡ true
    → some_row_free ds v ≡ true
anchor_is_free backbone [] v h = ground arith
anchor_is_free backbone (d ∷ ds) v h =
    ground (arith, anchor_is_free backbone ds v, contains-add v d.id (collect_anchors backbone ds))

conducts_is_free : (ds : List Device) (v : ℕ) → conducts ds v ≡ true → some_row_free ds v ≡ true
unfolding conducts is_up_candidate
conducts_is_free [] v h = ground arith
conducts_is_free (d ∷ ds) v h = ground (arith, conducts_is_free ds v)

Conducted-is_free :
    (max_km : ℕ) (t : Tables) (v : ℕ) → Conducted max_km t v → some_row_free t.devices v ≡ true
unfolding anchors
Conducted-is_free max_km t v (anchor _ m) =
    anchor_is_free (has_backbone_anchor t.devices) t.devices v m
Conducted-is_free max_km t v (hop u _ w edge enter) = conducts_is_free t.devices v enter

-- A device that an administrator forces to anything but UP is not in the reachable set.
pub overridden_unreachable :
    (max_km : ℕ) (t : Tables) (v : ℕ) (r : List ℕ)
    → some_row_free t.devices v ≡ false
    → flood_reachable max_km t ≡ some r
    → contains v r ≡ false
overridden_unreachable max_km t v r forced e =
    let (s, ends, iff) = flood_reachable_iff max_km t in
    elim (Bool-cases (contains v r)) [
      | inr out ↦ out
      | inl there ↦
          let there' : contains v s ≡ true = ground (arith, ends) in
          absurd (ground (arith, Conducted-is_free max_km t v ((iff v).0 there')))
    ]
