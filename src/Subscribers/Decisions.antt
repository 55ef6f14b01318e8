-- ===== src/Subscribers/Decisions.antt =====
-- What all decisions of the subscriber model have, by what the two loops write.
use unoc_network_simulator.Prelude.{
  ℕ, ◌≡◌, Bool, true, false, ◌||◌, Option, none, some, List, [], ◌∷◌, Bool-cases, either_way, inl,
  inr,
}
use unoc_network_simulator.Prelude.Sets.{sorted}
use unoc_network_simulator.Prelude.Dicts.{Dict}
use unoc_network_simulator.Prelude.Sorting.{Every, Every-append}
use unoc_network_simulator.Model.{Device, is_ont}
use unoc_network_simulator.Model.Tables.{Tables}
use unoc_network_simulator.Subscribers.Defs.{
  Domain, olt_domain, aon_domain, Reason, not_provisioned, no_direct_aon_access_port,
  no_reachable_anchor, Anchor, is_cpe, trace_anchor, trace_direct_aon_anchor,
}
use unoc_network_simulator.Subscribers.Resolve.{
  SubscriberDecision, SubscriberModel, decide, count_ont, count_cpe, count_device, count_devices,
  settle_sorted, settle, settle_all, settle_port, settle_ports, settle_anchors, sorted_items,
  sorted_devices, empty_model, resolve_subscriber_model,
}

abbrev pub is_leaf : Device → Bool
is_leaf d = is_ont d.type || is_cpe d.type

module _ (P : SubscriberDecision → Type 0)
    (made : (d : Device) (c : Option Bool) (dom : Option Domain) (a : Option Anchor) (r : Reason)
      → is_leaf d ≡ true
      → P (decide d c dom a r))
    (settled : (port winner : ℕ) (cpes : List ℕ) (dec : SubscriberDecision)
      → P dec
      → P (settle port winner cpes dec)) where
  Holds : SubscriberModel → Type 0
  Holds m = Every P m.decisions

  count_ont-Holds :
      (d : Device) (o : Option Anchor) (m : SubscriberModel)
      → is_leaf d ≡ true
      → Holds m
      → Holds (count_ont d o m)
  unfolding count_ont Holds
  count_ont-Holds d none m leaf h =
      Every-append P m.decisions _ h
        ((made d (some false) (some olt_domain) none no_reachable_anchor leaf), tt)
  count_ont-Holds d (some a) m leaf h =
      Every-append P m.decisions _ h
        ((made d (some true) (some olt_domain) (some a) a.reason leaf), tt)

  count_cpe-Holds :
      (d : Device) (o : Option Anchor) (m : SubscriberModel)
      → is_leaf d ≡ true
      → Holds m
      → Holds (count_cpe d o m)
  unfolding count_cpe Holds
  count_cpe-Holds d none m leaf h =
      Every-append P m.decisions _ h
        ((made d (some false) (some aon_domain) none no_direct_aon_access_port leaf), tt)
  count_cpe-Holds d (some a) m leaf h =
      Every-append P m.decisions _ h ((made d none (some aon_domain) (some a) a.reason leaf), tt)

  count_device-Holds :
      (t : Tables) (d : Device) (m : SubscriberModel) → Holds m → Holds (count_device t d m)
  unfolding count_device Holds
  count_device-Holds t d m h = elim (Bool-cases (is_leaf d)) [
    | inr other ↦ rw other h
    | inl leaf ↦ rw leaf (
        either_way Holds d.provisioned _ _
          (either_way Holds (is_ont d.type) _ _
            (count_ont-Holds d (trace_anchor olt_domain t d.id) _ leaf h)
            (count_cpe-Holds d (trace_direct_aon_anchor t d.id) _ leaf h))
          (Every-append P m.decisions _ h
            ((made d (some false) none none not_provisioned leaf), tt)))
  ]

  count_devices-Holds :
      (t : Tables) (ds : List Device) (m : SubscriberModel) → Holds m → Holds (count_devices t ds m)
  count_devices-Holds t [] m h = h
  count_devices-Holds t (d ∷ ds) m h =
      count_devices-Holds t ds (count_device t d m) (count_device-Holds t d m h)

  settle_all-All :
      (port winner : ℕ) (cpes : List ℕ) (decs : List SubscriberDecision)
      → Every P decs
      → Every P (settle_all port winner cpes decs)
  settle_all-All port winner cpes [] h = h
  settle_all-All port winner cpes (dec ∷ decs) (p, h) =
      (settled port winner cpes dec p, settle_all-All port winner cpes decs h)

  settle_sorted-Holds :
      (a port : ℕ) (cpes order : List ℕ) (m : SubscriberModel)
      → Holds m
      → Holds (settle_sorted a port cpes order m)
  unfolding Holds
  settle_sorted-Holds a port cpes [] m h = h
  settle_sorted-Holds a port cpes (winner ∷ rest) m h =
      settle_all-All port winner cpes m.decisions h

  settle_ports-Holds :
      (a : ℕ) (ports : Dict (List ℕ)) (m : SubscriberModel)
      → Holds m
      → Holds (settle_ports a ports m)
  unfolding settle_port
  settle_ports-Holds a [] m h = h
  settle_ports-Holds a ((port, cpes) ∷ ports) m h =
      settle_ports-Holds a ports (settle_port a port cpes m)
        (settle_sorted-Holds a port cpes (sorted cpes) m h)

  settle_anchors-Holds :
      (rows : Dict (Dict (List ℕ))) (m : SubscriberModel) → Holds m → Holds (settle_anchors rows m)
  unfolding settle_anchors Holds
  settle_anchors-Holds [] m h = h
  settle_anchors-Holds ((a, ports) ∷ rest) m h =
      settle_anchors-Holds rest _ (settle_ports-Holds a (sorted_items ports) m h)

  -- What a decision has when it is made, and keeps when a port is settled, all decisions have.
  pub resolve_subscriber_model-Every : (t : Tables) → Every P (resolve_subscriber_model t).decisions
  unfolding resolve_subscriber_model Holds
  resolve_subscriber_model-Every t =
      settle_anchors-Holds _ _
        (count_devices-Holds t (sorted_devices t.devices) (empty_model t.devices) tt)
