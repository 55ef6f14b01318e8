-- ===== src/Subscribers/Counts.antt =====
-- The occupancy of the PON ports against the decisions.
use unoc_network_simulator.Prelude.{
  ℕ, suc, ◌+◌, ◌≡◌, refl, sym, ◌∙◌, Bool, true, false, ◌&&◌, ◌||◌, Option, none, some, List, [],
  ◌∷◌, ◌++◌, arith, ◌==◌, if◌then◌else◌, Bool-cases, either_way, inl, inr,
}
use unoc_network_simulator.Prelude.Sets.{contains, sorted}
use unoc_network_simulator.Prelude.Dicts.{Dict, put, get_or, sum_of, sum_of-put}
use unoc_network_simulator.Model.{Device, is_ont}
use unoc_network_simulator.Model.Tables.{Tables}
use unoc_network_simulator.Subscribers.Defs.{
  Domain, olt_domain, aon_domain, Anchor, trace_anchor, trace_direct_aon_anchor, is_cpe,
}
use unoc_network_simulator.Subscribers.Resolve.{
  SubscriberDecision, SubscriberModel, put_port, get_port, count_ont, count_cpe, count_device,
  count_devices, settle_sorted, settle, settle_all, settle_port, settle_ports, settle_anchors,
  sorted_items, sorted_devices, empty_model, resolve_subscriber_model, is_aon, is_at,
}

abbrev pub occupied : Dict (Dict ℕ) → ℕ
occupied d = sum_of (sum_of (λ n. n)) d

abbrev pub counts_for_olt : Option Bool → Option Domain → Bool
counts_for_olt (some true) (some olt_domain) = true
counts_for_olt _ _ = false

-- The decision counts a subscriber of the OLT domain.
abbrev pub counts_olt : SubscriberDecision → Bool
counts_olt dec = counts_for_olt dec.counted dec.domain

abbrev pub counted_olt : List SubscriberDecision → ℕ
counted_olt [] = 0
counted_olt (dec ∷ decs) = (if counts_olt dec then 1 else 0) + counted_olt decs

counted_olt-append :
    (xs : List SubscriberDecision) (dec : SubscriberDecision)
    → counted_olt (xs ++ dec ∷ []) ≡ counted_olt xs + (if counts_olt dec then 1 else 0)
counted_olt-append [] dec = omega arith
counted_olt-append (x ∷ xs) dec = omega (arith, counted_olt-append xs dec)

occupied-put_port :
    (a i : ℕ) (d : Dict (Dict ℕ))
    → occupied (put_port a i (suc (get_port 0 a i d)) d) ≡ suc (occupied d)
occupied-put_port a i d =
    let row = get_or [] a d in
    omega (
      arith,
      sum_of-put (λ n. n) 0 i (suc (get_or 0 i row)) row refl,
      sum_of-put (sum_of (λ n. n)) [] a (put i (suc (get_or 0 i row)) row) d refl,
    )

-- The ports hold as many subscribers as the decisions count.
abbrev Balanced : SubscriberModel → Type 0
Balanced m = counted_olt m.decisions ≡ occupied m.pon_occupancy

count_ont-Balanced :
    (d : Device) (o : Option Anchor) (m : SubscriberModel) → Balanced m → Balanced (count_ont d o m)
unfolding count_ont
count_ont-Balanced d none m h = omega (arith, h, counted_olt-append m.decisions _)
count_ont-Balanced d (some a) m h = omega (
  arith,
  h,
  counted_olt-append m.decisions _,
  occupied-put_port a.device_id a.interface_id m.pon_occupancy,
)

count_cpe-Balanced :
    (d : Device) (o : Option Anchor) (m : SubscriberModel) → Balanced m → Balanced (count_cpe d o m)
unfolding count_cpe
count_cpe-Balanced d none m h = omega (arith, h, counted_olt-append m.decisions _)
count_cpe-Balanced d (some a) m h = omega (arith, h, counted_olt-append m.decisions _)

count_device-Balanced :
    (t : Tables) (d : Device) (m : SubscriberModel) → Balanced m → Balanced (count_device t d m)
unfolding count_device
count_device-Balanced t d m h =
    either_way Balanced (is_ont d.type || is_cpe d.type) _ m
      (either_way Balanced d.provisioned _ _
        (either_way Balanced (is_ont d.type) _ _
          (count_ont-Balanced d (trace_anchor olt_domain t d.id) _ h)
          (count_cpe-Balanced d (trace_direct_aon_anchor t d.id) _ h))
        (omega (arith, h, counted_olt-append m.decisions _)))
      h

count_devices-Balanced :
    (t : Tables) (ds : List Device) (m : SubscriberModel)
    → Balanced m
    → Balanced (count_devices t ds m)
count_devices-Balanced t [] m h = h
count_devices-Balanced t (d ∷ ds) m h =
    count_devices-Balanced t ds (count_device t d m) (count_device-Balanced t d m h)

aon_not_olt :
    (c c' : Option Bool) (dom : Option Domain)
    → is_aon dom ≡ true
    → counts_for_olt c' dom ≡ counts_for_olt c dom
aon_not_olt c c' none h = absurd (ground arith)
aon_not_olt c c' (some olt_domain) h = absurd (ground arith)
aon_not_olt c c' (some aon_domain) h = never c' ∙ sym (never c)
  where
    never : (x : Option Bool) → counts_for_olt x (some aon_domain) ≡ false
    never none = refl
    never (some true) = refl
    never (some false) = refl

not_olt :
    (dec : SubscriberDecision) (port : ℕ) (c : Option Bool)
    → (is_aon dec.domain && is_at dec.anchor_interface_id port) ≡ true
    → counts_for_olt c dec.domain ≡ counts_olt dec
not_olt dec port c h = aon_not_olt dec.counted c dec.domain (ground arith)

-- The second loop changes only decisions of the AON domain.
counts_olt-settle :
    (port winner : ℕ) (cpes : List ℕ) (dec : SubscriberDecision)
    → counts_olt (settle port winner cpes dec) ≡ counts_olt dec
unfolding settle
counts_olt-settle port winner cpes dec =
    elim (Bool-cases (is_aon dec.domain && is_at dec.anchor_interface_id port)) [
      | inr f ↦ rw f refl
      | inl t ↦ elim (Bool-cases (dec.subscriber_id == winner)) [
        | inl w ↦ rw (t, w) (not_olt dec port (some true) t)
        | inr l ↦ elim (Bool-cases (contains dec.subscriber_id cpes)) [
          | inl c ↦ rw (t, l, c) (not_olt dec port (some false) t)
          | inr o ↦ rw (t, l, o) refl
        ]
      ]
    ]

counted_olt-settle_all :
    (port winner : ℕ) (cpes : List ℕ) (decs : List SubscriberDecision)
    → counted_olt (settle_all port winner cpes decs) ≡ counted_olt decs
counted_olt-settle_all port winner cpes [] = refl
counted_olt-settle_all port winner cpes (dec ∷ decs) =
    rw (counts_olt-settle port winner cpes dec)
      (omega (arith, counted_olt-settle_all port winner cpes decs))

settle_sorted-Balanced :
    (a port : ℕ) (cpes order : List ℕ) (m : SubscriberModel)
    → Balanced m
    → Balanced (settle_sorted a port cpes order m)
settle_sorted-Balanced a port cpes [] m h = h
settle_sorted-Balanced a port cpes (winner ∷ rest) m h =
    counted_olt-settle_all port winner cpes m.decisions ∙ h

settle_port-Balanced :
    (a port : ℕ) (cpes : List ℕ) (m : SubscriberModel)
    → Balanced m
    → Balanced (settle_port a port cpes m)
unfolding settle_port
settle_port-Balanced a port cpes m h = settle_sorted-Balanced a port cpes (sorted cpes) m h

settle_ports-Balanced :
    (a : ℕ) (ports : Dict (List ℕ)) (m : SubscriberModel)
    → Balanced m
    → Balanced (settle_ports a ports m)
settle_ports-Balanced a [] m h = h
settle_ports-Balanced a ((port, cpes) ∷ ports) m h =
    settle_ports-Balanced a ports (settle_port a port cpes m) (settle_port-Balanced a port cpes m h)

settle_anchors-Balanced :
    (all : Dict (Dict (List ℕ))) (m : SubscriberModel)
    → Balanced m
    → Balanced (settle_anchors all m)
unfolding settle_anchors
settle_anchors-Balanced [] m h = h
settle_anchors-Balanced ((a, ports) ∷ rest) m h =
    settle_anchors-Balanced rest _ (settle_ports-Balanced a (sorted_items ports) m h)

-- In the model that is resolved, the PON ports together hold exactly as many subscribers as there
-- are decisions that count one for the OLT domain, whatever the tables.
pub resolve_subscriber_model-occupied :
    (t : Tables)
    → counted_olt (resolve_subscriber_model t).decisions
      ≡ occupied (resolve_subscriber_model t).pon_occupancy
unfolding resolve_subscriber_model
resolve_subscriber_model-occupied t =
    settle_anchors-Balanced _ _
      (count_devices-Balanced t (sorted_devices t.devices) (empty_model t.devices) refl)
