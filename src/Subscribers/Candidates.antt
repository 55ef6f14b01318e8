-- ===== src/Subscribers/Candidates.antt =====
-- `aon_port_candidates` of backend/services/subscriber_model.py after the first loop.
use unoc_network_simulator.Prelude.{
  append_none, append_assoc, ℕ, ◌≡◌, refl, ap, sym, ◌∙◌, subst, Bool, true, false, ◌&&◌, ◌||◌,
  Option, none, some, List, [], ◌∷◌, ◌++◌, arith, ◌==◌, if◌then◌else◌, Bool-cases, either_way, inl,
  inr, ==_iff,
}
use unoc_network_simulator.Prelude.Dicts.{Dict, put, get_or}
use unoc_network_simulator.Prelude.Sorting.{Every}
use unoc_network_simulator.Model.{is_ont, Device}
use unoc_network_simulator.Model.Tables.{Tables}
use unoc_network_simulator.Subscribers.Defs.{
  Anchor, is_cpe, trace_direct_aon_anchor, trace_anchor, olt_domain,
}
use unoc_network_simulator.Subscribers.Resolve.{
  SubscriberModel, put_port, get_port, count_ont, count_cpe, count_device, count_devices,
}
use unoc_network_simulator.Subscribers.Trees.{IsDict, IsDict-put, Every-put, get_port-put_port}
use unoc_network_simulator.Subscribers.Claims.{
  claim, claimants, at_both, claimants_at, owns, claimants_at-owns,
}

-- No key stands twice, on either level.
abbrev pub IsTree : Dict (Dict (List ℕ)) → Type 0
IsTree d = IsDict d × Every (λ r. IsDict r.1) d

IsDict-get_or :
    (a : ℕ) (d : Dict (Dict (List ℕ))) → Every (λ r. IsDict r.1) d → IsDict (get_or [] a d)
IsDict-get_or a [] h = tt
IsDict-get_or a ((b, ports) ∷ d) (p, h) = elim (Bool-cases (b == a)) [
  | inl same ↦ rw (same, get_or) p
  | inr other ↦ rw (other, get_or) (IsDict-get_or a d h)
]

IsTree-put_port :
    (a i : ℕ) (v : List ℕ) (d : Dict (Dict (List ℕ))) → IsTree d → IsTree (put_port a i v d)
IsTree-put_port a i v d (h, k) =
    let ports = put i v (get_or [] a d) in
    (
      IsDict-put a ports d h,
      Every-put (λ r. IsDict r.1) a ports d (IsDict-put i v (get_or [] a d) (IsDict-get_or a d k))
          k,
    )

count_device-IsTree :
    (t : Tables) (d : Device) (m : SubscriberModel)
    → IsTree m.aon_port_candidates
    → IsTree (count_device t d m).aon_port_candidates
unfolding count_device count_ont count_cpe
count_device-IsTree t d m h =
    let kept = λ (s : SubscriberModel). IsTree s.aon_port_candidates in
    either_way kept (is_ont d.type || is_cpe d.type) _ _
      (either_way kept d.provisioned _ _
        (either_way kept (is_ont d.type) _ _ (of_ont (trace_anchor olt_domain t d.id) _ h)
          (of_cpe (trace_direct_aon_anchor t d.id) _ h))
        h)
      h
  where
    of_ont :
        (o : Option Anchor) (s : SubscriberModel)
        → IsTree s.aon_port_candidates
        → IsTree (count_ont d o s).aon_port_candidates
    of_ont none s k = k
    of_ont (some n) s k = k

    of_cpe :
        (o : Option Anchor) (s : SubscriberModel)
        → IsTree s.aon_port_candidates
        → IsTree (count_cpe d o s).aon_port_candidates
    of_cpe none s k = k
    of_cpe (some n) s k = IsTree-put_port n.device_id n.interface_id _ s.aon_port_candidates k

abbrev pub waiting : ℕ → ℕ → SubscriberModel → List ℕ
waiting a i m = get_port [] a i m.aon_port_candidates

append_if :
    (b : Bool) (x : ℕ) (ys : List ℕ) → (if b then x ∷ [] else []) ++ ys ≡ (if b then x ∷ ys else ys)
append_if true x ys = refl
append_if false x ys = refl

abbrev own_claim : Tables → ℕ → ℕ → Device → List ℕ
own_claim t a i d = if at_both (claim t d) a i then d.id ∷ [] else []

count_device-waiting :
    (t : Tables) (a i : ℕ) (d : Device) (m : SubscriberModel)
    → waiting a i (count_device t d m) ≡ waiting a i m ++ own_claim t a i d
unfolding count_device count_ont count_cpe
count_device-waiting t a i d m = elim (Bool-cases (is_ont d.type)) [
  | inl ont_it_is ↦ rw ont_it_is (
      either_way (λ (s : SubscriberModel). waiting a i s ≡ waiting a i m ++ []) d.provisioned _ _
        (of_ont (trace_anchor olt_domain t d.id) _ ∙ sym (append_none (waiting a i m)))
        (sym (append_none (waiting a i m))))
  | inr other ↦ elim (Bool-cases (is_cpe d.type && d.provisioned)) [
    | inl t' ↦
        let cpe : is_cpe d.type ≡ true = ground (arith, t') in
        let on : d.provisioned ≡ true = ground (arith, t') in
        rw (other, cpe, on) (of_cpe (trace_direct_aon_anchor t d.id) _)
    | inr f ↦ elim (Bool-cases (is_cpe d.type)) [
      | inr no_cpe ↦ rw (other, no_cpe) (sym (append_none (waiting a i m)))
      | inl cpe ↦
          let off : d.provisioned ≡ false = ground (arith, f, cpe) in
          rw (other, cpe, off) (sym (append_none (waiting a i m)))
    ]
  ]
]
  where
    of_ont :
        (o : Option Anchor) (s : SubscriberModel) → waiting a i (count_ont d o s) ≡ waiting a i s
    of_ont none s = refl
    of_ont (some n) s = refl

    of_cpe :
        (o : Option Anchor) (s : SubscriberModel)
        → waiting a i (count_cpe d o s) ≡ waiting a i s ++ (if at_both o a i then d.id ∷ [] else [])
    of_cpe none s = sym (append_none (waiting a i s))
    of_cpe (some n) s =
        get_port-put_port [] a n.device_id i n.interface_id _ s.aon_port_candidates
        ∙ elim (Bool-cases (n.device_id == a && n.interface_id == i)) [
          | inr away ↦ rw away (sym (append_none (waiting a i s)))
          | inl here ↦
              let ea : n.device_id ≡ a = (==_iff n.device_id a).0 (ground (arith, here)) in
              let ei : n.interface_id ≡ i = (==_iff n.interface_id i).0 (ground (arith, here)) in
              rw here (rw (ea, ei) refl)
        ]

count_devices-waiting :
    (t : Tables) (a i : ℕ) (ds : List Device) (m : SubscriberModel)
    → waiting a i (count_devices t ds m) ≡ waiting a i m ++ claimants_at t a i ds
count_devices-waiting t a i [] m = sym (append_none (waiting a i m))
count_devices-waiting t a i (d ∷ ds) m =
    count_devices-waiting t a i ds (count_device t d m)
    ∙ (ap (◌++ (claimants_at t a i ds)) (count_device-waiting t a i d m)
        ∙ (append_assoc (waiting a i m) (own_claim t a i d) (claimants_at t a i ds)
            ∙ ap (waiting a i m ++◌)
                (append_if (at_both (claim t d) a i) d.id (claimants_at t a i ds))))

-- The first loop's candidates: a tree, which has for each port of a device those that claim it.
pub candidates_correct :
    (t : Tables) (ds : List Device) (m : SubscriberModel)
    → m.aon_port_candidates ≡ []
    → IsTree (count_devices t ds m).aon_port_candidates
      × ((a i : ℕ)
          → waiting a i (count_devices t ds m) ≡ (if owns t a i then claimants t i ds else []))
candidates_correct t ds m h = (
  tree ds m (subst IsTree (sym h) (tt, tt)),
  λ a i.
      count_devices-waiting t a i ds m
      ∙ (ap (λ (c : Dict (Dict (List ℕ))). get_port [] a i c ++ claimants_at t a i ds) h
          ∙ claimants_at-owns t a i ds),
)
  where
    tree :
        (rows : List Device) (s : SubscriberModel)
        → IsTree s.aon_port_candidates
        → IsTree (count_devices t rows s).aon_port_candidates
    tree [] s k = k
    tree (d ∷ rows) s k = tree rows (count_device t d s) (count_device-IsTree t d s k)
