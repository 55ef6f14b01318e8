-- ===== src/Subscribers/Access.antt =====
-- The access ports of the model that backend/services/subscriber_model.py resolves.
use unoc_network_simulator.Prelude.{
  ℕ, ◌≡◌, refl, ap, sym, ◌∙◌, Bool, true, false, Option, none, some, List, [], ◌∷◌, arith,
  if◌then◌else◌, Bool-cases, Option-cases, List-cases, either_way, inl, inr, ==_refl, ltb,
}
use unoc_network_simulator.Prelude.Sets.{contains, sorted, contains-sorted}
use unoc_network_simulator.Prelude.Dicts.{Dict, get, get_or}
use unoc_network_simulator.Prelude.Sorting.{Every, Every-append, Every-sort_by}
use unoc_network_simulator.Model.{is_ont, Device}
use unoc_network_simulator.Model.Tables.{Tables}
use unoc_network_simulator.Subscribers.Defs.{
  olt_domain, not_provisioned, Anchor, is_cpe, trace_anchor, trace_direct_aon_anchor,
}
use unoc_network_simulator.Subscribers.Resolve.{
  SubscriberDecision, SubscriberModel, decide, get_port, count_ont, count_cpe, count_device,
  count_devices, sorted_items, sorted_devices, empty_model, resolve_subscriber_model,
}
use unoc_network_simulator.Subscribers.Trees.{IsDict, get-sorted_items, entries}
use unoc_network_simulator.Subscribers.Claims.{claim, claimants, at_port, owns, claimed_owner}
use unoc_network_simulator.Subscribers.Candidates.{candidates_correct}
use unoc_network_simulator.Subscribers.Exclusive.{
  IsHeld, IsSettled, IsClaimed, IsBoth, unclaimed, settle_anchors-kept, settle_anchors_decides,
  IsHeld-kept,
}

module _ (t : Tables) where
  -- The devices that claim a port.
  abbrev pub claims : ℕ → List ℕ
  claims i = claimants t i (sorted_devices t.devices)

  abbrev Held : SubscriberDecision → Type 0
  Held dec = IsHeld claims dec

  -- What a device claims is among all claims.
  abbrev Within : List Device → Type 0
  Within ds = (i x : ℕ) → contains x (claimants t i ds) ≡ true → contains x (claims i) ≡ true

  Within-rest : (d : Device) (ds : List Device) → Within (d ∷ ds) → Within ds
  Within-rest d ds h i x m = h i x (grown (at_port (claim t d) i))
    where
      grown :
          (b : Bool) → contains x (if b then d.id ∷ claimants t i ds else claimants t i ds) ≡ true
      grown true = ground (arith, m)
      grown false = m

  claim-Within :
      (d : Device) (ds : List Device) (i : ℕ)
      → Within (d ∷ ds)
      → at_port (claim t d) i ≡ true
      → contains d.id (claims i) ≡ true
  claim-Within d ds i h k = h i d.id (rw k (ground (arith, ==_refl d.id)))

  count_device-Held :
      (d : Device) (ds : List Device) (m : SubscriberModel)
      → Within (d ∷ ds)
      → Every Held m.decisions
      → Every Held (count_device t d m).decisions
  unfolding count_device count_ont count_cpe
  count_device-Held d ds m w h = elim (Bool-cases (is_ont d.type)) [
    | inl ont_it_is ↦ rw ont_it_is (
        either_way (λ (s : SubscriberModel). Every Held s.decisions) d.provisioned _ _
          (of_ont (trace_anchor olt_domain t d.id) _ h)
          (Every-append Held m.decisions _ h (without, tt)))
    | inr other ↦ elim (Bool-cases (is_cpe d.type)) [
      | inr no_cpe ↦ rw (other, no_cpe) h
      | inl cpe ↦ elim (Bool-cases d.provisioned) [
        | inr off ↦ rw (other, cpe, off) (Every-append Held m.decisions _ h (without, tt))
        | inl on ↦
            let mine : claim t d ≡ trace_direct_aon_anchor t d.id = rw (other, cpe, on) refl in
            rw (other, cpe, on)
              (of_cpe (trace_direct_aon_anchor t d.id) _
                (λ i k. claim-Within d ds i w (ap (λ o. at_port o i) mine ∙ k)) h)
      ]
    ]
  ]
    where
      without : Held (decide d (some false) none none not_provisioned)
      without i aon at = absurd (ground (arith, aon))

      of_ont :
          (o : Option Anchor) (s : SubscriberModel)
          → Every Held s.decisions
          → Every Held (count_ont d o s).decisions
      of_ont none s k =
          Every-append Held s.decisions _ k ((λ i aon at. absurd (ground (arith, aon))), tt)
      of_ont (some n) s k =
          Every-append Held s.decisions _ k ((λ i aon at. absurd (ground (arith, aon))), tt)

      of_cpe :
          (o : Option Anchor) (s : SubscriberModel)
          → ((i : ℕ) → at_port o i ≡ true → contains d.id (claims i) ≡ true)
          → Every Held s.decisions
          → Every Held (count_cpe d o s).decisions
      of_cpe none s f k =
          Every-append Held s.decisions _ k ((λ i aon at. absurd (ground (arith, at))), tt)
      of_cpe (some n) s f k = Every-append Held s.decisions _ k ((λ i aon at. f i at), tt)

  count_devices-Held :
      (ds : List Device) (m : SubscriberModel)
      → Within ds
      → Every Held m.decisions
      → Every Held (count_devices t ds m).decisions
  count_devices-Held [] m w h = h
  count_devices-Held (d ∷ ds) m w h =
      count_devices-Held ds (count_device t d m) (Within-rest d ds w) (count_device-Held d ds m w h)

  -- The model after the first loop.
  abbrev counted_model : SubscriberModel
  counted_model = count_devices t (sorted_devices t.devices) (empty_model t.devices)

  abbrev tree : Dict (Dict (List ℕ))
  tree = counted_model.aon_port_candidates

  abbrev or_none : Option (List ℕ) → List ℕ
  or_none none = []
  or_none (some xs) = xs

  looked_up :
      (a i : ℕ) (ports : Dict (List ℕ)) (o : Option (List ℕ))
      → get a tree ≡ some ports
      → get i ports ≡ o
      → get_port [] a i tree ≡ or_none o
  looked_up a i ports none e f = rw (e, get_port, get_or) (rw f refl)
  looked_up a i ports (some xs) e f = rw (e, get_port, get_or) (rw f refl)

  waits : (a i : ℕ) → get_port [] a i tree ≡ (if owns t a i then claims i else [])
  waits a i = (candidates_correct t (sorted_devices t.devices) (empty_model t.devices) refl).1 a i

  ports-IsClaimed :
      (a : ℕ) (ports sub : Dict (List ℕ))
      → get a tree ≡ some ports
      → Every (λ r. get r.0 ports ≡ some r.1) sub
      → Every (IsClaimed claims) sub
  ports-IsClaimed a ports [] e h = tt
  ports-IsClaimed a ports ((i, cpes) ∷ sub) e (p, h) =
      let found = sym (looked_up a i ports (some cpes) e p) ∙ waits a i in
      (
        elim (Bool-cases (owns t a i)) [
          | inl own ↦ inr (found ∙ rw own refl)
          | inr alien ↦ inl (found ∙ rw alien refl)
        ],
        ports-IsClaimed a ports sub e h,
      )

  rows-IsClaimed :
      (rows : Dict (Dict (List ℕ)))
      → Every (λ r. IsDict r.1) rows
      → Every (λ r. get r.0 tree ≡ some r.1) rows
      → Every (λ r. IsDict r.1 × Every (IsClaimed claims) r.1) rows
  rows-IsClaimed [] d h = tt
  rows-IsClaimed ((a, ports) ∷ rows) (d, ds) (e, es) =
      ((d, ports-IsClaimed a ports ports e (entries ports d)), rows-IsClaimed rows ds es)

  all-IsClaimed : Every (λ r. IsDict r.1 × Every (IsClaimed claims) r.1) (sorted_items tree)
  unfolding sorted_items
  all-IsClaimed =
      let (keyed, inner) =
        (candidates_correct t (sorted_devices t.devices) (empty_model t.devices) refl).0 in
      Every-sort_by (λ r. IsDict r.1 × Every (IsClaimed claims) r.1) (λ x y. ltb x.0 y.0) tree
        (rows-IsClaimed tree inner (entries tree keyed))

  all-Held : Every Held counted_model.decisions
  all-Held = count_devices-Held (sorted_devices t.devices) (empty_model t.devices) (λ i x m. m) tt

  -- A port that is claimed is found.
  present :
      (i w a : ℕ)
      → contains w (claims i) ≡ true
      → owns t a i ≡ true
      → (ports : Dict (List ℕ)) × (get a tree ≡ some ports) × (get i ports ≡ some (claims i))
  present i w a m own =
      let all : get_port [] a i tree ≡ claims i = waits a i ∙ rw own refl in
      elim (Option-cases (get a tree)) [
        | inl gone ↦
            let none_there : get_port [] a i tree ≡ [] = rw (gone, get_port, get_or) refl in
            absurd (ground (arith, m, ap (contains w) (sym none_there ∙ all)))
        | inr (ports, e) ↦ elim (Option-cases (get i ports)) [
          | inl gone ↦
              absurd
                (ground (arith, m, ap (contains w) (sym (looked_up a i ports none e gone) ∙ all)))
          | inr (cpes, f) ↦
              (ports, e, f ∙ ap some (sym (looked_up a i ports (some cpes) e f) ∙ all))
        ]
      ]

  settled-IsBoth : (i : ℕ) → Every (IsBoth claims i) (resolve_subscriber_model t).decisions
  unfolding resolve_subscriber_model
  settled-IsBoth i = elim (List-cases (sorted (claims i))) [
    | inl none_there ↦ unclaimed claims i _ none_there (
        settle_anchors-kept claims Held (IsHeld-kept claims) (sorted_items tree) counted_model
          all-IsClaimed all-Held)
    | inr (w, rest, e) ↦
        let mine : contains w (claims i) ≡ true =
          sym (contains-sorted w (claims i)) ∙ (ap (contains w) e ∙ ground (arith, ==_refl w)) in
        let (a, own) = claimed_owner t i w (sorted_devices t.devices) mine in
        let (ports, there, entry) = present i w a mine own in
        let (keyed, inner) =
          (candidates_correct t (sorted_devices t.devices) (empty_model t.devices) refl).0 in
        settle_anchors_decides claims a i ports (sorted_items tree) counted_model all-IsClaimed
          (get-sorted_items a tree keyed ∙ there) entry all-Held
  ]

  all-IsSettled :
      (i : ℕ) (decs : List SubscriberDecision)
      → Every (IsBoth claims i) decs
      → Every (IsSettled claims i) decs
  all-IsSettled i [] h = tt
  all-IsSettled i (dec ∷ decs) ((h, s), k) = (s, all-IsSettled i decs k)

  -- Whatever the tables, each decision for an AON access port is taken: it is counted if its
  -- subscriber is the lowest of the provisioned CPEs whose direct link to an AON switch ends at that
  -- port, and it is refused otherwise, so that a port never counts two subscribers.
  pub resolve_subscriber_model-IsSettled :
      (i : ℕ) → Every (IsSettled claims i) (resolve_subscriber_model t).decisions
  resolve_subscriber_model-IsSettled i =
      all-IsSettled i (resolve_subscriber_model t).decisions (settled-IsBoth i)
