-- ===== src/Subscribers/Exclusive.antt =====
-- Which CPE an access port counts, by the second loop of backend/services/subscriber_model.py.
use unoc_network_simulator.Prelude.{
  ℕ, ◌≡◌, refl, ap, sym, ◌∙◌, subst, ◌⊎◌, Bool, true, false, ◌&&◌, Option, none, some, List, [],
  ◌∷◌, arith, ◌==◌, Bool-cases, List-cases, either_way, inl, inr, ==_iff, ltb, is_some,
}
use unoc_network_simulator.Prelude.Sets.{contains, sorted, contains-sorted}
use unoc_network_simulator.Prelude.Dicts.{Dict, get}
use unoc_network_simulator.Prelude.Sorting.{Every, Every-sort_by}
use unoc_network_simulator.Subscribers.Resolve.{
  SubscriberDecision, SubscriberModel, is_aon, is_at, settle, settle_all, settle_sorted,
  settle_port, settle_ports, settle_anchors, sorted_items,
}
use unoc_network_simulator.Subscribers.Trees.{IsDict, get-sorted_items}

abbrev is_head : List ℕ → ℕ → Bool
is_head [] x = false
is_head (w ∷ ws) x = x == w

-- The least of some subscribers.
abbrev pub leads : List ℕ → ℕ → Bool
leads xs x = is_head (sorted xs) x

at_same : (o : Option ℕ) (i j : ℕ) → is_at o i ≡ true → is_at o j ≡ true → i ≡ j
at_same none i j h k = absurd (ground arith)
at_same (some x) i j h k = sym ((==_iff x i).0 h) ∙ (==_iff x j).0 k

module _ (claims : ℕ → List ℕ) where
  -- Whoever is decided for a port claims it.
  abbrev pub IsHeld : SubscriberDecision → Type 0
  IsHeld dec =
      (i : ℕ)
      → is_aon dec.domain ≡ true
      → is_at dec.anchor_interface_id i ≡ true
      → contains dec.subscriber_id (claims i) ≡ true

  -- The port counts the decision exactly if its subscriber is the least that claims it.
  abbrev pub IsSettled : ℕ → SubscriberDecision → Type 0
  IsSettled i dec =
      is_aon dec.domain ≡ true
      → is_at dec.anchor_interface_id i ≡ true
      → dec.counted ≡ some (leads (claims i) dec.subscriber_id)

  IsHeld-settle :
      (port winner : ℕ) (cpes : List ℕ) (dec : SubscriberDecision)
      → IsHeld dec
      → IsHeld (settle port winner cpes dec)
  unfolding settle
  IsHeld-settle port winner cpes dec h =
      either_way IsHeld (is_aon dec.domain && is_at dec.anchor_interface_id port) _ _
        (either_way IsHeld (dec.subscriber_id == winner) _ _ h
          (either_way IsHeld (contains dec.subscriber_id cpes) _ _ h h))
        h

  settle_decides :
      (port winner : ℕ) (rest : List ℕ) (dec : SubscriberDecision)
      → sorted (claims port) ≡ winner ∷ rest
      → IsHeld dec
      → IsSettled port (settle port winner (claims port) dec)
  unfolding settle
  settle_decides port winner rest dec e h =
      elim (Bool-cases (is_aon dec.domain && is_at dec.anchor_interface_id port)) [
        | inr f ↦ rw f (λ aon at. absurd (ground (arith, f, aon, at)))
        | inl t ↦
            let mine = h port (ground (arith, t)) (ground (arith, t)) in
            rw t (elim (Bool-cases (dec.subscriber_id == winner)) [
              | inl first_one ↦ rw first_one (λ aon at. rw e (rw first_one refl))
              | inr later ↦ rw later (rw mine (λ aon at. rw e (rw later refl)))
            ])
      ]

  IsSettled-settle :
      (i port winner : ℕ) (rest : List ℕ) (dec : SubscriberDecision)
      → sorted (claims port) ≡ winner ∷ rest
      → IsHeld dec
      → IsSettled i dec
      → IsSettled i (settle port winner (claims port) dec)
  unfolding settle
  IsSettled-settle i port winner rest dec e h s =
      elim (Bool-cases (is_aon dec.domain && is_at dec.anchor_interface_id port)) [
        | inr f ↦ rw f s
        | inl t ↦ elim (Bool-cases (is_at dec.anchor_interface_id i)) [
          | inl here ↦
              subst (λ (j : ℕ). IsSettled j (settle port winner (claims port) dec))
                (at_same dec.anchor_interface_id port i (ground (arith, t)) here)
                (settle_decides port winner rest dec e h)
          | inr away ↦
              either_way (IsSettled i) (is_aon dec.domain && is_at dec.anchor_interface_id port) _ _
                (either_way (IsSettled i) (dec.subscriber_id == winner) _ _
                  (λ aon at. absurd (ground (arith, away, at)))
                  (either_way (IsSettled i) (contains dec.subscriber_id (claims port)) _ _
                    (λ aon at. absurd (ground (arith, away, at))) s))
                s
        ]
      ]

  -- An entry of the candidates has no one, or all that claim the port.
  abbrev pub IsClaimed : ℕ × List ℕ → Type 0
  IsClaimed r = (r.1 ≡ []) ⊎ (r.1 ≡ claims r.0)

  module _ (P : SubscriberDecision → Type 0)
      (kept : (port winner : ℕ) (rest : List ℕ) (dec : SubscriberDecision)
        → sorted (claims port) ≡ winner ∷ rest
        → P dec
        → P (settle port winner (claims port) dec)) where
    settle_all-kept :
        (port winner : ℕ) (rest : List ℕ) (decs : List SubscriberDecision)
        → sorted (claims port) ≡ winner ∷ rest
        → Every P decs
        → Every P (settle_all port winner (claims port) decs)
    settle_all-kept port winner rest [] e h = h
    settle_all-kept port winner rest (dec ∷ decs) e (p, h) =
        (kept port winner rest dec e p, settle_all-kept port winner rest decs e h)

    settle_port-kept :
        (a port : ℕ) (cpes : List ℕ) (m : SubscriberModel)
        → IsClaimed (port, cpes)
        → Every P m.decisions
        → Every P (settle_port a port cpes m).decisions
    unfolding settle_port
    settle_port-kept a port cpes m (inl e) h = rw e h
    settle_port-kept a port cpes m (inr e) h = rw e (elim (List-cases (sorted (claims port))) [
      | inl k ↦ rw k h
      | inr (w, rest, k) ↦ rw (k, settle_sorted) (settle_all-kept port w rest m.decisions k h)
    ])

    settle_ports-kept :
        (a : ℕ) (ports : Dict (List ℕ)) (m : SubscriberModel)
        → Every IsClaimed ports
        → Every P m.decisions
        → Every P (settle_ports a ports m).decisions
    settle_ports-kept a [] m c h = h
    settle_ports-kept a ((port, cpes) ∷ ports) m (c, cs) h =
        settle_ports-kept a ports (settle_port a port cpes m) cs
          (settle_port-kept a port cpes m c h)

    pub settle_anchors-kept :
        (rows : Dict (Dict (List ℕ))) (m : SubscriberModel)
        → Every (λ r. IsDict r.1 × Every IsClaimed r.1) rows
        → Every P m.decisions
        → Every P (settle_anchors rows m).decisions
    unfolding settle_anchors sorted_items
    settle_anchors-kept [] m c h = h
    settle_anchors-kept ((a, ports) ∷ rows) m ((d, c), cs) h = settle_anchors-kept rows _ cs (
        settle_ports-kept a (sorted_items ports) m
          (Every-sort_by IsClaimed (λ x y. ltb x.0 y.0) ports c) h)

  claimed : (ports : Dict (List ℕ)) → Every IsClaimed ports → Every IsClaimed (sorted_items ports)
  unfolding sorted_items
  claimed ports c = Every-sort_by IsClaimed (λ x y. ltb x.0 y.0) ports c

  abbrev pub IsBoth : ℕ → SubscriberDecision → Type 0
  IsBoth i dec = IsHeld dec × IsSettled i dec

  pub IsHeld-kept :
      (port winner : ℕ) (rest : List ℕ) (dec : SubscriberDecision)
      → sorted (claims port) ≡ winner ∷ rest
      → IsHeld dec
      → IsHeld (settle port winner (claims port) dec)
  IsHeld-kept port winner rest dec e h = IsHeld-settle port winner (claims port) dec h

  IsBoth-kept :
      (i port winner : ℕ) (rest : List ℕ) (dec : SubscriberDecision)
      → sorted (claims port) ≡ winner ∷ rest
      → IsBoth i dec
      → IsBoth i (settle port winner (claims port) dec)
  IsBoth-kept i port winner rest dec e (h, s) =
      (IsHeld-kept port winner rest dec e h, IsSettled-settle i port winner rest dec e h s)

  settle_all_decides :
      (port winner : ℕ) (rest : List ℕ) (decs : List SubscriberDecision)
      → sorted (claims port) ≡ winner ∷ rest
      → Every IsHeld decs
      → Every (IsBoth port) (settle_all port winner (claims port) decs)
  settle_all_decides port winner rest [] e h = tt
  settle_all_decides port winner rest (dec ∷ decs) e (p, h) = (
    (IsHeld-kept port winner rest dec e p, settle_decides port winner rest dec e p),
    settle_all_decides port winner rest decs e h,
  )

  -- A port that nobody claims decides nothing.
  pub unclaimed :
      (i : ℕ) (decs : List SubscriberDecision)
      → sorted (claims i) ≡ []
      → Every IsHeld decs
      → Every (IsBoth i) decs
  unclaimed i [] e h = tt
  unclaimed i (dec ∷ decs) e (p, h) = (
    (
      p,
      λ aon at. absurd (
          ground (
            arith,
            p i aon at,
            contains-sorted dec.subscriber_id (claims i),
            ap (contains dec.subscriber_id) e,
          )),
    ),
    unclaimed i decs e h,
  )

  settle_port_decides :
      (a port : ℕ) (m : SubscriberModel)
      → Every IsHeld m.decisions
      → Every (IsBoth port) (settle_port a port (claims port) m).decisions
  unfolding settle_port
  settle_port_decides a port m h = elim (List-cases (sorted (claims port))) [
    | inl k ↦ rw k (unclaimed port m.decisions k h)
    | inr (w, rest, k) ↦ rw (k, settle_sorted) (settle_all_decides port w rest m.decisions k h)
  ]

  settle_ports_decides :
      (a i : ℕ) (ports : Dict (List ℕ)) (m : SubscriberModel)
      → Every IsClaimed ports
      → get i ports ≡ some (claims i)
      → Every IsHeld m.decisions
      → Every (IsBoth i) (settle_ports a ports m).decisions
  settle_ports_decides a i [] m c g h = absurd (ground (arith, ap is_some g))
  settle_ports_decides a i ((port, cpes) ∷ ports) m (c, cs) g h = elim (Bool-cases (port == i)) [
    | inl here ↦
        let same : port ≡ i = (==_iff port i).0 here in
        let all : cpes ≡ claims i = some_eq (rw here at g) in
        settle_ports-kept (IsBoth i) (IsBoth-kept i) a ports (settle_port a port cpes m) cs
          (rw (all, same) (settle_port_decides a i m h))
    | inr away ↦
        settle_ports_decides a i ports (settle_port a port cpes m) cs (rw away at g)
          (settle_port-kept IsHeld IsHeld-kept a port cpes m c h)
  ]
    where
      some_eq : some cpes ≡ some (claims i) → cpes ≡ claims i
      some_eq k = ap (λ (o : Option (List ℕ)). elim o [ none ↦ cpes | some x ↦ x ]) k

  pub settle_anchors_decides :
      (a i : ℕ) (ports : Dict (List ℕ)) (rows : Dict (Dict (List ℕ))) (m : SubscriberModel)
      → Every (λ r. IsDict r.1 × Every IsClaimed r.1) rows
      → get a rows ≡ some ports
      → get i ports ≡ some (claims i)
      → Every IsHeld m.decisions
      → Every (IsBoth i) (settle_anchors rows m).decisions
  unfolding settle_anchors
  settle_anchors_decides a i ports [] m c g k h = absurd (ground (arith, ap is_some g))
  settle_anchors_decides a i ports ((b, own) ∷ rows) m ((d, c), cs) g k h =
      elim (Bool-cases (b == a)) [
        | inl here ↦
            let same : own ≡ ports = some_eq (rw here at g) in
            let found : get i (sorted_items own) ≡ some (claims i) =
              get-sorted_items i own d ∙ (ap (get i) same ∙ k) in
            settle_anchors-kept (IsBoth i) (IsBoth-kept i) rows _ cs
              (settle_ports_decides b i (sorted_items own) m (claimed own c) found h)
        | inr away ↦
            settle_anchors_decides a i ports rows _ cs (rw away at g) k
              (settle_ports-kept IsHeld IsHeld-kept b (sorted_items own) m (claimed own c) h)
      ]
    where
      some_eq : some own ≡ some ports → own ≡ ports
      some_eq e = ap (λ (o : Option (Dict (List ℕ))). elim o [ none ↦ own | some x ↦ x ]) e
