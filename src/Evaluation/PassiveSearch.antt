-- ===== src/Evaluation/PassiveSearch.antt =====
-- The search for an upstream that `eval_passive_status` makes, and the stacks and queues of its searches.
use unoc_network_simulator.Prelude.{
  ℕ, ◌≡◌, ◌↔◌, refl, ap, ◌∙◌, subst, Bool, true, false, not, ◌&&◌, ◌||◌, some, List, [], ◌∷◌, ◌++◌,
  arith, ◌==◌, Bool-cases, Option-cases, inl, inr, any, ==_iff,
}
use unoc_network_simulator.Prelude.Sets.{contains, contains-append, contains-pick}
use unoc_network_simulator.Model.{
  DeviceType, backbone_gateway, pop, core_site, core_router, edge_router, aon_switch, olt, ont,
  aon_cpe, splitter, hop, nvt, odf, business_ont, is_passive_inline, Interface, Link,
}
use unoc_network_simulator.Model.Tables.{Tables, get_device, interfaces_of}
use unoc_network_simulator.Search.Walks.{Walk, seed, step}
use unoc_network_simulator.Search.Sweep.Seek.{seek_iff}
use unoc_network_simulator.Search.Queues.{push_top, push_top-IsPush}
use unoc_network_simulator.Evaluation.Passive.{
  is_upstream, ends_of, adjacent, of_class, passive_next, finds_upstream, reversed, owners,
  fuel_for, chain_has_upstream,
}

contains-reversed : (x : ℕ) (xs : List ℕ) → contains x (reversed xs) ≡ contains x xs
contains-reversed x [] = refl
contains-reversed x (y ∷ ys) =
    contains-append x (reversed ys) (y ∷ []) ∙ ground (arith, contains-reversed x ys)

unowned :
    (rows : List Interface) (v : ℕ) → contains v (owners rows) ≡ false → interfaces_of rows v ≡ []
unowned [] v h = refl
unowned (r ∷ rs) v h = ground (arith, unowned rs v)

ends_of_none : (t : Tables) (ls : List Link) → ends_of t [] ls ≡ []
unfolding ends_of
ends_of_none t [] = refl
ends_of_none t (l ∷ ls) = ends_of_none t ls

pub known : (t : Tables) (v : ℕ) → contains v (owners t.interfaces) ≡ false → passive_next t v ≡ []
unfolding passive_next adjacent
known t v h = rw (unowned t.interfaces v h) (rw (ends_of_none t t.links) refl)

classes_apart : (ty : DeviceType) → (is_upstream ty && is_passive_inline ty) ≡ false
classes_apart backbone_gateway = refl
classes_apart pop = refl
classes_apart core_site = refl
classes_apart core_router = refl
classes_apart edge_router = refl
classes_apart aon_switch = refl
classes_apart olt = refl
classes_apart ont = refl
classes_apart aon_cpe = refl
classes_apart splitter = refl
classes_apart hop = refl
classes_apart nvt = refl
classes_apart odf = refl
classes_apart business_ont = refl

rows_apart :
    (t : Tables) (i : ℕ) → of_class is_passive_inline t i ≡ true → of_class is_upstream t i ≡ false
rows_apart t i h = elim (Option-cases (get_device t.devices i)) [
  | inl gone ↦ ground (arith, gone)
  | inr (d, e) ↦ elim (Bool-cases (is_upstream d.type)) [
    | inr f ↦ ground (arith, e, f)
    | inl up_there ↦ elim (Bool-cases (is_passive_inline d.type)) [
      | inr f ↦ absurd (ground (arith, e, f))
      | inl both ↦ absurd (ground (arith, classes_apart d.type, up_there, both))
    ]
  ]
]

any_ext : (p q : ℕ → Bool) (xs : List ℕ) → ((w : ℕ) → p w ≡ q w) → any p xs ≡ any q xs
any_ext p q [] h = refl
any_ext p q (x ∷ xs) h = ground (arith, h x, any_ext p q xs h)

-- A device has an upstream: it is a candidate with one, or next to a device with one.
abbrev pub near_upstream : Tables → (ℕ → Bool) → List ℕ → ℕ → Bool
near_upstream t ok candidates u =
    contains u candidates && ok u || any (λ w. of_class is_upstream t w && ok w) (adjacent t u)

module _ (t : Tables) (ok : ℕ → Bool) (candidates passives : List ℕ)
    (all_passive : (i : ℕ)
      → contains i passives ≡ true
      → of_class is_passive_inline t i ≡ true) where
  abbrev seeds : List ℕ
  seeds = candidates ++ passives

  upstream_is_candidate :
      (u : ℕ)
      → Walk seeds (passive_next t) (λ _. true) u
      → of_class is_upstream t u ≡ true
      → contains u candidates ≡ true
  unfolding passive_next
  upstream_is_candidate u (seed _ m) h = elim (Bool-cases (contains u passives)) [
    | inl passive_too ↦ absurd (ground (arith, rows_apart t u (all_passive u passive_too), h))
    | inr other ↦ ground (arith, contains-append u candidates passives, m, other)
  ]
  upstream_is_candidate u (step x _ w edge enter) h =
      let is_passive = contains-pick (of_class is_passive_inline t) (adjacent t x) u in
      absurd (ground (arith, rows_apart t u (ground (arith, is_passive, edge)), h))

  no_upstream :
      (w : ℕ)
      → Walk seeds (passive_next t) (λ _. true) w
      → (contains w candidates && ok w) ≡ false
      → (of_class is_upstream t w && ok w) ≡ false
  no_upstream w walk h = elim (Bool-cases (of_class is_upstream t w)) [
    | inr f ↦ ground (arith, f)
    | inl there ↦ ground (arith, there, upstream_is_candidate w walk there, h)
  ]

  upstream_agree :
      (checked : List ℕ) (u : ℕ)
      → Walk seeds (passive_next t) (λ _. true) u
      → ((w : ℕ)
          → contains w checked ≡ true
          → Walk seeds (passive_next t) (λ _. true) w × (near_upstream t ok candidates w ≡ false))
      → finds_upstream t ok candidates (u ∷ checked) u ≡ near_upstream t ok candidates u
  unfolding finds_upstream
  upstream_agree checked u walk missed = elim (Bool-cases (contains u candidates && ok u)) [
    | inl found ↦ ground (arith, found)
    | inr not_here ↦
        ap (λ b. contains u candidates && ok u || b)
          (any_ext (λ w. not (contains w (u ∷ checked)) && (of_class is_upstream t w && ok w))
            (λ w. of_class is_upstream t w && ok w) (adjacent t u)
            (λ w. elim (Bool-cases (contains w (u ∷ checked))) [
              | inr new ↦ rw new refl
              | inl old ↦ elim (Bool-cases (u == w)) [
                | inl same ↦
                    let e = (==_iff u w).0 same in
                    let gone = no_upstream u walk not_here in
                    ground (
                      arith,
                      old,
                      subst (λ (y : ℕ). (of_class is_upstream t y && ok y) ≡ false) e gone,
                    )
                | inr other ↦
                    let (walk_w, miss) = missed w (ground (arith, old, other)) in
                    ground (arith, old, no_upstream w walk_w (ground (arith, miss)))
              ]
            ]))
  ]

  -- The first search ends, and finds an upstream exactly if a walk over passive devices, from a
  -- candidate or a passive neighbour, comes near one.
  pub chain_iff :
      (b : Bool) × (chain_has_upstream t ok candidates passives ≡ some b)
      × ((b ≡ true) ↔ (
          (v : ℕ) × Walk seeds (passive_next t) (λ _. true) v
          × (near_upstream t ok candidates v ≡ true)))
  unfolding chain_has_upstream
  chain_iff =
      seek_iff (passive_next t) push_top push_top-IsPush seeds (finds_upstream t ok candidates)
        (near_upstream t ok candidates) upstream_agree (owners t.interfaces) (known t)
        (fuel_for t (reversed seeds)) (reversed seeds) (λ v. contains-reversed v seeds)
        (omega arith)
