-- ===== src/Pathfinding/Logical.antt =====
-- The edges of the logical graph.
use unoc_network_simulator.Prelude.{
  ℕ, ◌≡◌, refl, ap, sym, ◌∙◌, Bool, true, false, not, ◌&&◌, ◌||◌, Option, none, some, List, [], ◌∷◌,
  arith, ◌==◌, if◌then◌else◌, Bool-cases, Option-cases, inl, inr, is_some, any, find, ==_refl,
}
use unoc_network_simulator.Prelude.Sorting.{Every}
use unoc_network_simulator.Model.{
  DeviceType, backbone_gateway, pop, core_site, core_router, edge_router, aon_switch, olt, ont,
  aon_cpe, splitter, hop, nvt, odf, business_ont, is_ont,
}
use unoc_network_simulator.Pathfinding.Networkx.{Networkx, Laws}
use unoc_network_simulator.Pathfinding.Defs.{
  DeviceRecord, LinkRecord, is_optical_type, is_logical_type, is_olt, is_olt_id, optical_nodes,
  add_nodes, add_links, logical_test, collapse_to, collapse_end, collapse, build_logical_graph,
}
use unoc_network_simulator.Pathfinding.Optical.{node_in, type_of-add_nodes, type_of-add_links}
use unoc_network_simulator.Pathfinding.Collapse.{SeesOlt, collapse_end-SeesOlt}

module _ (nx : Networkx) (laws : Laws nx) where
  type_of-collapse_to :
      (i : ℕ) (o : Option ℕ) (g : nx.Graph) (x : ℕ)
      → nx.type_of (collapse_to nx i o g) x ≡ nx.type_of g x
  type_of-collapse_to i none g x = refl
  type_of-collapse_to i (some o) g x =
      let test =
        is_some (nx.type_of g i) && (is_some (nx.type_of g o) && not (nx.has_edge g i o)) in
      elim (Bool-cases test) [
        | inl t ↦ rw t (laws.edge_type i o x g (ground (arith, t)) (ground (arith, t)))
        | inr f ↦ rw f refl
      ]

  -- Edges are never taken away.
  has_edge-collapse_to :
      (i : ℕ) (o : Option ℕ) (g : nx.Graph) (x y : ℕ)
      → nx.has_edge g x y ≡ true
      → nx.has_edge (collapse_to nx i o g) x y ≡ true
  has_edge-collapse_to i none g x y h = h
  has_edge-collapse_to i (some o) g x y h =
      let test =
        is_some (nx.type_of g i) && (is_some (nx.type_of g o) && not (nx.has_edge g i o)) in
      elim (Bool-cases test) [
        | inl t ↦ rw t (laws.edge_edge i o x y g ∙ ground (arith, h))
        | inr f ↦ rw f h
      ]

  joined-collapse_to :
      (i o : ℕ) (g : nx.Graph)
      → is_some (nx.type_of g i) ≡ true
      → is_some (nx.type_of g o) ≡ true
      → nx.has_edge (collapse_to nx i (some o) g) i o ≡ true
  joined-collapse_to i o g hi ho = elim (Bool-cases (nx.has_edge g i o)) [
    | inl t ↦ has_edge-collapse_to i (some o) g i o t
    | inr f ↦
        rw (hi, ho, f, collapse_to)
          (laws.edge_edge i o i o g ∙ ground (arith, ==_refl i, ==_refl o))
  ]

  module _ (ds : List DeviceRecord) (ls : List LinkRecord) where
    abbrev turn : DeviceRecord → nx.Graph → nx.Graph
    turn d g = if is_ont d.type then collapse_to nx d.id (collapse_end nx ds ls d.id) g else g

    type_of-turn :
        (d : DeviceRecord) (g : nx.Graph) (x : ℕ) → nx.type_of (turn d g) x ≡ nx.type_of g x
    type_of-turn d g x = elim (Bool-cases (is_ont d.type)) [
      | inl t ↦ rw t (type_of-collapse_to d.id (collapse_end nx ds ls d.id) g x)
      | inr f ↦ rw f refl
    ]

    has_edge-turn :
        (d : DeviceRecord) (g : nx.Graph) (x y : ℕ)
        → nx.has_edge g x y ≡ true
        → nx.has_edge (turn d g) x y ≡ true
    has_edge-turn d g x y h = elim (Bool-cases (is_ont d.type)) [
      | inl t ↦ rw t (has_edge-collapse_to d.id (collapse_end nx ds ls d.id) g x y h)
      | inr f ↦ rw f h
    ]

    type_of-collapse :
        (rows : List DeviceRecord) (g : nx.Graph) (x : ℕ)
        → nx.type_of (collapse nx ds ls rows g) x ≡ nx.type_of g x
    type_of-collapse [] g x = refl
    type_of-collapse (d ∷ rows) g x = type_of-collapse rows (turn d g) x ∙ type_of-turn d g x

    has_edge-collapse :
        (rows : List DeviceRecord) (g : nx.Graph) (x y : ℕ)
        → nx.has_edge g x y ≡ true
        → nx.has_edge (collapse nx ds ls rows g) x y ≡ true
    has_edge-collapse [] g x y h = h
    has_edge-collapse (d ∷ rows) g x y h =
        has_edge-collapse rows (turn d g) x y (has_edge-turn d g x y h)

    -- An ONT is joined to the end of its collapse.
    abbrev IsJoined : nx.Graph → DeviceRecord → Type 0
    IsJoined g d =
        (o : ℕ)
        → is_ont d.type ≡ true
        → collapse_end nx ds ls d.id ≡ some o
        → is_some (nx.type_of g d.id) ≡ true
        → is_some (nx.type_of g o) ≡ true
        → nx.has_edge g d.id o ≡ true

    collapse_joins :
        (rows : List DeviceRecord) (g : nx.Graph) → Every (IsJoined (collapse nx ds ls rows g)) rows
    collapse_joins [] g = tt
    collapse_joins (d ∷ rows) g =
        let kept : (x : ℕ) → nx.type_of (collapse nx ds ls rows (turn d g)) x ≡ nx.type_of g x =
          λ x. type_of-collapse rows (turn d g) x ∙ type_of-turn d g x in
        (
          λ o is e hi ho. has_edge-collapse rows (turn d g) d.id o (
              rw is (
                rw e (
                  joined-collapse_to d.id o g (ap is_some (sym (kept d.id)) ∙ hi)
                    (ap is_some (sym (kept o)) ∙ ho)))),
          collapse_joins rows (turn d g),
        )

any_grows :
    (f h : DeviceRecord → Bool) (rows : List DeviceRecord)
    → ((d : DeviceRecord) → f d ≡ true → h d ≡ true)
    → any f rows ≡ true
    → any h rows ≡ true
any_grows f h [] e k = absurd (ground arith)
any_grows f h (d ∷ rows) e k = elim (Bool-cases (f d)) [
  | inl t ↦ ground (arith, e d t)
  | inr n ↦ ground (arith, any_grows f h rows e (ground (arith, k, n)))
]

any-optical_nodes :
    (nx : Networkx) (f : DeviceRecord → Bool) (ds : List DeviceRecord)
    → any f (optical_nodes nx ds) ≡ true
    → any f ds ≡ true
any-optical_nodes nx f [] h = h
any-optical_nodes nx f (d ∷ ds) h = elim (Bool-cases (is_optical_type d.type)) [
  | inl t ↦
      let h' : (f d || any f (optical_nodes nx ds)) ≡ true = rw t at h in
      elim (Bool-cases (f d)) [
        | inl good ↦ ground (arith, good)
        | inr bad ↦ ground (arith, any-optical_nodes nx f ds (ground (arith, h', bad)))
      ]
  | inr n ↦
      let h' : any f (optical_nodes nx ds) ≡ true = rw n at h in
      ground (arith, any-optical_nodes nx f ds h')
]

find-any :
    (q : DeviceType → Bool) (rows : List DeviceRecord) (i : ℕ) (d : DeviceRecord)
    → find (λ r. r.id == i) rows ≡ some d
    → q d.type ≡ true
    → any (λ r. q r.type && r.id == i) rows ≡ true
find-any q [] i d h k = absurd (ground arith)
find-any q (r ∷ rows) i d h k = elim (Bool-cases (r.id == i)) [
  | inl t ↦
      let same : r ≡ d =
        ap (λ (o : Option DeviceRecord). elim o [ none ↦ r | some z ↦ z ]) (rw t at h) in
      let good : q r.type ≡ true = ap (λ (z : DeviceRecord). q z.type) same ∙ k in
      ground (arith, good, t)
  | inr n ↦ ground (arith, find-any q rows i d (rw n at h) k)
]

node_in-some :
    (q : DeviceType → Bool) (ds : List DeviceRecord) (o : Option DeviceType) (i : ℕ)
    → (is_some o || any (λ r. q r.type && r.id == i) ds) ≡ true
    → is_some (node_in q ds o i) ≡ true
node_in-some q [] o i h = ground (arith, h)
node_in-some q (d ∷ ds) o i h = elim (Bool-cases (q d.type && d.id == i)) [
  | inl t ↦ rw t (node_in-some q ds (some d.type) i refl)
  | inr n ↦ rw n (node_in-some q ds o i (ground (arith, h, n)))
]

-- A record is among the records.
Every-self :
    (f : DeviceRecord → DeviceRecord → Bool) (rows : List DeviceRecord)
    → ((d : DeviceRecord) → f d d ≡ true)
    → Every (λ d. any (f d) rows ≡ true) rows
Every-self f [] e = tt
Every-self f (d ∷ rows) e = (ground (arith, e d), later rows (Every-self f rows e))
  where
    later :
        (xs : List DeviceRecord)
        → Every (λ r. any (f r) rows ≡ true) xs
        → Every (λ r. any (f r) (d ∷ rows) ≡ true) xs
    later [] h = tt
    later (x ∷ xs) (p, h) = (ground (arith, p), later xs h)

ont_is_logical : (ty : DeviceType) → is_ont ty ≡ true → is_logical_type ty ≡ true
ont_is_logical backbone_gateway h = refl
ont_is_logical pop h = h
ont_is_logical core_site h = h
ont_is_logical core_router h = refl
ont_is_logical edge_router h = refl
ont_is_logical aon_switch h = refl
ont_is_logical olt h = refl
ont_is_logical ont h = refl
ont_is_logical aon_cpe h = refl
ont_is_logical splitter h = h
ont_is_logical hop h = h
ont_is_logical nvt h = h
ont_is_logical odf h = h
ont_is_logical business_ont h = refl

olt_is_logical : (ty : DeviceType) → is_olt ty ≡ true → is_logical_type ty ≡ true
olt_is_logical olt h = refl
olt_is_logical backbone_gateway h = refl
olt_is_logical core_router h = refl
olt_is_logical edge_router h = refl
olt_is_logical aon_switch h = refl
olt_is_logical aon_cpe h = refl
olt_is_logical ont h = refl
olt_is_logical business_ont h = refl
olt_is_logical pop h = absurd (ground arith)
olt_is_logical core_site h = absurd (ground arith)
olt_is_logical splitter h = absurd (ground arith)
olt_is_logical hop h = absurd (ground arith)
olt_is_logical nvt h = absurd (ground arith)
olt_is_logical odf h = absurd (ground arith)

module _ (nx : Networkx) (laws : Laws nx) (ds : List DeviceRecord) (ls : List LinkRecord) where
  -- The nodes of the logical graph are the logical devices.
  type_of-build_logical_graph :
      (i : ℕ)
      → nx.type_of (build_logical_graph nx ds ls false) i ≡ node_in is_logical_type ds none i
  unfolding build_logical_graph
  type_of-build_logical_graph i =
      let g = add_nodes nx is_logical_type ds nx.empty in
      type_of-collapse nx laws ds ls (optical_nodes nx ds) (add_links nx (logical_test nx) ls g) i
      ∙ (type_of-add_links nx laws (logical_test nx) ls g i
          ∙ (type_of-add_nodes nx laws is_logical_type ds nx.empty i
              ∙ ap (λ o. node_in is_logical_type ds o i) (laws.empty_type i)))

  olt_there :
      (o : ℕ) → is_olt_id nx ds o ≡ true → is_some (node_in is_logical_type ds none o) ≡ true
  olt_there o h = elim (Option-cases (find (λ r. r.id == o) (optical_nodes nx ds))) [
    | inl gone ↦ absurd (ground (arith, h, gone))
    | inr (d, e) ↦
        let is_one : is_olt d.type ≡ true = ground (arith, h, e) in
        let somewhere =
          any-optical_nodes nx (λ r. is_olt r.type && r.id == o) ds
            (find-any is_olt (optical_nodes nx ds) o d e is_one) in
        node_in-some is_logical_type ds none o (
          any_grows (λ r. is_olt r.type && r.id == o) (λ r. is_logical_type r.type && r.id == o) ds
            (λ r k. ground (arith, olt_is_logical r.type, k)) somewhere)
  ]

  -- An ONT is joined to an OLT.
  abbrev pub HasOlt : ℕ → Type 0
  HasOlt i =
      (o : ℕ) × (is_olt_id nx ds o ≡ true)
      × (nx.has_edge (build_logical_graph nx ds ls false) i o ≡ true)

  abbrev named : DeviceRecord → DeviceRecord → Bool
  named d r = r.id == d.id && (not (is_ont d.type) || is_logical_type r.type)

  finish :
      (rows : List DeviceRecord)
      → Every (λ d. any (named d) ds ≡ true) rows
      → Every (IsJoined nx laws ds ls (build_logical_graph nx ds ls false)) rows
      → Every
          (λ d.
            is_ont d.type ≡ true
            → is_olt_id nx ds d.id ≡ false
            → SeesOlt nx ds ls d.id
            → HasOlt d.id)
          rows
  finish [] h k = tt
  finish (d ∷ rows) (here_is, h) (joined, k) = (
    λ is bare sees.
        let (o, e, good) = collapse_end-SeesOlt nx ds ls d.id bare sees in
        let there = node_in-some is_logical_type ds none d.id (
          any_grows (named d) (λ r. is_logical_type r.type && r.id == d.id) ds
            (λ r m. ground (arith, m, is)) here_is) in
        (
          o,
          good,
          joined o is e (ap is_some (type_of-build_logical_graph d.id) ∙ there)
              (ap is_some (type_of-build_logical_graph o) ∙ olt_there o good),
        ),
    finish rows h k,
  )

  -- In the strict logical graph, whatever graph library does what networkx documents, each ONT whose
  -- identifier is no OLT's, and from which a device that is an OLT can be come to along links between
  -- optical devices, has an edge to an OLT, so that an ONT behind passive devices stands beside one.
  pub build_logical_graph-HasOlt :
      Every
        (λ d.
          is_ont d.type ≡ true → is_olt_id nx ds d.id ≡ false → SeesOlt nx ds ls d.id → HasOlt d.id)
        (optical_nodes nx ds)
  unfolding build_logical_graph
  build_logical_graph-HasOlt =
      finish (optical_nodes nx ds)
        (among (optical_nodes nx ds) (Every-self named (optical_nodes nx ds) self))
        (collapse_joins nx laws ds ls (optical_nodes nx ds)
          (add_links nx (logical_test nx) ls (add_nodes nx is_logical_type ds nx.empty)))
    where
      self : (d : DeviceRecord) → named d d ≡ true
      self d = ground (arith, ==_refl d.id, ont_is_logical d.type)

      among :
          (rows : List DeviceRecord)
          → Every (λ d. any (named d) (optical_nodes nx ds) ≡ true) rows
          → Every (λ d. any (named d) ds ≡ true) rows
      among [] h = tt
      among (d ∷ rows) (p, h) = (any-optical_nodes nx (named d) ds p, among rows h)
