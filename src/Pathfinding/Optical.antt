-- ===== src/Pathfinding/Optical.antt =====
-- The nodes and the edges of the optical graph.
use unoc_network_simulator.Prelude.{
  ℕ, ◌≡◌, refl, ap, ◌∙◌, subst, Bool, true, ◌&&◌, ◌||◌, Option, none, some, List, [], ◌∷◌, arith,
  ◌==◌, if◌then◌else◌, Bool-cases, inl, inr, is_some, any,
}
use unoc_network_simulator.Model.{DeviceType}
use unoc_network_simulator.Pathfinding.Networkx.{Networkx, Laws, joins}
use unoc_network_simulator.Pathfinding.Defs.{
  DeviceRecord, LinkRecord, LinkKind, is_optical_type, is_optical_class, is_fiber, both, add_nodes,
  add_link, add_links, optical_test, build_optical_graph,
}

-- The type of the last record with the identifier, of those that pass.
abbrev pub node_in :
    (DeviceType → Bool) → List DeviceRecord → Option DeviceType → ℕ → Option DeviceType
node_in q [] o i = o
node_in q (d ∷ ds) o i = node_in q ds (if q d.type && d.id == i then some d.type else o) i

module _ (nx : Networkx) (laws : Laws nx) where
  pub type_of-add_nodes :
      (q : DeviceType → Bool) (ds : List DeviceRecord) (g : nx.Graph) (i : ℕ)
      → nx.type_of (add_nodes nx q ds g) i ≡ node_in q ds (nx.type_of g i) i
  type_of-add_nodes q [] g i = refl
  type_of-add_nodes q (d ∷ ds) g i =
      type_of-add_nodes q ds (if q d.type then nx.add_node d.id d.type g else g) i
      ∙ ap (λ o. node_in q ds o i)
          (elim (Bool-cases (q d.type)) [
            | inl t ↦ rw t (laws.node_type d.id i d.type g)
            | inr f ↦ rw f refl
          ])

  pub has_edge-add_nodes :
      (q : DeviceType → Bool) (ds : List DeviceRecord) (g : nx.Graph) (x y : ℕ)
      → nx.has_edge (add_nodes nx q ds g) x y ≡ nx.has_edge g x y
  has_edge-add_nodes q [] g x y = refl
  has_edge-add_nodes q (d ∷ ds) g x y =
      has_edge-add_nodes q ds (if q d.type then nx.add_node d.id d.type g else g) x y
      ∙ elim (Bool-cases (q d.type)) [
        | inl t ↦ rw t (laws.node_edge d.id x y d.type g)
        | inr f ↦ rw f refl
      ]

  both_left :
      (f : DeviceType → DeviceType → Bool) (o o' : Option DeviceType)
      → both f o o' ≡ true
      → is_some o ≡ true
  both_left f none o' h = absurd (ground arith)
  both_left f (some a) o' h = refl

  both_right :
      (f : DeviceType → DeviceType → Bool) (o o' : Option DeviceType)
      → both f o o' ≡ true
      → is_some o' ≡ true
  both_right f none o' h = absurd (ground arith)
  both_right f (some a) none h = absurd (ground arith)
  both_right f (some a) (some b) h = refl

  module _ (q : LinkKind → DeviceType → DeviceType → Bool) where
    -- The link passes the test, with the types that the graph has.
    abbrev pub passes : nx.Graph → LinkRecord → Bool
    passes g l = both (q l.kind) (nx.type_of g l.a_device_id) (nx.type_of g l.b_device_id)

    pub type_of-add_link :
        (l : LinkRecord) (g : nx.Graph) (i : ℕ) → nx.type_of (add_link nx q l g) i ≡ nx.type_of g i
    type_of-add_link l g i = elim (Bool-cases (passes g l)) [
      | inl t ↦ rw t (
          laws.edge_type l.a_device_id l.b_device_id i g
            (both_left (q l.kind) (nx.type_of g l.a_device_id) (nx.type_of g l.b_device_id) t)
            (both_right (q l.kind) (nx.type_of g l.a_device_id) (nx.type_of g l.b_device_id) t))
      | inr f ↦ rw f refl
    ]

    pub type_of-add_links :
        (ls : List LinkRecord) (g : nx.Graph) (i : ℕ)
        → nx.type_of (add_links nx q ls g) i ≡ nx.type_of g i
    type_of-add_links [] g i = refl
    type_of-add_links (l ∷ ls) g i =
        type_of-add_links ls (add_link nx q l g) i ∙ type_of-add_link l g i

    abbrev pub linked : nx.Graph → List LinkRecord → ℕ → ℕ → Bool
    linked g ls x y = any (λ l. joins l.a_device_id l.b_device_id x y && passes g l) ls

    any_same :
        (f h : LinkRecord → Bool) (ls : List LinkRecord)
        → ((l : LinkRecord) → f l ≡ h l)
        → any f ls ≡ any h ls
    any_same f h [] e = refl
    any_same f h (l ∷ ls) e = rw (e l) (ap (λ b. h l || b) (any_same f h ls e))

    has_edge-add_link :
        (l : LinkRecord) (g : nx.Graph) (x y : ℕ)
        → nx.has_edge (add_link nx q l g) x y
          ≡ (joins l.a_device_id l.b_device_id x y && passes g l || nx.has_edge g x y)
    has_edge-add_link l g x y = elim (Bool-cases (passes g l)) [
      | inl t ↦ rw t (laws.edge_edge l.a_device_id l.b_device_id x y g ∙ ground arith)
      | inr f ↦ rw f (ground arith)
    ]

    pub has_edge-add_links :
        (ls : List LinkRecord) (g : nx.Graph) (x y : ℕ)
        → nx.has_edge (add_links nx q ls g) x y ≡ (linked g ls x y || nx.has_edge g x y)
    has_edge-add_links [] g x y = refl
    has_edge-add_links (l ∷ ls) g x y =
        let same : (k : LinkRecord) → passes (add_link nx q l g) k ≡ passes g k = λ k.
          rw (type_of-add_link l g k.a_device_id) (rw (type_of-add_link l g k.b_device_id) refl) in
        let rest =
          any_same (λ k. joins k.a_device_id k.b_device_id x y && passes (add_link nx q l g) k)
            (λ k. joins k.a_device_id k.b_device_id x y && passes g k) ls
            (λ k. ap (λ b. joins k.a_device_id k.b_device_id x y && b) (same k)) in
        has_edge-add_links ls (add_link nx q l g) x y
        ∙ (rw rest (rw (has_edge-add_link l g x y) (ground arith)))

pub node_in-holds :
    (q : DeviceType → Bool) (ds : List DeviceRecord) (o : Option DeviceType) (i : ℕ)
    (ty : DeviceType)
    → ((u : DeviceType) → o ≡ some u → q u ≡ true)
    → node_in q ds o i ≡ some ty
    → q ty ≡ true
node_in-holds q [] o i ty h e = h ty e
node_in-holds q (d ∷ ds) o i ty h e =
    node_in-holds q ds (if q d.type && d.id == i then some d.type else o) i ty
      (λ u k. elim (Bool-cases (q d.type && d.id == i)) [
        | inl t ↦
            let same : d.type ≡ u =
              ap (λ (p : Option DeviceType). elim p [ none ↦ d.type | some z ↦ z ]) (rw t at k) in
            subst (λ z. q z ≡ true) same (ground (arith, t))
        | inr f ↦ h u (rw f at k)
      ])
      e

-- A record stands for a node of the optical graph.
abbrev pub is_optical_node : List DeviceRecord → ℕ → Bool
is_optical_node ds i = is_some (node_in is_optical_type ds none i)

abbrev pub carries_optical : List DeviceRecord → LinkRecord → Bool
carries_optical ds l =
    (is_optical_class l.kind || is_fiber l.kind)
    && (is_optical_node ds l.a_device_id && is_optical_node ds l.b_device_id)

-- Of two optical types, the test of a FIBER link's types is always passed.
optical_pair :
    (k : LinkKind) (o o' : Option DeviceType)
    → ((u : DeviceType) → o ≡ some u → is_optical_type u ≡ true)
    → ((u : DeviceType) → o' ≡ some u → is_optical_type u ≡ true)
    → (nx : Networkx)
    → both (optical_test nx k) o o'
      ≡ ((is_optical_class k || is_fiber k) && (is_some o && is_some o'))
optical_pair k none o' h h' nx = ground arith
optical_pair k (some a) none h h' nx = ground arith
optical_pair k (some a) (some b) h h' nx = ground (arith, h a refl, h' b refl)

-- With any graph library that does what networkx documents, the optical graph has an edge between
-- two devices exactly if a link between them is FIBER or of an optical class, and both its ends are
-- optical devices: OLTs, ONTs or passive inline devices.
pub build_optical_graph-has_edge :
    (nx : Networkx) (laws : Laws nx) (ds : List DeviceRecord) (ls : List LinkRecord) (x y : ℕ)
    → nx.has_edge (build_optical_graph nx ds ls) x y
      ≡ any (λ l. joins l.a_device_id l.b_device_id x y && carries_optical ds l) ls
unfolding build_optical_graph
build_optical_graph-has_edge nx laws ds ls x y =
    let g = add_nodes nx is_optical_type ds nx.empty in
    let typed : (i : ℕ) → nx.type_of g i ≡ node_in is_optical_type ds none i = λ i.
      type_of-add_nodes nx laws is_optical_type ds nx.empty i
      ∙ ap (λ o. node_in is_optical_type ds o i) (laws.empty_type i) in
    let optical : (i : ℕ) (u : DeviceType)
        → node_in is_optical_type ds none i ≡ some u
        → is_optical_type u ≡ true =
      λ i u e. node_in-holds is_optical_type ds none i u (λ v k. absurd (ground arith)) e in
    let same : (l : LinkRecord) → passes nx laws (optical_test nx) g l ≡ carries_optical ds l = λ l.
      rw (typed l.a_device_id, typed l.b_device_id)
        (optical_pair l.kind (node_in is_optical_type ds none l.a_device_id)
          (node_in is_optical_type ds none l.b_device_id) (optical l.a_device_id)
          (optical l.b_device_id) nx) in
    has_edge-add_links nx laws (optical_test nx) ls g x y
    ∙ (rw (has_edge-add_nodes nx laws is_optical_type ds nx.empty x y ∙ laws.empty_edge x y)
          (ground arith)
        ∙ any_same nx laws (optical_test nx)
            (λ l. joins l.a_device_id l.b_device_id x y && passes nx laws (optical_test nx) g l)
            (λ l. joins l.a_device_id l.b_device_id x y && carries_optical ds l) ls
            (λ l. ap (λ b. joins l.a_device_id l.b_device_id x y && b) (same l)))
