-- ===== src/Samples/Graphs.antt =====
-- A graph library that does what the services use of networkx, on lists.
use unoc_network_simulator.Prelude.{
  ℕ, ◌+◌, ◌≡◌, refl, ap, sym, ◌∙◌, subst, ◌↔◌, Bool, true, false, ◌&&◌, ◌||◌, Option, none, some,
  List, [], ◌∷◌, ◌++◌, arith, ◌==◌, if◌then◌else◌, Bool-cases, inl, inr, is_some, ==_iff, ==_refl,
}
use unoc_network_simulator.Prelude.Sets.{contains, contains-append}
use unoc_network_simulator.Model.{DeviceType}
use unoc_network_simulator.Search.Walks.{Walk, seed, Route, Walk_of_Route, unseen}
use unoc_network_simulator.Search.Flood.Paths.{trail, start_trails, IsTrailTo, trail_correct}
use unoc_network_simulator.Pathfinding.Networkx.{Networkx, Laws, joins}

pub record ListGraph : Type 0 where
  pub types : List (ℕ × DeviceType)
  pub links : List (ℕ × ℕ)

abbrev type_in : List (ℕ × DeviceType) → ℕ → Option DeviceType
type_in [] x = none
type_in ((i, ty) ∷ rest) x = if i == x then some ty else type_in rest x

abbrev edge_in : List (ℕ × ℕ) → ℕ → ℕ → Bool
edge_in [] x y = false
edge_in ((a, b) ∷ rest) x y = joins a b x y || edge_in rest x y

abbrev beside : List (ℕ × ℕ) → ℕ → List ℕ
beside [] x = []
beside ((a, b) ∷ rest) x =
    (if a == x then b ∷ [] else []) ++ ((if b == x then a ∷ [] else []) ++ beside rest x)

abbrev typed_ids : List (ℕ × DeviceType) → List ℕ
typed_ids [] = []
typed_ids ((i, ty) ∷ rest) = i ∷ typed_ids rest

abbrev ends_of : List (ℕ × ℕ) → List ℕ
ends_of [] = []
ends_of ((a, b) ∷ rest) = a ∷ b ∷ ends_of rest

abbrev all_nodes : ListGraph → List ℕ
all_nodes g = typed_ids g.types ++ ends_of g.links

abbrev types_where : (ℕ → Bool) → List (ℕ × DeviceType) → List (ℕ × DeviceType)
types_where q [] = []
types_where q ((i, ty) ∷ rest) = let r = types_where q rest in if q i then (i, ty) ∷ r else r

abbrev links_where : (ℕ → Bool) → List (ℕ × ℕ) → List (ℕ × ℕ)
links_where q [] = []
links_where q ((a, b) ∷ rest) = let r = links_where q rest in if q a && q b then (a, b) ∷ r else r

pub path_between : ListGraph → ℕ → ℕ → Option (Option (List ℕ))
path_between g a b =
    trail (beside g.links) b (unseen (all_nodes g) (a ∷ []) + 1) (start_trails (beside g.links) b a)

abbrev flat : Option (Option (List ℕ)) → Option (List ℕ)
flat none = none
flat (some p) = p

abbrev pub list_graphs : Networkx
list_graphs = record {
  Graph = ListGraph;
  empty = record { types = []; links = [] };
  add_node = λ i ty g. record g { types = (i, ty) ∷ g.types };
  add_edge = λ a b g. record g { links = (a, b) ∷ g.links };
  type_of = λ g x. type_in g.types x;
  nodes = all_nodes;
  neighbors = λ g x. beside g.links x;
  has_edge = λ g x y. edge_in g.links x y;
  subgraph = λ q g. record { types = types_where q g.types; links = links_where q g.links };
  has_path = λ g a b. is_some (flat (path_between g a b));
  shortest_path = λ g a b. flat (path_between g a b);
}

contains-beside : (es : List (ℕ × ℕ)) (x y : ℕ) → contains y (beside es x) ≡ edge_in es x y
contains-beside [] x y = refl
contains-beside ((a, b) ∷ es) x y =
    contains-append y (if a == x then b ∷ [] else []) _
    ∙ (ap (λ c. contains y (if a == x then b ∷ [] else []) || c)
          (contains-append y (if b == x then a ∷ [] else []) (beside es x))
        ∙ ground (arith, contains-beside es x y))

edge_in_sym : (es : List (ℕ × ℕ)) (x y : ℕ) → edge_in es x y ≡ edge_in es y x
edge_in_sym [] x y = refl
edge_in_sym ((a, b) ∷ es) x y = ground (arith, edge_in_sym es x y)

edge_in_ends :
    (es : List (ℕ × ℕ)) (x y : ℕ) → edge_in es x y ≡ true → contains y (ends_of es) ≡ true
edge_in_ends [] x y h = absurd (ground arith)
edge_in_ends ((a, b) ∷ es) x y h = ground (arith, edge_in_ends es x y)

type_in_ids :
    (ts : List (ℕ × DeviceType)) (x : ℕ)
    → is_some (type_in ts x) ≡ true
    → contains x (typed_ids ts) ≡ true
type_in_ids [] x h = absurd (ground arith)
type_in_ids ((i, ty) ∷ ts) x h = ground (arith, type_in_ids ts x)

type_in_where :
    (q : ℕ → Bool) (ts : List (ℕ × DeviceType)) (x : ℕ)
    → type_in (types_where q ts) x ≡ (if q x then type_in ts x else none)
type_in_where q [] x = ground arith
type_in_where q ((i, ty) ∷ ts) x = elim (Bool-cases (i == x)) [
  | inl same ↦
      let e : i ≡ x = (==_iff i x).0 same in
      elim (Bool-cases (q x)) [
        | inl t ↦ let t' : q i ≡ true = ap q e ∙ t in rw (t', t) (rw same refl)
        | inr f ↦ let f' : q i ≡ false = ap q e ∙ f in rw (f', f) (type_in_where q ts x ∙ rw f refl)
      ]
  | inr other ↦ elim (Bool-cases (q i)) [
    | inl t ↦ rw t (rw other (type_in_where q ts x))
    | inr f ↦ rw f (rw other (type_in_where q ts x))
  ]
]

joins_ends : (q : ℕ → Bool) (a b x y : ℕ) → joins a b x y ≡ true → (q a && q b) ≡ (q x && q y)
joins_ends q a b x y h = elim (Bool-cases (a == x && b == y)) [
  | inl t ↦
      let ea : a ≡ x = (==_iff a x).0 (ground (arith, t)) in
      let eb : b ≡ y = (==_iff b y).0 (ground (arith, t)) in rw (ea, eb) refl
  | inr f ↦
      let ea : a ≡ y = (==_iff a y).0 (ground (arith, h, f)) in
      let eb : b ≡ x = (==_iff b x).0 (ground (arith, h, f)) in rw (ea, eb) (ground arith)
]

edge_in_where :
    (q : ℕ → Bool) (es : List (ℕ × ℕ)) (x y : ℕ)
    → edge_in (links_where q es) x y ≡ (edge_in es x y && (q x && q y))
edge_in_where q [] x y = refl
edge_in_where q ((a, b) ∷ es) x y = elim (Bool-cases (joins a b x y)) [
  | inl j ↦
      let same = joins_ends q a b x y j in
      elim (Bool-cases (q a && q b)) [
        | inl t ↦ rw t (ground (arith, j, edge_in_where q es x y, same, t))
        | inr f ↦ rw f (ground (arith, j, edge_in_where q es x y, same, f))
      ]
  | inr n ↦ elim (Bool-cases (q a && q b)) [
    | inl t ↦ rw t (ground (arith, n, edge_in_where q es x y))
    | inr f ↦ rw f (ground (arith, n, edge_in_where q es x y))
  ]
]

path_between_correct :
    (g : ListGraph) (a b : ℕ)
    → (r : Option (List ℕ)) × (path_between g a b ≡ some r) × IsTrailTo (beside g.links) b a r
unfolding path_between
path_between_correct g a b =
    trail_correct (beside g.links) b a (all_nodes g)
      (λ u v m.
        contains-append v (typed_ids g.types) (ends_of g.links)
        ∙ ground (arith, edge_in_ends g.links u v (sym (contains-beside g.links u v) ∙ m)))
      (unseen (all_nodes g) (a ∷ []) + 1) (omega arith)

some_inj : (x y : List ℕ) → some x ≡ some y → x ≡ y
some_inj x y h = ap (λ (o : Option (List ℕ)). elim o [ none ↦ x | some z ↦ z ]) h

is_path_iff :
    (g : ListGraph) (a b : ℕ) (r : Option (List ℕ))
    → IsTrailTo (beside g.links) b a r
    → (is_some r ≡ true) ↔ Walk (a ∷ []) (beside g.links) (λ _. true) b
is_path_iff g a b none h = (λ k. absurd (ground arith), λ w. absurd (h w))
is_path_iff g a b (some p) h = (
  λ k. Walk_of_Route (a ∷ []) (beside g.links) a b p (seed a (ground (arith, ==_refl a))) h,
  λ w. refl,
)

route_of :
    (g : ListGraph) (a b : ℕ) (r : Option (List ℕ)) (p : List ℕ)
    → IsTrailTo (beside g.links) b a r
    → r ≡ some p
    → Route (beside g.links) a p b
route_of g a b none p h e = absurd (ground arith)
route_of g a b (some q) p h e =
    subst (λ (z : List ℕ). Route (beside g.links) a z b) (some_inj q p e) h

found_of : (r : Option (List ℕ)) → is_some r ≡ true → (p : List ℕ) × (r ≡ some p)
found_of none h = absurd (ground arith)
found_of (some p) h = (p, refl)

pub list_graphs-Laws : Laws list_graphs
list_graphs-Laws = record {
  empty_type = λ x. refl;
  empty_edge = λ x y. refl;
  node_type = λ i x ty g. refl;
  node_edge = λ i x y ty g. refl;
  edge_type = λ a b x g ha hb. refl;
  edge_edge = λ a b x y g. refl;
  edge_sym = λ x y g. edge_in_sym g.links x y;
  neighbor = λ g x y. contains-beside g.links x y;
  node = λ g x h.
      contains-append x (typed_ids g.types) (ends_of g.links)
      ∙ ground (arith, type_in_ids g.types x h);
  edge_node = λ g x y h.
      contains-append y (typed_ids g.types) (ends_of g.links)
      ∙ ground (arith, edge_in_ends g.links x y h);
  sub_type = λ q g x. type_in_where q g.types x;
  sub_edge = λ q g x y. edge_in_where q g.links x y;
  path_iff =
      λ g a b h. let (r, e, is) = path_between_correct g a b in rw e (is_path_iff g a b r is);
  shortest_is = λ g a b p h.
      let (r, e, is) = path_between_correct g a b in route_of g a b r p is (sym (ap flat e) ∙ h);
  shortest_found = λ g a b h. found_of (flat (path_between g a b)) h;
}
