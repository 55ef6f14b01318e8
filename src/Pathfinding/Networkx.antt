-- ===== src/Pathfinding/Networkx.antt =====
-- What the services use of the library networkx: undirected graphs whose nodes have a type.
use unoc_network_simulator.Prelude.{
  ℕ, ◌≡◌, ◌↔◌, Bool, true, false, ◌&&◌, ◌||◌, Option, none, some, List, [], ◌∷◌, ◌==◌,
  if◌then◌else◌, is_some,
}
use unoc_network_simulator.Prelude.Sets.{contains}
use unoc_network_simulator.Model.{DeviceType}
use unoc_network_simulator.Search.Walks.{Walk, Route}

-- The calls.
pub record Networkx : Type 1 where
  pub Graph : Type 0
  pub empty : Graph
  pub add_node : ℕ → DeviceType → Graph → Graph
  pub add_edge : ℕ → ℕ → Graph → Graph
  -- `g.nodes[n]["type"]`, if the node is there.
  pub type_of : Graph → ℕ → Option DeviceType
  pub nodes : Graph → List ℕ
  pub neighbors : Graph → ℕ → List ℕ
  pub has_edge : Graph → ℕ → ℕ → Bool
  -- `g.subgraph(nodes)`
  pub subgraph : (ℕ → Bool) → Graph → Graph
  pub has_path : Graph → ℕ → ℕ → Bool
  pub shortest_path : Graph → ℕ → ℕ → Option (List ℕ)

-- The edge between two nodes, in either direction.
abbrev pub joins : ℕ → ℕ → ℕ → ℕ → Bool
joins a b x y = a == x && b == y || b == x && a == y

-- What networkx documents of them.
pub record Laws (nx : Networkx) : Type 0 where
  pub empty_type : (x : ℕ) → nx.type_of nx.empty x ≡ none
  pub empty_edge : (x y : ℕ) → nx.has_edge nx.empty x y ≡ false
  pub node_type :
      (i x : ℕ) (ty : DeviceType) (g : nx.Graph)
      → nx.type_of (nx.add_node i ty g) x ≡ (if i == x then some ty else nx.type_of g x)
  pub node_edge :
      (i x y : ℕ) (ty : DeviceType) (g : nx.Graph)
      → nx.has_edge (nx.add_node i ty g) x y ≡ nx.has_edge g x y
  -- Both ends are nodes: otherwise an edge brings in a node without a type.
  pub edge_type :
      (a b x : ℕ) (g : nx.Graph)
      → is_some (nx.type_of g a) ≡ true
      → is_some (nx.type_of g b) ≡ true
      → nx.type_of (nx.add_edge a b g) x ≡ nx.type_of g x
  pub edge_edge :
      (a b x y : ℕ) (g : nx.Graph)
      → nx.has_edge (nx.add_edge a b g) x y ≡ (joins a b x y || nx.has_edge g x y)
  pub edge_sym : (x y : ℕ) (g : nx.Graph) → nx.has_edge g x y ≡ nx.has_edge g y x
  pub neighbor : (g : nx.Graph) (x y : ℕ) → contains y (nx.neighbors g x) ≡ nx.has_edge g x y
  pub node :
      (g : nx.Graph) (x : ℕ) → is_some (nx.type_of g x) ≡ true → contains x (nx.nodes g) ≡ true
  pub edge_node :
      (g : nx.Graph) (x y : ℕ) → nx.has_edge g x y ≡ true → contains y (nx.nodes g) ≡ true
  pub sub_type :
      (q : ℕ → Bool) (g : nx.Graph) (x : ℕ)
      → nx.type_of (nx.subgraph q g) x ≡ (if q x then nx.type_of g x else none)
  pub sub_edge :
      (q : ℕ → Bool) (g : nx.Graph) (x y : ℕ)
      → nx.has_edge (nx.subgraph q g) x y ≡ (nx.has_edge g x y && (q x && q y))
  pub path_iff :
      (g : nx.Graph) (a b : ℕ)
      → is_some (nx.type_of g a) ≡ true
      → (nx.has_path g a b ≡ true) ↔ Walk (a ∷ []) (nx.neighbors g) (λ _. true) b
  -- A path that is found is one, and it is found where there is one.
  pub shortest_is :
      (g : nx.Graph) (a b : ℕ) (p : List ℕ)
      → nx.shortest_path g a b ≡ some p
      → Route (nx.neighbors g) a p b
  pub shortest_found :
      (g : nx.Graph) (a b : ℕ)
      → nx.has_path g a b ≡ true
      → (p : List ℕ) × (nx.shortest_path g a b ≡ some p)
