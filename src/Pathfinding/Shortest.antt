-- ===== src/Pathfinding/Shortest.antt =====
-- `_shortest_optical_path` of backend/services/pathfinding.py: a search with a heap of distances and
-- paths, and a dictionary of the best candidates.
use unoc_network_simulator.Prelude.{
  ℕ, zero, suc, Bool, true, false, not, ◌&&◌, ◌||◌, Option, none, some, List, [], ◌∷◌, ◌++◌, ltb,
  ◌==◌, if◌then◌else◌,
}
use unoc_network_simulator.Prelude.Sets.{contains}
use unoc_network_simulator.Prelude.Dicts.{Dict, get, put}
use unoc_network_simulator.Prelude.Sorting.{insert_by}

-- `(dist, path_tuple, node)`
pub record Entry : Type 0 where
  pub dist : ℕ
  pub path : List ℕ
  pub node : ℕ

-- The order of tuples.
abbrev pub path_before : List ℕ → List ℕ → Bool
path_before [] [] = false
path_before [] (y ∷ ys) = true
path_before (x ∷ xs) [] = false
path_before (x ∷ xs) (y ∷ ys) = let rest = path_before xs ys in ltb x y || x == y && rest

abbrev pub entry_before : Entry → Entry → Bool
entry_before a b = ltb a.dist b.dist || a.dist == b.dist && path_before a.path b.path

-- `heap`, `visited`, `best_paths` and `target_paths`.
pub record SearchState : Type 0 where
  pub heap : List Entry
  pub visited : List ℕ
  pub best : Dict Entry
  pub targets : List Entry

abbrev pub is_better : Entry → Option Entry → Bool
is_better cand none = true
is_better cand (some prev) = entry_before cand prev

abbrev pub candidate : Entry → ℕ → Entry
candidate e nb = record { dist = suc e.dist; path = e.path ++ nb ∷ []; node = nb }

abbrev pub pushed : Entry → SearchState → SearchState
pushed cand s = record s {
  best = put cand.node cand s.best;
  heap = insert_by entry_before cand s.heap;
}

-- One neighbour: the candidate is pushed if it is better than what is known.
unfoldable pub relax : Entry → SearchState → ℕ → SearchState
relax e s nb =
    if contains nb s.visited
    then s
    else if is_better (candidate e nb) (get nb s.best)
    then pushed (candidate e nb) s
    else s

abbrev pub relax_all : Entry → SearchState → List ℕ → SearchState
relax_all e s [] = s
relax_all e s (nb ∷ nbs) = relax_all e (relax e s nb) nbs

module _ (src : ℕ) (adj : ℕ → List ℕ) (goal : ℕ → Bool) where
  -- A node that leaves the heap for the first time.
  unfoldable pub settle_node : Entry → SearchState → SearchState
  settle_node e s =
      relax_all e
        (record s {
          visited = e.node ∷ s.visited;
          targets = if not (e.node == src) && goal e.node then s.targets ++ e ∷ [] else s.targets;
        })
        (adj e.node)

  -- The `while heap` loop; `none` says that the fuel ran out.
  unfoldable pub search_heap : ℕ → SearchState → Option SearchState
  search_heap zero s = elim s.heap [ [] ↦ some s | _ ∷ _ ↦ none ]
  search_heap (suc fuel) s = elim s.heap [
    | [] ↦ some s
    | e ∷ rest ↦
        let s' = record s { heap = rest } in
        search_heap fuel (if contains e.node s.visited then s' else settle_node e s')
  ]

abbrev pub start_entry : ℕ → Entry
start_entry src = record { dist = 0; path = src ∷ []; node = src }

abbrev pub start_state : ℕ → SearchState
start_state src = record {
  heap = start_entry src ∷ [];
  visited = [];
  best = (src, start_entry src) ∷ [];
  targets = [];
}

-- `target_paths[0]` after the sort.
abbrev pub first_target : List Entry → Option (List ℕ)
first_target [] = none
first_target (e ∷ es) = some e.path
