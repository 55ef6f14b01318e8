-- ===== src/Propagation/Chain.antt =====
-- `detect_causal_chain_python` of status_service.py: the devices that a status change affects, with
-- a dependency path to each.
use unoc_network_simulator.Prelude.{
  ℕ, zero, suc, ◌+◌, ◌≡◌, Bool, true, false, not, ◌&&◌, Option, none, some, List, [], ◌∷◌, ◌++◌,
  if◌then◌else◌, ◌==◌, length, then_get, is_some,
}
use unoc_network_simulator.Prelude.Sets.{contains}
use unoc_network_simulator.Model.{Device, Link, DeviceRole, active, derive_role}
use unoc_network_simulator.Model.Tables.{Tables, get_device, device_ids, device_of_interface}
use unoc_network_simulator.Links.{is_link_passable}
use unoc_network_simulator.Search.Sweep.{edges}
use unoc_network_simulator.Propagation.Graph.{Edge, both}

-- `interface_to_device`, which the source fills device by device.
abbrev pub device_with_row : Tables → ℕ → Option ℕ
device_with_row t i =
    then_get (device_of_interface t.interfaces i)
      λ d. if is_some (get_device t.devices d) then some d else none

abbrev pub join_pair : Option ℕ → Option ℕ → List Edge → List Edge
join_pair (some a) (some b) es = both a b es
join_pair _ _ es = es

-- `_build_dependency_graph_python`: an edge each way for every passable link.
unfoldable pub dependency_edges : Tables → List Link → List Edge
dependency_edges t [] = []
dependency_edges t (ln ∷ lns) =
    let rest = dependency_edges t lns in
    if is_link_passable t ln
    then join_pair (device_with_row t ln.a_interface_id) (device_with_row t ln.b_interface_id) rest
    else rest

-- `graph.get(current_id, [])`, with an entry for each link.
abbrev pub downstream : List Edge → ℕ → List ℕ
downstream [] u = []
downstream (e ∷ es) u = let rest = downstream es u in if e.from == u then e.to ∷ rest else rest

abbrev role_is_active : DeviceRole → Bool
role_is_active active = true
role_is_active _ = false

-- `_is_device_up_candidate_python`: any override blocks, and so does an unprovisioned ACTIVE device.
unfoldable pub is_device_up_candidate : Device → Bool
unfolding derive_role
is_device_up_candidate d =
    if is_some d.admin_override_status
    then false
    else if role_is_active (derive_role d.type) && not d.provisioned
    then false
    else true

-- Propagation goes on behind a device that has a row and is a candidate.
unfoldable pub propagates : List Device → ℕ → Bool
unfolding is_device_up_candidate
propagates ds i = elim (get_device ds i) [ none ↦ false | some d ↦ is_device_up_candidate d ]

unfoldable pub dependents : Tables → ℕ → List ℕ
unfolding dependency_edges propagates
dependents t u = if propagates t.devices u then downstream (dependency_edges t t.links) u else []

abbrev pub Paths : Type 0
Paths = List (ℕ × List ℕ)

-- The newest entry of a key is the one that a dict holds.
abbrev pub path_of : Paths → ℕ → Option (List ℕ)
path_of [] v = none
path_of ((k, p) ∷ rest) v = if k == v then some p else path_of rest v

pub record Causes : Type 0 where
  pub visited : List ℕ
  pub queue : List ℕ
  pub paths : Paths

pub data Outcome : Type 0 where
  done : Causes → Outcome
  key_error out_of_fuel : Outcome

-- One neighbour: it is queued, and its path is `base`, which is `paths[current_id]`, and itself.
unfoldable pub record_path : List ℕ → Causes → ℕ → Causes
record_path base s v =
    if contains v s.visited
    then s
    else record s { queue = s.queue ++ v ∷ []; paths = (v, base ++ v ∷ []) ∷ s.paths }

-- The inner `for`.
unfoldable pub follow : List ℕ → Causes → List ℕ → Causes
follow base s [] = s
follow base s (v ∷ vs) = follow base (record_path base s v) vs

-- One round for a device that was not yet visited. `paths[current_id]` is read for each neighbour.
abbrev pub expand : Tables → Causes → ℕ → Option Causes
expand t s u =
    let s' = record s { visited = u ∷ s.visited } in
    elim (dependents t u) [
      | [] ↦ some s'
      | v ∷ vs ↦ elim (path_of s.paths u) [
        | none ↦ none
        | some base ↦ some (follow base s' (v ∷ vs))
      ]
    ]

unfoldable pub trace_causes : Tables → ℕ → Causes → Outcome
unfolding follow record_path
trace_causes t zero s = elim s.queue [ [] ↦ done s | _ ∷ _ ↦ out_of_fuel ]
trace_causes t (suc fuel) s = elim s.queue [
  | [] ↦ done s
  | u ∷ rest ↦
      let s' = record s { queue = rest } in
      if contains u s.visited
      then trace_causes t fuel s'
      else elim (expand t s' u) [ none ↦ key_error | some s'' ↦ trace_causes t fuel s'' ]
]

abbrev pub start_paths : List ℕ → Paths
start_paths [] = []
start_paths (v ∷ vs) = (v, v ∷ []) ∷ start_paths vs

unfoldable pub detect_causal_chain : Tables → List ℕ → Outcome
unfolding trace_causes
detect_causal_chain t changed =
    trace_causes t (edges (dependents t) (device_ids t.devices) [] + length changed)
      (record { visited = []; queue = changed; paths = start_paths changed })

-- A dependency path from a changed device to `v`, as the source records it.
pub data Route (t : Tables) (changed : List ℕ) : ℕ → List ℕ → Type 0 where
  origin : (v : ℕ) (p : List ℕ) → contains v changed ≡ true → p ≡ v ∷ [] → Route t changed v p
  onward :
      (u v : ℕ) (p q : List ℕ)
      → Route t changed u p
      → contains v (dependents t u) ≡ true
      → q ≡ p ++ v ∷ []
      → Route t changed v q
