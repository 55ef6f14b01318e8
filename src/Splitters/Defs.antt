-- ===== src/Splitters/Defs.antt =====
-- The functions of backend/services/splitter_service.py. How a port's name reads is a parameter.
use unoc_network_simulator.Prelude.{
  ℕ, zero, suc, ◌+◌, Bool, true, false, not, Option, none, some, List, [], ◌∷◌, ◌++◌, ◌==◌,
  if◌then◌else◌, length, select, is_some, then_get,
}
use unoc_network_simulator.Prelude.Sets.{contains, union}
use unoc_network_simulator.Prelude.Sorting.{keys}
use unoc_network_simulator.Model.{DeviceType, splitter, is_ont, Device, Interface, enabled, Link}
use unoc_network_simulator.Model.Tables.{Tables, get_device, device_of_interface, interfaces_of}
use unoc_network_simulator.Search.Flood.{Frontier}
use unoc_network_simulator.Search.Sweep.{edges, visit}
use unoc_network_simulator.Search.Sweep.Seek.{seek}
use unoc_network_simulator.Search.Sweep.Seek.Ahead.{ahead}
use unoc_network_simulator.Search.Sweep.Gather.{gather}
use unoc_network_simulator.Search.Queues.{push_back}

-- The texts "in", f"out{n}" and f"{device}-{name}", and the two tests of a name in lower case.
pub record PortNames : Type 0 where
  pub in_name : ℕ
  pub out_name : ℕ → ℕ
  pub port_id : ℕ → ℕ → ℕ
  pub is_in : ℕ → Bool
  pub is_out : ℕ → Bool

abbrev pub is_splitter : DeviceType → Bool
is_splitter splitter = true
is_splitter _ = false

-- DEFAULT_SPLIT_RATIO
abbrev pub default_split_ratio : ℕ
default_split_ratio = 32

-- `int(ratio or DEFAULT_SPLIT_RATIO)`
abbrev pub ports_wanted : Option ℕ → ℕ
ports_wanted none = default_split_ratio
ports_wanted (some zero) = default_split_ratio
ports_wanted (some (suc n)) = suc n

abbrev pub names_of : List Interface → ℕ → List ℕ
names_of rows d = keys (λ (i : Interface). i.name) (interfaces_of rows d)

-- `_iter_counterparts(links_by_if, if_id)`; a link stands under each of its two ends.
abbrev pub other_end : ℕ → Link → List ℕ
other_end i l =
    if l.a_interface_id == i
    then l.b_interface_id ∷ []
    else if l.b_interface_id == i
    then l.a_interface_id ∷ []
    else []

unfoldable pub counterparts : List Link → ℕ → List ℕ
counterparts [] i = []
counterparts (l ∷ ls) i =
    (if l.a_interface_id == i then other_end i l else [])
    ++ ((if l.b_interface_id == i then other_end i l else []) ++ counterparts ls i)

-- `dev_by_if.get(if_id)` and the type behind it: the ONT that an interface belongs to.
abbrev pub ont_of : Tables → ℕ → Option ℕ
ont_of t i =
    then_get (device_of_interface t.interfaces i)
      λ d. then_get (get_device t.devices d) λ row. if is_ont row.type then some d else none

abbrev pub has_device : Tables → ℕ → Bool
has_device t i = is_some (device_of_interface t.interfaces i)

abbrev pub keep : (ℕ → Bool) → List ℕ → List ℕ
keep q xs = select q xs

-- The counterparts that the loops over ONTs go on to.
unfoldable pub owned_next : Tables → ℕ → List ℕ
owned_next t i = keep (has_device t) (counterparts t.links i)

abbrev pub ends : List Link → List ℕ
ends [] = []
ends (l ∷ ls) = l.a_interface_id ∷ l.b_interface_id ∷ ends ls

abbrev pub begin_at : ℕ → Frontier
begin_at i = record { reached = []; queue = i ∷ [] }

abbrev pub fuel_of : Tables → (ℕ → List ℕ) → ℕ
fuel_of t next = edges next (ends t.links) [] + 1

-- The set that `has_ont_reachable(start_if)` returns; its Boolean says whether it is not empty.
unfoldable pub onts_behind : Tables → ℕ → Option (List ℕ)
onts_behind t i =
    gather (owned_next t) push_back (ont_of t) (fuel_of t (owned_next t)) (begin_at i) []

-- `out_interface_has_ont(session, out_interface_id)`
unfoldable pub out_interface_has_ont : Tables → ℕ → Option Bool
out_interface_has_ont t i =
    seek (owned_next t) push_back (ahead (owned_next t) (λ v. is_some (ont_of t v)))
      (fuel_of t (owned_next t)) (begin_at i)

-- The loop of `_reaches(start_if, goal_if_id)`, which tests the goal before what was visited.
unfoldable pub reaches : (ℕ → List ℕ) → ℕ → ℕ → Frontier → Option Bool
reaches next goal zero s = elim s.queue [ [] ↦ some false | _ ∷ _ ↦ none ]
reaches next goal (suc fuel) s = elim s.queue [
  | [] ↦ some false
  | u ∷ rest ↦
      let s' = record s { queue = rest } in
      if u == goal
      then some true
      else reaches next goal fuel (if contains u s.reached then s' else visit next push_back s' u)
]

abbrev pub reaches_from : Tables → ℕ → ℕ → Option Bool
reaches_from t goal i =
    reaches (counterparts t.links) goal (fuel_of t (counterparts t.links)) (begin_at i)

-- `if used: ports_used += 1`
abbrev pub count_used : List ℕ → ℕ → ℕ
count_used [] used = used
count_used (x ∷ xs) used = suc used

-- `ports_used` and `global_onts`, over the OUT interfaces.
unfoldable pub use_ports : Tables → List Interface → ℕ → List ℕ → Option (ℕ × List ℕ)
use_ports t [] used onts = some (used, onts)
use_ports t (i ∷ is) used onts = elim (onts_behind t i.id) [
  | none ↦ none
  | some behind ↦ use_ports t is (count_used behind used) (union onts behind)
]

abbrev pub first_reaching : Tables → ℕ → List Interface → Option (Option Interface)
first_reaching t goal [] = some none
first_reaching t goal (i ∷ is) = elim (reaches_from t goal i.id) [
  | none ↦ none
  | some true ↦ some (some i)
  | some false ↦ first_reaching t goal is
]

module _ (names : PortNames) where
  -- The interface that `session.add` gets.
  abbrev pub new_port : ℕ → ℕ → Interface
  new_port d name = record {
    id = names.port_id d name;
    device_id = d;
    name = name;
    admin_status = enabled;
    capacity = none;
    port_role = none;
    bridge_domain_id = none;
  }

  -- The loop over `range(first, first + n)`, where `taken` are the names at the start.
  abbrev pub missing_outs : ℕ → List ℕ → ℕ → ℕ → List Interface
  missing_outs d taken first zero = []
  missing_outs d taken first (suc n) =
      let rest = missing_outs d taken (suc first) n in
      if contains (names.out_name first) taken
      then rest
      else new_port d (names.out_name first) ∷ rest

  abbrev pub missing_in : ℕ → List ℕ → List Interface
  missing_in d taken = if contains names.in_name taken then [] else new_port d names.in_name ∷ []

  -- `ensure_default_ports_for_splitter(session, splitter, ratio)`, on the interface rows.
  unfoldable pub ensure_default_ports_for_splitter :
      Device → Option ℕ → List Interface → List Interface
  ensure_default_ports_for_splitter d ratio rows =
      let taken = names_of rows d.id in
      if is_splitter d.type
      then rows ++ (missing_in d.id taken ++ missing_outs d.id taken 1 (ports_wanted ratio))
      else rows

  abbrev pub or_else : List Interface → List Interface → List Interface
  or_else [] ys = ys
  or_else (x ∷ xs) ys = x ∷ xs

  -- `out_ifaces`
  unfoldable pub out_ifaces : Tables → ℕ → List Interface
  out_ifaces t d =
      let mine = interfaces_of t.interfaces d in
      or_else (select (λ i. names.is_out i.name) mine) (select (λ i. not (names.is_in i.name)) mine)

  -- `compute_splitter_usage(session, splitter)`: ports_total, ports_used, downstream_onts.
  unfoldable pub compute_splitter_usage : Tables → Device → Option (ℕ × ℕ × ℕ)
  compute_splitter_usage t d =
      let outs = out_ifaces t d.id in
      if is_splitter d.type
      then then_get (use_ports t outs 0 []) (λ (used, onts). some (length outs, used, length onts))
      else some (0, 0, 0)

  -- `find_out_interface_reaching(session, splitter, target_interface_id)`
  unfoldable pub find_out_interface_reaching : Tables → Device → ℕ → Option (Option Interface)
  find_out_interface_reaching t d goal =
      if is_splitter d.type then first_reaching t goal (out_ifaces t d.id) else some none
