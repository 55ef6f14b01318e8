-- ===== src/Links/Defs.antt =====
-- backend/services/status_link.py. The functions read the link's row again, so that the link which
-- they are handed may be stale.
use unoc_network_simulator.Prelude.{
  ℕ, Bool, true, false, ◌&&◌, ◌||◌, Option, none, some, List, [], ◌∷◌, if◌then◌else◌, ◌==◌, find,
}
use unoc_network_simulator.Model.{Status, up, down, Device, Link, is_up, is_down, forced_down}
use unoc_network_simulator.Model.Tables.{Tables, get_link, endpoint_devices}

-- `Link.a_interface_id == a & Link.b_interface_id == b`
abbrev joins : ℕ → ℕ → Link → Bool
joins a b ln = ln.a_interface_id == a && ln.b_interface_id == b

abbrev or_else : Option Link → Option Link → Option Link
or_else (some ln) _ = some ln
or_else none other = other

-- `rows[0]` if there is exactly one row.
abbrev sole : List Link → Option Link
sole (ln ∷ []) = some ln
sole _ = none

-- The row that is evaluated: by key, by endpoints, by swapped endpoints, or the only row.
unfoldable pub stored_link : Tables → Link → Option Link
stored_link t link = or_else (get_link t.links link.id) (
    or_else (find (joins link.a_interface_id link.b_interface_id) t.links)
      (or_else (find (joins link.b_interface_id link.a_interface_id) t.links) (sole t.links)))

abbrev endpoint_status : Option (Device × Device) → Status → Status
endpoint_status none result = result
endpoint_status (some (a, b)) result =
    if forced_down a.admin_override_status || forced_down b.admin_override_status
    then down
    else result

abbrev override_or : Option Status → Status → Status
override_or (some s) _ = s
override_or none other = other

unfoldable pub evaluate_link_status : Tables → Link → Status
unfolding stored_link
evaluate_link_status t link = elim (stored_link t link) [
  | none ↦ up
  | some ln ↦
      override_or ln.admin_override_status
        (endpoint_status (endpoint_devices t ln.a_interface_id ln.b_interface_id) ln.status)
]

-- An override in the stored row decides before the link's own fields, if it is UP or DOWN.
abbrev stored_override : Option Link → Option Bool
stored_override none = none
stored_override (some ln) = elim ln.admin_override_status [
  | none ↦ none
  | some s ↦ if is_down s then some false else if is_up s then some true else none
]

abbrev endpoints_allow : Option (Device × Device) → Bool
endpoints_allow none = false
endpoints_allow (some (a, b)) =
    if forced_down a.admin_override_status
    then false
    else if forced_down b.admin_override_status
    then false
    else true

abbrev row_or : Option Link → Link → Link
row_or (some ln) _ = ln
row_or none link = link

-- The part below the overrides: the status of the link, and the overrides of its endpoints.
abbrev passable_by_status : Tables → Link → Bool
passable_by_status t link =
    if is_up link.status
    then (let ln = row_or (get_link t.links link.id) link in
        endpoints_allow (endpoint_devices t ln.a_interface_id ln.b_interface_id))
    else false

unfoldable pub is_link_passable : Tables → Link → Bool
is_link_passable t link = elim link.admin_override_status [
  | some s ↦ is_up s
  | none ↦ elim (stored_override (get_link t.links link.id)) [
    | some verdict ↦ verdict
    | none ↦ passable_by_status t link
  ]
]
