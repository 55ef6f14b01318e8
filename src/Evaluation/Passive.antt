-- ===== src/Evaluation/Passive.antt =====
-- `eval_passive_status` of backend/services/status_service_passive.py. The resolver's answer for a
-- device is a parameter, and an exception, which the source answers with DEGRADED, has no model.
use unoc_network_simulator.Prelude.{
  ℕ, ◌+◌, Bool, true, false, not, ◌&&◌, ◌||◌, Option, none, some, List, [], ◌∷◌, ◌++◌, ltb,
  if◌then◌else◌, length, any, is_some, then_get,
}
use unoc_network_simulator.Prelude.Sets.{contains, add, pick}
use unoc_network_simulator.Model.{
  Status, up, down, DeviceType, olt, aon_switch, core_router, edge_router, ont, business_ont,
  aon_cpe, is_passive_inline, Interface, Link,
}
use unoc_network_simulator.Model.Tables.{Tables, get_device, device_of_interface, interfaces_of}
use unoc_network_simulator.Search.Sweep.{edges}
use unoc_network_simulator.Search.Sweep.Seek.{seek}
use unoc_network_simulator.Search.Queues.{push_top, push_back}

-- `{OLT, AON_SWITCH, CORE_ROUTER, EDGE_ROUTER}`
abbrev pub is_upstream : DeviceType → Bool
is_upstream olt = true
is_upstream aon_switch = true
is_upstream core_router = true
is_upstream edge_router = true
is_upstream _ = false

-- `{ONT, BUSINESS_ONT, AON_CPE}`
abbrev pub is_terminator : DeviceType → Bool
is_terminator ont = true
is_terminator business_ont = true
is_terminator aon_cpe = true
is_terminator _ = false

abbrev pub ids : List Interface → List ℕ
ids [] = []
ids (r ∷ rs) = r.id ∷ ids rs

abbrev pub own : Tables → ℕ → List ℕ
own t d = ids (interfaces_of t.interfaces d)

-- `other_if_id`, of a link that is involved.
abbrev pub other_end : List ℕ → Link → ℕ
other_end mine ln = if contains ln.a_interface_id mine then ln.b_interface_id else ln.a_interface_id

abbrev pub cons_some : Option ℕ → List ℕ → List ℕ
cons_some none xs = xs
cons_some (some x) xs = x ∷ xs

-- The devices at the other ends of the links, link by link.
unfoldable pub ends_of : Tables → List ℕ → List Link → List ℕ
ends_of t mine [] = []
ends_of t mine (ln ∷ ls) =
    let rest = ends_of t mine ls in
    if contains ln.a_interface_id mine || contains ln.b_interface_id mine
    then cons_some (device_of_interface t.interfaces (other_end mine ln)) rest
    else rest

unfoldable pub adjacent : Tables → ℕ → List ℕ
adjacent t d = ends_of t (own t d) t.links

abbrev pub as_set : List ℕ → List ℕ
as_set [] = []
as_set (x ∷ xs) = add x (as_set xs)

-- `neighbors`, a set.
unfoldable pub neighbors : Tables → ℕ → List ℕ
neighbors t d = as_set (adjacent t d)

-- The key is that of a row whose type is of a class.
abbrev pub of_class : (DeviceType → Bool) → Tables → ℕ → Bool
of_class q t i =
    is_some (then_get (get_device t.devices i) (λ d. if q d.type then some d else none))

-- The passive devices next to a device, which both searches go on to.
unfoldable pub passive_next : Tables → ℕ → List ℕ
passive_next t u = pick (of_class is_passive_inline t) (adjacent t u)

-- The first search's test: a candidate with an upstream, or an unchecked neighbour with one.
unfoldable pub finds_upstream : Tables → (ℕ → Bool) → List ℕ → List ℕ → ℕ → Bool
finds_upstream t ok candidates checked u =
    contains u candidates && ok u
    || any (λ w. not (contains w checked) && (of_class is_upstream t w && ok w)) (adjacent t u)

-- The second search's test.
unfoldable pub finds_terminator : Tables → List ℕ → ℕ → Bool
finds_terminator t checked u = any (of_class is_terminator t) (adjacent t u)

-- `stack.append` and `stack.pop`, the top first; `queue.append` and `queue.pop(0)`.
abbrev pub reversed : List ℕ → List ℕ
reversed [] = []
reversed (x ∷ xs) = reversed xs ++ x ∷ []

-- The devices that interfaces name.
abbrev pub owners : List Interface → List ℕ
owners [] = []
owners (r ∷ rs) = r.device_id ∷ owners rs

abbrev pub fuel_for : Tables → List ℕ → ℕ
fuel_for t queue = edges (passive_next t) (owners t.interfaces) [] + length queue

-- `chain_has_upstream`
unfoldable pub chain_has_upstream : Tables → (ℕ → Bool) → List ℕ → List ℕ → Option Bool
chain_has_upstream t ok candidates passives =
    let stack = reversed (candidates ++ passives) in
    seek (passive_next t) push_top (finds_upstream t ok candidates) (fuel_for t stack)
      (record { reached = []; queue = stack })

-- `has_terminator`
unfoldable pub has_terminator : Tables → List ℕ → List ℕ → Option Bool
has_terminator t terminators passives = elim terminators [
  | _ ∷ _ ↦ some true
  | [] ↦
      seek (passive_next t) push_back (finds_terminator t) (fuel_for t passives)
        (record { reached = []; queue = passives })
]

abbrev pub up_when : Bool → Status
up_when true = up
up_when false = down

-- `none` says that a search ran out of fuel.
unfoldable pub eval_passive_status : Tables → (ℕ → Bool) → ℕ → Option Status
eval_passive_status t ok d =
    let ns = neighbors t d in
    let passives = pick (of_class is_passive_inline t) ns in
    if ltb (length ns) 2
    then some down
    else elim (chain_has_upstream t ok (pick (of_class is_upstream t) ns) passives) [
      | none ↦ none
      | some false ↦ some down
      | some true ↦
          then_get (has_terminator t (pick (of_class is_terminator t) ns) passives)
            (λ b. some (up_when b))
    ]
