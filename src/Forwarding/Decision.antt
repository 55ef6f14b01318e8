-- ===== src/Forwarding/Decision.antt =====
-- backend/services/l3_service.py: the longest prefix match and the forwarding decision of a router,
-- for IPv4.
use unoc_network_simulator.Prelude.{
  ℕ, ◌-◌, ◌^◌, ◌/◌, Bool, true, Option, none, some, List, [], ◌∷◌, ◌==◌, ltb, if◌then◌else◌, find,
  select, then_get, ◌&&◌,
}
use unoc_network_simulator.Model.{Net, Route, Neighbor}
use unoc_network_simulator.Model.Tables.{Tables, get_device}

-- The text of a destination: none at all, one that `ip_address` does not read, or an address.
pub data Destination : Type 0 where
  missing malformed : Destination
  address : ℕ → Destination

pub data Decision : Type 0 where
  invalid_packet no_device_vrf no_route_found next_hop_unresolved : Decision
  egress_interface_unknown invalid_route : Decision
  forward_by : ℕ → Option ℕ → Decision

-- `target in ip_network(prefix, strict=False)`: the leading bits agree.
abbrev pub in_net : ℕ → Net → Bool
in_net target net = target / 2 ^ (32 - net.prefixlen) == net.address / 2 ^ (32 - net.prefixlen)

-- The length of the route's prefix, if it can be read and holds the target.
abbrev pub match_length : ℕ → Route → Option ℕ
match_length target r =
    then_get r.prefix (λ net. if in_net target net then some net.prefixlen else none)

abbrev pub Best : Type 0
Best = Option (ℕ × Route)

-- `best is None or plen > best[0]`
abbrev pub better : ℕ → Best → Bool
better plen none = true
better plen (some (len, r)) = ltb len plen

abbrev pub improve : Option ℕ → Route → Best → Best
improve none r b = b
improve (some plen) r b = if better plen b then some (plen, r) else b

unfoldable pub best_match : ℕ → List Route → Best → Best
best_match target [] b = b
best_match target (r ∷ rs) b = best_match target rs (improve (match_length target r) r b)

abbrev pub route_of : Best → Option Route
route_of b = then_get b (λ (plen, r). some r)

-- `select(Route).where(Route.vrf_id == vrf_id)`
abbrev pub of_vrf : List Route → ℕ → List Route
of_vrf rows vrf = select (λ r. r.vrf_id == vrf) rows

unfoldable pub longest_prefix_match : List Route → ℕ → Destination → Option Route
longest_prefix_match rows vrf (address target) = route_of (best_match target (of_vrf rows vrf) none)
longest_prefix_match rows vrf missing = none
longest_prefix_match rows vrf malformed = none

abbrev pub resolve_next_hop_mac : List Neighbor → ℕ → ℕ → Option ℕ
resolve_next_hop_mac rows i ip =
    then_get (find (λ n. n.interface_id == i && n.ip_address == ip) rows) (λ n. some n.mac_address)

abbrev by_mac : ℕ → Option ℕ → Decision
by_mac i none = next_hop_unresolved
by_mac i (some mac) = forward_by i (some mac)

abbrev pub by_route : List Neighbor → Option ℕ → Option ℕ → Decision
by_route rows (some i) none = forward_by i none
by_route rows (some i) (some ip) = by_mac i (resolve_next_hop_mac rows i ip)
by_route rows none (some ip) = egress_interface_unknown
by_route rows none none = invalid_route

abbrev pub by_best : List Neighbor → Option Route → Decision
by_best rows none = no_route_found
by_best rows (some r) = by_route rows r.interface_id r.next_hop

abbrev by_vrf : Tables → Option ℕ → Destination → Decision
by_vrf t none dst = no_device_vrf
by_vrf t (some vrf) dst = by_best t.neighbors (longest_prefix_match t.routes vrf dst)

abbrev default_vrf : Tables → ℕ → Option ℕ
default_vrf t device = then_get (get_device t.devices device) (λ d. d.vrf_id)

unfoldable pub get_forwarding_decision : Tables → ℕ → Destination → Decision
get_forwarding_decision t device missing = invalid_packet
get_forwarding_decision t device malformed = by_vrf t (default_vrf t device) malformed
get_forwarding_decision t device (address a) = by_vrf t (default_vrf t device) (address a)
