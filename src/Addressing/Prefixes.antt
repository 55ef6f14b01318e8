-- ===== src/Addressing/Prefixes.antt =====
-- backend/services/provisioning_ipam.py: the first free host of a prefix, for IPv4.
use unoc_network_simulator.Prelude.{
  ℕ, zero, suc, ◌-◌, ◌^◌, ◌%◌, Bool, false, ◌&&◌, Option, none, some, List, ◌==◌, ltb, leb,
  if◌then◌else◌, any,
}
use unoc_network_simulator.Model.{Net, InterfaceAddress}

-- The text of the prefix is `none` if `ip_network` cannot read it.
pub record Prefix : Type 0 where
  pub id : ℕ
  pub prefix : Option Net

-- The number of addresses of a network.
abbrev pub size : Net → ℕ
size net = 2 ^ (32 - net.prefixlen)

-- `ip_network(text)` refuses a text with host bits.
abbrev pub strict_network : Net → Bool
strict_network net = leb net.prefixlen 32 && net.address % size net == 0

-- `net.hosts()`: without the network and the broadcast address, except in a network of one or two.
abbrev pub first_host : Net → ℕ
first_host net = if ltb net.prefixlen 31 then suc net.address else net.address

abbrev pub host_count : Net → ℕ
host_count net = if ltb net.prefixlen 31 then size net - 2 else size net

abbrev same_id : Option ℕ → ℕ → Bool
same_id none i = false
same_id (some j) i = j == i

abbrev pub taken : List InterfaceAddress → ℕ → ℕ → Bool
taken rows p ip = any (λ a. same_id a.prefix_id p && a.ip == ip) rows

-- The loop over the hosts, with the number that is left and the next one.
unfoldable pub first_untaken : List InterfaceAddress → ℕ → ℕ → ℕ → Option ℕ
first_untaken rows p zero host = none
first_untaken rows p (suc k) host =
    let rest = first_untaken rows p k (suc host) in if taken rows p host then rest else some host

-- A ValueError of `ip_network`, no free host, or a host and the length of the prefix.
pub data FreeIp : Type 0 where
  value_error exhausted : FreeIp
  free : ℕ → ℕ → FreeIp

abbrev pub with_length : ℕ → Option ℕ → FreeIp
with_length len none = exhausted
with_length len (some ip) = free ip len

abbrev pub free_in : List InterfaceAddress → ℕ → Option Net → FreeIp
free_in rows p none = value_error
free_in rows p (some net) =
    if strict_network net
    then with_length net.prefixlen (first_untaken rows p (host_count net) (first_host net))
    else value_error

unfoldable pub next_free_ip_in_prefix : List InterfaceAddress → Prefix → FreeIp
next_free_ip_in_prefix rows p = free_in rows p.id p.prefix
