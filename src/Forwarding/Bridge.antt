-- ===== src/Forwarding/Bridge.antt =====
-- backend/services/l2_service.py: `process_frame`, the MAC learning of a switch. A MAC address is the
-- number of its text in lower case.
use unoc_network_simulator.Prelude.{
  ℕ, Bool, false, not, ◌&&◌, Option, none, some, List, [], ◌∷◌, ◌==◌, if◌then◌else◌, find, select,
}
use unoc_network_simulator.Model.{Interface}

-- `default` tells whether the domain is named "default".
pub record BridgeDomain : Type 0 where
  pub id : ℕ
  pub device_id : ℕ
  pub default : Bool

pub record MacAddressEntry : Type 0 where
  pub mac_address : ℕ
  pub interface_id : ℕ
  pub bridge_domain_id : ℕ

-- The tables that a switch reads.
pub record Bridges : Type 0 where
  pub domains : List BridgeDomain
  pub ports : List Interface

pub record Frame : Type 0 where
  pub source_mac : ℕ
  pub destination_mac : ℕ

pub data FrameAction : Type 0 where
  no_bridge_domain : FrameAction
  forward_to : ℕ → FrameAction
  flood_to : List ℕ → FrameAction

-- ff:ff:ff:ff:ff:ff
abbrev pub broadcast : ℕ
broadcast = 281474976710655

abbrev pub default_domain : List BridgeDomain → ℕ → Option BridgeDomain
default_domain rows d = find (λ b. b.device_id == d && b.default) rows

abbrev pub is_entry_of : ℕ → ℕ → MacAddressEntry → Bool
is_entry_of bd mac e = e.bridge_domain_id == bd && e.mac_address == mac

abbrev pub entry_of : List MacAddressEntry → ℕ → ℕ → Option MacAddressEntry
entry_of rows bd mac = find (is_entry_of bd mac) rows

-- `existing.interface_id = interface_id`
abbrev moved_to : ℕ → MacAddressEntry → MacAddressEntry
moved_to i e = record {
  mac_address = e.mac_address;
  interface_id = i;
  bridge_domain_id = e.bridge_domain_id;
}

-- The row is changed in place, or a row is added at the end of the table.
unfoldable pub learn : List MacAddressEntry → ℕ → ℕ → ℕ → List MacAddressEntry
learn [] bd mac i = record { mac_address = mac; interface_id = i; bridge_domain_id = bd } ∷ []
learn (e ∷ es) bd mac i =
    let rest = learn es bd mac i in if is_entry_of bd mac e then moved_to i e ∷ es else e ∷ rest

abbrev pub in_domain : ℕ → Option ℕ → Bool
in_domain bd none = false
in_domain bd (some b) = b == bd

abbrev ids_of : List Interface → List ℕ
ids_of [] = []
ids_of (r ∷ rs) = r.id ∷ ids_of rs

-- The interfaces of the domain other than the one that the frame came in by.
unfoldable pub flood_ports : List Interface → ℕ → ℕ → List ℕ
flood_ports rows bd ingress =
    ids_of (select (λ r. in_domain bd r.bridge_domain_id && not (r.id == ingress)) rows)

abbrev pub port_or_flood : Option MacAddressEntry → List ℕ → FrameAction
port_or_flood (some e) ps = forward_to e.interface_id
port_or_flood none ps = flood_to ps

-- The decision, on the table as the frame's source has been learnt.
unfoldable pub forwarding : Bridges → List MacAddressEntry → ℕ → ℕ → ℕ → FrameAction
forwarding b rows bd ingress dst =
    if dst == broadcast
    then flood_to (flood_ports b.ports bd ingress)
    else port_or_flood (entry_of rows bd dst) (flood_ports b.ports bd ingress)

abbrev in_default :
    Option BridgeDomain
    → Bridges
    → List MacAddressEntry
    → ℕ
    → Frame
    → FrameAction × List MacAddressEntry
in_default none b rows ingress f = (no_bridge_domain, rows)
in_default (some d) b rows ingress f =
    let learnt = learn rows d.id f.source_mac ingress in
    (forwarding b learnt d.id ingress f.destination_mac, learnt)

unfoldable pub process_frame :
    Bridges → List MacAddressEntry → ℕ → ℕ → Frame → FrameAction × List MacAddressEntry
process_frame b rows device ingress f =
    in_default (default_domain b.domains device) b rows ingress f
