-- ===== src/Model/Tables.antt =====
-- The tables that a session reads: `session.get` by primary key, and `select` over a table.
use unoc_network_simulator.Prelude.{
  ℕ, ◌≡◌, true, Option, some, List, [], ◌∷◌, arith, ◌==◌, if◌then◌else◌, find, find_holds, then_get,
  select, ==_iff, is_some,
}
use unoc_network_simulator.Prelude.Sets.{contains}
use unoc_network_simulator.Model.Rows.{
  Device, Interface, Link, PhysicalMedium, Route, InterfaceAddress, Neighbor,
}

pub record Tables : Type 0 where
  pub devices : List Device
  pub interfaces : List Interface
  pub links : List Link
  pub media : List PhysicalMedium
  pub routes : List Route
  pub addresses : List InterfaceAddress
  pub neighbors : List Neighbor

-- `session.get(Device, id)`
abbrev pub get_device : List Device → ℕ → Option Device
get_device rows i = find (λ d. d.id == i) rows

-- `session.get(Interface, id)`
abbrev pub get_interface : List Interface → ℕ → Option Interface
get_interface rows i = find (λ r. r.id == i) rows

-- `session.get(Link, id)`
abbrev pub get_link : List Link → ℕ → Option Link
get_link rows i = find (λ r. r.id == i) rows

-- `session.get(PhysicalMedium, id)`
abbrev pub get_medium : List PhysicalMedium → ℕ → Option PhysicalMedium
get_medium rows i = find (λ r. r.id == i) rows

abbrev pub device_ids : List Device → List ℕ
device_ids [] = []
device_ids (d ∷ ds) = d.id ∷ device_ids ds

-- `{i.id: i.device_id for i in interfaces}.get(id)`
abbrev pub device_of_interface : List Interface → ℕ → Option ℕ
device_of_interface rows i = then_get (get_interface rows i) (λ r. some r.device_id)

-- `select(Interface).where(Interface.device_id == id)`
abbrev pub interfaces_of : List Interface → ℕ → List Interface
interfaces_of rows d = select (λ r. r.device_id == d) rows

-- The endpoint of a link that is not `i`.
abbrev pub peer_interface_id : Link → ℕ → ℕ
peer_interface_id ln i = if ln.a_interface_id == i then ln.b_interface_id else ln.a_interface_id

-- A row that `session.get` returns has the key that was asked for.
pub id-get_device :
    (rows : List Device) (i : ℕ) (d : Device) → get_device rows i ≡ some d → d.id ≡ i
id-get_device rows i d h = (==_iff d.id i).0 (find_holds (λ (r : Device). r.id == i) rows d h)

-- A row that `session.get` returns stands in its table.
pub contains-device_ids :
    (rows : List Device) (i : ℕ)
    → is_some (get_device rows i) ≡ true
    → contains i (device_ids rows) ≡ true
contains-device_ids [] i h = ground arith
contains-device_ids (d ∷ ds) i h = ground (arith, contains-device_ids ds i)

-- The devices of the two interfaces, `None` as soon as a row is missing.
abbrev pub endpoint_devices : Tables → ℕ → ℕ → Option (Device × Device)
endpoint_devices t a b = then_get (get_interface t.interfaces a) λ a_if.
    then_get (get_interface t.interfaces b) λ b_if.
      then_get (get_device t.devices a_if.device_id)
        λ a_dev. then_get (get_device t.devices b_if.device_id) λ b_dev. some (a_dev, b_dev)
