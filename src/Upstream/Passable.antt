-- ===== src/Upstream/Passable.antt =====
-- The two notions of a passable link: status_link.py's and the trace's.
use unoc_network_simulator.Prelude.{◌≡◌, true, false, ◌&&◌, some, arith}
use unoc_network_simulator.Model.{Device, Link, up, forced_down}
use unoc_network_simulator.Model.Tables.{Tables, get_link, endpoint_devices}
use unoc_network_simulator.Links.{is_link_passable}
use unoc_network_simulator.Upstream.Defs.{link_passable, neither_down}

module _ (t : Tables) (ln : Link) (fresh : get_link t.links ln.id ≡ some ln) where
  -- For a stored link the trace asks of a passable link that, besides, both endpoint devices are
  -- there and neither is forced down, also where the link itself is overridden UP.
  pub link_passable-eq : link_passable t ln ≡ (
      is_link_passable t ln
      && neither_down (endpoint_devices t ln.a_interface_id ln.b_interface_id))
  unfolding link_passable is_link_passable
  link_passable-eq = ground arith

  -- A stored link that is overridden UP, and whose first end is at a device that is forced down, is
  -- passable for status_link.py and not for the trace.
  pub passable_differs :
      (a b : Device)
      → ln.admin_override_status ≡ some up
      → endpoint_devices t ln.a_interface_id ln.b_interface_id ≡ some (a, b)
      → forced_down a.admin_override_status ≡ true
      → (is_link_passable t ln ≡ true) × (link_passable t ln ≡ false)
  unfolding link_passable is_link_passable
  passable_differs a b o e f = (ground arith, ground arith)
