-- ===== src/Links/Liveness.antt =====
-- When a link carries traffic, and what its evaluated status then is.
use unoc_network_simulator.Prelude.{
  ◌≡◌, ◌↔◌, true, false, none, some, arith, Option-cases, inl, inr,
}
use unoc_network_simulator.Model.{up, Device, Link, forced_down}
use unoc_network_simulator.Model.Tables.{Tables, get_link, endpoint_devices}
use unoc_network_simulator.Links.Defs.{evaluate_link_status, is_link_passable}

-- The two endpoint devices are there, and neither is forced down.
pub record EndpointsLive (t : Tables) (link : Link) : Type 0 where
  pub a : Device
  pub b : Device
  pub found : endpoint_devices t link.a_interface_id link.b_interface_id ≡ some (a, b)
  pub a_live : forced_down a.admin_override_status ≡ false
  pub b_live : forced_down b.admin_override_status ≡ false

module _ (t : Tables) (link : Link) (fresh : get_link t.links link.id ≡ some link) where
  -- Without an override a stored link is passable exactly if it is up, its endpoint devices are
  -- there and neither of them is forced down.
  pub is_link_passable_iff :
      link.admin_override_status ≡ none
      → (is_link_passable t link ≡ true) ↔ ((link.status ≡ up) × EndpointsLive t link)
  unfolding is_link_passable
  is_link_passable_iff free = (
    λ h. elim (Option-cases (endpoint_devices t link.a_interface_id link.b_interface_id)) [
      | inl gone ↦ absurd (ground arith)
      | inr ((a, b), there) ↦ (
        ground arith,
        record { a = a; b = b; found = there; a_live = ground arith; b_live = ground arith },
      )
    ],
    λ (is_up_now, live). ground (arith, live.found, live.a_live, live.b_live),
  )

  -- A stored link that is passable is evaluated as UP.
  pub evaluate_link_status_of_passable :
      is_link_passable t link ≡ true → evaluate_link_status t link ≡ up
  unfolding is_link_passable evaluate_link_status
  evaluate_link_status_of_passable h = ground arith
