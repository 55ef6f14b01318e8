-- ===== src/Samples/LinkTests.antt =====
-- The link rules and the state of links on the sample network.
use unoc_network_simulator.Prelude.{
  ◌∷◌, [], ℕ, ◌≤◌, ◌≡◌, refl, ◌↔◌, ◌⊎◌, true, false, ◌&&◌, not, none, some, length,
}
use unoc_network_simulator.Model.{up, Link}
use unoc_network_simulator.Model.Tables.{endpoint_devices, Tables}
use unoc_network_simulator.LinkRules.{classify_link, rules, first_match}
use unoc_network_simulator.LinkRules.Constants.{link_type_rules}
use unoc_network_simulator.LinkRules.Verdicts.{
  classify_link-allowed, classify_link_comm, classify_link-constants, matching-le-one, matching,
}
use unoc_network_simulator.LinkRules.Media.{
  allowed_media_codes_for_class, is_empty, allowed_media-classify_link,
}
use unoc_network_simulator.Links.{is_link_passable, evaluate_link_status}
use unoc_network_simulator.Links.Liveness.{
  EndpointsLive, is_link_passable_iff, evaluate_link_status_of_passable,
}
use unoc_network_simulator.Links.Viability.{
  admits, is_link_physically_viable, is_optical_context, allowed_of_viable, viable_iff,
  default_max_km,
}
use unoc_network_simulator.Upstream.{link_passable, neither_down}
use unoc_network_simulator.Upstream.Passable.{passable_differs, link_passable-eq}
use unoc_network_simulator.Samples.Network.{
  broken, network, link, fiber_link, forced_link, core, head, split, home,
}

classify_link-allowed_example : (classify_link head home).allowed ≡ true
classify_link-allowed_example = classify_link-allowed head home

classify_link_comm_test : classify_link core split ≡ classify_link split core
classify_link_comm_test = classify_link_comm core split

classify_link-constants_test :
    ((first_match link_type_rules core.type head.type).rule_id ≡ (classify_link core head).rule_id)
    × ((first_match link_type_rules core.type head.type).allowed
        ≡ (classify_link core head).allowed)
classify_link-constants_test = classify_link-constants core head

matching-le-one_test : length (matching rules head.type split.type) ≤ 1
matching-le-one_test = matching-le-one head split

allowed_media-classify_link_test :
    is_empty (allowed_media_codes_for_class (classify_link core split).link_class)
    ≡ not (classify_link core split).allowed
allowed_media-classify_link_test = allowed_media-classify_link core split

is_link_passable_iff_test :
    (is_link_passable network (link 52 22 31) ≡ true)
    ↔ (((link 52 22 31).status ≡ up) × EndpointsLive network (link 52 22 31))
is_link_passable_iff_test = is_link_passable_iff network (link 52 22 31) refl refl

passes : is_link_passable network (link 52 22 31) ≡ true
unfolding is_link_passable
passes = refl

evaluate_link_status_of_passable_test : evaluate_link_status network (link 52 22 31) ≡ up
evaluate_link_status_of_passable_test =
    evaluate_link_status_of_passable network (link 52 22 31) refl passes

viable : is_link_physically_viable default_max_km network fiber_link ≡ true
unfolding is_link_physically_viable admits allowed_media_codes_for_class classify_link
viable = refl

allowed_of_viable_test : (classify_link head split).allowed ≡ true
allowed_of_viable_test =
    allowed_of_viable default_max_km network fiber_link 1 head split refl refl viable

viable_iff_test :
    ((length_km : ℕ)
      → (link 52 22 31).length_km ≡ some length_km
      → (is_link_physically_viable default_max_km network (link 52 22 31) ≡ true)
        ↔ ((is_optical_context network (link 52 22 31) ≡ true) ⊎ (length_km ≤ default_max_km)))
    × ((link 52 22 31).length_km ≡ none
        → is_link_physically_viable default_max_km network (link 52 22 31) ≡ true)
viable_iff_test = viable_iff default_max_km network (link 52 22 31) refl

link_passable-eq_test :
    link_passable network forced_link
    ≡ (is_link_passable network forced_link && neither_down (endpoint_devices network 23 61))
link_passable-eq_test = link_passable-eq network forced_link refl

-- The link beside the router that is forced down, with its ends the other way round.
abbrev turned : Link
turned = record forced_link { a_interface_id = 61; b_interface_id = 23 }

abbrev turned_network : Tables
turned_network = record network { links = turned ∷ [] }

passable_differs_test :
    (is_link_passable turned_network turned ≡ true) × (link_passable turned_network turned ≡ false)
passable_differs_test = passable_differs turned_network turned refl broken core refl refl refl
