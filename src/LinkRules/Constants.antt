-- ===== src/LinkRules/Constants.antt =====
-- backend/constants/link_types.py: the second copy of the rule table.
use unoc_network_simulator.Prelude.{true, false, List, [], ◌∷◌}
use unoc_network_simulator.LinkRules.Defs.{
  RuleDef, rule, l1, l2, l3, l4, l5, l6, l6a, l6b, l7, l8, routed_p2p, optical_segment,
  optical_termination, access_edge, access_uplink, mixed_invalid, peer_invalid, match_router_router,
  match_olt_passive, match_passive_passive, match_passive_ont, match_olt_ont_direct,
  match_aon_switch_cpe, match_aon_switch_router, match_olt_router, match_active_passive_invalid,
  match_ont_ont_invalid,
}

-- The matchers are the same text in both files.
abbrev pub link_type_rules : List RuleDef
link_type_rules =
    rule l1 true routed_p2p match_router_router
    ∷ rule l2 true optical_segment match_olt_passive
    ∷ rule l3 true optical_segment match_passive_passive
    ∷ rule l4 true optical_termination match_passive_ont
    ∷ rule l5 true optical_segment match_olt_ont_direct
    ∷ rule l6a true access_uplink match_aon_switch_router
    ∷ rule l6b true access_uplink match_olt_router
    ∷ rule l6 true access_edge match_aon_switch_cpe
    ∷ rule l7 false mixed_invalid match_active_passive_invalid
    ∷ rule l8 false peer_invalid match_ont_ont_invalid
    ∷ []
