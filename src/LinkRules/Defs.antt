-- ===== src/LinkRules/Defs.antt =====
-- backend/link_rules.py: the rules, the search, and the media that a class admits.
use unoc_network_simulator.Prelude.{Bool, true, false, ◌&&◌, ◌||◌, List, [], ◌∷◌, if◌then◌else◌}
use unoc_network_simulator.Model.{
  Device, DeviceType, olt, aon_switch, aon_cpe, is_passive_inline, is_router, is_ont,
}

pub data RuleId : Type 0 where
  l1 l2 l3 l4 l5 l6 l6a l6b l7 l8 l9 : RuleId

pub data LinkClass : Type 0 where
  routed_p2p optical_segment optical_termination access_edge access_uplink_aon access_uplink_olt
        access_uplink mixed_invalid peer_invalid reverse_invalid :
      LinkClass

pub record LinkRuleResult : Type 0 where
  pub rule_id : RuleId
  pub allowed : Bool
  pub link_class : LinkClass

pub record RuleDef : Type 0 where
  pub rule_id : RuleId
  pub allowed : Bool
  pub link_class : LinkClass
  pub matcher : DeviceType → DeviceType → Bool

abbrev pub is_olt : DeviceType → Bool
is_olt olt = true
is_olt _ = false

abbrev pub is_aon_switch : DeviceType → Bool
is_aon_switch aon_switch = true
is_aon_switch _ = false

abbrev pub is_aon_cpe : DeviceType → Bool
is_aon_cpe aon_cpe = true
is_aon_cpe _ = false

abbrev pub match_router_router : DeviceType → DeviceType → Bool
match_router_router a b = is_router a && is_router b

abbrev pub match_olt_passive : DeviceType → DeviceType → Bool
match_olt_passive a b = (is_olt a && is_passive_inline b) || (is_olt b && is_passive_inline a)

abbrev pub match_passive_passive : DeviceType → DeviceType → Bool
match_passive_passive a b = is_passive_inline a && is_passive_inline b

abbrev pub match_passive_ont : DeviceType → DeviceType → Bool
match_passive_ont a b = (is_passive_inline a && is_ont b) || (is_passive_inline b && is_ont a)

abbrev pub match_olt_ont_direct : DeviceType → DeviceType → Bool
match_olt_ont_direct a b = (is_olt a && is_ont b) || (is_olt b && is_ont a)

abbrev pub match_aon_switch_cpe : DeviceType → DeviceType → Bool
match_aon_switch_cpe a b = (is_aon_switch a && is_aon_cpe b) || (is_aon_switch b && is_aon_cpe a)

abbrev pub match_aon_switch_router : DeviceType → DeviceType → Bool
match_aon_switch_router a b = (is_aon_switch a && is_router b) || (is_aon_switch b && is_router a)

abbrev pub match_olt_router : DeviceType → DeviceType → Bool
match_olt_router a b = (is_olt a && is_router b) || (is_olt b && is_router a)

-- `ROUTER_CLASS | {AON_SWITCH, AON_CPE}`
abbrev pub is_active_side : DeviceType → Bool
is_active_side t = is_router t || (is_aon_switch t || is_aon_cpe t)

abbrev pub match_active_passive_invalid : DeviceType → DeviceType → Bool
match_active_passive_invalid a b =
    if (is_passive_inline a && is_active_side b) || (is_passive_inline b && is_active_side a)
    then true
    else false

abbrev pub match_ont_ont_invalid : DeviceType → DeviceType → Bool
match_ont_ont_invalid a b = is_ont a && is_ont b

abbrev pub rule : RuleId → Bool → LinkClass → (DeviceType → DeviceType → Bool) → RuleDef
rule i ok c m = record { rule_id = i; allowed = ok; link_class = c; matcher = m }

abbrev pub rules : List RuleDef
rules =
    rule l1 true routed_p2p match_router_router
    ∷ rule l2 true optical_segment match_olt_passive
    ∷ rule l3 true optical_segment match_passive_passive
    ∷ rule l4 true optical_termination match_passive_ont
    ∷ rule l5 true optical_segment match_olt_ont_direct
    ∷ rule l6 true access_edge match_aon_switch_cpe
    ∷ rule l6a true access_uplink_aon match_aon_switch_router
    ∷ rule l6b true access_uplink_olt match_olt_router
    ∷ rule l7 false mixed_invalid match_active_passive_invalid
    ∷ rule l8 false peer_invalid match_ont_ont_invalid
    ∷ []

-- The `for r in RULES` loop, over any list of rules.
abbrev pub first_match : List RuleDef → DeviceType → DeviceType → LinkRuleResult
first_match [] a b = record { rule_id = l9; allowed = false; link_class = reverse_invalid }
first_match (r ∷ rs) a b =
    if r.matcher a b
    then record { rule_id = r.rule_id; allowed = r.allowed; link_class = r.link_class }
    else first_match rs a b

unfoldable pub classify_link : Device → Device → LinkRuleResult
classify_link a b = first_match rules a.type b.type
