-- ===== src/LinkRules/Verdicts.antt =====
-- What classification decides, for every pair of devices.
use unoc_network_simulator.Prelude.{
  ℕ, ◌≤◌, ◌==◌, not, ◌≡◌, refl, Bool, true, false, ◌&&◌, List, [], ◌∷◌, arith, length, select, leb,
  leb→le,
}
use unoc_network_simulator.Model.{
  Device, DeviceType, backbone_gateway, pop, core_site, core_router, edge_router, aon_switch, olt,
  ont, aon_cpe, splitter, hop, nvt, odf, business_ont,
}
use unoc_network_simulator.LinkRules.Defs.{
  RuleId, l1, l2, l3, l4, l5, l6, l6a, l6b, l7, l8, l9, RuleDef, rules, first_match, classify_link,
}
use unoc_network_simulator.LinkRules.Constants.{link_type_rules}

-- The side of the network on which a device stands.
pub data Side : Type 0 where
  routed headend inline subscriber switch premises container : Side

abbrev pub side : DeviceType → Side
side backbone_gateway = routed
side core_router = routed
side edge_router = routed
side olt = headend
side splitter = inline
side hop = inline
side nvt = inline
side odf = inline
side ont = subscriber
side business_ont = subscriber
side aon_switch = switch
side aon_cpe = premises
side pop = container
side core_site = container

-- The links that the network admits, by sides.
abbrev pub compatible : Side → Side → Bool
compatible routed routed = true
compatible routed headend = true
compatible routed switch = true
compatible headend routed = true
compatible headend inline = true
compatible headend subscriber = true
compatible inline headend = true
compatible inline inline = true
compatible inline subscriber = true
compatible subscriber headend = true
compatible subscriber inline = true
compatible switch routed = true
compatible switch premises = true
compatible premises switch = true
compatible _ _ = false

-- A check of every device type.
abbrev every : (DeviceType → Bool) → Bool
every p =
    p backbone_gateway
    && (p pop
        && (p core_site
            && (p core_router
                && (p edge_router
                    && (p aon_switch
                        && (p olt
                            && (p ont
                                && (p aon_cpe
                                    && (p splitter
                                        && (p hop && (p nvt && (p odf && p business_ont))))))))))))

every_sound : (p : DeviceType → Bool) → every p ≡ true → (t : DeviceType) → p t ≡ true
every_sound p h backbone_gateway = ground arith
every_sound p h t = ground arith

-- A test that holds in the whole table holds of every pair.
pub table_sound :
    (test : DeviceType → DeviceType → Bool)
    → every (λ a. every (test a)) ≡ true
    → (a b : DeviceType) → test a b ≡ true
table_sound test h a b = every_sound (test a) (every_sound (λ t. every (test t)) h a) b

abbrev pub same : Bool → Bool → Bool
same true b = b
same false b = not b

pub same-eq : (a b : Bool) → same a b ≡ true → a ≡ b
same-eq a b h = ground arith

-- A link is allowed exactly if the sides of its two devices are compatible.
pub classify_link-allowed :
    (a b : Device) → (classify_link a b).allowed ≡ compatible (side a.type) (side b.type)
unfolding classify_link
classify_link-allowed a b = same-eq _ _ (
    table_sound (λ s t. same (first_match rules s t).allowed (compatible (side s) (side t))) refl
      a.type b.type)

-- The rules whose matcher holds of a pair.
abbrev pub matching : List RuleDef → DeviceType → DeviceType → List RuleDef
matching rs a b = select (λ r. r.matcher a b) rs

-- At most one matcher holds of a pair, so the order of the rules decides nothing.
pub matching-le-one : (a b : Device) → length (matching rules a.type b.type) ≤ 1
matching-le-one a b =
    leb→le _ _ (table_sound (λ s t. leb (length (matching rules s t)) 1) refl a.type b.type)

-- A rule table whose matchers do not look at the order of the two devices.
abbrev AreSymmetric : List RuleDef → Type 0
AreSymmetric [] = Unit
AreSymmetric (r ∷ rs) = ((a b : DeviceType) → r.matcher a b ≡ r.matcher b a) × AreSymmetric rs

first_match_comm :
    (rs : List RuleDef)
    → AreSymmetric rs
    → (a b : DeviceType) → first_match rs a b ≡ first_match rs b a
first_match_comm [] h a b = refl
first_match_comm (r ∷ rs) h a b = ground (arith, h.0 a b, first_match_comm rs h.1 a b)

rules-AreSymmetric : AreSymmetric rules
rules-AreSymmetric = (
  λ a b. ground arith,
  (
    λ a b. ground arith,
    (
      λ a b. ground arith,
      (
        λ a b. ground arith,
        (
          λ a b. ground arith,
          (
            λ a b. ground arith,
            (
              λ a b. ground arith,
              (λ a b. ground arith, (λ a b. ground arith, (λ a b. ground arith, tt))),
            ),
          ),
        ),
      ),
    ),
  ),
)

-- The verdict does not depend on which end of the link a device is.
pub classify_link_comm : (a b : Device) → classify_link a b ≡ classify_link b a
unfolding classify_link
classify_link_comm a b = first_match_comm rules rules-AreSymmetric a.type b.type

abbrev rule_no : RuleId → ℕ
rule_no l1 = 1
rule_no l2 = 2
rule_no l3 = 3
rule_no l4 = 4
rule_no l5 = 5
rule_no l6 = 6
rule_no l6a = 7
rule_no l6b = 8
rule_no l7 = 9
rule_no l8 = 10
rule_no l9 = 11

rule_no_injective : (i j : RuleId) → (rule_no i == rule_no j) ≡ true → i ≡ j
rule_no_injective i j h = ground arith

-- The table of constants gives every pair the rule and the verdict of the table in use.
pub classify_link-constants :
    (a b : Device)
    → ((first_match link_type_rules a.type b.type).rule_id ≡ (classify_link a b).rule_id)
      × ((first_match link_type_rules a.type b.type).allowed ≡ (classify_link a b).allowed)
unfolding classify_link
classify_link-constants a b = (
  rule_no_injective _ _ (
      table_sound
        (λ s t.
          rule_no (first_match link_type_rules s t).rule_id
          == rule_no (first_match rules s t).rule_id)
        refl a.type b.type),
  same-eq _ _ (
      table_sound
        (λ s t. same (first_match link_type_rules s t).allowed (first_match rules s t).allowed) refl
        a.type b.type),
)
