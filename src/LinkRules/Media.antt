-- ===== src/LinkRules/Media.antt =====
-- backend/link_rules.py: the media that a link class admits.
use unoc_network_simulator.Prelude.{◌≡◌, refl, Bool, true, false, not, List, [], ◌∷◌}
use unoc_network_simulator.Model.{
  Device, Medium, smf_g652d, smf_g657a1, smf_g657a2, mmf_om3, mmf_om4, cat6a_utp,
}
use unoc_network_simulator.LinkRules.Defs.{
  LinkClass, routed_p2p, optical_segment, optical_termination, access_edge, access_uplink_aon,
  access_uplink_olt, rules, first_match, classify_link,
}
use unoc_network_simulator.LinkRules.Verdicts.{table_sound, same, same-eq}

unfoldable pub allowed_media_codes_for_class : LinkClass → List Medium
allowed_media_codes_for_class routed_p2p = smf_g652d ∷ smf_g657a1 ∷ smf_g657a2 ∷ []
allowed_media_codes_for_class optical_segment =
    smf_g652d ∷ smf_g657a1 ∷ smf_g657a2 ∷ mmf_om3 ∷ mmf_om4 ∷ []
allowed_media_codes_for_class optical_termination =
    smf_g652d ∷ smf_g657a1 ∷ smf_g657a2 ∷ mmf_om3 ∷ mmf_om4 ∷ []
allowed_media_codes_for_class access_edge = cat6a_utp ∷ []
allowed_media_codes_for_class access_uplink_olt = smf_g652d ∷ smf_g657a1 ∷ smf_g657a2 ∷ []
allowed_media_codes_for_class access_uplink_aon =
    smf_g652d ∷ smf_g657a1 ∷ smf_g657a2 ∷ mmf_om3 ∷ mmf_om4 ∷ cat6a_utp ∷ []
allowed_media_codes_for_class _ = []

abbrev pub is_empty {ℓ} : {A : Type ℓ} → List A → Bool
is_empty [] = true
is_empty (_ ∷ _) = false

-- A link is allowed exactly if some physical medium is admitted for its class.
pub allowed_media-classify_link :
    (a b : Device)
    → is_empty (allowed_media_codes_for_class (classify_link a b).link_class)
      ≡ not (classify_link a b).allowed
unfolding classify_link allowed_media_codes_for_class
allowed_media-classify_link a b = same-eq _ _ (
    table_sound
      (λ s t.
        same (is_empty (allowed_media_codes_for_class (first_match rules s t).link_class))
          (not (first_match rules s t).allowed))
      refl a.type b.type)
