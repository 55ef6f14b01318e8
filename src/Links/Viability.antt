-- ===== src/Links/Viability.antt =====
-- backend/services/link_validator_service.py: whether a link can exist physically. Lengths and ranges
-- are thousandths of a kilometre; `max_km` is the threshold from the environment.
use unoc_network_simulator.Prelude.{
  ℕ, ◌≤◌, ◌≡◌, ◌↔◌, ◌⊎◌, Bool, true, false, ◌||◌, not, Option, none, some, List, [], ◌∷◌, arith,
  if◌then◌else◌, ◌==◌, leb, any, Option-cases, inl, inr,
}
use unoc_network_simulator.Model.{
  Device, Link, PhysicalMedium, Medium, smf_g652d, smf_g657a1, smf_g657a2, mmf_om3, mmf_om4,
  cat6a_utp, other_medium, is_ont,
}
use unoc_network_simulator.Model.Tables.{Tables, get_medium, endpoint_devices}
use unoc_network_simulator.LinkRules.{classify_link}
use unoc_network_simulator.LinkRules.Media.{
  allowed_media_codes_for_class, allowed_media-classify_link, is_empty,
}

abbrev pub default_max_km : ℕ
default_max_km = 10_000

abbrev medium_no : Medium → ℕ
medium_no smf_g652d = 0
medium_no smf_g657a1 = 1
medium_no smf_g657a2 = 2
medium_no mmf_om3 = 3
medium_no mmf_om4 = 4
medium_no cat6a_utp = 5
medium_no (other_medium _) = 6

-- `pm.code in allowed`; no allowed code is `other_medium`.
unfoldable pub admits : List Medium → Medium → Bool
admits codes m = any (λ c. medium_no c == medium_no m) codes

-- `float(length) <= float(limit)` where the length is known.
abbrev pub in_range : Option ℕ → ℕ → Bool
in_range none limit = true
in_range (some length) limit = leb length limit

abbrev pub touches_ont : Option (Device × Device) → Bool
touches_ont none = false
touches_ont (some (a, b)) = is_ont a.type || is_ont b.type

unfoldable pub is_optical_context : Tables → Link → Bool
is_optical_context t link = touches_ont (endpoint_devices t link.a_interface_id link.b_interface_id)

abbrev medium_in_range : PhysicalMedium → Option ℕ → Bool
medium_in_range pm length =
    if not pm.is_optical
    then elim pm.max_range_km [ none ↦ true | some limit ↦ in_range length limit ]
    else true

-- A link with a chosen medium: the row, the endpoints, the class, the range.
abbrev medium_fits : Option PhysicalMedium → Option (Device × Device) → Option ℕ → Bool
medium_fits none ends length = false
medium_fits (some pm) none length = false
medium_fits (some pm) (some (a, b)) length =
    if admits (allowed_media_codes_for_class (classify_link a b).link_class) pm.code
    then medium_in_range pm length
    else false

unfoldable pub is_link_physically_viable : ℕ → Tables → Link → Bool
unfolding is_optical_context
is_link_physically_viable max_km t link = elim link.physical_medium_id [
  | some m ↦
      medium_fits (get_medium t.media m)
        (endpoint_devices t link.a_interface_id link.b_interface_id) link.length_km
  | none ↦ if is_optical_context t link then true else in_range link.length_km max_km
]

admits-nil : (codes : List Medium) (m : Medium) → admits codes m ≡ true → is_empty codes ≡ false
unfolding admits
admits-nil [] m h = ground arith
admits-nil (c ∷ cs) m h = ground arith

-- A link with a medium between two devices is viable only if the link rules allow the pair.
pub allowed_of_viable :
    (max_km : ℕ) (t : Tables) (link : Link) (m : ℕ) (a b : Device)
    → link.physical_medium_id ≡ some m
    → endpoint_devices t link.a_interface_id link.b_interface_id ≡ some (a, b)
    → is_link_physically_viable max_km t link ≡ true
    → (classify_link a b).allowed ≡ true
unfolding is_link_physically_viable
allowed_of_viable max_km t link m a b chosen ends h = elim (Option-cases (get_medium t.media m)) [
  | inl gone ↦ absurd (ground arith)
  | inr (pm, found) ↦ ground (
    arith,
    admits-nil (allowed_media_codes_for_class (classify_link a b).link_class) pm.code,
    allowed_media-classify_link a b,
  )
]

-- Without a medium, a link of a known length is viable exactly if it ends at an ONT or is no longer
-- than the threshold; a link of unknown length is always viable.
pub viable_iff :
    (max_km : ℕ) (t : Tables) (link : Link)
    → link.physical_medium_id ≡ none
    → ((length : ℕ)
        → link.length_km ≡ some length
        → (is_link_physically_viable max_km t link ≡ true)
          ↔ ((is_optical_context t link ≡ true) ⊎ (length ≤ max_km)))
      × (link.length_km ≡ none → is_link_physically_viable max_km t link ≡ true)
unfolding is_link_physically_viable
viable_iff max_km t link free = (λ length known. ground arith, λ unknown. ground arith)
