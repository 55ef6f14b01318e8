-- ===== src/Subscribers/Claims.antt =====
-- The devices that ask for an access port, by `trace_direct_aon_anchor` of
-- backend/services/subscriber_model.py.
use unoc_network_simulator.Prelude.{
  ℕ, ◌≡◌, refl, ap, sym, ◌∙◌, subst, Bool, true, false, not, ◌&&◌, Option, none, some, List, [],
  ◌∷◌, arith, ◌==◌, if◌then◌else◌, Bool-cases, Option-cases, either_way, inl, inr, ==_iff, is_some,
  find_holds, ==_refl,
}
use unoc_network_simulator.Prelude.Sets.{contains, sorted}
use unoc_network_simulator.Model.{is_ont, Interface, Device}
use unoc_network_simulator.Model.Tables.{Tables, get_device, get_interface}
use unoc_network_simulator.Subscribers.Defs.{
  Anchor, direct_l4_cpe_access_port, is_cpe, is_aon_switch, port_of, first_switch, direct_from,
  interfaces_by_device, link_neighbors, trace_direct_aon_anchor,
}

-- The port that a device asks for, if it is a CPE that is provisioned.
abbrev pub claim : Tables → Device → Option Anchor
claim t d =
    if not (is_ont d.type) && (is_cpe d.type && d.provisioned)
    then trace_direct_aon_anchor t d.id
    else none

abbrev pub at_port : Option Anchor → ℕ → Bool
at_port none i = false
at_port (some n) i = n.interface_id == i

-- The devices that ask for an access port, in their order.
abbrev pub claimants : Tables → ℕ → List Device → List ℕ
claimants t i [] = []
claimants t i (d ∷ ds) =
    let rest = claimants t i ds in if at_port (claim t d) i then d.id ∷ rest else rest

abbrev pub at_both : Option Anchor → ℕ → ℕ → Bool
at_both none a i = false
at_both (some n) a i = n.device_id == a && n.interface_id == i

abbrev pub claimants_at : Tables → ℕ → ℕ → List Device → List ℕ
claimants_at t a i [] = []
claimants_at t a i (d ∷ ds) =
    let rest = claimants_at t a i ds in if at_both (claim t d) a i then d.id ∷ rest else rest

abbrev is_of : Option (Interface × Device) → ℕ → Bool
is_of none a = false
is_of (some (iface, device)) a = device.id == a

-- The interface is there and the device's own.
abbrev pub owns : Tables → ℕ → ℕ → Bool
owns t a i = is_of (port_of t i) a

abbrev owned : Tables → Option Anchor → Bool
owned t none = true
owned t (some n) = owns t n.device_id n.interface_id

port_of-id :
    (t : Tables) (i : ℕ) (iface : Interface) (device : Device)
    → port_of t i ≡ some (iface, device)
    → owns t device.id iface.id ≡ true
port_of-id t i iface device h = elim (Option-cases (get_interface t.interfaces i)) [
  | inl gone ↦
      let miss : port_of t i ≡ none = rw gone refl in
      absurd (ground (arith, ap is_some (sym miss ∙ h)))
  | inr (row, e) ↦ elim (Option-cases (get_device t.devices row.device_id)) [
    | inl gone ↦
        let miss : port_of t i ≡ none = rw (e, gone) refl in
        absurd (ground (arith, ap is_some (sym miss ∙ h)))
    | inr (own, f) ↦
        let there : port_of t i ≡ some (row, own) = rw (e, f) refl in
        let id : row.id ≡ i =
          (==_iff row.id i).0 (find_holds (λ (r : Interface). r.id == i) t.interfaces row e) in
        let at : port_of t row.id ≡ some (iface, device) = ap (port_of t) id ∙ h in
        let same : row.id ≡ iface.id = ap id_of (sym there ∙ h) in
        ap (λ (o : Option (Interface × Device)). is_of o device.id) (ap (port_of t) (sym same) ∙ at)
        ∙ ==_refl device.id
  ]
]
  where
    id_of : Option (Interface × Device) → ℕ
    id_of none = 0
    id_of (some (r, d)) = r.id

first_switch-owned : (t : Tables) (peers : List ℕ) → owned t (first_switch t peers) ≡ true
first_switch-owned t [] = refl
first_switch-owned t (peer ∷ peers) =
    by_row (port_of t peer) (first_switch-owned t peers)
      (λ iface device e. port_of-id t peer iface device e)
  where
    by_row :
        (o : Option (Interface × Device))
        → owned t (first_switch t peers) ≡ true
        → ((iface : Interface) (device : Device)
            → o ≡ some (iface, device)
            → owns t device.id iface.id ≡ true)
        → owned t (elim o [
          | none ↦ first_switch t peers
          | some (iface, device) ↦
              if is_aon_switch device.type
              then some (record {
                device_id = device.id;
                interface_id = iface.id;
                reason = direct_l4_cpe_access_port;
              })
              else first_switch t peers
        ])
          ≡ true
    by_row none rest k = rest
    by_row (some (iface, device)) rest k =
        either_way (λ o. owned t o ≡ true) (is_aon_switch device.type) _ _ (k iface device refl)
          rest

direct_from-owned : (t : Tables) (is : List Interface) → owned t (direct_from t is) ≡ true
direct_from-owned t [] = refl
direct_from-owned t (i ∷ is) =
    let own = first_switch-owned t (sorted (link_neighbors t.links i.id)) in
    elim (Option-cases (first_switch t (sorted (link_neighbors t.links i.id)))) [
      | inl none_there ↦ rw (none_there, direct_from) (direct_from-owned t is)
      | inr (n, e) ↦ rw (e, direct_from) (rw e at own)
    ]

claim-owned : (t : Tables) (d : Device) → owned t (claim t d) ≡ true
unfolding trace_direct_aon_anchor
claim-owned t d =
    either_way (λ o. owned t o ≡ true) (not (is_ont d.type) && (is_cpe d.type && d.provisioned)) _ _
      (direct_from-owned t (interfaces_by_device t d.id)) refl

at_both_split :
    (t : Tables) (o : Option Anchor) (a i : ℕ)
    → owned t o ≡ true
    → at_both o a i ≡ (at_port o i && owns t a i)
at_both_split t none a i h = refl
at_both_split t (some n) a i h = elim (Bool-cases (n.interface_id == i)) [
  | inr other ↦ rw other (ground arith)
  | inl here ↦
      let h' : owns t n.device_id i ≡ true =
        subst (λ (x : ℕ). owns t n.device_id x ≡ true) ((==_iff n.interface_id i).0 here) h in
      rw here (by_row (port_of t i) h')
]
  where
    by_row :
        (o : Option (Interface × Device))
        → is_of o n.device_id ≡ true
        → (n.device_id == a && true) ≡ (true && is_of o a)
    by_row none k = absurd (ground arith)
    by_row (some (iface, device)) k = rw ((==_iff device.id n.device_id).0 k) (ground arith)

pub claimants_at-owns :
    (t : Tables) (a i : ℕ) (ds : List Device)
    → claimants_at t a i ds ≡ (if owns t a i then claimants t i ds else [])
claimants_at-owns t a i [] = either_way (λ l. [] ≡ l) (owns t a i) [] [] refl refl
claimants_at-owns t a i (d ∷ ds) =
    let both = at_both_split t (claim t d) a i (claim-owned t d) in
    let rest = claimants_at-owns t a i ds in
    elim (Bool-cases (owns t a i)) [
      | inl yes_it_is ↦ elim (Bool-cases (at_port (claim t d) i)) [
        | inl here ↦ rw (both, yes_it_is, here) (ap (d.id ∷◌) (rest ∙ rw yes_it_is refl))
        | inr away ↦ rw (both, yes_it_is, away) (rest ∙ rw yes_it_is refl)
      ]
      | inr not_it ↦
          let neither : at_both (claim t d) a i ≡ false = ground (arith, both, not_it) in
          rw (neither, not_it) (rest ∙ rw not_it refl)
    ]

-- A port that is claimed has an owner.
pub claimed_owner :
    (t : Tables) (i x : ℕ) (ds : List Device)
    → contains x (claimants t i ds) ≡ true
    → (a : ℕ) × (owns t a i ≡ true)
claimed_owner t i x [] h = absurd (ground arith)
claimed_owner t i x (d ∷ ds) h = elim (Bool-cases (at_port (claim t d) i)) [
  | inr away ↦ claimed_owner t i x ds (rw away at h)
  | inl here ↦ of_claim (claim t d) here (claim-owned t d)
]
  where
    of_claim :
        (o : Option Anchor) → at_port o i ≡ true → owned t o ≡ true → (a : ℕ) × (owns t a i ≡ true)
    of_claim none k own = absurd (ground arith)
    of_claim (some n) k own = (
      n.device_id,
      subst (λ (j : ℕ). owns t n.device_id j ≡ true) ((==_iff n.interface_id i).0 k) own,
    )
