-- ===== src/Splitters/Behind.antt =====
-- The ONTs behind a port, and the usage that is counted from them.
use unoc_network_simulator.Prelude.{
  ℕ, ◌+◌, ◌≤◌, ◌≡◌, refl, ap, sym, ◌∙◌, subst, ◌↔◌, ◌⊎◌, inl, inr, Bool, true, false, Option, none,
  some, List, [], ◌∷◌, arith, ◌==◌, if◌then◌else◌, length, is_some, Bool-cases, ==_iff, ==_refl,
}
use unoc_network_simulator.Prelude.Sets.{contains, union, contains-union}
use unoc_network_simulator.Model.{Device, Interface, Link}
use unoc_network_simulator.Model.Tables.{Tables}
use unoc_network_simulator.Search.Walks.{Walk}
use unoc_network_simulator.Search.Sweep.Seek.Ahead.{ahead_iff}
use unoc_network_simulator.Search.Sweep.Gather.{gather_iff}
use unoc_network_simulator.Search.Queues.{push_back, push_back-IsPush}
use unoc_network_simulator.Splitters.Defs.{
  PortNames, is_splitter, counterparts, ont_of, owned_next, ends, fuel_of, onts_behind,
  out_interface_has_ont, count_used, use_ports, out_ifaces, compute_splitter_usage,
}

pub counterparts_none :
    (ls : List Link) (v : ℕ) → contains v (ends ls) ≡ false → counterparts ls v ≡ []
unfolding counterparts
counterparts_none [] v h = refl
counterparts_none (l ∷ ls) v h =
    let a : (l.a_interface_id == v) ≡ false = ground (arith, h) in
    let b : (l.b_interface_id == v) ≡ false = ground (arith, h) in
    rw (a, b) (counterparts_none ls v (ground (arith, h)))

known : (t : Tables) (v : ℕ) → contains v (ends t.links) ≡ false → owned_next t v ≡ []
unfolding owned_next
known t v h = rw (counterparts_none t.links v h) refl

pub begins : (i v : ℕ) → contains v (i ∷ []) ≡ contains v (i ∷ [])
begins i v = refl

-- The interfaces that can be come to from a port, over links whose far ends have a device.
abbrev pub Behind : Tables → ℕ → ℕ → Type 0
Behind t i v = Walk (i ∷ []) (owned_next t) (λ _. true) v

-- The ONT has an interface behind the port.
abbrev pub HasOnt : Tables → ℕ → ℕ → Type 0
HasOnt t i x = (v : ℕ) × Behind t i v × (ont_of t v ≡ some x)

bare_seed :
    (t : Tables) (i : ℕ)
    → ont_of t i ≡ none
    → (v : ℕ) → contains v (i ∷ []) ≡ true
    → ont_of t v ≡ none
bare_seed t i bare v m =
    subst (λ (w : ℕ). ont_of t w ≡ none) ((==_iff i v).0 (ground (arith, m))) bare

pub onts_behind_iff :
    (t : Tables) (i : ℕ)
    → ont_of t i ≡ none
    → (o : List ℕ) × (onts_behind t i ≡ some o) × ((x : ℕ) → (contains x o ≡ true) ↔ HasOnt t i x)
unfolding onts_behind
onts_behind_iff t i bare =
    gather_iff (owned_next t) push_back push_back-IsPush (i ∷ []) (ont_of t) (ends t.links)
      (known t) (fuel_of t (owned_next t)) (i ∷ []) (λ v. refl) (omega arith) (bare_seed t i bare)

some_of_is_some : {A : Type 0} (o : Option A) → is_some o ≡ true → (x : A) × (o ≡ some x)
some_of_is_some none h = absurd (ground arith)
some_of_is_some (some x) h = (x, refl)

pub out_interface_has_ont_iff :
    (t : Tables) (i : ℕ)
    → ont_of t i ≡ none
    → (b : Bool) × (out_interface_has_ont t i ≡ some b) × ((b ≡ true) ↔ ((x : ℕ) × HasOnt t i x))
unfolding out_interface_has_ont
out_interface_has_ont_iff t i bare =
    let (b, ends_, iff) =
      ahead_iff (owned_next t) push_back push_back-IsPush (i ∷ []) (λ v. is_some (ont_of t v))
        (ends t.links) (known t) (fuel_of t (owned_next t)) (i ∷ []) (λ v. refl) (omega arith)
        (λ v m. rw (bare_seed t i bare v m) refl) in
    (
      b,
      ends_,
      (
        λ h.
            let (v, walk, is) = iff.0 h in
            let (x, e) = some_of_is_some (ont_of t v) is in (x, (v, walk, e)),
        λ (x, (v, walk, e)). iff.1 (v, walk, ap is_some e),
      ),
    )

abbrev pub is_used : List ℕ → Bool
is_used [] = false
is_used (x ∷ xs) = true

abbrev pub found : Option Bool → Bool
found (some true) = true
found _ = false

searches_agree :
    (t : Tables) (i : ℕ) (o : List ℕ) (b : Bool)
    → ((x : ℕ) → (contains x o ≡ true) ↔ HasOnt t i x)
    → (b ≡ true) ↔ ((x : ℕ) × HasOnt t i x)
    → b ≡ is_used o
searches_agree t i [] true exact iff =
    let (x, has) = iff.0 refl in absurd (ground (arith, (exact x).1 has))
searches_agree t i [] false exact iff = refl
searches_agree t i (x ∷ xs) b exact iff = iff.1 (x, (exact x).0 (ground (arith, ==_refl x)))

-- From an interface that is no ONT's own, `has_ont_reachable` and `out_interface_has_ont` both end.
-- The first gathers exactly the ONTs that have an interface behind it, over links whose far ends
-- have a device; the second answers yes exactly if that set is not empty.
pub onts_behind-agrees :
    (t : Tables) (i : ℕ)
    → ont_of t i ≡ none
    → (o : List ℕ) × (onts_behind t i ≡ some o)
      × (out_interface_has_ont t i ≡ some (is_used o))
      × ((x : ℕ) → (contains x o ≡ true) ↔ HasOnt t i x)
onts_behind-agrees t i bare =
    let (o, ends_, exact) = onts_behind_iff t i bare in
    let (b, answers, iff) = out_interface_has_ont_iff t i bare in
    (o, ends_, answers ∙ ap (λ c. some c) (searches_agree t i o b exact iff), exact)

-- No OUT port is an ONT's.
abbrev pub AreBare : Tables → List Interface → Type 0
AreBare t [] = Unit {0}
AreBare t (i ∷ is) = (ont_of t i.id ≡ none) × AreBare t is

-- How many ports `out_interface_has_ont` says yes to.
abbrev pub ports_with_ont : Tables → List Interface → ℕ
ports_with_ont t [] = 0
ports_with_ont t (i ∷ is) =
    (if found (out_interface_has_ont t i.id) then 1 else 0) + ports_with_ont t is

-- An ONT has an interface behind one of the ports.
abbrev pub HasOntBehind : Tables → List Interface → ℕ → Type 0
HasOntBehind t [] x = ⊥
HasOntBehind t (i ∷ is) x = HasOnt t i.id x ⊎ HasOntBehind t is x

count_used-eq :
    (o : List ℕ) (used n : ℕ)
    → count_used o used + n ≡ used + ((if found (some (is_used o)) then 1 else 0) + n)
count_used-eq [] used n = omega arith
count_used-eq (x ∷ xs) used n = omega arith

no_more :
    (t : Tables) (x : ℕ) (onts : List ℕ)
    → (contains x onts ≡ true) ⊎ HasOntBehind t [] x
    → contains x onts ≡ true
no_more t x onts (inl h) = h
no_more t x onts (inr nobody) = absurd nobody

use_ports_correct :
    (t : Tables) (is : List Interface) (used : ℕ) (onts : List ℕ)
    → AreBare t is
    → (all : List ℕ) × (use_ports t is used onts ≡ some (used + ports_with_ont t is, all))
      × ((x : ℕ) → (contains x all ≡ true) ↔ ((contains x onts ≡ true) ⊎ HasOntBehind t is x))
unfolding use_ports
use_ports_correct t [] used onts bare =
    (onts, ap (λ n. some (n, onts)) (omega arith), λ x. (λ h. inl h, no_more t x onts))
use_ports_correct t (i ∷ is) used onts (b, bare) =
    let (behind, ends_, says, exact) = onts_behind-agrees t i.id b in
    let (all, rest, whole) =
      use_ports_correct t is (count_used behind used) (union onts behind) bare in
    (
      all,
      rw (ends_, use_ports)
          (rest
            ∙ (ap (λ n. some (n, all)) (count_used-eq behind used (ports_with_ont t is))
                ∙ rw says refl)),
      λ x. (
        λ h. elim ((whole x).0 h) [
          | inr later ↦ inr (inr later)
          | inl m ↦ elim (Bool-cases (contains x onts)) [
            | inl old ↦ inl old
            | inr new ↦
                inr
                  (inl ((exact x).0 (ground (arith, new, sym (contains-union x onts behind) ∙ m))))
          ]
        ],
        λ h. (whole x).1 (joined x onts behind (exact x) h),
      ),
    )
  where
    joined :
        (x : ℕ) (xs ys : List ℕ)
        → (contains x ys ≡ true) ↔ HasOnt t i.id x
        → (contains x xs ≡ true) ⊎ HasOntBehind t (i ∷ is) x
        → (contains x (union xs ys) ≡ true) ⊎ HasOntBehind t is x
    joined x xs ys iff (inl h) = inl (contains-union x xs ys ∙ ground (arith, h))
    joined x xs ys iff (inr (inl h)) = inl (contains-union x xs ys ∙ ground (arith, iff.1 h))
    joined x xs ys iff (inr (inr h)) = inr h

ports_with_ont-le : (t : Tables) (is : List Interface) → ports_with_ont t is ≤ length is
ports_with_ont-le t [] = omega arith
ports_with_ont-le t (i ∷ is) = ground (arith, ports_with_ont-le t is)

-- The usage of a splitter none of whose OUT ports is an ONT's is always answered. It has the number
-- of the OUT ports, of these the number to which `out_interface_has_ont` says yes, which is at most
-- the first, and the size of a set that holds exactly the ONTs with an interface that can be come to
-- from an OUT port over links alone. An ONT that only a way through a passive device leads to is in
-- neither number, although the module's docstring calls such devices transparent.
pub compute_splitter_usage_correct :
    (names : PortNames) (t : Tables) (d : Device)
    → is_splitter d.type ≡ true
    → AreBare t (out_ifaces names t d.id)
    → let outs = out_ifaces names t d.id in
      (onts : List ℕ) × (compute_splitter_usage names t d
        ≡ some (length outs, ports_with_ont t outs, length onts))
      × (ports_with_ont t outs ≤ length outs)
      × ((x : ℕ) → (contains x onts ≡ true) ↔ HasOntBehind t outs x)
unfolding compute_splitter_usage
compute_splitter_usage_correct names t d is_one bare =
    let outs = out_ifaces names t d.id in
    let (onts, ends_, whole) = use_ports_correct t outs 0 [] bare in
    (
      onts,
      rw (is_one, ends_) (ap (λ n. some (length outs, n, length onts)) (omega arith)),
      ports_with_ont-le t outs,
      λ x. (λ h. nothing_before x ((whole x).0 h), λ h. (whole x).1 (inr h)),
    )
  where
    nothing_before :
        (x : ℕ)
        → (contains x [] ≡ true) ⊎ HasOntBehind t (out_ifaces names t d.id) x
        → HasOntBehind t (out_ifaces names t d.id) x
    nothing_before x (inl h) = absurd (ground arith)
    nothing_before x (inr h) = h
