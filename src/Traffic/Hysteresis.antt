-- ===== src/Traffic/Hysteresis.antt =====
-- Which subjects are congested after a tick: those over a threshold that depends on the tick before.
use unoc_network_simulator.Prelude.{
  ℕ, ◌≡◌, refl, Bool, true, false, ◌&&◌, ◌||◌, List, [], ◌∷◌, arith, ◌==◌, leb, ltb, not,
  if◌then◌else◌, any, Bool-cases, inl, inr, ==_iff, subst, sym, ap, ◌∙◌,
}
use unoc_network_simulator.Prelude.Sets.{contains, add, contains-add}
use unoc_network_simulator.Traffic.Congestion.{
  Load, Thresholds, is_over, congested, handle_device_congestion,
}

pub contains-congested_from :
    (h : Thresholds) (prev : List ℕ) (xs : List Load) (current : List ℕ) (i : ℕ)
    → contains i (congested h prev xs current)
      ≡ (contains i current || any (λ x. x.id == i && is_over h prev x) xs)
unfolding congested
contains-congested_from h prev [] current i = ground arith
contains-congested_from h prev (x ∷ xs) current i = elim (Bool-cases (is_over h prev x)) [
  | inl t ↦ rw t (
      contains-congested_from h prev xs (add x.id current) i
      ∙ ground (arith, contains-add i x.id current))
  | inr f ↦ rw f (contains-congested_from h prev xs current i ∙ ground arith)
]

abbrev pub reaches : Thresholds → List ℕ → ℕ → Load → Bool
reaches h prev i x = x.id == i && leb (if contains i prev then h.clear else h.detect) x.utilization

is_over-at :
    (h : Thresholds) (prev : List ℕ) (i : ℕ) (x : Load)
    → (x.id == i && is_over h prev x) ≡ reaches h prev i x
is_over-at h prev i x = elim (Bool-cases (x.id == i)) [
  | inr f ↦ rw f refl
  | inl t ↦
      let e : i ≡ x.id = sym ((==_iff x.id i).0 t) in
      subst (λ (j : ℕ). (x.id == j && is_over h prev x) ≡ reaches h prev j x) (sym e)
        (elim (Bool-cases (contains x.id prev)) [ inl was ↦ rw was refl | inr new ↦ rw new refl ])
]

pub contains-congested :
    (h : Thresholds) (prev : List ℕ) (xs : List Load) (i : ℕ)
    → any (λ x. x.id == i && is_over h prev x) xs ≡ any (reaches h prev i) xs
contains-congested h prev [] i = refl
contains-congested h prev (x ∷ xs) i =
    rw (is_over-at h prev i x) (ap (λ b. reaches h prev i x || b) (contains-congested h prev xs i))

none_outside :
    (h : Thresholds) (prev : List ℕ) (i : ℕ) (xs : List Load)
    → contains i prev ≡ false
    → any (λ x. x.id == i && not (leb h.clear x.utilization && ltb x.utilization h.detect)) xs
      ≡ false
    → any (reaches h prev i) xs ≡ false
none_outside h prev i [] new k = refl
none_outside h prev i (x ∷ xs) new k = ground (arith, none_outside h prev i xs new)

some_inside :
    (h : Thresholds) (prev : List ℕ) (i : ℕ) (xs : List Load)
    → contains i prev ≡ true
    → any (λ x. x.id == i) xs ≡ true
    → any (λ x. x.id == i && not (leb h.clear x.utilization && ltb x.utilization h.detect)) xs
      ≡ false
    → any (reaches h prev i) xs ≡ true
some_inside h prev i [] was here k = ground arith
some_inside h prev i (x ∷ xs) was here k = ground (arith, some_inside h prev i xs was)

between_steady :
    (h : Thresholds) (prev : List ℕ) (xs : List Load) (i : ℕ)
    → any (λ x. x.id == i) xs ≡ true
    → any (λ x. x.id == i && not (leb h.clear x.utilization && ltb x.utilization h.detect)) xs
      ≡ false
    → any (reaches h prev i) xs ≡ contains i prev
between_steady h prev xs i here k = elim (Bool-cases (contains i prev)) [
  | inl was ↦ some_inside h prev i xs was here k ∙ sym was
  | inr new ↦ none_outside h prev i xs new k ∙ sym new
]

-- A device is congested after a tick exactly if some entry of it reaches the clear threshold, where
-- it was congested before, or else the detect threshold.
pub handle_device_congestion-contains :
    (h : Thresholds) (prev : List ℕ) (xs : List Load) (tick i : ℕ)
    → contains i (handle_device_congestion prev xs h tick).0 ≡ any (reaches h prev i) xs
unfolding handle_device_congestion
handle_device_congestion-contains h prev xs tick i =
    contains-congested_from h prev xs [] i ∙ contains-congested h prev xs i

-- A device whose entries all lie between the thresholds, and that has one, is congested after a tick
-- exactly if it was before.
pub handle_device_congestion-steady :
    (h : Thresholds) (prev : List ℕ) (xs : List Load) (tick i : ℕ)
    → any (λ x. x.id == i) xs ≡ true
    → any (λ x. x.id == i && not (leb h.clear x.utilization && ltb x.utilization h.detect)) xs
      ≡ false
    → contains i (handle_device_congestion prev xs h tick).0 ≡ contains i prev
handle_device_congestion-steady h prev xs tick i here between =
    handle_device_congestion-contains h prev xs tick i ∙ between_steady h prev xs i here between
