-- ===== src/Traffic/Alternation.antt =====
-- The number of events of congestion that v2_congestion.py publishes for one subject.
use unoc_network_simulator.Prelude.{
  ℕ, suc, ◌+◌, ◌≡◌, refl, ap, ◌∙◌, Bool, true, false, not, ◌&&◌, List, [], ◌∷◌, ◌++◌, arith, ◌==◌,
  leb, any, Bool-cases, inl, inr, ==_iff, subst,
}
use unoc_network_simulator.Prelude.Sets.{contains, add}
use unoc_network_simulator.Traffic.Congestion.{
  Subject, a_device, Load, Thresholds, Change, detected, cleared, CongestionEvent, is_over,
  congested, detections, clearings, handle_device_congestion,
}
use unoc_network_simulator.Traffic.Hysteresis.{reaches, contains-congested_from, contains-congested}

abbrev is_detection : Change → Bool
is_detection detected = true
is_detection cleared = false

abbrev pub one : Bool → ℕ
one true = 1
one false = 0

-- How often a list of events detects, and how often it clears a subject.
abbrev pub count_detected : ℕ → List CongestionEvent → ℕ
count_detected i [] = 0
count_detected i (e ∷ es) = one (e.id == i && is_detection e.change) + count_detected i es

abbrev pub count_cleared : ℕ → List CongestionEvent → ℕ
count_cleared i [] = 0
count_cleared i (e ∷ es) = one (e.id == i && not (is_detection e.change)) + count_cleared i es

count_detected-append :
    (i : ℕ) (xs ys : List CongestionEvent)
    → count_detected i (xs ++ ys) ≡ count_detected i xs + count_detected i ys
count_detected-append i [] ys = omega arith
count_detected-append i (x ∷ xs) ys = omega (arith, count_detected-append i xs ys)

count_cleared-append :
    (i : ℕ) (xs ys : List CongestionEvent)
    → count_cleared i (xs ++ ys) ≡ count_cleared i xs + count_cleared i ys
count_cleared-append i [] ys = omega arith
count_cleared-append i (x ∷ xs) ys = omega (arith, count_cleared-append i xs ys)

-- No identifier stands twice.
abbrev pub IsSetOf : List ℕ → Type 0
IsSetOf [] = Unit {0}
IsSetOf (x ∷ xs) = (contains x xs ≡ false) × IsSetOf xs

abbrev pub ids : List Load → List ℕ
ids [] = []
ids (x ∷ xs) = x.id ∷ ids xs

absent_any :
    (q : Load → Bool) (i : ℕ) (xs : List Load)
    → contains i (ids xs) ≡ false
    → any (λ x. x.id == i && q x) xs ≡ false
absent_any q i [] h = refl
absent_any q i (x ∷ xs) h = ground (arith, absent_any q i xs)

module _ (s : Subject) (h : Thresholds) (prev : List ℕ) (tick i : ℕ) where
  none_detected :
      (xs : List Load)
      → contains i (ids xs) ≡ false
      → count_detected i (detections s h prev xs tick) ≡ 0
  unfolding detections
  none_detected [] k = refl
  none_detected (x ∷ xs) k = elim (Bool-cases (contains x.id prev)) [
    | inl was ↦ rw was (none_detected xs (ground arith))
    | inr new ↦ rw new (elim (Bool-cases (leb h.detect x.utilization)) [
      | inl over ↦ rw over (ground (arith, none_detected xs))
      | inr under ↦ rw under (none_detected xs (ground arith))
    ])
  ]

  count-detections :
      (xs : List Load)
      → IsSetOf (ids xs)
      → count_detected i (detections s h prev xs tick)
        ≡ one (not (contains i prev) && any (λ x. x.id == i && leb h.detect x.utilization) xs)
  unfolding detections
  count-detections [] k = ground arith
  count-detections (x ∷ xs) (apart, rest) = elim (Bool-cases (x.id == i)) [
    | inl t ↦
        let e : x.id ≡ i = (==_iff x.id i).0 t in
        let apart_i : contains i (ids xs) ≡ false =
          subst (λ (j : ℕ). contains j (ids xs) ≡ false) e apart in
        let same : contains x.id prev ≡ contains i prev = ap (λ j. contains j prev) e in
        let gone = absent_any (λ y. leb h.detect y.utilization) i xs apart_i in
        elim (Bool-cases (contains x.id prev)) [
          | inl was ↦ rw was (ground (arith, none_detected xs apart_i, gone, same, was))
          | inr new ↦ rw new (ground (arith, none_detected xs apart_i, gone, same, new))
        ]
    | inr ne ↦ elim (Bool-cases (contains x.id prev)) [
      | inl was ↦ rw was (ground (arith, count-detections xs rest, ne))
      | inr new ↦ rw new (ground (arith, count-detections xs rest, ne))
    ]
  ]

  cleared-detections : (xs : List Load) → count_cleared i (detections s h prev xs tick) ≡ 0
  unfolding detections
  cleared-detections [] = refl
  cleared-detections (x ∷ xs) = ground (arith, cleared-detections xs)

  detected-clearings :
      (xs : List Load) (current is : List ℕ) → count_detected i (clearings s xs current tick is) ≡ 0
  unfolding clearings
  detected-clearings xs current [] = refl
  detected-clearings xs current (j ∷ js) = ground (arith, detected-clearings xs current js)

  count-clearings :
      (xs : List Load) (current is : List ℕ)
      → IsSetOf is
      → count_cleared i (clearings s xs current tick is)
        ≡ one (contains i is && not (contains i current))
  unfolding clearings
  count-clearings xs current [] k = ground arith
  count-clearings xs current (j ∷ js) (apart, rest) = elim (Bool-cases (j == i)) [
    | inl t ↦
        let e : j ≡ i = (==_iff j i).0 t in
        let apart_i : contains i js ≡ false = subst (λ (k : ℕ). contains k js ≡ false) e apart in
        let same : contains j current ≡ contains i current = ap (λ k. contains k current) e in
        elim (Bool-cases (contains j current)) [
          | inl still ↦
              rw still (ground (arith, count-clearings xs current js rest, apart_i, same, still))
          | inr left ↦
              rw left (ground (arith, count-clearings xs current js rest, apart_i, same, left, t))
        ]
    | inr ne ↦ elim (Bool-cases (contains j current)) [
      | inl still ↦ rw still (ground (arith, count-clearings xs current js rest, ne))
      | inr left ↦ rw left (ground (arith, count-clearings xs current js rest, ne))
    ]
  ]

reaches_detect :
    (h : Thresholds) (prev : List ℕ) (xs : List Load) (i : ℕ)
    → contains i prev ≡ false
    → any (reaches h prev i) xs ≡ any (λ x. x.id == i && leb h.detect x.utilization) xs
reaches_detect h prev [] i new = refl
reaches_detect h prev (x ∷ xs) i new = ground (arith, reaches_detect h prev xs i new)

entered :
    (h : Thresholds) (prev : List ℕ) (xs : List Load) (i : ℕ)
    → contains i prev ≡ false
    → contains i (congested h prev xs []) ≡ any (λ x. x.id == i && leb h.detect x.utilization) xs
entered h prev xs i new =
    contains-congested_from h prev xs [] i
    ∙ contains-congested h prev xs i
    ∙ reaches_detect h prev xs i new

one_balance :
    (was over now : Bool)
    → (was ≡ false → now ≡ over)
    → one (not was && over) + one was ≡ one (was && not now) + one now
one_balance true over true h = omega arith
one_balance true over false h = omega arith
one_balance false over now h = rw (h refl) (omega arith)

-- On a set and on entries of distinct subjects, the detections of a tick and the
-- membership before balance the clearings and the membership after.
pub tick_balance :
    (h : Thresholds) (prev : List ℕ) (xs : List Load) (tick i : ℕ)
    → IsSetOf prev
    → IsSetOf (ids xs)
    → count_detected i (handle_device_congestion prev xs h tick).1 + one (contains i prev)
      ≡ count_cleared i (handle_device_congestion prev xs h tick).1
        + one (contains i (handle_device_congestion prev xs h tick).0)
unfolding handle_device_congestion
tick_balance h prev xs tick i set distinct =
    let now = congested h prev xs [] in
    let ds = detections a_device h prev xs tick in
    let cs = clearings a_device xs now tick prev in
    let over = any (λ x. x.id == i && leb h.detect x.utilization) xs in
    omega (
      arith,
      count_detected-append i ds cs,
      count_cleared-append i ds cs,
      count-detections a_device h prev tick i xs distinct,
      cleared-detections a_device h prev tick i xs,
      detected-clearings a_device h prev tick i xs now prev,
      count-clearings a_device h prev tick i xs now prev set,
      one_balance (contains i prev) over (contains i now) (entered h prev xs i),
    )

add-IsSetOf : (x : ℕ) (xs : List ℕ) → IsSetOf xs → IsSetOf (add x xs)
add-IsSetOf x xs h = elim (Bool-cases (contains x xs)) [ inl t ↦ rw t h | inr f ↦ rw f (f, h) ]

congested-IsSetOf :
    (h : Thresholds) (prev : List ℕ) (xs : List Load) (current : List ℕ)
    → IsSetOf current
    → IsSetOf (congested h prev xs current)
unfolding congested
congested-IsSetOf h prev [] current k = k
congested-IsSetOf h prev (x ∷ xs) current k = elim (Bool-cases (is_over h prev x)) [
  | inl t ↦ rw t (congested-IsSetOf h prev xs (add x.id current) (add-IsSetOf x.id current k))
  | inr f ↦ rw f (congested-IsSetOf h prev xs current k)
]

handle-IsSetOf :
    (h : Thresholds) (prev : List ℕ) (xs : List Load) (n : ℕ)
    → IsSetOf (handle_device_congestion prev xs h n).0
unfolding handle_device_congestion
handle-IsSetOf h prev xs n = congested-IsSetOf h prev xs [] tt

-- The entries of the ticks from a number on, each tick's set being the next one's start.
abbrev pub run_ticks : Thresholds → List ℕ → List (List Load) → ℕ → List ℕ × List CongestionEvent
run_ticks h prev [] n = (prev, [])
run_ticks h prev (xs ∷ rest) n =
    let (now, es) = handle_device_congestion prev xs h n in
    let (last, later) = run_ticks h now rest (suc n) in (last, es ++ later)

abbrev pub AllDistinct : List (List Load) → Type 0
AllDistinct [] = Unit {0}
AllDistinct (xs ∷ rest) = IsSetOf (ids xs) × AllDistinct rest

-- Over any number of ticks that start with a set, and whose entries are of distinct subjects, a
-- subject is detected once more than it is cleared if it is congested at the end and was not at the
-- start, and in general as often as the change of its membership tells.
pub run_ticks_balance :
    (h : Thresholds) (prev : List ℕ) (ticks : List (List Load)) (n i : ℕ)
    → IsSetOf prev
    → AllDistinct ticks
    → count_detected i (run_ticks h prev ticks n).1 + one (contains i prev)
      ≡ count_cleared i (run_ticks h prev ticks n).1 + one (contains i (run_ticks h prev ticks n).0)
run_ticks_balance h prev [] n i set distinct = omega arith
run_ticks_balance h prev (xs ∷ rest) n i set (here, later) =
    let step = handle_device_congestion prev xs h n in
    let after = run_ticks h step.0 rest (suc n) in
    omega (
      arith,
      tick_balance h prev xs n i set here,
      run_ticks_balance h step.0 rest (suc n) i (handle-IsSetOf h prev xs n) later,
      count_detected-append i step.1 after.1,
      count_cleared-append i step.1 after.1,
    )
