-- ===== src/Addressing/MacUnique.antt =====
-- The addresses that `next_mac` returns, call after call.
use unoc_network_simulator.Prelude.{
  ℕ, zero, suc, ◌+◌, ◌*◌, ◌%◌, ◌≤◌, ◌<◌, ◌≡◌, ◌≢◌, refl, sym, ◌∙◌, subst, true, false, Option, none,
  some, List, [], ◌∷◌, arith, length, ◌==◌, if◌then◌else◌, Bool-cases, inl, inr, ==_iff, then_get,
}
use unoc_network_simulator.Prelude.Sets.{contains}
use unoc_network_simulator.Addressing.Mac.{
  counters, format_mac, Allocator, Attempt, no_session, load_fails, store_fails, commits, after,
  first_free, Allocated, take, allocate, known_last, in_memory, with_session, after_rollback,
  load_error, next_mac, store,
}

-- The text of a counter: the prefix, then its value modulo 2 ^ 24.
pub format_mac-eq : (n : ℕ) → format_mac n ≡ 152_910 * counters + n % counters
unfolding format_mac
format_mac-eq n = omega arith

format_mac_ne : (c n : ℕ) → c < n → n < c + counters → format_mac c ≢ format_mac n
format_mac_ne c n lt le = ground (arith, format_mac-eq c, format_mac-eq n)

abbrev remove : ℕ → List ℕ → List ℕ
remove x [] = []
remove x (y ∷ ys) = let rest = remove x ys in if y == x then ys else y ∷ rest

contains-remove_of_ne : (x y : ℕ) (ys : List ℕ) → x ≢ y → contains y (remove x ys) ≡ contains y ys
contains-remove_of_ne x y [] ne = refl
contains-remove_of_ne x y (z ∷ zs) ne = elim (Bool-cases (z == x)) [
  | inl t ↦ ground arith
  | inr f ↦ ground (arith, contains-remove_of_ne x y zs ne)
]

length-remove :
    (x : ℕ) (ys : List ℕ) → contains x ys ≡ true → suc (length (remove x ys)) ≡ length ys
length-remove x [] h = ground arith
length-remove x (y ∷ ys) h = ground (arith, length-remove x ys)

-- The search from `n` does not see an address of a counter that lies less than a round behind.
first_free-remove :
    (c k n : ℕ) (used : List ℕ)
    → c < n
    → n + k ≤ c + counters
    → first_free k (remove (format_mac c) used) n ≡ first_free k used n
unfolding first_free
first_free-remove c zero n used lt le = refl
first_free-remove c (suc k) n used lt le =
    let same =
      contains-remove_of_ne (format_mac c) (format_mac n) used
        (format_mac_ne c n lt (omega (arith, le))) in
    let later = first_free-remove c k (suc n) used (omega (arith, lt)) (omega (arith, le)) in
    rw same (rw later refl)

-- As many tries as there are addresses in use, and one more, find a free one.
pub first_free_found :
    (k n : ℕ) (used : List ℕ)
    → length used < k
    → k ≤ counters
    → (m : ℕ) × (first_free k used n ≡ some m)
unfolding first_free
first_free_found zero n used lt le = absurd (omega (arith, lt))
first_free_found (suc k) n used lt le = elim (Bool-cases (contains (format_mac n) used)) [
  | inr free ↦ (n, rw free refl)
  | inl taken ↦
      let (m, e) =
        first_free_found k (suc n) (remove (format_mac n) used)
          (omega (arith, lt, length-remove (format_mac n) used taken)) (omega (arith, le)) in
      (m, rw taken (sym (first_free-remove n k (suc n) used (omega arith) (omega (arith, le))) ∙ e))
]

-- What the search finds is not in use.
first_free-free :
    (k n m : ℕ) (used : List ℕ)
    → first_free k used n ≡ some m
    → contains (format_mac m) used ≡ false
unfolding first_free
first_free-free zero n m used h = ground arith
first_free-free (suc k) n m used h = elim (Bool-cases (contains (format_mac n) used)) [
  | inr free ↦
      let at_n : n ≡ m = ground arith in
      subst (λ (x : ℕ). contains (format_mac x) used ≡ false) at_n free
  | inl taken ↦ first_free-free k (suc n) m used (ground arith)
]

-- An address was free before and is in use after, and what was in use stays so.
pub record Fresh (used : List ℕ) (mac : ℕ) (used' : List ℕ) : Type 0 where
  pub was_free : contains mac used ≡ false
  pub is_used : contains mac used' ≡ true
  pub keeps : (x : ℕ) → contains x used ≡ true → contains x used' ≡ true
  pub few : length used' ≤ 2 + length used

cons-Fresh : (mac : ℕ) (used : List ℕ) → contains mac used ≡ false → Fresh used mac (mac ∷ used)
cons-Fresh mac used free = record {
  was_free = free;
  is_used = ground (arith, ==_iff mac mac);
  keeps = λ x h. ground arith;
  few = omega arith;
}

cons_cons-Fresh :
    (lost mac : ℕ) (used : List ℕ)
    → contains mac (lost ∷ used) ≡ false
    → Fresh used mac (mac ∷ lost ∷ used)
cons_cons-Fresh lost mac used free = record {
  was_free = ground arith;
  is_used = ground (arith, ==_iff mac mac);
  keeps = λ x h. ground arith;
  few = omega arith;
}

-- What an allocation has to do: it ends, with a fresh address.
abbrev pub Hands : Allocator → Allocated → Type 0
Hands s r = (mac : ℕ) × (s' : Allocator) × (r ≡ some (mac, s')) × Fresh s.used mac s'.used

allocate_fresh :
    (s : Allocator) (last : Option ℕ)
    → length s.used < counters
    → (n : ℕ) × (allocate s last ≡ some (take s n)) × (contains (format_mac n) s.used ≡ false)
unfolding allocate
allocate_fresh s last room =
    let (n, e) = first_free_found (suc (length s.used)) (after last) s.used (omega arith) room in
    (n, rw e refl, first_free-free (suc (length s.used)) (after last) n s.used e)

module _ (s : Allocator) (room : 2 + length s.used ≤ counters) where
  in_memory-Hands : Hands s (in_memory s)
  in_memory-Hands =
      let (n, e, free) = allocate_fresh s s.last (omega (arith, room)) in
      (format_mac n, (take s n).1, e, cons-Fresh (format_mac n) s.used free)

  with_session-Hands : Hands s (with_session s)
  with_session-Hands =
      let (n, e, free) = allocate_fresh s (known_last s) (omega (arith, room)) in
      (format_mac n, (store (take s n)).1, rw e refl, cons-Fresh (format_mac n) s.used free)

  after_rollback-Hands : Hands s (after_rollback s)
  after_rollback-Hands =
      let (n, e, free) = allocate_fresh s (known_last s) (omega (arith, room)) in
      let s1 = (take s n).1 in
      let (m, e', free') = allocate_fresh s1 s1.last (omega (arith, room)) in
      (
        format_mac m,
        (take s1 m).1,
        rw e e',
        cons_cons-Fresh (format_mac n) (format_mac m) s.used free',
      )

  load_error-Hands : (last : Option ℕ) → Hands s (load_error last s)
  load_error-Hands none = in_memory-Hands
  load_error-Hands (some n) = with_session-Hands

pub next_mac-Hands :
    (a : Attempt) (s : Allocator) → 2 + length s.used ≤ counters → Hands s (next_mac a s)
unfolding next_mac
next_mac-Hands no_session s room = in_memory-Hands s room
next_mac-Hands load_fails s room = load_error-Hands s room s.last
next_mac-Hands store_fails s room = after_rollback-Hands s room
next_mac-Hands commits s room = with_session-Hands s room

differ_of_contains :
    (x y : ℕ) (used : List ℕ) → contains x used ≡ false → contains y used ≡ true → (x == y) ≡ false
differ_of_contains x y used out there = elim (Bool-cases (x == y)) [
  | inr f ↦ f
  | inl t ↦
      let same : x ≡ y = (==_iff x y).0 t in
      absurd (ground (arith, subst (λ (z : ℕ). contains z used ≡ false) same out))
]

-- The addresses that one attempt after another hands out.
unfoldable pub run_macs : List Attempt → Allocator → Option (List ℕ)
run_macs [] s = some []
run_macs (a ∷ tries) s =
    then_get (next_mac a s) (λ (mac, s'). then_get (run_macs tries s') (λ macs. some (mac ∷ macs)))

-- No element stands twice.
abbrev pub IsDistinct : List ℕ → Type 0
IsDistinct [] = Unit {0}
IsDistinct (x ∷ xs) = (contains x xs ≡ false) × IsDistinct xs

-- A run of attempts, while there is room for two addresses for each, hands out distinct addresses,
-- none of which was in use before.
pub run_macs-IsDistinct :
    (tries : List Attempt) (s : Allocator)
    → 2 * length tries + length s.used ≤ counters
    → (macs : List ℕ) × (run_macs tries s ≡ some macs)
      × (length macs ≡ length tries)
      × IsDistinct macs
      × ((x : ℕ) → contains x s.used ≡ true → contains x macs ≡ false)
unfolding run_macs
run_macs-IsDistinct [] s room = ([], refl, refl, tt, λ x h. refl)
run_macs-IsDistinct (a ∷ tries) s room =
    let (mac, s', e, fresh) = next_mac-Hands a s (omega (arith, room)) in
    let (macs, e', len, distinct, apart) =
      run_macs-IsDistinct tries s' (omega (arith, room, fresh.few)) in
    (
      mac ∷ macs,
      rw e (rw e' refl),
      omega (arith, len),
      (apart mac fresh.is_used, distinct),
      λ x h.
          ground
            (arith, differ_of_contains mac x s.used fresh.was_free h, apart x (fresh.keeps x h)),
    )
