-- ===== src/Prelude/Sets.antt =====
-- Python sets and sorted lists of identifiers, as lists of numbers.
use Prim.Native.Nat.{ℕ, suc}
use mathlib.Core.Path.{◌≡◌, refl, subst}
use mathlib.Core.Logic.{inl, inr}
use mathlib.Core.Bool.{Bool, false, ◌||◌, ◌&&◌}
use mathlib.Core.List.{List, [], ◌∷◌, ◌++◌}
use native.Mathlib.Omega.{arith}
use unoc_network_simulator.Prelude.Tests.{ltb, ◌==◌, if◌then◌else◌, Bool-cases, ==_iff}
use unoc_network_simulator.Prelude.Lists.{length}

-- `x in s`
abbrev pub contains : ℕ → List ℕ → Bool
contains x [] = false
contains x (y ∷ ys) = y == x || contains x ys

-- `s.add(x)`
abbrev pub add : ℕ → List ℕ → List ℕ
add x s = if contains x s then s else x ∷ s

-- `s |= t`
abbrev pub union : List ℕ → List ℕ → List ℕ
union s [] = s
union s (x ∷ xs) = union (add x s) xs

-- One step of a stable insertion sort.
abbrev pub insert : ℕ → List ℕ → List ℕ
insert x [] = x ∷ []
insert x (y ∷ ys) = if ltb y x then y ∷ insert x ys else x ∷ y ∷ ys

-- `sorted(xs)`
abbrev pub sorted : List ℕ → List ℕ
sorted [] = []
sorted (x ∷ xs) = insert x (sorted xs)

pub contains-append :
    (x : ℕ) (xs ys : List ℕ) → contains x (xs ++ ys) ≡ (contains x xs || contains x ys)
contains-append x [] ys = refl
contains-append x (y ∷ xs) ys = ground (arith, contains-append x xs ys)

pub contains-add : (x y : ℕ) (s : List ℕ) → contains x (add y s) ≡ (y == x || contains x s)
contains-add x y s = elim (Bool-cases (contains y s)) [
  | inl t ↦ elim (Bool-cases (y == x)) [
    | inl e ↦ let e' : y ≡ x = (==_iff y x).0 e in rw t (rw (← e') (ground arith))
    | inr n ↦ ground arith
  ]
  | inr f ↦ ground arith
]

pub contains-union :
    (x : ℕ) (s t : List ℕ) → contains x (union s t) ≡ (contains x s || contains x t)
contains-union x s [] = ground arith
contains-union x s (y ∷ ys) = ground (arith, contains-union x (add y s) ys, contains-add x y s)

pub contains-insert : (x y : ℕ) (ys : List ℕ) → contains x (insert y ys) ≡ (y == x || contains x ys)
contains-insert x y [] = refl
contains-insert x y (z ∷ zs) = ground (arith, contains-insert x y zs)

pub contains-sorted : (x : ℕ) (xs : List ℕ) → contains x (sorted xs) ≡ contains x xs
contains-sorted x [] = refl
contains-sorted x (y ∷ ys) = ground (arith, contains-insert x y (sorted ys), contains-sorted x ys)

pub length-insert : (x : ℕ) (ys : List ℕ) → length (insert x ys) ≡ suc (length ys)
length-insert x [] = refl
length-insert x (y ∷ ys) = ground (arith, length-insert x ys)

pub length-sorted : (xs : List ℕ) → length (sorted xs) ≡ length xs
length-sorted [] = refl
length-sorted (x ∷ xs) = ground (arith, length-insert x (sorted xs), length-sorted xs)

-- `[x for x in xs if q(x)]`, of identifiers.
abbrev pub pick : (ℕ → Bool) → List ℕ → List ℕ
pick q [] = []
pick q (x ∷ xs) = let rest = pick q xs in if q x then x ∷ rest else rest

pub contains-pick :
    (q : ℕ → Bool) (xs : List ℕ) (x : ℕ) → contains x (pick q xs) ≡ (contains x xs && q x)
contains-pick q [] x = refl
contains-pick q (y ∷ ys) x = elim (Bool-cases (y == x)) [
  | inl same ↦
      subst (λ (z : ℕ). contains z (pick q (y ∷ ys)) ≡ (contains z (y ∷ ys) && q z))
        ((==_iff y x).0 same)
        (elim (Bool-cases (q y)) [
          | inl t ↦ ground (arith, t, contains-pick q ys y, ==_iff y y)
          | inr f ↦ ground (arith, f, contains-pick q ys y)
        ])
  | inr other ↦ elim (Bool-cases (q y)) [
    | inl t ↦ ground (arith, t, contains-pick q ys x, other)
    | inr f ↦ ground (arith, f, contains-pick q ys x, other)
  ]
]
