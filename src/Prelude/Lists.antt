-- ===== src/Prelude/Lists.antt =====
-- Lists measured by native numbers, and the searches that a Python comprehension makes.
use Prim.Native.Nat.{ℕ, zero, suc, ◌+◌}
use mathlib.Core.Path.{◌≡◌, refl, ap}
use mathlib.Core.Logic.{◌⊎◌, inl, inr}
use mathlib.Core.Bool.{Bool, true, false, ◌||◌}
use mathlib.Core.List.{List, [], ◌∷◌, ◌++◌}
use mathlib.Core.Option.{Option, none, some}
use native.Mathlib.Omega.{arith}
use unoc_network_simulator.Prelude.Tests.{if◌then◌else◌, Bool-cases}

module _ {ℓ} {A : Type ℓ} where
  abbrev pub length : List A → ℕ
  length [] = 0
  length (x ∷ xs) = suc (length xs)

  abbrev pub get_elem? : List A → ℕ → Option A
  get_elem? [] i = none
  get_elem? (x ∷ xs) zero = some x
  get_elem? (x ∷ xs) (suc i) = get_elem? xs i

  pub length-append : (xs ys : List A) → length (xs ++ ys) ≡ length xs + length ys
  length-append [] ys = omega arith
  length-append (x ∷ xs) ys = omega (arith, length-append xs ys)

  pub append_none : (xs : List A) → xs ++ [] ≡ xs
  append_none [] = refl
  append_none (x ∷ xs) = ap (x ∷◌) (append_none xs)

  pub append_assoc : (xs ys zs : List A) → (xs ++ ys) ++ zs ≡ xs ++ (ys ++ zs)
  append_assoc [] ys zs = refl
  append_assoc (x ∷ xs) ys zs = ap (x ∷◌) (append_assoc xs ys zs)

  pub List-cases : (xs : List A) → (xs ≡ []) ⊎ ((x : A) × (rest : List A) × (xs ≡ x ∷ rest))
  List-cases [] = inl refl
  List-cases (x ∷ xs) = inr (x, xs, refl)

  -- next((x for x in xs if p(x)), None)
  abbrev pub find : (A → Bool) → List A → Option A
  find p [] = none
  find p (x ∷ xs) = if p x then some x else find p xs

  -- [x for x in xs if p(x)]
  abbrev pub select : (A → Bool) → List A → List A
  select p [] = []
  select p (x ∷ xs) = let rest = select p xs in if p x then x ∷ rest else rest

  -- any(p(x) for x in xs)
  abbrev pub any : (A → Bool) → List A → Bool
  any p [] = false
  any p (x ∷ xs) = p x || any p xs

  pub find_holds : (p : A → Bool) (xs : List A) (x : A) → find p xs ≡ some x → p x ≡ true
  find_holds p [] x h = ground arith
  find_holds p (y ∷ ys) x h = elim (Bool-cases (p y)) [
    | inl t ↦ ground arith
    | inr f ↦ find_holds p ys x (ground arith)
  ]

abbrev pub is_some {ℓ} : {A : Type ℓ} → Option A → Bool
is_some none = false
is_some (some a) = true

-- A lookup followed by a read of the row, `row.f if row else None`.
abbrev pub then_get {ℓ κ} : {A : Type ℓ} {B : Type κ} → Option A → (A → Option B) → Option B
then_get none f = none
then_get (some a) f = f a
