-- ===== src/Prelude/Numbering.antt =====
-- Rows that are numbered one by one, and the places in a list to which others are added.
use Prim.Native.Nat.{ℕ, zero, suc, ◌+◌}
use mathlib.Core.Path.{◌≡◌, refl, subst}
use mathlib.Core.List.{List, [], ◌∷◌, ◌++◌}
use mathlib.Core.Option.{some}
use native.Mathlib.Omega.{arith}
use unoc_network_simulator.Prelude.Lists.{length, get_elem?}

module _ {ℓ} {A : Type ℓ} (number : A → ℕ) where
  -- The rows have the numbers from `n` on, without a gap and in this order.
  abbrev pub IsNumberedFrom : ℕ → List A → Type 0
  IsNumberedFrom n [] = Unit {0}
  IsNumberedFrom n (r ∷ rs) = (number r ≡ n) × IsNumberedFrom (suc n) rs

  pub IsNumberedFrom-append :
      (n : ℕ) (xs ys : List A)
      → IsNumberedFrom n xs
      → IsNumberedFrom (length xs + n) ys
      → IsNumberedFrom n (xs ++ ys)
  IsNumberedFrom-append n [] ys h k = subst (λ (m : ℕ). IsNumberedFrom m ys) (omega arith) k
  IsNumberedFrom-append n (x ∷ xs) ys (e, h) k = (
    e,
    IsNumberedFrom-append (suc n) xs ys h (subst (λ (m : ℕ). IsNumberedFrom m ys) (omega arith) k),
  )

  pub IsNumberedFrom-prefix :
      (n : ℕ) (xs ys : List A) → IsNumberedFrom n (xs ++ ys) → IsNumberedFrom n xs
  IsNumberedFrom-prefix n [] ys h = tt
  IsNumberedFrom-prefix n (x ∷ xs) ys (e, h) = (e, IsNumberedFrom-prefix (suc n) xs ys h)

module _ {ℓ} {A : Type ℓ} where
  pub get_elem?-append :
      (xs ys : List A) (i : ℕ) (x : A) → get_elem? xs i ≡ some x → get_elem? (xs ++ ys) i ≡ some x
  get_elem?-append [] ys i x h = absurd (ground arith)
  get_elem?-append (y ∷ xs) ys zero x h = h
  get_elem?-append (y ∷ xs) ys (suc i) x h = get_elem?-append xs ys i x h

  pub get_elem?-length : (xs : List A) (x : A) → get_elem? (xs ++ x ∷ []) (length xs) ≡ some x
  get_elem?-length [] x = refl
  get_elem?-length (y ∷ xs) x = get_elem?-length xs x
