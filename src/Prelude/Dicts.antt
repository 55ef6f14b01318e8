-- ===== src/Prelude/Dicts.antt =====
-- Python dictionaries with identifiers as keys, in their insertion order.
use Prim.Native.Nat.{ℕ, ◌+◌}
use mathlib.Core.Path.{◌≡◌, refl}
use mathlib.Core.Logic.{inl, inr}
use mathlib.Core.List.{List, [], ◌∷◌}
use mathlib.Core.Option.{Option, none, some}
use native.Mathlib.Omega.{arith}
use unoc_network_simulator.Prelude.Tests.{◌==◌, if◌then◌else◌, Bool-cases, ==_iff}

abbrev pub Dict {ℓ} : Type ℓ → Type ℓ
Dict A = List (ℕ × A)

module _ {ℓ} {A : Type ℓ} where
  -- `d.get(k)`
  abbrev pub get : ℕ → Dict A → Option A
  get k [] = none
  get k ((j, v) ∷ d) = if j == k then some v else get k d

  -- `d[k] = v`: in the place that the key has, or at the end.
  abbrev pub put : ℕ → A → Dict A → Dict A
  put k v [] = (k, v) ∷ []
  put k v ((j, w) ∷ d) = let rest = put k v d in if j == k then (j, v) ∷ d else (j, w) ∷ rest

  -- `d.get(k, default)`
  abbrev pub get_or : A → ℕ → Dict A → A
  get_or default k d = elim (get k d) [ none ↦ default | some v ↦ v ]

  pub get-put :
      (x k : ℕ) (v : A) (d : Dict A) → get x (put k v d) ≡ (if k == x then some v else get x d)
  get-put x k v [] = refl
  get-put x k v ((j, w) ∷ d) = elim (Bool-cases (j == k)) [
    | inl e ↦ let e' : j ≡ k = (==_iff j k).0 e in rw e (rw e' (ground arith))
    | inr n ↦ elim (Bool-cases (j == x)) [
      | inl e ↦ elim (Bool-cases (k == x)) [
        | inl f ↦ absurd (ground arith)
        | inr f ↦ rw (n, e, f) refl
      ]
      | inr m ↦ rw (n, m) (get-put x k v d)
    ]
  ]

-- The sum over the values, each measured.
abbrev pub sum_of {ℓ} : {A : Type ℓ} → (A → ℕ) → Dict A → ℕ
sum_of f [] = 0
sum_of f ((k, v) ∷ d) = f v + sum_of f d

pub sum_of-put {ℓ} :
    {A : Type ℓ} (f : A → ℕ) (default : A) (k : ℕ) (v : A) (d : Dict A)
    → f default ≡ 0
    → sum_of f (put k v d) + f (get_or default k d) ≡ sum_of f d + f v
sum_of-put f default k v [] z = omega (arith, z)
sum_of-put f default k v ((j, w) ∷ d) z = elim (Bool-cases (j == k)) [
  | inl e ↦ rw (e, get_or) (omega arith)
  | inr n ↦ rw (n, get_or) (omega (arith, sum_of-put f default k v d z))
]
