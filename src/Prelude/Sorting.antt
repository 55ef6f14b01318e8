-- ===== src/Prelude/Sorting.antt =====
-- Python's stable `sorted` with a key, and rows that a key tells apart.
use Prim.Native.Nat.{ℕ, suc}
use mathlib.Core.Path.{◌≡◌, refl, ◌∙◌}
use mathlib.Core.Logic.{inl, inr}
use mathlib.Core.Bool.{Bool, false, ◌||◌}
use mathlib.Core.List.{List, [], ◌∷◌, ◌++◌}
use mathlib.Core.Option.{Option, none, some}
use native.Mathlib.Omega.{arith}
use unoc_network_simulator.Prelude.Tests.{◌==◌, if◌then◌else◌, Bool-cases, ==_iff, either_way}
use unoc_network_simulator.Prelude.Lists.{length, find}
use unoc_network_simulator.Prelude.Sets.{contains}
use unoc_network_simulator.Prelude.Dicts.{Dict, get, put, get-put}

module _ {ℓ} {A : Type ℓ} (before : A → A → Bool) where
  -- One step of a stable insertion sort.
  abbrev pub insert_by : A → List A → List A
  insert_by x [] = x ∷ []
  insert_by x (y ∷ ys) = let rest = insert_by x ys in if before y x then y ∷ rest else x ∷ y ∷ ys

  -- `sorted(xs, key=...)`, where `before` compares the keys.
  abbrev pub sort_by : List A → List A
  sort_by [] = []
  sort_by (x ∷ xs) = insert_by x (sort_by xs)

  pub length-insert_by : (x : A) (ys : List A) → length (insert_by x ys) ≡ suc (length ys)
  length-insert_by x [] = refl
  length-insert_by x (y ∷ ys) = ground (arith, length-insert_by x ys)

-- The value of a row that is there, or what was there before.
abbrev pub value_or {ℓ κ} : {A : Type ℓ} {V : Type κ} → (A → V) → Option V → Option A → Option V
value_or value old none = old
value_or value old (some x) = some (value x)

module _ {ℓ} {A : Type ℓ} (key : A → ℕ) where
  abbrev pub keys : List A → List ℕ
  keys [] = []
  keys (x ∷ xs) = key x ∷ keys xs

  -- The row with a key.
  abbrev pub row_at : List A → ℕ → Option A
  row_at rows i = find (λ r. key r == i) rows

  -- No two rows have the same key.
  abbrev pub IsKeyed : List A → Type 0
  IsKeyed [] = Unit {0}
  IsKeyed (x ∷ xs) = (contains (key x) (keys xs) ≡ false) × IsKeyed xs

  pub row_at-none : (rows : List A) (i : ℕ) → contains i (keys rows) ≡ false → row_at rows i ≡ none
  row_at-none [] i h = refl
  row_at-none (r ∷ rs) i h = ground (arith, row_at-none rs i)

  module _ (before : A → A → Bool) where
    pub contains-insert_by :
        (v : ℕ) (x : A) (ys : List A)
        → contains v (keys (insert_by before x ys)) ≡ (key x == v || contains v (keys ys))
    contains-insert_by v x [] = refl
    contains-insert_by v x (y ∷ ys) = ground (arith, contains-insert_by v x ys)

    pub contains-sort_by :
        (v : ℕ) (xs : List A) → contains v (keys (sort_by before xs)) ≡ contains v (keys xs)
    contains-sort_by v [] = refl
    contains-sort_by v (x ∷ xs) =
        ground (arith, contains-insert_by v x (sort_by before xs), contains-sort_by v xs)

    row_at-insert_by :
        (x : A) (ys : List A) (i : ℕ)
        → contains (key x) (keys ys) ≡ false
        → row_at (insert_by before x ys) i ≡ (if key x == i then some x else row_at ys i)
    row_at-insert_by x [] i h = refl
    row_at-insert_by x (y ∷ ys) i h = elim (Bool-cases (before y x)) [
      | inr f ↦ rw f refl
      | inl t ↦ rw t (elim (Bool-cases (key y == i)) [
        | inr other ↦ rw other (row_at-insert_by x ys i (ground (arith, h)))
        | inl here ↦ elim (Bool-cases (key x == i)) [
          | inl same ↦ absurd (ground (arith, h, ==_iff (key y) i, ==_iff (key x) i))
          | inr apart ↦ rw (here, apart) refl
        ]
      ])
    ]

    IsKeyed-insert_by :
        (x : A) (ys : List A)
        → contains (key x) (keys ys) ≡ false
        → IsKeyed ys
        → IsKeyed (insert_by before x ys)
    IsKeyed-insert_by x [] h k = (h, tt)
    IsKeyed-insert_by x (y ∷ ys) h (new, k) = elim (Bool-cases (before y x)) [
      | inr f ↦ rw f (h, (new, k))
      | inl t ↦ rw t (
        contains-insert_by (key y) x ys
            ∙ ground (arith, h, new, ==_iff (key x) (key y), ==_iff (key y) (key x)),
        IsKeyed-insert_by x ys (ground (arith, h)) k,
      )
    ]

    pub IsKeyed-sort_by : (xs : List A) → IsKeyed xs → IsKeyed (sort_by before xs)
    IsKeyed-sort_by [] h = h
    IsKeyed-sort_by (x ∷ xs) (new, h) =
        IsKeyed-insert_by x (sort_by before xs) (contains-sort_by (key x) xs ∙ new)
          (IsKeyed-sort_by xs h)

    -- Sorting keeps what a key finds.
    pub row_at-sort_by :
        (xs : List A) (i : ℕ) → IsKeyed xs → row_at (sort_by before xs) i ≡ row_at xs i
    row_at-sort_by [] i h = refl
    row_at-sort_by (x ∷ xs) i (new, h) =
        row_at-insert_by x (sort_by before xs) i (contains-sort_by (key x) xs ∙ new)
        ∙ rw (row_at-sort_by xs i h) refl

  module _ {κ} {V : Type κ} (value : A → V) where
    -- `for x in xs: d[x.key] = value(x)`
    abbrev pub put_all : List A → Dict V → Dict V
    put_all [] d = d
    put_all (x ∷ xs) d = put_all xs (put (key x) (value x) d)

    pub get-put_all :
        (xs : List A) (d : Dict V) (i : ℕ)
        → IsKeyed xs
        → get i (put_all xs d) ≡ value_or value (get i d) (row_at xs i)
    get-put_all [] d i h = refl
    get-put_all (x ∷ xs) d i (new, h) = elim (Bool-cases (key x == i)) [
      | inr other ↦
          get-put_all xs (put (key x) (value x) d) i h
          ∙ rw (get-put i (key x) (value x) d) (rw other refl)
      | inl here ↦
          let same : key x ≡ i = (==_iff (key x) i).0 here in
          get-put_all xs (put (key x) (value x) d) i h
          ∙ rw (row_at-none xs i (rw same at new))
              (rw (get-put i (key x) (value x) d) (rw here refl))
    ]

module _ {ℓ κ} {A : Type ℓ} (P : A → Type κ) where
  -- Each member of a list has a property.
  abbrev pub Every : List A → Type κ
  Every [] = Unit {κ}
  Every (x ∷ xs) = P x × Every xs

  pub Every-append : (xs ys : List A) → Every xs → Every ys → Every (xs ++ ys)
  Every-append [] ys h k = k
  Every-append (x ∷ xs) ys (p, h) k = (p, Every-append xs ys h k)

  module _ (before : A → A → Bool) where
    pub Every-insert_by : (x : A) (xs : List A) → P x → Every xs → Every (insert_by before x xs)
    Every-insert_by x [] p h = (p, tt)
    Every-insert_by x (y ∷ ys) p (q, h) =
        either_way Every (before y x) _ _ (q, Every-insert_by x ys p h) (p, (q, h))

    pub Every-sort_by : (xs : List A) → Every xs → Every (sort_by before xs)
    Every-sort_by [] h = h
    Every-sort_by (x ∷ xs) (p, h) = Every-insert_by x (sort_by before xs) p (Every-sort_by xs h)
