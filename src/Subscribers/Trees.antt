-- ===== src/Subscribers/Trees.antt =====
-- The dictionaries of dictionaries of backend/services/subscriber_model.py.
use unoc_network_simulator.Prelude.{
  ℕ, ◌≡◌, refl, ap, sym, ◌∙◌, subst, Bool, true, false, ◌&&◌, ◌||◌, Option, none, some, [], ◌∷◌,
  arith, ◌==◌, if◌then◌else◌, Bool-cases, inl, inr, ==_iff, ltb, ==_refl, then_get,
}
use unoc_network_simulator.Prelude.Sets.{contains}
use unoc_network_simulator.Prelude.Dicts.{Dict, get, put, get_or, get-put}
use unoc_network_simulator.Prelude.Sorting.{keys, row_at, IsKeyed, row_at-sort_by, Every}
use unoc_network_simulator.Subscribers.Resolve.{put_port, get_port, sorted_items}

abbrev key_of {ℓ} : {A : Type ℓ} → ℕ × A → ℕ
key_of r = r.0

module _ {ℓ} {A : Type ℓ} where
  -- No key stands twice.
  abbrev pub IsDict : Dict A → Type 0
  IsDict d = IsKeyed key_of d

  keys-put :
      (k x : ℕ) (v : A) (d : Dict A)
      → contains x (keys key_of (put k v d)) ≡ (k == x || contains x (keys key_of d))
  keys-put k x v [] = ground arith
  keys-put k x v ((j, w) ∷ d) = elim (Bool-cases (j == k)) [
    | inl e ↦ let e' : j ≡ k = (==_iff j k).0 e in rw (e, e') (ground arith)
    | inr n ↦ rw n (ground (arith, keys-put k x v d))
  ]

  pub IsDict-put : (k : ℕ) (v : A) (d : Dict A) → IsDict d → IsDict (put k v d)
  IsDict-put k v [] h = (refl, tt)
  IsDict-put k v ((j, w) ∷ d) (new, h) = elim (Bool-cases (j == k)) [
    | inl e ↦ rw e (new, h)
    | inr n ↦
        rw n (keys-put k j v d ∙ ground (arith, new, n, ==_iff j k, ==_iff k j), IsDict-put k v d h)
  ]

  pub get-sorted_items : (k : ℕ) (d : Dict A) → IsDict d → get k (sorted_items d) ≡ get k d
  unfolding sorted_items
  get-sorted_items k d h =
      as_row (sorted_items d)
      ∙ (ap (λ (o : Option (ℕ × A)). then_get o (λ r. some (r.1)))
            (row_at-sort_by key_of (λ a b. ltb a.0 b.0) d k h)
          ∙ sym (as_row d))
    where
      as_row : (e : Dict A) → get k e ≡ then_get (row_at key_of e k) (λ r. some (r.1))
      as_row [] = refl
      as_row ((j, v) ∷ e) = elim (Bool-cases (j == k)) [
        | inl same ↦ rw same refl
        | inr other ↦ rw other (as_row e)
      ]

  -- Each entry is what its key finds.
  pub entries : (d : Dict A) → IsDict d → Every (λ r. get (r.0) d ≡ some (r.1)) d
  entries [] h = tt
  entries ((j, w) ∷ d) (new, h) = (rw (==_refl j) refl, later d (entries d h) new)
    where
      later :
          (e : Dict A)
          → Every (λ r. get (r.0) d ≡ some (r.1)) e
          → contains j (keys key_of e) ≡ false
          → Every (λ r. get (r.0) ((j, w) ∷ d) ≡ some (r.1)) e
      later [] h' k = tt
      later ((i, v) ∷ e) (p, h') k =
          let apart : (j == i) ≡ false = ground (arith, k, ==_iff i j, ==_iff j i) in
          (rw apart p, later e h' (ground (arith, k)))

  pub Every-put {κ} :
      (P : ℕ × A → Type κ) (k : ℕ) (v : A) (d : Dict A) → P (k, v) → Every P d → Every P (put k v d)
  Every-put P k v [] p h = (p, tt)
  Every-put P k v ((j, w) ∷ d) p (q, h) = elim (Bool-cases (j == k)) [
    | inl e ↦ rw e (subst (λ (x : ℕ). P (x, v)) (sym ((==_iff j k).0 e)) p, h)
    | inr n ↦ rw n (q, Every-put P k v d p h)
  ]

  get_or_if :
      (default w : A) (b : Bool) (o : Option A)
      → (elim (if b then some w else o) [ none ↦ default | some x ↦ x ])
        ≡ (if b then w else (elim o [ none ↦ default | some x ↦ x ]))
  get_or_if default w true o = refl
  get_or_if default w false o = refl

  pub get_or-put :
      (default : A) (x k : ℕ) (v : A) (d : Dict A)
      → get_or default x (put k v d) ≡ (if k == x then v else get_or default x d)
  get_or-put default x k v d =
      ap (λ (o : Option A). elim o [ none ↦ default | some y ↦ y ]) (get-put x k v d)
      ∙ get_or_if default v (k == x) (get x d)

pub get_port-put_port {ℓ} :
    {A : Type ℓ} (default : A) (a b i j : ℕ) (v : A) (d : Dict (Dict A))
    → get_port default a i (put_port b j v d)
      ≡ (if b == a && j == i then v else get_port default a i d)
get_port-put_port {A} default a b i j v d =
    ap (λ (e : Dict A). get_or default i e) (get_or-put [] a b (put j v (get_or [] b d)) d)
    ∙ elim (Bool-cases (b == a)) [
      | inr other ↦ rw other refl
      | inl same ↦ rw same (
          get_or-put default i j v (get_or [] b d)
          ∙ ap (λ (x : ℕ). if j == i then v else get_or default i (get_or [] x d))
              ((==_iff b a).0 same))
    ]
