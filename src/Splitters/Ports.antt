-- ===== src/Splitters/Ports.antt =====
-- The default ports of a splitter.
use unoc_network_simulator.Prelude.{
  append_none, ℕ, zero, suc, ◌+◌, ◌≤◌, ◌≡◌, refl, ap, ◌∙◌, true, ◌||◌, Option, List, [], ◌∷◌, ◌++◌,
  arith, ◌==◌, Bool-cases, inl, inr, ==_refl, ==_iff,
}
use unoc_network_simulator.Prelude.Sets.{contains}
use unoc_network_simulator.Model.{Device, Interface}
use unoc_network_simulator.Splitters.Defs.{
  PortNames, is_splitter, ports_wanted, names_of, new_port, missing_outs, missing_in,
  ensure_default_ports_for_splitter,
}

contains-names_of :
    (x d : ℕ) (xs ys : List Interface)
    → contains x (names_of (xs ++ ys) d)
      ≡ (contains x (names_of xs d) || contains x (names_of ys d))
contains-names_of x d [] ys = refl
contains-names_of x d (i ∷ is) ys = ground (arith, contains-names_of x d is ys)

module _ (names : PortNames) (d : ℕ) where
  names_of-new_port :
      (name : ℕ) (rows : List Interface)
      → names_of (new_port names d name ∷ rows) d ≡ name ∷ names_of rows d
  names_of-new_port name rows = rw (==_refl d) refl

  -- The names from a first one on, so many, are all there.
  HasOuts : List ℕ → ℕ → ℕ → Type 0
  HasOuts taken first n =
      (k : ℕ) → first ≤ k → suc k ≤ first + n → contains (names.out_name k) taken ≡ true

  missing_outs_none :
      (taken : List ℕ) (first n : ℕ)
      → HasOuts taken first n
      → missing_outs names d taken first n ≡ []
  unfolding HasOuts
  missing_outs_none taken first zero h = refl
  missing_outs_none taken first (suc n) h =
      rw (h first (omega arith) (omega arith))
        (missing_outs_none taken (suc first) n (λ k low high. h k (omega arith) (omega arith)))

  -- A name is taken, or the loop adds it.
  missing_outs_adds :
      (taken : List ℕ) (first n k : ℕ)
      → first ≤ k
      → suc k ≤ first + n
      → (contains (names.out_name k) taken
          || contains (names.out_name k) (names_of (missing_outs names d taken first n) d))
        ≡ true
  missing_outs_adds taken first zero k low high = absurd (omega arith)
  missing_outs_adds taken first (suc n) k low high =
      elim (Bool-cases (contains (names.out_name first) taken)) [
        | inl t ↦ elim (Bool-cases (first == k)) [
          | inl here ↦ ground (arith, t)
          | inr later ↦
              rw t (missing_outs_adds taken (suc first) n k (ground (arith, low)) (omega arith))
        ]
        | inr f ↦
            let name = names.out_name first in
            let rest = missing_outs names d taken (suc first) n in
            rw f (
              ap
                (λ (l : List ℕ). contains (names.out_name k) taken || contains (names.out_name k) l)
                (names_of-new_port name rest)
              ∙ elim (Bool-cases (first == k)) [
                | inl here ↦
                    let same : name ≡ names.out_name k =
                      ap names.out_name ((==_iff first k).0 here) in
                    rw same (ground (arith, ==_refl (names.out_name k)))
                | inr later ↦ ground (
                  arith,
                  missing_outs_adds taken (suc first) n k (ground (arith, low, later))
                      (omega (arith, high)),
                )
              ])
      ]

  missing_in_adds :
      (taken : List ℕ)
      → (contains names.in_name taken
          || contains names.in_name (names_of (missing_in names d taken) d))
        ≡ true
  missing_in_adds taken = elim (Bool-cases (contains names.in_name taken)) [
    | inl t ↦ ground (arith, t)
    | inr f ↦ rw f (rw (names_of-new_port names.in_name []) (ground (arith, ==_refl names.in_name)))
  ]

-- After `ensure_default_ports_for_splitter`, a splitter has an interface `in` and the interfaces
-- `out1` to `outN`, N the ratio that is asked for or else 32; the rows that were there stay where they
-- are, and a second call, with the same ratio, adds nothing.
pub ensure_default_ports_for_splitter_correct :
    (names : PortNames) (d : Device) (ratio : Option ℕ) (rows : List Interface)
    → is_splitter d.type ≡ true
    → let rows' = ensure_default_ports_for_splitter names d ratio rows in
      ((added : List Interface) × (rows' ≡ rows ++ added))
      × (contains names.in_name (names_of rows' d.id) ≡ true)
      × ((k : ℕ)
          → 1 ≤ k
          → k ≤ ports_wanted ratio
          → contains (names.out_name k) (names_of rows' d.id) ≡ true)
      × (ensure_default_ports_for_splitter names d ratio rows' ≡ rows')
unfolding ensure_default_ports_for_splitter HasOuts
ensure_default_ports_for_splitter_correct names d ratio rows is_one =
    let taken = names_of rows d.id in
    let ins = missing_in names d.id taken in
    let outs = missing_outs names d.id taken 1 (ports_wanted ratio) in
    let now = rows ++ (ins ++ outs) in
    let has_in : contains names.in_name (names_of now d.id) ≡ true =
      contains-names_of names.in_name d.id rows (ins ++ outs)
      ∙ (rw (contains-names_of names.in_name d.id ins outs)
          (ground (arith, missing_in_adds names d.id taken))) in
    let has_out : (k : ℕ)
        → 1 ≤ k
        → k ≤ ports_wanted ratio
        → contains (names.out_name k) (names_of now d.id) ≡ true =
      λ k low high.
        contains-names_of (names.out_name k) d.id rows (ins ++ outs)
        ∙ (rw (contains-names_of (names.out_name k) d.id ins outs) (
            ground (
              arith,
              missing_outs_adds names d.id taken 1 (ports_wanted ratio) k low (omega arith),
            ))) in
    rw is_one (
      (ins ++ outs, refl),
      has_in,
      has_out,
      rw has_in (
          rw
            (missing_outs_none names d.id (names_of now d.id) 1 (ports_wanted ratio)
              (λ k low high. has_out k low (omega arith)))
            (append_none now)),
    )
