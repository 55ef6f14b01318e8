-- ===== src/Search/Sweep/Seek.antt =====
-- A sweep that stops at the first node with a property, where the test may read what was visited.
-- The same where the neighbours are tested, before they are queued.
pub mod Ahead
use unoc_network_simulator.Prelude.{
  ℕ, zero, suc, ◌+◌, ◌≤◌, ◌≡◌, refl, ap, sym, ◌∙◌, subst, ◌↔◌, inl, inr, Bool, true, false, Option,
  none, some, List, [], ◌∷◌, arith, ◌==◌, if◌then◌else◌, Bool-cases, List-cases, length, any,
  ==_iff,
}
use unoc_network_simulator.Prelude.Sets.{contains}
use unoc_network_simulator.Search.Walks.{Walk, seed}
use unoc_network_simulator.Search.Flood.{Frontier, IsPush}
use unoc_network_simulator.Search.Sweep.{
  visit, sweep, edges, sweep_ends, sweep_correct, enqueue-reached, Inv, Inv-skip, Inv-visit,
}

module _ (next : ℕ → List ℕ) (push : List ℕ → ℕ → List ℕ) (hit : List ℕ → ℕ → Bool) where
  -- The `while` loop with its `break`; the test gets the visited nodes, the current one included.
  unfoldable pub seek : ℕ → Frontier → Option Bool
  unfolding visit
  seek zero s = elim s.queue [ [] ↦ some false | _ ∷ _ ↦ none ]
  seek (suc fuel) s = elim s.queue [
    | [] ↦ some false
    | u ∷ rest ↦
        let s' = record s { queue = rest } in
        if contains u s.reached
        then seek fuel s'
        else if hit (u ∷ s.reached) u
        then some true
        else seek fuel (visit next push s' u)
  ]

-- No node of a list has the property.
abbrev Missed : (ℕ → Bool) → List ℕ → Type 0
Missed q xs = (w : ℕ) → contains w xs ≡ true → q w ≡ false

Missed-cons : (q : ℕ → Bool) (u : ℕ) (xs : List ℕ) → q u ≡ false → Missed q xs → Missed q (u ∷ xs)
Missed-cons q u xs bad h w m = elim (Bool-cases (u == w)) [
  | inl same ↦ subst (λ (y : ℕ). q y ≡ false) ((==_iff u w).0 same) bad
  | inr other ↦ h w (ground (arith, m, other))
]

some_list_inj : (x y : List ℕ) → some x ≡ some y → x ≡ y
some_list_inj x y h = ap (λ (o : Option (List ℕ)). elim o [ none ↦ x | some z ↦ z ]) h

any-false :
    (q : ℕ → Bool) (xs : List ℕ) → ((w : ℕ) → contains w xs ≡ true → q w ≡ false) → any q xs ≡ false
any-false q [] h = refl
any-false q (x ∷ xs) h =
    ground
      (arith, h x (ground (arith, ==_iff x x)), any-false q xs (λ w m. h w (ground (arith, m))))

any-true :
    (q : ℕ → Bool) (xs : List ℕ) (v : ℕ) → contains v xs ≡ true → q v ≡ true → any q xs ≡ true
any-true q [] v m h = ground arith
any-true q (x ∷ xs) v m h = elim (Bool-cases (x == v)) [
  | inl same ↦
      let here = subst (λ (y : ℕ). q y ≡ true) (sym ((==_iff x v).0 same)) h in ground (arith, here)
  | inr other ↦ ground (arith, any-true q xs v (ground (arith, m, other)) h)
]

any_some :
    (q : ℕ → Bool) (xs : List ℕ) → any q xs ≡ true → (v : ℕ) × (contains v xs ≡ true) × (q v ≡ true)
any_some q [] h = absurd (ground arith)
any_some q (x ∷ xs) h = elim (Bool-cases (q x)) [
  | inl t ↦ (x, ground (arith, ==_iff x x), t)
  | inr f ↦ let (v, m, k) = any_some q xs (ground (arith, h, f)) in (v, ground (arith, m), k)
]

module _ (next : ℕ → List ℕ) (push : List ℕ → ℕ → List ℕ) (p : IsPush push) (seeds : List ℕ)
    (hit : List ℕ → ℕ → Bool) (goal : ℕ → Bool)
    (agree : (checked : List ℕ) (u : ℕ)
      → Walk seeds next (λ _. true) u
      → ((w : ℕ) → contains w checked ≡ true → Walk seeds next (λ _. true) w × (goal w ≡ false))
      → hit (u ∷ checked) u ≡ goal u) where
  visit-reached : (s : Frontier) (u : ℕ) → (visit next push s u).reached ≡ u ∷ s.reached
  unfolding visit
  visit-reached s u = enqueue-reached next push p (record s { reached = u ∷ s.reached }) (next u)

  sweep_grows :
      (fuel : ℕ) (s : Frontier) (r : List ℕ) (v : ℕ)
      → sweep next push fuel s ≡ some r
      → contains v s.reached ≡ true
      → contains v r ≡ true
  unfolding sweep
  sweep_grows zero s r v e m = elim (List-cases s.queue) [
    | inl k ↦ ground arith
    | inr (u, rest, k) ↦ ground arith
  ]
  sweep_grows (suc fuel) s r v e m = elim (List-cases s.queue) [
    | inl k ↦ ground arith
    | inr (u, rest, k) ↦ elim (Bool-cases (contains u s.reached)) [
      | inl t ↦ sweep_grows fuel (record s { queue = rest }) r v (ground arith) m
      | inr f ↦
          sweep_grows fuel (visit next push (record s { queue = rest }) u) r v (ground arith)
            (ap (contains v) (visit-reached (record s { queue = rest }) u) ∙ ground (arith, m))
    ]
  ]

  seek_of_sweep :
      (fuel : ℕ) (s : Frontier) (r : List ℕ)
      → Inv next push p seeds s
      → ((w : ℕ) → contains w s.reached ≡ true → goal w ≡ false)
      → sweep next push fuel s ≡ some r
      → seek next push hit fuel s ≡ some (any goal r)
  unfolding sweep seek
  seek_of_sweep zero s r h missed e = elim (List-cases s.queue) [
    | inl k ↦
        let same : s.reached ≡ r = some_list_inj s.reached r (ground arith) in
        rw k (ap (λ b. some b) (sym (any-false goal r (subst (Missed goal) same missed))))
    | inr (u, rest, k) ↦ ground arith
  ]
  seek_of_sweep (suc fuel) s r h missed e = elim (List-cases s.queue) [
    | inl k ↦
        let same : s.reached ≡ r = some_list_inj s.reached r (ground arith) in
        rw k (ap (λ b. some b) (sym (any-false goal r (subst (Missed goal) same missed))))
    | inr (u, rest, k) ↦
        let s' : Frontier = record { reached = s.reached; queue = rest } in
        elim (Bool-cases (contains u s.reached)) [
          | inl t ↦ rw k (
              rw t (
                seek_of_sweep fuel s' r (Inv-skip next push p seeds s u rest k t h) missed
                  (ground arith)))
          | inr f ↦
              let here = h.waiting u (ground (arith, ap (contains u) k, ==_iff u u)) in
              let same = agree s.reached u here (λ w m. (h.sound w m, missed w m)) in
              let later : sweep next push fuel (visit next push s' u) ≡ some r = ground arith in
              elim (Bool-cases (goal u)) [
                | inl good ↦
                    let kept =
                      sweep_grows fuel (visit next push s' u) r u later
                        (ap (contains u) (visit-reached s' u) ∙ ground (arith, ==_iff u u)) in
                    rw k (
                      rw f
                        (rw same (rw good (ap (λ b. some b) (sym (any-true goal r u kept good))))))
                | inr bad ↦ rw k (
                    rw f (
                      rw same (
                        rw bad (
                          seek_of_sweep fuel (visit next push s' u) r
                            (Inv-visit next push p seeds s u rest k f h)
                            (subst (Missed goal) (sym (visit-reached s' u))
                              (Missed-cons goal u s.reached bad missed))
                            later))))
              ]
        ]
  ]

  -- With as much fuel as nodes in the queue and edges to follow the loop ends, and it finds a node
  -- exactly if one with the property is on a walk from the seeds.
  pub seek_iff :
      (nodes : List ℕ) (known : (v : ℕ) → contains v nodes ≡ false → next v ≡ []) (fuel : ℕ)
      (queue : List ℕ)
      → ((v : ℕ) → contains v queue ≡ contains v seeds)
      → edges next nodes [] + length queue ≤ fuel
      → (b : Bool) × (seek next push hit fuel (record { reached = []; queue = queue }) ≡ some b)
        × ((b ≡ true) ↔ ((v : ℕ) × Walk seeds next (λ _. true) v × (goal v ≡ true)))
  seek_iff nodes known fuel queue same enough =
      let start : Frontier = record { reached = []; queue = queue } in
      let (r, ends) = sweep_ends next push p nodes known fuel start enough in
      let exact = sweep_correct next push p seeds fuel queue r same ends in
      let begun : Inv next push p seeds start = record {
        sound = λ w q. absurd (ground arith);
        waiting = λ w q. seed w (sym (same w) ∙ q);
        seeded = λ w q. ground (arith, same w);
        closed = λ u w m edge. absurd (ground arith);
      } in
      (
        any goal r,
        seek_of_sweep fuel start r begun (λ w m. absurd (ground arith)) ends,
        (
          λ h. let (v, m, g) = any_some goal r h in (v, (exact v).0 m, g),
          λ (v, w, g). any-true goal r v ((exact v).1 w) g,
        ),
      )
