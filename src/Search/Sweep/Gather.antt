-- ===== src/Search/Sweep/Gather.antt =====
-- A sweep that gathers the tags of the nodes that it queues (`seen.add(tag); q.append(nb)`).
use unoc_network_simulator.Prelude.{
  ℕ, zero, suc, ◌+◌, ◌≤◌, ◌≡◌, refl, ap, sym, ◌∙◌, subst, ◌↔◌, ◌⊎◌, inl, inr, true, false, ◌||◌,
  Option, none, some, List, [], ◌∷◌, arith, ◌==◌, if◌then◌else◌, Bool-cases, Option-cases,
  List-cases, length, ==_iff, ==_refl,
}
use unoc_network_simulator.Prelude.Sets.{contains, add, contains-add}
use unoc_network_simulator.Search.Walks.{Walk, seed, step}
use unoc_network_simulator.Search.Flood.{Frontier, IsPush}
use unoc_network_simulator.Search.Sweep.{
  visit, sweep, edges, sweep_ends, sweep_correct, enqueue-reached, enqueue-queue, Inv, Inv-skip,
  Inv-visit,
}

some_list_inj : (x y : List ℕ) → some x ≡ some y → x ≡ y
some_list_inj x y h = ap (λ (o : Option (List ℕ)). elim o [ none ↦ x | some z ↦ z ]) h

-- `if tag: seen.add(tag)`
abbrev pub add_tag : Option ℕ → List ℕ → List ℕ
add_tag none seen = seen
add_tag (some x) seen = add x seen

module _ (tag : ℕ → Option ℕ) where
  -- What the `for` loop adds, over the neighbours that are not yet visited.
  abbrev pub collect : List ℕ → List ℕ → List ℕ → List ℕ
  collect reached seen [] = seen
  collect reached seen (v ∷ vs) =
      collect reached (if contains v reached then seen else add_tag (tag v) seen) vs

  keeps_tag :
      (x : ℕ) (o : Option ℕ) (seen : List ℕ)
      → contains x seen ≡ true
      → contains x (add_tag o seen) ≡ true
  keeps_tag x none seen h = h
  keeps_tag x (some y) seen h = contains-add x y seen ∙ ground (arith, h)

  collect_keeps :
      (reached seen vs : List ℕ) (x : ℕ)
      → contains x seen ≡ true
      → contains x (collect reached seen vs) ≡ true
  collect_keeps reached seen [] x h = h
  collect_keeps reached seen (v ∷ vs) x h = elim (Bool-cases (contains v reached)) [
    | inl t ↦ rw t (collect_keeps reached seen vs x h)
    | inr f ↦ rw f (collect_keeps reached (add_tag (tag v) seen) vs x (keeps_tag x (tag v) seen h))
  ]

  collect_adds :
      (reached seen vs : List ℕ) (v x : ℕ)
      → contains v vs ≡ true
      → contains v reached ≡ false
      → tag v ≡ some x
      → contains x (collect reached seen vs) ≡ true
  collect_adds reached seen [] v x m out h = absurd (ground arith)
  collect_adds reached seen (w ∷ vs) v x m out h = elim (Bool-cases (w == v)) [
    | inl same ↦
        let e : w ≡ v = (==_iff w v).0 same in
        rw (subst (λ (y : ℕ). contains y reached ≡ false) (sym e) out) (
          collect_keeps reached (add_tag (tag w) seen) vs x (
            rw (subst (λ (y : ℕ). tag y ≡ some x) (sym e) h)
              (contains-add x x seen ∙ ground (arith, ==_refl x))))
    | inr other ↦
        collect_adds reached (if contains w reached then seen else add_tag (tag w) seen) vs v x
          (ground (arith, m, other)) out h
  ]

  collect_from :
      (reached seen vs : List ℕ) (x : ℕ)
      → contains x (collect reached seen vs) ≡ true
      → (contains x seen ≡ true) ⊎ ((v : ℕ) × (contains v vs ≡ true) × (tag v ≡ some x))
  collect_from reached seen [] x h = inl h
  collect_from reached seen (v ∷ vs) x h =
      elim (collect_from reached (if contains v reached then seen else add_tag (tag v) seen) vs x
        h) [
          | inr (w, m, e) ↦ inr (w, ground (arith, m), e)
          | inl old ↦ elim (Bool-cases (contains v reached)) [
            | inl t ↦ inl (rw t at old)
            | inr f ↦ elim (Option-cases (tag v)) [
              | inl none_there ↦ inl (rw (f, none_there) at old)
              | inr (y, e) ↦ elim (Bool-cases (y == x)) [
                | inl same ↦
                    inr (v, ground (arith, ==_refl v), e ∙ ap (λ z. some z) ((==_iff y x).0 same))
                | inr other ↦
                    let new : contains x (add y seen) ≡ true = rw (f, e) at old in
                    inl (ground (arith, new, contains-add x y seen, other))
              ]
            ]
          ]
        ]

module _ (next : ℕ → List ℕ) (push : List ℕ → ℕ → List ℕ) (tag : ℕ → Option ℕ) where
  -- The `while` loop; `none` says that the fuel ran out.
  unfoldable pub gather : ℕ → Frontier → List ℕ → Option (List ℕ)
  gather zero s seen = elim s.queue [ [] ↦ some seen | _ ∷ _ ↦ none ]
  gather (suc fuel) s seen = elim s.queue [
    | [] ↦ some seen
    | u ∷ rest ↦
        let s' = record s { queue = rest } in
        if contains u s.reached
        then gather fuel s' seen
        else gather fuel (visit next push s' u) (collect tag (u ∷ s.reached) seen (next u))
  ]

module _ (next : ℕ → List ℕ) (push : List ℕ → ℕ → List ℕ) (p : IsPush push) (seeds : List ℕ)
    (tag : ℕ → Option ℕ) where
  -- The tags that were gathered are those of the nodes that are queued or visited, and of no node
  -- off the walks.
  record Tagged (s : Frontier) (seen : List ℕ) : Type 0 where
    from :
        (x : ℕ)
        → contains x seen ≡ true
        → (v : ℕ) × Walk seeds next (λ _. true) v × (tag v ≡ some x)
    all :
        (v x : ℕ)
        → (contains v s.reached || contains v s.queue) ≡ true
        → tag v ≡ some x
        → contains x seen ≡ true

  Tagged-skip :
      (s : Frontier) (u : ℕ) (rest seen : List ℕ)
      → s.queue ≡ u ∷ rest
      → Tagged s seen
      → Tagged (record s { queue = rest }) seen
  Tagged-skip s u rest seen e h = record {
    from = h.from;
    all = λ v x m k. h.all v x (ground (arith, ap (contains v) e, m)) k;
  }

  Tagged-visit :
      (s : Frontier) (u : ℕ) (rest seen : List ℕ)
      → s.queue ≡ u ∷ rest
      → Inv next push p seeds s
      → Tagged s seen
      → Tagged
          (visit next push (record s { queue = rest }) u)
          (collect tag (u ∷ s.reached) seen (next u))
  unfolding visit
  Tagged-visit s u rest seen e h g =
      let s' : Frontier = record { reached = u ∷ s.reached; queue = rest } in
      let here = h.waiting u (ground (arith, ap (contains u) e, ==_refl u)) in
      record {
        from = λ x m. elim (collect_from tag (u ∷ s.reached) seen (next u) x m) [
          | inl old ↦ g.from x old
          | inr (v, edge, k) ↦ (v, step u v here edge refl, k)
        ];
        all = λ v x m k. elim (Bool-cases (contains v s.reached || contains v s.queue)) [
          | inl old ↦ collect_keeps tag (u ∷ s.reached) seen (next u) x (g.all v x old k)
          | inr new ↦
              let flag = ap (contains v) (enqueue-reached next push p s' (next u)) in
              let wait = enqueue-queue next push p s' (next u) v in
              let hold = ap (contains v) e in
              collect_adds tag (u ∷ s.reached) seen (next u) v x
                (ground (arith, m, new, flag, wait, hold)) (ground (arith, new, hold)) k
        ];
      }

  gather_of_sweep :
      (fuel : ℕ) (s : Frontier) (seen r : List ℕ)
      → Inv next push p seeds s
      → Tagged s seen
      → sweep next push fuel s ≡ some r
      → (o : List ℕ) × (gather next push tag fuel s seen ≡ some o)
        × ((x : ℕ)
            → contains x o ≡ true
            → (v : ℕ) × Walk seeds next (λ _. true) v × (tag v ≡ some x))
        × ((v x : ℕ) → contains v r ≡ true → tag v ≡ some x → contains x o ≡ true)
  unfolding sweep gather
  gather_of_sweep zero s seen r h g e = elim (List-cases s.queue) [
    | inl k ↦
        let same : s.reached ≡ r = some_list_inj s.reached r (ground arith) in
        (
          seen,
          ground (arith, k),
          g.from,
          λ v x m t. g.all v x (ground (arith, ap (contains v) same, m)) t,
        )
    | inr (u, rest, k) ↦ absurd (ground arith)
  ]
  gather_of_sweep (suc fuel) s seen r h g e = elim (List-cases s.queue) [
    | inl k ↦
        let same : s.reached ≡ r = some_list_inj s.reached r (ground arith) in
        (
          seen,
          ground (arith, k),
          g.from,
          λ v x m t. g.all v x (ground (arith, ap (contains v) same, m)) t,
        )
    | inr (u, rest, k) ↦
        let s' : Frontier = record { reached = s.reached; queue = rest } in
        elim (Bool-cases (contains u s.reached)) [
          | inl t ↦
              let (o, ends, sound, whole) =
                gather_of_sweep fuel s' seen r (Inv-skip next push p seeds s u rest k t h)
                  (Tagged-skip s u rest seen k g) (ground arith) in
              (o, rw (k, t) ends, sound, whole)
          | inr f ↦
              let (o, ends, sound, whole) =
                gather_of_sweep fuel (visit next push s' u)
                  (collect tag (u ∷ s.reached) seen (next u)) r
                  (Inv-visit next push p seeds s u rest k f h) (Tagged-visit s u rest seen k h g)
                  (ground arith) in
              (o, rw (k, f) ends, sound, whole)
        ]
  ]

  -- With enough fuel the loop ends, and it gathers exactly the tags of the nodes on the walks, if
  -- the seeds have none.
  pub gather_iff :
      (nodes : List ℕ) (known : (v : ℕ) → contains v nodes ≡ false → next v ≡ []) (fuel : ℕ)
      (queue : List ℕ)
      → ((v : ℕ) → contains v queue ≡ contains v seeds)
      → edges next nodes [] + length queue ≤ fuel
      → ((v : ℕ) → contains v seeds ≡ true → tag v ≡ none)
      → (o : List ℕ) × (gather next push tag fuel (record { reached = []; queue = queue }) []
          ≡ some o)
        × ((x : ℕ)
            → (contains x o ≡ true) ↔ ((v : ℕ) × Walk seeds next (λ _. true) v × (tag v ≡ some x)))
  gather_iff nodes known fuel queue same enough bare =
      let start : Frontier = record { reached = []; queue = queue } in
      let (r, ends) = sweep_ends next push p nodes known fuel start enough in
      let exact = sweep_correct next push p seeds fuel queue r same ends in
      let begun : Inv next push p seeds start = record {
        sound = λ w q. absurd (ground arith);
        waiting = λ w q. seed w (sym (same w) ∙ q);
        seeded = λ w q. ground (arith, same w);
        closed = λ u w m edge. absurd (ground arith);
      } in
      let tagged : Tagged start [] = record {
        from = λ x m. absurd (ground arith);
        all = λ v x m k. absurd (ground (arith, bare v (sym (same v) ∙ m), k));
      } in
      let (o, done, sound, whole) = gather_of_sweep fuel start [] r begun tagged ends in
      (o, done, λ x. (sound x, λ (v, w, k). whole v x ((exact v).1 w) k))
