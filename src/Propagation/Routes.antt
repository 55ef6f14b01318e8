-- ===== src/Propagation/Routes.antt =====
-- The state of the loop of `detect_causal_chain_python`: visited devices, queue and paths.
use unoc_network_simulator.Prelude.{
  ℕ, suc, ◌+◌, ◌≤◌, ◌≡◌, refl, ap, ◌∙◌, subst, true, false, not, ◌&&◌, ◌||◌, some, List, [], ◌∷◌,
  ◌++◌, arith, ◌==◌, length, length-append, Bool-cases, inl, inr, ==_iff,
}
use unoc_network_simulator.Prelude.Sets.{contains, contains-append}
use unoc_network_simulator.Model.Tables.{Tables}
use unoc_network_simulator.Propagation.Chain.{
  Paths, path_of, Causes, record_path, follow, dependents, Route, onward,
}

module _ (t : Tables) (changed : List ℕ) where
  -- A key whose entry is a path to it.
  abbrev pub Routed : Paths → ℕ → Type 0
  Routed ps v = (p : List ℕ) × (path_of ps v ≡ some p) × Route t changed v p

  Routed-cons :
      (ps : Paths) (v x : ℕ) (q : List ℕ)
      → Route t changed v q
      → Routed ps x
      → Routed ((v, q) ∷ ps) x
  Routed-cons ps v x q r (p, e, route) = elim (Bool-cases (v == x)) [
    | inl same ↦ (q, ground arith, subst (λ (k : ℕ). Route t changed k q) ((==_iff v x).0 same) r)
    | inr other ↦ (p, ground arith, route)
  ]

  Routed-here :
      (ps : Paths) (v x : ℕ) (q : List ℕ)
      → Route t changed v q
      → (v == x) ≡ true
      → Routed ((v, q) ∷ ps) x
  Routed-here ps v x q r same =
      (q, ground arith, subst (λ (k : ℕ). Route t changed k q) ((==_iff v x).0 same) r)

  record_path-visited :
      (base : List ℕ) (s : Causes) (v : ℕ) → (record_path base s v).visited ≡ s.visited
  unfolding record_path
  record_path-visited base s v = ground arith

  record_path-queue :
      (base : List ℕ) (s : Causes) (v x : ℕ)
      → contains x (record_path base s v).queue
        ≡ (contains x s.queue || (v == x && not (contains x s.visited)))
  unfolding record_path
  record_path-queue base s v x = ground (arith, contains-append x s.queue (v ∷ []))

  record_path-length :
      (base : List ℕ) (s : Causes) (v : ℕ)
      → length (record_path base s v).queue ≤ suc (length s.queue)
  unfolding record_path
  record_path-length base s v = ground (arith, length-append s.queue (v ∷ []))

  pub follow-visited :
      (base : List ℕ) (s : Causes) (vs : List ℕ) → (follow base s vs).visited ≡ s.visited
  unfolding follow
  follow-visited base s [] = refl
  follow-visited base s (v ∷ vs) =
      follow-visited base (record_path base s v) vs ∙ record_path-visited base s v

  follow-queue :
      (base : List ℕ) (s : Causes) (vs : List ℕ) (x : ℕ)
      → contains x (follow base s vs).queue
        ≡ (contains x s.queue || (contains x vs && not (contains x s.visited)))
  unfolding follow
  follow-queue base s [] x = ground arith
  follow-queue base s (v ∷ vs) x = ground (
    arith,
    follow-queue base (record_path base s v) vs x,
    record_path-queue base s v x,
    ap (contains x) (record_path-visited base s v),
  )

  pub follow-length :
      (base : List ℕ) (s : Causes) (vs : List ℕ)
      → length (follow base s vs).queue ≤ length s.queue + length vs
  unfolding follow
  follow-length base s [] = omega arith
  follow-length base s (v ∷ vs) =
      omega (arith, follow-length base (record_path base s v) vs, record_path-length base s v)

  -- What `follow` may put down: a path to each of the nodes that it is given.
  abbrev Extends : List ℕ → List ℕ → Type 0
  Extends base [] = Unit
  Extends base (v ∷ vs) = Route t changed v (base ++ v ∷ []) × Extends base vs

  record_path-paths :
      (base : List ℕ) (s : Causes) (v x : ℕ)
      → Route t changed v (base ++ v ∷ [])
      → Routed s.paths x
      → Routed (record_path base s v).paths x
  unfolding record_path
  record_path-paths base s v x h r = elim (Bool-cases (contains v s.visited)) [
    | inl old ↦ rw old r
    | inr new ↦ rw new (Routed-cons s.paths v x (base ++ v ∷ []) h r)
  ]

  record_path-queue-Routed :
      (base : List ℕ) (s : Causes) (v : ℕ)
      → Route t changed v (base ++ v ∷ [])
      → ((x : ℕ) → contains x s.queue ≡ true → Routed s.paths x)
      → (x : ℕ) → contains x (record_path base s v).queue ≡ true
      → Routed (record_path base s v).paths x
  record_path-queue-Routed base s v h q x m = elim (Bool-cases (contains x s.queue)) [
    | inl old ↦ record_path-paths base s v x h (q x old)
    | inr new ↦
        let fresh : contains x s.visited ≡ false = ground (arith, record_path-queue base s v x) in
        let same : (v == x) ≡ true = ground (arith, record_path-queue base s v x) in
        let fresh' : contains v s.visited ≡ false = ground (arith, fresh, same, ==_iff v x) in
        unfold record_path in rw fresh' (Routed-here s.paths v x (base ++ v ∷ []) h same)
  ]

  follow-paths :
      (base : List ℕ) (s : Causes) (vs : List ℕ) (x : ℕ)
      → Extends base vs
      → Routed s.paths x
      → Routed (follow base s vs).paths x
  unfolding follow
  follow-paths base s [] x h r = r
  follow-paths base s (v ∷ vs) x h r =
      follow-paths base (record_path base s v) vs x h.1 (record_path-paths base s v x h.0 r)

  follow-queue-Routed :
      (base : List ℕ) (s : Causes) (vs : List ℕ)
      → Extends base vs
      → ((x : ℕ) → contains x s.queue ≡ true → Routed s.paths x)
      → (x : ℕ) → contains x (follow base s vs).queue ≡ true
      → Routed (follow base s vs).paths x
  unfolding follow
  follow-queue-Routed base s [] h q x m = q x m
  follow-queue-Routed base s (v ∷ vs) h q x m =
      follow-queue-Routed base (record_path base s v) vs h.1
        (record_path-queue-Routed base s v h.0 q) x m

  Extends-of_Route :
      (u : ℕ) (p : List ℕ) (vs : List ℕ)
      → Route t changed u p
      → ((v : ℕ) → contains v vs ≡ true → contains v (dependents t u) ≡ true)
      → Extends p vs
  Extends-of_Route u p [] r h = tt
  Extends-of_Route u p (v ∷ vs) r h = (
    onward u v p (p ++ v ∷ []) r (h v (ground (arith, ==_iff v v))) refl,
    Extends-of_Route u p vs r (λ w k. h w (ground arith)),
  )

  pub record Inv (s : Causes) : Type 0 where
    pub visited_routed : (v : ℕ) → contains v s.visited ≡ true → Routed s.paths v
    pub queue_routed : (v : ℕ) → contains v s.queue ≡ true → Routed s.paths v
    pub seeded :
        (v : ℕ) → contains v changed ≡ true → (contains v s.visited || contains v s.queue) ≡ true
    pub closed :
        (u v : ℕ)
        → contains u s.visited ≡ true
        → contains v (dependents t u) ≡ true
        → (contains v s.visited || contains v s.queue) ≡ true

  pub Inv-skip :
      (s : Causes) (u : ℕ) (rest : List ℕ)
      → s.queue ≡ u ∷ rest
      → contains u s.visited ≡ true
      → Inv s
      → Inv (record s { queue = rest })
  Inv-skip s u rest e old h =
      let holds = λ (w : ℕ). ap (contains w) e in
      record {
        visited_routed = h.visited_routed;
        queue_routed = λ v q. h.queue_routed v (ground (arith, holds v));
        seeded = λ v q. ground (arith, holds v, h.seeded v, ==_iff u v);
        closed = λ w v m edge. ground (arith, holds v, h.closed w v, ==_iff u v);
      }

  -- A device whose dependents, possibly none, are followed from `base`.
  pub Inv-follow :
      (s : Causes) (u : ℕ) (rest : List ℕ) (base : List ℕ)
      → s.queue ≡ u ∷ rest
      → Inv s
      → Route t changed u base
      → Inv (follow base (record s { visited = u ∷ s.visited; queue = rest }) (dependents t u))
  Inv-follow s u rest base e h route =
      let s' : Causes = record s { visited = u ∷ s.visited; queue = rest } in
      let vs = dependents t u in
      let ext = Extends-of_Route u base vs route (λ v k. k) in
      let holds = λ (w : ℕ). ap (contains w) e in
      let waits = λ (w : ℕ). follow-queue base s' vs w in
      let flags = λ (w : ℕ). ap (contains w) (follow-visited base s' vs) in
      let head = h.queue_routed u (ground (arith, holds u, ==_iff u u)) in
      record {
        visited_routed = λ v m. follow-paths base s' vs v ext (elim (Bool-cases (u == v)) [
          | inl same ↦ subst (Routed s.paths) ((==_iff u v).0 same) head
          | inr other ↦ h.visited_routed v (ground (arith, flags v))
        ]);
        queue_routed = λ v m.
            follow-queue-Routed base s' vs ext (λ x k. h.queue_routed x (ground (arith, holds x))) v
              m;
        seeded = λ v q. ground (arith, flags v, waits v, holds v, h.seeded v);
        closed = λ w v m edge.
            ground (arith, flags v, flags w, waits v, holds v, h.closed w v, ==_iff u w);
      }
