-- ===== src/Pathfinding/Heap.antt =====
-- What the search with a heap finds.
use unoc_network_simulator.Prelude.{
  ℕ, zero, suc, ◌+◌, ◌≤◌, ◌≡◌, refl, ap, sym, subst, ◌∙◌, Bool, true, false, not, ◌&&◌, ◌||◌, some,
  List, [], ◌∷◌, ◌++◌, arith, ◌==◌, if◌then◌else◌, length, Bool-cases, Option-cases, List-cases,
  either_way, inl, inr, is_some, ==_iff, ==_refl,
}
use unoc_network_simulator.Prelude.Sets.{contains}
use unoc_network_simulator.Prelude.Dicts.{get, get-put}
use unoc_network_simulator.Prelude.Sorting.{
  keys, contains-insert_by, length-insert_by, Every, Every-append, Every-insert_by,
}
use unoc_network_simulator.Search.Walks.{Walk, seed, step, Route, here, Route-extend}
use unoc_network_simulator.Search.Sweep.{edges, edges-cons-le, edges-cons}
use unoc_network_simulator.Pathfinding.Shortest.{
  Entry, SearchState, entry_before, is_better, candidate, pushed, relax, relax_all, settle_node,
  search_heap, start_state,
}

abbrev node_of : Entry → ℕ
node_of e = e.node

-- A node is visited, or waits in the heap.
abbrev pending : ℕ → SearchState → Bool
pending v s = contains v s.visited || contains v (keys node_of s.heap)

-- A node with a best candidate is visited or waits.
Known : SearchState → Type 0
Known s = (v : ℕ) → is_some (get v s.best) ≡ true → pending v s ≡ true

-- What holds before and after a push holds after a neighbour.
relax_keeps {ℓ} :
    (P : SearchState → Type ℓ) (e : Entry) (s : SearchState) (nb : ℕ)
    → P s
    → P (pushed (candidate e nb) s)
    → P (relax e s nb)
unfolding relax
relax_keeps P e s nb h k =
    either_way P (contains nb s.visited) s _ h
      (either_way P (is_better (candidate e nb) (get nb s.best)) (pushed (candidate e nb) s) s k h)

pushed_pending :
    (e : Entry) (s : SearchState) (nb v : ℕ)
    → pending v (pushed (candidate e nb) s) ≡ (nb == v || pending v s)
pushed_pending e s nb v =
    ground (arith, contains-insert_by node_of entry_before v (candidate e nb) s.heap)

-- What a search keeps while it relaxes: the visited nodes and the targets, what is pending, and that
-- what is known is pending.
record Grows (s t : SearchState) : Type 0 where
  visits : t.visited ≡ s.visited
  hits : t.targets ≡ s.targets
  still : (v : ℕ) → pending v s ≡ true → pending v t ≡ true
  known : Known s → Known t

Grows-refl : (s : SearchState) → Grows s s
Grows-refl s = record { visits = refl; hits = refl; still = λ v h. h; known = λ h. h }

Grows-trans : (s t r : SearchState) → Grows s t → Grows t r → Grows s r
Grows-trans s t r g h = record {
  visits = h.visits ∙ g.visits;
  hits = h.hits ∙ g.hits;
  still = λ v k. h.still v (g.still v k);
  known = λ k. h.known (g.known k);
}

Grows-relax : (e : Entry) (s : SearchState) (nb : ℕ) → Grows s (relax e s nb)
unfolding Known
Grows-relax e s nb = relax_keeps (Grows s) e s nb (Grows-refl s) record {
  visits = refl;
  hits = refl;
  still = λ v h. pushed_pending e s nb v ∙ ground (arith, h);
  known = λ h v k. pushed_pending e s nb v ∙ elim (Bool-cases (nb == v)) [
    | inl same ↦ ground (arith, same)
    | inr other ↦
        let old : is_some (get v s.best) ≡ true =
          subst (λ o. is_some o ≡ true) (get-put v nb (candidate e nb) s.best ∙ rw other refl) k in
        ground (arith, h v old)
  ];
}

relax_adds : (e : Entry) (s : SearchState) (nb : ℕ) → Known s → pending nb (relax e s nb) ≡ true
unfolding relax Known
relax_adds e s nb h = elim (Bool-cases (contains nb s.visited)) [
  | inl t ↦ rw t (ground (arith, t))
  | inr f ↦ elim (Bool-cases (is_better (candidate e nb) (get nb s.best))) [
    | inl b ↦ rw (f, b) (pushed_pending e s nb nb ∙ ground (arith, ==_refl nb))
    | inr w ↦ elim (Option-cases (get nb s.best)) [
      | inl gone ↦ absurd (ground (arith, w, gone))
      | inr (prev, there) ↦ rw (f, w) (h nb (rw there refl))
    ]
  ]
]

Grows-relax_all : (e : Entry) (s : SearchState) (nbs : List ℕ) → Grows s (relax_all e s nbs)
Grows-relax_all e s [] = Grows-refl s
Grows-relax_all e s (nb ∷ nbs) =
    Grows-trans s (relax e s nb) (relax_all e (relax e s nb) nbs) (Grows-relax e s nb)
      (Grows-relax_all e (relax e s nb) nbs)

relax_all_adds :
    (e : Entry) (s : SearchState) (nbs : List ℕ) (v : ℕ)
    → Known s
    → contains v nbs ≡ true
    → pending v (relax_all e s nbs) ≡ true
relax_all_adds e s [] v h m = absurd (ground arith)
relax_all_adds e s (nb ∷ nbs) v h m =
    let s' = relax e s nb in
    elim (Bool-cases (nb == v)) [
      | inl same ↦
          let here_now =
            subst (λ (x : ℕ). pending x s' ≡ true) ((==_iff nb v).0 same) (relax_adds e s nb h) in
          (Grows-relax_all e s' nbs).still v here_now
      | inr other ↦
          relax_all_adds e s' nbs v ((Grows-relax e s nb).known h) (ground (arith, m, other))
    ]

relax_all-length :
    (e : Entry) (s : SearchState) (nbs : List ℕ)
    → length (relax_all e s nbs).heap ≤ length s.heap + length nbs
relax_all-length e s [] = omega arith
relax_all-length e s (nb ∷ nbs) =
    let one : length (relax e s nb).heap ≤ suc (length s.heap) =
      relax_keeps (λ t. length t.heap ≤ suc (length s.heap)) e s nb (omega arith)
        (omega (arith, length-insert_by entry_before (candidate e nb) s.heap)) in
    omega (arith, one, relax_all-length e (relax e s nb) nbs)

abbrev pub is_used : List Entry → Bool
is_used [] = false
is_used (x ∷ xs) = true

is_used-append : (xs ys : List Entry) → is_used xs ≡ true → is_used (xs ++ ys) ≡ true
is_used-append [] ys h = absurd (ground arith)
is_used-append (x ∷ xs) ys h = refl

is_used-last : (xs : List Entry) (e : Entry) → is_used (xs ++ e ∷ []) ≡ true
is_used-last [] e = refl
is_used-last (x ∷ xs) e = refl

module _ (src : ℕ) (adj : ℕ → List ℕ) (goal : ℕ → Bool) where
  abbrev pub IsRoute : Entry → Type 0
  IsRoute e = Route adj src e.path e.node

  abbrev pub IsFound : Entry → Type 0
  IsFound e = IsRoute e × (goal e.node ≡ true)

  relax_all-routes :
      (e : Entry) (s : SearchState) (nbs : List ℕ)
      → IsRoute e
      → ((v : ℕ) → contains v nbs ≡ true → contains v (adj e.node) ≡ true)
      → Every IsRoute s.heap
      → Every IsRoute (relax_all e s nbs).heap
  relax_all-routes e s [] r edge h = h
  relax_all-routes e s (nb ∷ nbs) r edge h =
      let new = Route-extend adj src e.node nb e.path r (edge nb (ground (arith, ==_refl nb))) in
      relax_all-routes e (relax e s nb) nbs r (λ v m. edge v (ground (arith, m)))
        (relax_keeps (λ t. Every IsRoute t.heap) e s nb h
          (Every-insert_by IsRoute entry_before (candidate e nb) s.heap new h))

  record Inv (s : SearchState) : Type 0 where
    known : Known s
    routes : Every IsRoute s.heap
    found : Every IsFound s.targets
    closed :
        (u v : ℕ) → contains u s.visited ≡ true → contains v (adj u) ≡ true → pending v s ≡ true
    seeded : pending src s ≡ true
    hit :
        (v : ℕ)
        → contains v s.visited ≡ true
        → (v == src) ≡ false
        → goal v ≡ true
        → is_used s.targets ≡ true

  pop :
      (s : SearchState) (e : Entry) (rest : List Entry) (v : ℕ)
      → s.heap ≡ e ∷ rest
      → pending v s ≡ true
      → (e.node == v || (contains v s.visited || contains v (keys node_of rest))) ≡ true
  pop s e rest v k h = ground (arith, ap (λ l. contains v (keys node_of l)) k, h)

  Inv-skip :
      (s : SearchState) (e : Entry) (rest : List Entry)
      → s.heap ≡ e ∷ rest
      → contains e.node s.visited ≡ true
      → Inv s
      → Inv (record s { heap = rest })
  unfolding Known
  Inv-skip s e rest k seen h =
      let shorter : (v : ℕ)
          → pending v s ≡ true
          → (contains v s.visited || contains v (keys node_of rest)) ≡ true =
        λ v m. elim (Bool-cases (e.node == v)) [
          | inl same ↦
              let here_now =
                subst (λ (x : ℕ). contains x s.visited ≡ true) ((==_iff e.node v).0 same) seen in
              ground (arith, here_now)
          | inr other ↦ ground (arith, pop s e rest v k m, other)
        ] in
      record {
        known = λ v m. shorter v (h.known v m);
        routes = (subst (Every IsRoute) k h.routes).1;
        found = h.found;
        closed = λ u v m edge. shorter v (h.closed u v m edge);
        seeded = shorter src h.seeded;
        hit = h.hit;
      }

  -- The state in which the neighbours of a node are relaxed.
  abbrev opened : Entry → SearchState → SearchState
  opened e s = record s {
    visited = e.node ∷ s.visited;
    targets = if not (e.node == src) && goal e.node then s.targets ++ e ∷ [] else s.targets;
  }

  Inv-settle :
      (s : SearchState) (e : Entry) (rest : List Entry)
      → s.heap ≡ e ∷ rest
      → Inv s
      → Inv (settle_node src adj goal e (record s { heap = rest }))
  unfolding settle_node Known
  Inv-settle s e rest k h =
      let mid = opened e (record s { heap = rest }) in
      let grown = Grows-relax_all e mid (adj e.node) in
      let end = relax_all e mid (adj e.node) in
      let (route, routes) = subst (Every IsRoute) k h.routes in
      let moved : (v : ℕ) → pending v s ≡ true → pending v mid ≡ true =
        λ v m. ground (arith, pop s e rest v k m) in
      let known : Known mid = λ v m. moved v (h.known v m) in
      let found : Every IsFound mid.targets =
        elim (Bool-cases (not (e.node == src) && goal e.node)) [
          | inl t ↦
              rw t
                (Every-append IsFound s.targets (e ∷ []) h.found ((route, ground (arith, t)), tt))
          | inr f ↦ rw f h.found
        ] in
      record {
        known = grown.known known;
        routes = relax_all-routes e mid (adj e.node) route (λ v m. m) routes;
        found = subst (Every IsFound) (sym grown.hits) found;
        closed = λ u v m edge. elim (Bool-cases (e.node == u)) [
          | inl same ↦
              relax_all_adds e mid (adj e.node) v known
                (subst (λ (x : ℕ). contains v (adj x) ≡ true) (sym ((==_iff e.node u).0 same)) edge)
          | inr other ↦
              grown.still v (
                moved v
                  (h.closed u v (ground (arith, ap (contains u) grown.visits, m, other)) edge))
        ];
        seeded = grown.still src (moved src h.seeded);
        hit = λ v m away good. ap is_used grown.hits ∙ elim (Bool-cases (e.node == v)) [
          | inl same ↦
              let eq = (==_iff e.node v).0 same in
              let test : (not (e.node == src) && goal e.node) ≡ true =
                subst (λ (x : ℕ). (not (x == src) && goal x) ≡ true) (sym eq)
                  (ground (arith, away, good)) in
              rw test (is_used-last s.targets e)
          | inr other ↦
              let old =
                h.hit v (ground (arith, ap (contains v) grown.visits, m, other)) away good in
              either_way (λ l. is_used l ≡ true) (not (e.node == src) && goal e.node) _ _
                (is_used-append s.targets (e ∷ []) old) old
        ];
      }

  module _ (nodes : List ℕ) (bounded : (v : ℕ) → contains v nodes ≡ false → adj v ≡ []) where
    abbrev work : SearchState → ℕ
    work s = edges adj nodes s.visited + length s.heap

    settle-work :
        (s : SearchState) (e : Entry)
        → contains e.node s.visited ≡ false
        → work (settle_node src adj goal e s) ≤ work s
    unfolding settle_node
    settle-work s e new =
        let grown = Grows-relax_all e (opened e s) (adj e.node) in
        let long = relax_all-length e (opened e s) (adj e.node) in
        rw grown.visits (elim (Bool-cases (contains e.node nodes)) [
          | inl t ↦ omega (arith, long, edges-cons adj nodes e.node s.visited t new)
          | inr f ↦
              omega (
                arith,
                long,
                edges-cons-le adj nodes e.node s.visited,
                ap length (bounded e.node f),
              )
        ])

    -- With enough fuel the loop ends in a state with an empty heap.
    search_ends :
        (fuel : ℕ) (s : SearchState)
        → work s ≤ fuel
        → Inv s
        → (t : SearchState) × (search_heap src adj goal fuel s ≡ some t) × Inv t × (t.heap ≡ [])
    unfolding search_heap
    search_ends zero s enough h = elim (List-cases s.heap) [
      | inl k ↦ (s, rw k refl, h, k)
      | inr (e, rest, k) ↦ absurd (omega (arith, enough, ap length k))
    ]
    search_ends (suc fuel) s enough h = elim (List-cases s.heap) [
      | inl k ↦ (s, rw k refl, h, k)
      | inr (e, rest, k) ↦
          let s' = record s { heap = rest } in
          elim (Bool-cases (contains e.node s.visited)) [
            | inl seen ↦
                let (t, ends, inv, empty) =
                  search_ends fuel s' (omega (arith, enough, ap length k))
                    (Inv-skip s e rest k seen h) in
                (t, rw (k, seen, search_heap) ends, inv, empty)
            | inr new ↦
                let (t, ends, inv, empty) =
                  search_ends fuel (settle_node src adj goal e s')
                    (omega (arith, enough, settle-work s' e new, ap length k))
                    (Inv-settle s e rest k h) in
                (t, rw (k, new, search_heap) ends, inv, empty)
          ]
    ]

    visited_all :
        (t : SearchState)
        → Inv t
        → t.heap ≡ []
        → (v : ℕ) → Walk (src ∷ []) adj (λ _. true) v
        → contains v t.visited ≡ true
    visited_all t h empty v (seed _ m) =
        let at =
          subst (λ (x : ℕ). contains x t.visited ≡ true) ((==_iff src v).0 (ground (arith, m))) in
        at (ground (arith, h.seeded, ap (λ l. contains src (keys node_of l)) empty))
    visited_all t h empty v (step u _ w edge enter) = ground (
      arith,
      h.closed u v (visited_all t h empty u w) edge,
      ap (λ l. contains v (keys node_of l)) empty,
    )

    -- From a source the search ends. What it finds are routes to nodes with the property, and it
    -- finds one if another node on a walk from the source has it.
    pub search_correct :
        (fuel : ℕ)
        → edges adj nodes [] + 1 ≤ fuel
        → (t : SearchState) × (search_heap src adj goal fuel (start_state src) ≡ some t)
          × Every IsFound t.targets
          × ((v : ℕ)
              → Walk (src ∷ []) adj (λ _. true) v
              → (v == src) ≡ false
              → goal v ≡ true
              → is_used t.targets ≡ true)
    unfolding Known
    search_correct fuel enough =
        let start : Inv (start_state src) = record {
          known = λ v m. elim (Bool-cases (src == v)) [
            | inl same ↦ ground (arith, same)
            | inr other ↦ absurd (ground (arith, other, m))
          ];
          routes = (here src, tt);
          found = tt;
          closed = λ u v m edge. absurd (ground arith);
          seeded = ground (arith, ==_refl src);
          hit = λ v m away good. absurd (ground arith);
        } in
        let (t, ends, inv, empty) =
          search_ends fuel (start_state src) (omega (arith, enough)) start in
        (
          t,
          ends,
          inv.found,
          λ v walk away good. inv.hit v (visited_all t inv empty v walk) away good,
        )
