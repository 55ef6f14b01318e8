-- ===== src/Search/Sweep.antt =====
-- A search that marks a node when it leaves the queue (`if cur in visited: continue`), so that a
-- node may stand in the queue more than once.
pub mod Seek
pub mod Gather
use unoc_network_simulator.Prelude.{
  ℕ, zero, suc, ◌+◌, ◌≤◌, ◌≡◌, refl, ap, sym, subst, ◌↔◌, inl, inr, Bool, true, false, not, ◌&&◌,
  ◌||◌, Option, none, some, List, [], ◌∷◌, arith, ◌==◌, if◌then◌else◌, Bool-cases, List-cases,
  length, ==_iff,
}
use unoc_network_simulator.Prelude.Sets.{contains}
use unoc_network_simulator.Search.Walks.{Walk, seed, step}
use unoc_network_simulator.Search.Flood.{Frontier, IsPush}

module _ (next : ℕ → List ℕ) (push : List ℕ → ℕ → List ℕ) where
  -- The `for` loop: every neighbour that is not yet visited is queued.
  pub enqueue : Frontier → List ℕ → Frontier
  enqueue s [] = s
  enqueue s (v ∷ vs) =
      enqueue (if contains v s.reached then s else record s { queue = push s.queue v }) vs

  unfoldable pub visit : Frontier → ℕ → Frontier
  unfolding enqueue
  visit s u = enqueue (record s { reached = u ∷ s.reached }) (next u)

  -- The `while queue` loop; `none` says that the fuel ran out.
  unfoldable pub sweep : ℕ → Frontier → Option (List ℕ)
  unfolding visit
  sweep zero s = elim s.queue [ [] ↦ some s.reached | _ ∷ _ ↦ none ]
  sweep (suc fuel) s = elim s.queue [
    | [] ↦ some s.reached
    | u ∷ rest ↦
        let s' = record s { queue = rest } in
        sweep fuel (if contains u s.reached then s' else visit s' u)
  ]

-- The edges out of the nodes that are not in `seen`.
unfoldable pub edges : (ℕ → List ℕ) → List ℕ → List ℕ → ℕ
edges next [] seen = 0
edges next (u ∷ us) seen =
    if contains u seen then edges next us seen else length (next u) + edges next us seen

pub edges-cons-le :
    (next : ℕ → List ℕ) (us : List ℕ) (v : ℕ) (seen : List ℕ)
    → edges next us (v ∷ seen) ≤ edges next us seen
unfolding edges
edges-cons-le next [] v seen = omega arith
edges-cons-le next (u ∷ us) v seen = ground (arith, edges-cons-le next us v seen)

pub edges-cons :
    (next : ℕ → List ℕ) (us : List ℕ) (v : ℕ) (seen : List ℕ)
    → contains v us ≡ true
    → contains v seen ≡ false
    → edges next us (v ∷ seen) + length (next v) ≤ edges next us seen
unfolding edges
edges-cons next [] v seen h k = ground arith
edges-cons next (u ∷ us) v seen h k = elim (Bool-cases (u == v)) [
  | inl e ↦
      let e' : u ≡ v = (==_iff u v).0 e in
      rw e' (ground (arith, edges-cons-le next us v seen, ==_iff v v))
  | inr n ↦ ground (arith, edges-cons next us v seen)
]

module _ (next : ℕ → List ℕ) (push : List ℕ → ℕ → List ℕ) (p : IsPush push) where
  pub enqueue-reached : (s : Frontier) (vs : List ℕ) → (enqueue next push s vs).reached ≡ s.reached
  unfolding enqueue
  enqueue-reached s [] = refl
  enqueue-reached s (v ∷ vs) = elim (Bool-cases (contains v s.reached)) [
    | inl t ↦ ground (arith, enqueue-reached s vs)
    | inr f ↦ ground (arith, enqueue-reached (record s { queue = push s.queue v }) vs)
  ]

  enqueue-queue :
      (s : Frontier) (vs : List ℕ) (x : ℕ)
      → contains x (enqueue next push s vs).queue
        ≡ (contains x s.queue || (contains x vs && not (contains x s.reached)))
  unfolding enqueue
  enqueue-queue s [] x = ground arith
  enqueue-queue s (v ∷ vs) x = elim (Bool-cases (contains v s.reached)) [
    | inl t ↦ ground (arith, enqueue-queue s vs x)
    | inr f ↦
        ground
          (arith, enqueue-queue (record s { queue = push s.queue v }) vs x, p.holds s.queue v x)
  ]

  enqueue-length :
      (s : Frontier) (vs : List ℕ)
      → length (enqueue next push s vs).queue ≤ length s.queue + length vs
  unfolding enqueue
  enqueue-length s [] = omega arith
  enqueue-length s (v ∷ vs) = elim (Bool-cases (contains v s.reached)) [
    | inl t ↦ ground (arith, enqueue-length s vs)
    | inr f ↦
        ground (arith, enqueue-length (record s { queue = push s.queue v }) vs, p.grows s.queue v)
  ]

  module _ (nodes : List ℕ) (known : (v : ℕ) → contains v nodes ≡ false → next v ≡ []) where
    abbrev work : Frontier → ℕ
    work s = edges next nodes s.reached + length s.queue

    visit-work :
        (s : Frontier) (u : ℕ) → contains u s.reached ≡ false → work (visit next push s u) ≤ work s
    unfolding visit
    visit-work s u f =
        let s' = record s { reached = u ∷ s.reached } in
        elim (Bool-cases (contains u nodes)) [
          | inl t ↦
              rw (enqueue-reached s' (next u))
                (omega (arith, enqueue-length s' (next u), edges-cons next nodes u s.reached t f))
          | inr n ↦ rw (enqueue-reached s' (next u)) (
              omega (
                arith,
                enqueue-length s' (next u),
                edges-cons-le next nodes u s.reached,
                ap length (known u n),
              ))
        ]

    -- With as much fuel as nodes in the queue and edges still to be followed, the loop ends.
    pub sweep_ends :
        (fuel : ℕ) (s : Frontier) → work s ≤ fuel → (r : List ℕ) × (sweep next push fuel s ≡ some r)
    unfolding sweep
    sweep_ends zero s h = (s.reached, ground arith)
    sweep_ends (suc fuel) s h = elim (List-cases s.queue) [
      | inl e ↦ (s.reached, ground arith)
      | inr (u, rest, e) ↦
          let s' = record s { queue = rest } in
          elim (Bool-cases (contains u s.reached)) [
            | inl t ↦
                let (r, ends) = sweep_ends fuel s' (omega (arith, ap length e)) in (r, ground arith)
            | inr f ↦
                let (r, ends) =
                  sweep_ends fuel (visit next push s' u)
                    (omega (arith, visit-work s' u f, ap length e)) in
                (r, ground arith)
          ]
    ]

  module _ (seeds : List ℕ) where
    abbrev everywhere : ℕ → Bool
    everywhere _ = true

    record Inv (s : Frontier) : Type 0 where
      sound : (v : ℕ) → contains v s.reached ≡ true → Walk seeds next everywhere v
      waiting : (v : ℕ) → contains v s.queue ≡ true → Walk seeds next everywhere v
      seeded :
          (v : ℕ) → contains v seeds ≡ true → (contains v s.reached || contains v s.queue) ≡ true
      closed :
          (u v : ℕ)
          → contains u s.reached ≡ true
          → contains v (next u) ≡ true
          → (contains v s.reached || contains v s.queue) ≡ true

    Inv-skip :
        (s : Frontier) (u : ℕ) (rest : List ℕ)
        → s.queue ≡ u ∷ rest
        → contains u s.reached ≡ true
        → Inv s
        → Inv (record s { queue = rest })
    Inv-skip s u rest e t h =
        let holds = λ (w : ℕ). ap (contains w) e in
        record {
          sound = h.sound;
          waiting = λ v q. ground (arith, holds v, h.waiting v);
          seeded = λ v q. ground (arith, holds v, h.seeded v, ==_iff u v);
          closed = λ w v m edge. ground (arith, holds v, h.closed w v, ==_iff u v);
        }

    Inv-visit :
        (s : Frontier) (u : ℕ) (rest : List ℕ)
        → s.queue ≡ u ∷ rest
        → contains u s.reached ≡ false
        → Inv s
        → Inv (visit next push (record s { queue = rest }) u)
    unfolding visit
    Inv-visit s u rest e f h =
        let s' : Frontier = record { reached = u ∷ s.reached; queue = rest } in
        let holds = λ (w : ℕ). ap (contains w) e in
        let waits = λ (w : ℕ). enqueue-queue s' (next u) w in
        let flags = λ (w : ℕ). ap (contains w) (enqueue-reached s' (next u)) in
        let here = h.waiting u (ground (arith, holds u, ==_iff u u)) in
        record {
          sound = λ v m. elim (Bool-cases (u == v)) [
            | inl same ↦ subst (Walk seeds next everywhere) ((==_iff u v).0 same) here
            | inr other ↦ h.sound v (ground (arith, flags v))
          ];
          waiting = λ v q. elim (Bool-cases (contains v rest)) [
            | inl old ↦ h.waiting v (ground (arith, holds v))
            | inr new ↦ step u v here (ground (arith, waits v)) refl
          ];
          seeded = λ v q. ground (arith, flags v, waits v, holds v, h.seeded v);
          closed = λ w v m edge.
              ground (arith, flags v, flags w, waits v, holds v, h.closed w v, ==_iff u w);
        }

    loop_rule :
        (fuel : ℕ) (s : Frontier) (r : List ℕ)
        → Inv s
        → sweep next push fuel s ≡ some r
        → (t : Frontier) × Inv t × (t.queue ≡ []) × (t.reached ≡ r)
    unfolding sweep
    loop_rule zero s r h e = elim (List-cases s.queue) [
      | inl k ↦ (s, h, k, ground arith)
      | inr (u, rest, k) ↦ ground arith
    ]
    loop_rule (suc fuel) s r h e = elim (List-cases s.queue) [
      | inl k ↦ (s, h, k, ground arith)
      | inr (u, rest, k) ↦ elim (Bool-cases (contains u s.reached)) [
        | inl t ↦
            loop_rule fuel (record s { queue = rest }) r (Inv-skip s u rest k t h) (ground arith)
        | inr f ↦
            loop_rule fuel (visit next push (record s { queue = rest }) u) r
              (Inv-visit s u rest k f h) (ground arith)
      ]
    ]

    complete :
        (t : Frontier)
        → Inv t
        → t.queue ≡ []
        → (v : ℕ) → Walk seeds next everywhere v
        → contains v t.reached ≡ true
    complete t h empty v (seed _ m) = ground (arith, h.seeded v m, ap (contains v) empty)
    complete t h empty v (step u _ w edge enter) =
        ground (arith, h.closed u v (complete t h empty u w) edge, ap (contains v) empty)

    -- What the loop returns is what walks from the seeds reach.
    pub sweep_correct :
        (fuel : ℕ) (queue r : List ℕ)
        → ((v : ℕ) → contains v queue ≡ contains v seeds)
        → sweep next push fuel (record { reached = []; queue = queue }) ≡ some r
        → (v : ℕ) → ((contains v r ≡ true) ↔ Walk seeds next everywhere v)
    sweep_correct fuel queue r same e v =
        let start : Inv (record { reached = []; queue = queue }) = record {
          sound = λ w q. absurd (ground arith);
          waiting = λ w q. seed w (ground (arith, same w));
          seeded = λ w q. ground (arith, same w);
          closed = λ u w m edge. ground arith;
        } in
        let (t, h, empty, out) = loop_rule fuel _ r start e in
        (
          λ m. h.sound v (subst (λ (l : List ℕ). contains v l ≡ true) (sym out) m),
          λ w. rw (← out) (complete t h empty v w),
        )
