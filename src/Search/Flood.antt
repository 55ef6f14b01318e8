-- ===== src/Search/Flood.antt =====
-- A search that marks a node when it is queued (`visited.add(nb); queue.append(nb)`).
-- The same with an early exit.
pub mod First
pub mod Paths
use unoc_network_simulator.Prelude.{
  ℕ, zero, suc, ◌+◌, ◌≤◌, ◌≡◌, ap, sym, subst, ◌↔◌, inl, inr, Bool, true, false, not, ◌&&◌, ◌||◌,
  Option, none, some, List, [], ◌∷◌, arith, ◌==◌, if◌then◌else◌, Bool-cases, List-cases, length,
  ==_iff,
}
use unoc_network_simulator.Prelude.Sets.{contains}
use unoc_network_simulator.Search.Walks.{Walk, seed, step, unseen, unseen-cons-lt}

pub record Frontier : Type 0 where
  pub reached : List ℕ
  pub queue : List ℕ

-- Putting a node into the queue adds that node, wherever it goes.
pub record IsPush (push : List ℕ → ℕ → List ℕ) : Type 0 where
  pub holds : (q : List ℕ) (v x : ℕ) → contains x (push q v) ≡ (v == x || contains x q)
  pub grows : (q : List ℕ) (v : ℕ) → length (push q v) ≡ suc (length q)

module _ (next : ℕ → List ℕ) (ok : ℕ → Bool) (push : List ℕ → ℕ → List ℕ) where
  -- One neighbour.
  pub offer : Frontier → ℕ → Frontier
  offer s v =
      if contains v s.reached
      then s
      else if ok v
      then record { reached = v ∷ s.reached; queue = push s.queue v }
      else s

  -- The `for` loop over the neighbours.
  pub offers : Frontier → List ℕ → Frontier
  offers s [] = s
  offers s (v ∷ vs) = offers (offer s v) vs

  -- The `while queue` loop; `none` says that the fuel ran out.
  unfoldable pub flood : ℕ → Frontier → Option (List ℕ)
  unfolding offers offer
  flood zero s = elim s.queue [ [] ↦ some s.reached | _ ∷ _ ↦ none ]
  flood (suc fuel) s = elim s.queue [
    | [] ↦ some s.reached
    | u ∷ rest ↦ flood fuel (offers (record s { queue = rest }) (next u))
  ]

module _ (next : ℕ → List ℕ) (ok : ℕ → Bool) (push : List ℕ → ℕ → List ℕ) (p : IsPush push) where
  offers-reached :
      (s : Frontier) (vs : List ℕ) (x : ℕ)
      → contains x (offers next ok push s vs).reached
        ≡ (contains x s.reached || (contains x vs && ok x))
  unfolding offers offer
  offers-reached s [] x = ground arith
  offers-reached s (v ∷ vs) x = ground (arith, offers-reached (offer next ok push s v) vs x)

  offers-queue :
      (s : Frontier) (vs : List ℕ) (x : ℕ)
      → contains x (offers next ok push s vs).queue
        ≡ (contains x s.queue || (contains x vs && (ok x && not (contains x s.reached))))
  unfolding offers offer
  offers-queue s [] x = ground arith
  offers-queue s (v ∷ vs) x =
      ground (arith, offers-queue (offer next ok push s v) vs x, p.holds s.queue v x)

  module _ (nodes : List ℕ) (known : (v : ℕ) → ok v ≡ true → contains v nodes ≡ true) where
    abbrev work : Frontier → ℕ
    work s = unseen nodes s.reached + length s.queue

    offers-work : (s : Frontier) (vs : List ℕ) → work (offers next ok push s vs) ≤ work s
    unfolding offers offer
    offers-work s [] = omega arith
    offers-work s (v ∷ vs) = ground (
      arith,
      offers-work (offer next ok push s v) vs,
      p.grows s.queue v,
      known v,
      unseen-cons-lt nodes v s.reached,
    )

    -- With as much fuel as nodes that are unseen or queued, the loop ends.
    pub flood_ends :
        (fuel : ℕ) (s : Frontier)
        → work s ≤ fuel
        → (r : List ℕ) × (flood next ok push fuel s ≡ some r)
    unfolding flood
    flood_ends zero s h = (s.reached, ground arith)
    flood_ends (suc fuel) s h = elim (List-cases s.queue) [
      | inl e ↦ (s.reached, ground arith)
      | inr (u, rest, e) ↦
          let s' = record s { queue = rest } in
          let (r, ends) =
            flood_ends fuel (offers next ok push s' (next u))
              (omega (arith, offers-work s' (next u), ap length e)) in
          (r, ground arith)
    ]

  module _ (seeds : List ℕ) where
    record Inv (s : Frontier) : Type 0 where
      queued : (v : ℕ) → contains v s.queue ≡ true → contains v s.reached ≡ true
      seeded : (v : ℕ) → contains v seeds ≡ true → contains v s.reached ≡ true
      sound : (v : ℕ) → contains v s.reached ≡ true → Walk seeds next ok v
      closed :
          (u v : ℕ)
          → contains u s.reached ≡ true
          → contains u s.queue ≡ false
          → contains v (next u) ≡ true
          → ok v ≡ true
          → contains v s.reached ≡ true

    Inv-step :
        (s : Frontier) (u : ℕ) (rest : List ℕ)
        → s.queue ≡ u ∷ rest
        → Inv s
        → Inv (offers next ok push (record s { queue = rest }) (next u))
    Inv-step s u rest e h =
        let s' = record s { queue = rest } in
        let flags = λ (w : ℕ). offers-reached s' (next u) w in
        let waits = λ (w : ℕ). offers-queue s' (next u) w in
        let holds = λ (w : ℕ). ap (contains w) e in
        record {
          queued = λ v q. ground (arith, flags v, waits v, holds v, h.queued v);
          seeded = λ v q. ground (arith, flags v, h.seeded v);
          sound = λ v m. elim (Bool-cases (contains v s.reached)) [
            | inl old ↦ h.sound v old
            | inr new ↦
                step u v (h.sound u (h.queued u (ground (arith, holds u, ==_iff u u))))
                  (ground (arith, flags v)) (ground (arith, flags v))
          ];
          closed = λ w v m out edge enter.
              ground (arith, flags v, flags w, waits w, holds w, h.closed w v, ==_iff u w);
        }

    loop_rule :
        (fuel : ℕ) (s : Frontier) (r : List ℕ)
        → Inv s
        → flood next ok push fuel s ≡ some r
        → (t : Frontier) × Inv t × (t.queue ≡ []) × (t.reached ≡ r)
    unfolding flood
    loop_rule zero s r h e = elim (List-cases s.queue) [
      | inl k ↦ (s, h, k, ground arith)
      | inr (u, rest, k) ↦ ground arith
    ]
    loop_rule (suc fuel) s r h e = elim (List-cases s.queue) [
      | inl k ↦ (s, h, k, ground arith)
      | inr (u, rest, k) ↦
          loop_rule fuel (offers next ok push (record s { queue = rest }) (next u)) r
            (Inv-step s u rest k h) (rw (k, flood) at e)
    ]

    complete :
        (t : Frontier)
        → Inv t
        → t.queue ≡ []
        → (v : ℕ) → Walk seeds next ok v
        → contains v t.reached ≡ true
    complete t h empty v (seed _ m) = h.seeded v m
    complete t h empty v (step u _ w edge enter) =
        h.closed u v (complete t h empty u w) (ap (contains u) empty) edge enter

    -- What the loop returns from the seeds is what walks from the seeds reach.
    pub flood_correct :
        (fuel : ℕ) (queue r : List ℕ)
        → ((v : ℕ) → contains v queue ≡ contains v seeds)
        → flood next ok push fuel (record { reached = seeds; queue = queue }) ≡ some r
        → (v : ℕ) → ((contains v r ≡ true) ↔ Walk seeds next ok v)
    flood_correct fuel queue r same e v =
        let start : Inv (record { reached = seeds; queue = queue }) = record {
          queued = λ w q. ground (arith, same w);
          seeded = λ w q. q;
          sound = λ w q. seed w q;
          closed = λ u w m out edge enter. ground (arith, same u);
        } in
        let (t, h, empty, out) = loop_rule fuel _ r start e in
        (
          λ m. h.sound v (subst (λ (l : List ℕ). contains v l ≡ true) (sym out) m),
          λ w. rw (← out) (complete t h empty v w),
        )
