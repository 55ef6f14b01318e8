-- ===== src/Search/Flood/First.antt =====
-- A flood that stops at the first node with a property and answers that node.
use unoc_network_simulator.Prelude.{
  ℕ, zero, suc, ◌+◌, ◌≤◌, ◌≡◌, ap, ◌∙◌, subst, inl, inr, Bool, true, false, Option, none, some,
  List, [], ◌∷◌, arith, ◌==◌, if◌then◌else◌, Bool-cases, List-cases, length, ==_iff, ==_refl,
}
use unoc_network_simulator.Prelude.Sets.{contains}
use unoc_network_simulator.Search.Walks.{Walk, seed, unseen, unseen-cons-lt}
use unoc_network_simulator.Search.Flood.{
  Frontier, IsPush, offer, offers, offers-reached, offers-queue, Inv, Inv-step, complete,
}

module _ (next : ℕ → List ℕ) (ok : ℕ → Bool) (push : List ℕ → ℕ → List ℕ) (hit : ℕ → Bool) where
  -- The `while queue` loop with its `return`; the outer `none` says that the fuel ran out.
  unfoldable pub first : ℕ → Frontier → Option (Option ℕ)
  first zero s = elim s.queue [ [] ↦ some none | _ ∷ _ ↦ none ]
  first (suc fuel) s = elim s.queue [
    | [] ↦ some none
    | u ∷ rest ↦
        if hit u
        then some (some u)
        else first fuel (offers next ok push (record s { queue = rest }) (next u))
  ]

  -- A node that is found is on a walk and has the property; otherwise no node on a walk has it.
  abbrev pub IsFirst : List ℕ → Option ℕ → Type 0
  IsFirst seeds none = (v : ℕ) → Walk seeds next ok v → hit v ≡ false
  IsFirst seeds (some v) = Walk seeds next ok v × (hit v ≡ true)

module _ (next : ℕ → List ℕ) (ok : ℕ → Bool) (push : List ℕ → ℕ → List ℕ) (p : IsPush push)
    (hit : ℕ → Bool) (nodes seeds : List ℕ)
    (known : (u v : ℕ) → contains v (next u) ≡ true → contains v nodes ≡ true) where
  abbrev work : Frontier → ℕ
  work s = unseen nodes s.reached + length s.queue

  offers-work :
      (s : Frontier) (vs : List ℕ)
      → ((v : ℕ) → contains v vs ≡ true → contains v nodes ≡ true)
      → work (offers next ok push s vs) ≤ work s
  unfolding offers offer
  offers-work s [] h = omega arith
  offers-work s (v ∷ vs) h =
      let later = offers-work (offer next ok push s v) vs (λ w m. h w (ground (arith, m))) in
      let here = h v (ground (arith, ==_refl v)) in
      ground (arith, later, here, p.grows s.queue v, unseen-cons-lt nodes v s.reached here)

  -- The nodes that have left the queue do not have the property.
  abbrev IsMissed : Frontier → Type 0
  IsMissed s = (w : ℕ) → contains w s.reached ≡ true → contains w s.queue ≡ false → hit w ≡ false

  IsMissed-step :
      (s : Frontier) (u : ℕ) (rest : List ℕ)
      → s.queue ≡ u ∷ rest
      → hit u ≡ false
      → IsMissed s
      → IsMissed (offers next ok push (record s { queue = rest }) (next u))
  IsMissed-step s u rest e bad h w m out =
      let s' = record s { queue = rest } in
      let flag = offers-reached next ok push p s' (next u) w in
      let wait = offers-queue next ok push p s' (next u) w in
      elim (Bool-cases (u == w)) [
        | inl same ↦ subst (λ (y : ℕ). hit y ≡ false) ((==_iff u w).0 same) bad
        | inr other ↦
            h w (ground (arith, flag, wait)) (ap (contains w) e ∙ ground (arith, flag, wait, other))
      ]

  -- With as much fuel as nodes that are unseen or queued, the loop ends, and answers a first node.
  pub first_ends :
      (fuel : ℕ) (s : Frontier)
      → work s ≤ fuel
      → Inv next ok push p seeds s
      → IsMissed s
      → (r : Option ℕ) × (first next ok push hit fuel s ≡ some r) × IsFirst next ok push hit seeds r
  unfolding first
  first_ends zero s enough h missed = elim (List-cases s.queue) [
    | inl e ↦ (
      none,
      ground (arith, e),
      λ v w. missed v (complete next ok push p seeds s h e v w) (ap (contains v) e),
    )
    | inr (u, rest, e) ↦ absurd (omega (arith, enough, ap length e))
  ]
  first_ends (suc fuel) s enough h missed = elim (List-cases s.queue) [
    | inl e ↦ (
      none,
      ground (arith, e),
      λ v w. missed v (complete next ok push p seeds s h e v w) (ap (contains v) e),
    )
    | inr (u, rest, e) ↦ elim (Bool-cases (hit u)) [
      | inl good ↦ (
        some u,
        ground (arith, e, good),
        (h.sound u (h.queued u (ap (contains u) e ∙ ground (arith, ==_refl u))), good),
      )
      | inr bad ↦
          let s' : Frontier = record s { queue = rest } in
          let (r, ends, is) =
            first_ends fuel (offers next ok push s' (next u))
              (omega (arith, enough, offers-work s' (next u) (known u), ap length e))
              (Inv-step next ok push p seeds s u rest e h) (IsMissed-step s u rest e bad missed) in
          (r, rw (e, bad, first) ends, is)
    ]
  ]

  -- The same for a search that starts with its seeds in the queue.
  pub first_correct :
      (fuel : ℕ) (queue : List ℕ)
      → ((v : ℕ) → contains v queue ≡ contains v seeds)
      → unseen nodes seeds + length queue ≤ fuel
      → (r : Option ℕ) × (first next ok push hit fuel (record { reached = seeds; queue = queue })
          ≡ some r)
        × IsFirst next ok push hit seeds r
  first_correct fuel queue same enough =
      let start : Inv next ok push p seeds (record { reached = seeds; queue = queue }) = record {
        queued = λ w q. ground (arith, same w);
        seeded = λ w q. q;
        sound = λ w q. seed w q;
        closed = λ u w m out edge enter. absurd (ground (arith, same u));
      } in
      first_ends fuel (record { reached = seeds; queue = queue }) enough start
        (λ w m out. absurd (ground (arith, same w)))
