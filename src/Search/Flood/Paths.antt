-- ===== src/Search/Flood/Paths.antt =====
-- A flood whose queue holds each node with the path that leads to it, and that stops at a goal.
use unoc_network_simulator.Prelude.{
  ℕ, zero, suc, ◌+◌, ◌≤◌, ◌≡◌, refl, ap, ◌∙◌, subst, inl, inr, Bool, true, false, Option, none,
  some, List, [], ◌∷◌, ◌++◌, arith, ◌==◌, if◌then◌else◌, Bool-cases, List-cases, either_way, ==_iff,
  ==_refl,
}
use unoc_network_simulator.Prelude.Sets.{contains}
use unoc_network_simulator.Prelude.Sorting.{Every, Every-append}
use unoc_network_simulator.Search.Walks.{Walk, Route, here, Route-extend, unseen}
use unoc_network_simulator.Search.Flood.{Frontier, offer, offers}
use unoc_network_simulator.Search.Flood.First.{first, IsFirst, first_correct}
use unoc_network_simulator.Search.Queues.{push_back, push_back-IsPush}

pub record Hop : Type 0 where
  pub node : ℕ
  pub path : List ℕ

pub record Trails : Type 0 where
  pub seen : List ℕ
  pub queue : List Hop

-- The `for` loop over the neighbours of the end of a path.
abbrev pub extend : List ℕ → List ℕ → Trails → Trails
extend path [] s = s
extend path (nb ∷ nbs) s = extend path nbs (
    if contains nb s.seen then s else record {
      seen = nb ∷ s.seen;
      queue = s.queue ++ record { node = nb; path = path ++ nb ∷ [] } ∷ [];
    })

module _ (next : ℕ → List ℕ) (goal : ℕ) where
  -- The `while` loop with its `return`; the outer `none` says that the fuel ran out.
  unfoldable pub trail : ℕ → Trails → Option (Option (List ℕ))
  trail zero s = elim s.queue [ [] ↦ some none | _ ∷ _ ↦ none ]
  trail (suc fuel) s = elim s.queue [
    | [] ↦ some none
    | h ∷ rest ↦
        if h.node == goal
        then some (some h.path)
        else trail fuel (extend h.path (next h.node) (record s { queue = rest }))
  ]

abbrev nodes_of : List Hop → List ℕ
nodes_of [] = []
nodes_of (h ∷ hs) = h.node ∷ nodes_of hs

abbrev frontier : Trails → Frontier
frontier s = record { reached = s.seen; queue = nodes_of s.queue }

nodes_of-append : (xs : List Hop) (h : Hop) → nodes_of (xs ++ h ∷ []) ≡ nodes_of xs ++ h.node ∷ []
nodes_of-append [] h = refl
nodes_of-append (x ∷ xs) h = ap (x.node ∷◌) (nodes_of-append xs h)

abbrev everywhere : ℕ → Bool
everywhere _ = true

-- One neighbour.
abbrev turn : List ℕ → ℕ → Trails → Trails
turn path nb s = if contains nb s.seen then s else record {
  seen = nb ∷ s.seen;
  queue = s.queue ++ record { node = nb; path = path ++ nb ∷ [] } ∷ [];
}

frontier-turn :
    (next : ℕ → List ℕ) (path : List ℕ) (nb : ℕ) (s : Trails)
    → frontier (turn path nb s) ≡ offer next everywhere push_back (frontier s) nb
unfolding offer
frontier-turn next path nb s = elim (Bool-cases (contains nb s.seen)) [
  | inl t ↦ ap frontier (pick_then t) ∙ rw t refl
  | inr f ↦
      let hop : Hop = record { node = nb; path = path ++ nb ∷ [] } in
      ap frontier (pick_else f)
      ∙ (ap (λ (q : List ℕ). record { reached = nb ∷ s.seen; queue = q })
            (nodes_of-append s.queue hop)
          ∙ rw f refl)
]
  where
    pick_then : contains nb s.seen ≡ true → turn path nb s ≡ s
    pick_then t = rw t refl

    pick_else :
        contains nb s.seen ≡ false
        → turn path nb s ≡ record {
          seen = nb ∷ s.seen;
          queue = s.queue ++ record { node = nb; path = path ++ nb ∷ [] } ∷ [];
        }
    pick_else f = rw f refl

-- Without the paths, the loop is that of a flood.
frontier-extend :
    (next : ℕ → List ℕ) (path nbs : List ℕ) (s : Trails)
    → frontier (extend path nbs s) ≡ offers next everywhere push_back (frontier s) nbs
unfolding offers
frontier-extend next path [] s = refl
frontier-extend next path (nb ∷ nbs) s =
    frontier-extend next path nbs (turn path nb s)
    ∙ ap (λ (u : Frontier). offers next everywhere push_back u nbs) (frontier-turn next path nb s)

module _ (next : ℕ → List ℕ) (goal src : ℕ) where
  -- Each path in the queue leads from the source to its node.
  abbrev IsTrail : Hop → Type 0
  IsTrail h = Route next src h.path h.node

  extend_trails :
      (u : ℕ) (path nbs : List ℕ) (s : Trails)
      → Route next src path u
      → ((v : ℕ) → contains v nbs ≡ true → contains v (next u) ≡ true)
      → Every IsTrail s.queue
      → Every IsTrail (extend path nbs s).queue
  extend_trails u path [] s r edge h = h
  extend_trails u path (nb ∷ nbs) s r edge h =
      let hop : Hop = record { node = nb; path = path ++ nb ∷ [] } in
      let new = Route-extend next src u nb path r (edge nb (ground (arith, ==_refl nb))) in
      extend_trails u path nbs (turn path nb s) r (λ v m. edge v (ground (arith, m)))
        (either_way (λ (x : Trails). Every IsTrail x.queue) (contains nb s.seen) _ _ h
          (Every-append IsTrail s.queue (hop ∷ []) h (new, tt)))

  -- A path that is answered leads to the goal; nothing is answered where the flood finds nothing.
  abbrev Agrees : Option (Option ℕ) → Option (Option (List ℕ)) → Type 0
  Agrees none o = o ≡ none
  Agrees (some none) o = o ≡ some none
  Agrees (some (some v)) o = (p : List ℕ) × (o ≡ some (some p)) × Route next src p goal

  trail-Agrees :
      (fuel : ℕ) (s : Trails)
      → Every IsTrail s.queue
      → Agrees
          (first next everywhere push_back (λ u. u == goal) fuel (frontier s))
          (trail next goal fuel s)
  unfolding first trail
  trail-Agrees zero s h = elim (List-cases s.queue) [
    | inl e ↦ rw e refl
    | inr (x, rest, e) ↦ rw e refl
  ]
  trail-Agrees (suc fuel) s h = elim (List-cases s.queue) [
    | inl e ↦ rw e refl
    | inr (x, rest, e) ↦
        let (route, later) = subst (Every IsTrail) e h in
        elim (Bool-cases (x.node == goal)) [
          | inl t ↦
              rw (e, t)
                (
                  x.path,
                  refl,
                  subst (λ (y : ℕ). Route next src x.path y) ((==_iff x.node goal).0 t) route,
                )
          | inr f ↦
              let s' : Trails = record s { queue = rest } in
              let t' = extend x.path (next x.node) s' in
              let ih =
                trail-Agrees fuel t'
                  (extend_trails x.node x.path (next x.node) s' route (λ v m. m) later) in
              rw (e, f, first, trail)
                (subst
                  (λ (u : Frontier).
                    Agrees (first next everywhere push_back (λ y. y == goal) fuel u)
                      (trail next goal fuel t'))
                  (frontier-extend next x.path (next x.node) s') ih)
        ]
  ]

  -- A path leads to the goal, or no walk does.
  abbrev pub IsTrailTo : Option (List ℕ) → Type 0
  IsTrailTo none = Walk (src ∷ []) next everywhere goal → ⊥
  IsTrailTo (some p) = Route next src p goal

  abbrev pub start_trails : Trails
  start_trails = record { seen = src ∷ []; queue = record { node = src; path = src ∷ [] } ∷ [] }

  -- With enough fuel the loop ends, with a path to the goal, or with nothing if no walk leads there.
  pub trail_correct :
      (nodes : List ℕ)
      → ((u v : ℕ) → contains v (next u) ≡ true → contains v nodes ≡ true)
      → (fuel : ℕ) → unseen nodes (src ∷ []) + 1 ≤ fuel
      → (r : Option (List ℕ)) × (trail next goal fuel start_trails ≡ some r) × IsTrailTo r
  trail_correct nodes known fuel enough =
      let (r, ends, is) =
        first_correct next everywhere push_back push_back-IsPush (λ u. u == goal) nodes (src ∷ [])
          known fuel (src ∷ []) (λ v. refl) enough in
      at_first r ends is (trail-Agrees fuel start_trails (here src, tt))
    where
      at_first :
          (r : Option ℕ)
          → first next everywhere push_back (λ u. u == goal) fuel (frontier start_trails) ≡ some r
          → IsFirst next everywhere push_back (λ u. u == goal) (src ∷ []) r
          → Agrees
              (first next everywhere push_back (λ u. u == goal) fuel (frontier start_trails))
              (trail next goal fuel start_trails)
          → (o : Option (List ℕ)) × (trail next goal fuel start_trails ≡ some o) × IsTrailTo o
      at_first none ends is agrees =
          let answer = subst (λ o. Agrees o (trail next goal fuel start_trails)) ends agrees in
          (none, answer, λ walk. absurd (ground (arith, is goal walk, ==_refl goal)))
      at_first (some v) ends is agrees =
          let (p, answer, route) =
            subst (λ o. Agrees o (trail next goal fuel start_trails)) ends agrees in
          (some p, answer, route)
