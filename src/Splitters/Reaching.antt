-- ===== src/Splitters/Reaching.antt =====
-- `find_out_interface_reaching`: the first OUT port from which an interface can be come to.
use unoc_network_simulator.Prelude.{
  ℕ, zero, suc, ◌≡◌, refl, ap, sym, ◌∙◌, subst, ◌↔◌, ◌⊎◌, inl, inr, Bool, true, false, Option, none,
  some, List, [], ◌∷◌, arith, ◌==◌, Bool-cases, List-cases, ==_iff, ==_refl,
}
use unoc_network_simulator.Prelude.Sets.{contains}
use unoc_network_simulator.Model.{Device, Interface}
use unoc_network_simulator.Model.Tables.{Tables}
use unoc_network_simulator.Search.Walks.{Walk}
use unoc_network_simulator.Search.Flood.{Frontier}
use unoc_network_simulator.Search.Sweep.{visit, enqueue-reached}
use unoc_network_simulator.Search.Sweep.Seek.{seek, seek_iff}
use unoc_network_simulator.Search.Queues.{push_back, push_back-IsPush}
use unoc_network_simulator.Splitters.Defs.{
  PortNames, is_splitter, counterparts, ends, begin_at, fuel_of, reaches, reaches_from,
  first_reaching, out_ifaces, find_out_interface_reaching,
}
use unoc_network_simulator.Splitters.Behind.{counterparts_none}

module _ (next : ℕ → List ℕ) (goal : ℕ) where
  abbrev at_goal : List ℕ → ℕ → Bool
  at_goal checked u = u == goal

  visit-reached : (s : Frontier) (u : ℕ) → (visit next push_back s u).reached ≡ u ∷ s.reached
  unfolding visit
  visit-reached s u =
      enqueue-reached next push_back push_back-IsPush (record s { reached = u ∷ s.reached })
        (next u)

  -- The goal is not among the visited, so it does not matter which test comes first.
  reaches-seek :
      (fuel : ℕ) (s : Frontier)
      → contains goal s.reached ≡ false
      → reaches next goal fuel s ≡ seek next push_back at_goal fuel s
  unfolding reaches seek
  reaches-seek zero s h = refl
  reaches-seek (suc fuel) s h = elim (List-cases s.queue) [
    | inl e ↦ rw e refl
    | inr (u, rest, e) ↦
        let s' : Frontier = record { reached = s.reached; queue = rest } in
        elim (Bool-cases (u == goal)) [
          | inl here ↦
              let new : contains u s.reached ≡ false =
                subst (λ (x : ℕ). contains x s.reached ≡ false) (sym ((==_iff u goal).0 here)) h in
              rw (e, here, new, reaches, seek) refl
          | inr other ↦ elim (Bool-cases (contains u s.reached)) [
            | inl old ↦ rw (e, other, old, reaches, seek) (reaches-seek fuel s' h)
            | inr new ↦
                rw (e, other, new, reaches, seek)
                  (reaches-seek fuel (visit next push_back s' u)
                    (ap (contains goal) (visit-reached s' u) ∙ ground (arith, other, h)))
          ]
        ]
  ]

-- The interfaces that can be come to from a port over links.
abbrev pub Linked : Tables → ℕ → ℕ → Type 0
Linked t i v = Walk (i ∷ []) (counterparts t.links) (λ _. true) v

pub reaches_from_iff :
    (t : Tables) (goal i : ℕ)
    → (b : Bool) × (reaches_from t goal i ≡ some b) × ((b ≡ true) ↔ Linked t i goal)
reaches_from_iff t goal i =
    let next = counterparts t.links in
    let (b, ends_, iff) =
      seek_iff next push_back push_back-IsPush (i ∷ []) (at_goal next goal) (λ u. u == goal)
        (λ checked u walk missed. refl) (ends t.links) (counterparts_none t.links) (fuel_of t next)
        (i ∷ []) (λ v. refl) (omega arith) in
    (
      b,
      reaches-seek next goal (fuel_of t next) (begin_at i) refl ∙ ends_,
      (
        λ h. let (v, walk, e) = iff.0 h in subst (Linked t i) ((==_iff v goal).0 e) walk,
        λ walk. iff.1 (goal, walk, ==_refl goal),
      ),
    )

-- The answer is the first of the ports from which the interface can be come to, or nothing if there
-- is none.
abbrev pub IsFirstReaching : Tables → ℕ → List Interface → Option Interface → Type 0
IsFirstReaching t goal [] r = r ≡ none
IsFirstReaching t goal (i ∷ is) r =
    ((r ≡ some i) × Linked t i.id goal) ⊎ (¬ Linked t i.id goal × IsFirstReaching t goal is r)

first_reaching_correct :
    (t : Tables) (goal : ℕ) (is : List Interface)
    → (r : Option Interface) × (first_reaching t goal is ≡ some r) × IsFirstReaching t goal is r
first_reaching_correct t goal [] = (none, refl, refl)
first_reaching_correct t goal (i ∷ is) =
    let (b, ends_, iff) = reaches_from_iff t goal i.id in
    let (r, rest, later) = first_reaching_correct t goal is in
    elim (Bool-cases b) [
      | inl yes_it_is ↦
          (some i, rw (ends_, first_reaching) (rw yes_it_is refl), inl (refl, iff.0 yes_it_is))
      | inr not_it ↦ (
        r,
        rw (ends_, first_reaching) (rw not_it rest),
        inr (λ walk. absurd (ground (arith, not_it, iff.1 walk)), later),
      )
    ]

-- Asked for a splitter, `find_out_interface_reaching` always answers: with the first OUT port from
-- which the target interface can be come to over links, or with nothing if there is no such port.
pub find_out_interface_reaching_correct :
    (names : PortNames) (t : Tables) (d : Device) (goal : ℕ)
    → is_splitter d.type ≡ true
    → (r : Option Interface) × (find_out_interface_reaching names t d goal ≡ some r)
      × IsFirstReaching t goal (out_ifaces names t d.id) r
unfolding find_out_interface_reaching
find_out_interface_reaching_correct names t d goal is_one =
    let (r, ends_, is) = first_reaching_correct t goal (out_ifaces names t d.id) in
    (r, rw is_one ends_, is)
