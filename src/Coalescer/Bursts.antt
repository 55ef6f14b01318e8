-- ===== src/Coalescer/Bursts.antt =====
-- What a run of `schedule` calls does to the timer and the counters.
use unoc_network_simulator.Prelude.{
  ℕ, suc, ◌+◌, ◌≡◌, refl, true, false, Option, List, [], ◌∷◌, arith, length,
}
use unoc_network_simulator.Coalescer.Defs.{Config, schedule}

-- A scope and a key.
abbrev pub Trigger : Type 0
Trigger = Option ℕ × Option ℕ

abbrev pub burst : List Trigger → Config → Config
burst [] c = c
burst ((scope, key) ∷ rest) c = burst rest (schedule scope key c)

burst_on :
    (rs : List Trigger) (c : Config)
    → c.has_timer ≡ true
    → ((burst rs c).waiting ≡ c.waiting)
      × ((burst rs c).coalesced ≡ c.coalesced + length rs)
      × ((burst rs c).scheduled ≡ c.scheduled + length rs)
unfolding schedule
burst_on [] c on = (refl, omega arith, omega arith)
burst_on ((scope, key) ∷ rs) c on =
    let (w, k, s) = burst_on rs (schedule scope key c) refl in
    (ground (arith, w, on), ground (arith, k, on), ground (arith, s))

-- Without a timer a burst of triggers starts exactly one, and all triggers but the first are counted
-- as coalesced.
pub burst_one_timer :
    (r : Trigger) (rs : List Trigger) (c : Config)
    → c.has_timer ≡ false
    → ((burst (r ∷ rs) c).waiting ≡ suc c.waiting)
      × ((burst (r ∷ rs) c).coalesced ≡ c.coalesced + length rs)
      × ((burst (r ∷ rs) c).scheduled ≡ c.scheduled + suc (length rs))
unfolding schedule
burst_one_timer (scope, key) rs c off =
    let (w, k, s) = burst_on rs (schedule scope key c) refl in
    (ground (arith, w, off), ground (arith, k, off), ground (arith, s))
