-- ===== src/Samples/TrafficTests.antt =====
-- Congestion over two ticks, and triggers of the coalescer.
use unoc_network_simulator.Prelude.{◌≤◌, ℕ, suc, ◌+◌, ◌≡◌, refl, true, some, List, [], ◌∷◌}
use unoc_network_simulator.Prelude.Sets.{contains}
use unoc_network_simulator.Traffic.{Load, Thresholds, handle_device_congestion}
use unoc_network_simulator.Traffic.Hysteresis.{
  handle_device_congestion-contains, handle_device_congestion-steady,
}
use unoc_network_simulator.Traffic.Alternation.{
  run_ticks, count_detected, count_cleared, one, run_ticks_balance,
}
use unoc_network_simulator.Coalescer.{Config, Steps, more, here, schedules, schedule, initial}
use unoc_network_simulator.Coalescer.Bursts.{Trigger, burst, burst_one_timer}
use unoc_network_simulator.Coalescer.Wakeup.{
  IsCovered, reachable-IsCovered, has_key, Turns, IsQuiet, turns_left, key_is_taken,
}

abbrev thresholds : Thresholds
thresholds = record { detect = 1_000; clear = 950 }

abbrev load : ℕ → ℕ → Load
load i u = record { id = i; bps = 100; utilization = u }

handle_device_congestion-contains_test :
    contains 7 (handle_device_congestion [] (load 7 1_200 ∷ []) thresholds 1).0 ≡ true
handle_device_congestion-contains_test =
    handle_device_congestion-contains thresholds [] (load 7 1_200 ∷ []) 1 7

handle_device_congestion-steady_test :
    contains 7 (handle_device_congestion (7 ∷ []) (load 7 970 ∷ []) thresholds 2).0 ≡ true
handle_device_congestion-steady_test =
    handle_device_congestion-steady thresholds (7 ∷ []) (load 7 970 ∷ []) 2 7 refl refl

abbrev ticks : List (List Load)
ticks = (load 7 1_200 ∷ []) ∷ (load 7 100 ∷ []) ∷ []

run_ticks_balance_example :
    count_detected 7 (run_ticks thresholds [] ticks 1).1 + 0
    ≡ count_cleared 7 (run_ticks thresholds [] ticks 1).1
      + one (contains 7 (run_ticks thresholds [] ticks 1).0)
run_ticks_balance_example =
    run_ticks_balance thresholds [] ticks 1 7 tt ((refl, tt), ((refl, tt), tt))

abbrev trigger : Trigger
trigger = (some 1, some 52)

burst_one_timer_test :
    ((burst (trigger ∷ trigger ∷ []) (initial true)).waiting ≡ suc 0)
    × ((burst (trigger ∷ trigger ∷ []) (initial true)).coalesced ≡ 0 + 1)
    × ((burst (trigger ∷ trigger ∷ []) (initial true)).scheduled ≡ 0 + 2)
burst_one_timer_test = burst_one_timer trigger (trigger ∷ []) (initial true) refl

abbrev triggered : Config
triggered = schedule (some 1) (some 52) (initial true)

runs : Steps (initial true) triggered
runs =
    more (initial true) triggered triggered (schedules (some 1) (some 52) (initial true))
      (here triggered)

reachable-IsCovered_test : IsCovered triggered
reachable-IsCovered_test = reachable-IsCovered true triggered runs

has_52 : contains 52 triggered.pending_keys ≡ true
unfolding schedule
has_52 = refl

key_is_taken_example :
    ((n : ℕ) × (c : Config) × Turns n triggered c × IsQuiet c)
    × ((n : ℕ) (c : Config)
        → Turns n triggered c
        → (n ≤ turns_left triggered) × (IsQuiet c → has_key 52 c.jobs ≡ true))
key_is_taken_example = key_is_taken triggered 52 runs has_52
