-- ===== src/Coalescer/Plans.antt =====
-- What a consolidated recompute covers.
use unoc_network_simulator.Prelude.{ℕ, Bool, ◌||◌, List, [], ◌++◌, is_some}
use unoc_network_simulator.Model.Tables.{Tables, get_device, get_link}
use unoc_network_simulator.Coalescer.Defs.{Plan, incremental, full}

-- The seeds of a partial recompute.
abbrev pub seeds : Plan → List ℕ
seeds (incremental ds ls) = ds ++ ls
seeds full = []

abbrev pub is_row : Tables → ℕ → Bool
is_row t k = is_some (get_device t.devices k) || is_some (get_link t.links k)
