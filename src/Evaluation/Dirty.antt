-- ===== src/Evaluation/Dirty.antt =====
-- `recompute_devices_status` of backend/services/status_recompute.py as a whole, and `recompute_dirty` of
-- backend/services/status_service.py, which calls it.
use unoc_network_simulator.Prelude.{ℕ, Bool, false, Option, none, some, List, [], ◌∷◌, then_get}
use unoc_network_simulator.Prelude.Sets.{sorted}
use unoc_network_simulator.Model.{Device, DeviceRole, active, passive, always_online, derive_role}
use unoc_network_simulator.Model.Tables.{Tables, get_device, device_ids}
use unoc_network_simulator.Propagation.{reachable, affected}
use unoc_network_simulator.Evaluation.Defs.{Resolvers, Cache, evaluate_device_status}
use unoc_network_simulator.Evaluation.Recompute.{Baseline, Recomputed, recompute_devices}
use unoc_network_simulator.Evaluation.Snapshot.{Snapshot, set_snapshot}

abbrev pub cons_some : Option Device → List Device → List Device
cons_some none ds = ds
cons_some (some d) ds = d ∷ ds

-- `session.get(Device, id)` for each of the ids, without those that are no row.
abbrev pub rows_of : List Device → List ℕ → List Device
rows_of rows [] = []
rows_of rows (i ∷ is) = cons_some (get_device rows i) (rows_of rows is)

abbrev pub chosen : Tables → Option (List ℕ) → List Device
chosen t none = t.devices
chosen t (some is) = rows_of t.devices is

-- A recompute leaves a snapshot, and reports on the devices that it was asked for. The Go service's
-- answer, where there is one, comes first; `none` says that the flood ran out of fuel.
unfoldable pub recompute_devices_status :
    Resolvers
    → Option (List ℕ)
    → ℕ
    → Tables
    → Option (List ℕ)
    → Baseline
    → Option ℕ
    → Option (Snapshot × Recomputed)
recompute_devices_status res go max_km t is b v = then_get (reachable go max_km t) (λ r. some (
  set_snapshot r (some (device_ids t.devices)),
  recompute_devices res t.devices b v (chosen t is),
))

abbrev pub or_false : Option Bool → Bool
or_false none = false
or_false (some b) = b

abbrev pub cache_row : Resolvers → Device → DeviceRole → Cache → Cache
cache_row res d active c = (d.id, or_false (res.has_upstream_l3_or_anchor d)) ∷ c
cache_row res d passive c = c
cache_row res d always_online c = c

-- `upstream_cache`, of the active rows.
unfoldable pub upstream_cache : Resolvers → List Device → Cache
upstream_cache res [] = []
upstream_cache res (d ∷ ds) = cache_row res d (derive_role d.type) (upstream_cache res ds)

-- The evaluation of each row, with a cache.
unfoldable pub evaluated : Resolvers → Cache → List Device → Baseline
evaluated res c [] = []
evaluated res c (d ∷ ds) = (d.id, evaluate_device_status res (some c) d) ∷ evaluated res c ds

-- The baseline that `recompute_dirty` builds itself.
unfoldable pub baseline_of : Resolvers → Tables → List ℕ → Baseline
baseline_of res t is = let ds = rows_of t.devices is in evaluated res (upstream_cache res ds) ds

abbrev pub or_none : Option Baseline → Baseline
or_none none = []
or_none (some b) = b

abbrev pub or_own : Option Baseline → Baseline → Baseline
or_own none b = b
or_own (some given) b = given

unfoldable pub recompute_dirty :
    Resolvers
    → Option (List ℕ)
    → ℕ
    → Tables
    → Bool
    → List ℕ
    → List ℕ
    → Option Baseline
    → Option ℕ
    → Option (Snapshot × Recomputed)
recompute_dirty res go max_km t incremental dirty_devices dirty_links given v =
    elim (affected max_km t incremental dirty_devices dirty_links) [
      | none ↦ recompute_devices_status res go max_km t none (or_none given) v
      | some found ↦ then_get found (λ visited.
          let is = sorted visited in
          recompute_devices_status res go max_km t (some is) (or_own given (baseline_of res t is))
            v)
    ]
