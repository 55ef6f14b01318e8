-- ===== src/Evaluation/Recompute.antt =====
-- The end of `recompute_devices_status` of backend/services/status_recompute.py, with the events that it
-- publishes, and `bulk_update_device_statuses` of backend/services/status_service.py. The resolvers'
-- answers are those of the tables at the time of the recompute.
use unoc_network_simulator.Prelude.{
  ℕ, Bool, true, false, Option, none, some, List, [], ◌∷◌, ◌==◌, if◌then◌else◌, then_get,
}
use unoc_network_simulator.Prelude.Sets.{contains}
use unoc_network_simulator.Model.{Status, up, down, degraded, blocking, Device}
use unoc_network_simulator.Model.Tables.{get_device}
use unoc_network_simulator.Evaluation.Defs.{Resolvers, evaluate_device_status}

-- `baseline_status`
abbrev pub Baseline : Type 0
Baseline = List (ℕ × Status)

abbrev pub status_before : Baseline → ℕ → Option Status
status_before [] i = none
status_before ((k, s) ∷ rest) i = if k == i then some s else status_before rest i

abbrev pub same_status : Status → Status → Bool
same_status up up = true
same_status down down = true
same_status degraded degraded = true
same_status blocking blocking = true
same_status _ _ = false

pub record Transition : Type 0 where
  pub id : ℕ
  pub before : Status
  pub after : Status

-- The payload of `device.status.changed` and its version.
pub record StatusChanged : Type 0 where
  pub id : ℕ
  pub status : Status
  pub admin_override_status : Option Status
  pub topo_version : Option ℕ

abbrev pub or_status : Option Status → Status → Status
or_status none s = s
or_status (some b) s = b

-- `session.get(Device, d.id) or d`
abbrev pub or_row : Option Device → Device → Device
or_row none d = d
or_row (some c) d = c

abbrev pub current : List Device → Device → Device
current rows d = or_row (get_device rows d.id) d

abbrev pub before_of : Resolvers → Baseline → Device → Status
before_of r b d = or_status (status_before b d.id) (evaluate_device_status r none d)

abbrev pub after_of : Resolvers → List Device → Device → Status
after_of r rows d = evaluate_device_status r none (current rows d)

unfoldable pub transitions : Resolvers → List Device → Baseline → List Device → List Transition
transitions r rows b [] = []
transitions r rows b (d ∷ ds) =
    let rest = transitions r rows b ds in
    if same_status (before_of r b d) (after_of r rows d)
    then rest
    else record { id = d.id; before = before_of r b d; after = after_of r rows d } ∷ rest

-- The event of each transition, in their order.
unfoldable pub events : List Device → Option ℕ → List Transition → List StatusChanged
events rows v [] = []
events rows v (x ∷ xs) =
    record {
      id = x.id;
      status = x.after;
      admin_override_status = then_get (get_device rows x.id) (λ d. d.admin_override_status);
      topo_version = v;
    }
    ∷ events rows v xs

abbrev pub transitioned : List Transition → List ℕ
transitioned [] = []
transitioned (x ∷ xs) = x.id ∷ transitioned xs

abbrev pub settled_row : Resolvers → Device → Device
settled_row r d = record d { status = evaluate_device_status r none d }

-- The rows whose status is written.
unfoldable pub bulk_update_device_statuses : Resolvers → List Device → List ℕ → List Device
bulk_update_device_statuses r [] is = []
bulk_update_device_statuses r (d ∷ ds) is =
    (if contains d.id is then settled_row r d else d) ∷ bulk_update_device_statuses r ds is

-- What a recompute returns, publishes and leaves.
pub record Recomputed : Type 0 where
  pub returned : List Transition
  pub published : List StatusChanged
  pub rows : List Device

unfoldable pub recompute_devices :
    Resolvers → List Device → Baseline → Option ℕ → List Device → Recomputed
recompute_devices r rows b v ds =
    let ts = transitions r rows b ds in
    record {
      returned = ts;
      published = events rows v ts;
      rows = bulk_update_device_statuses r rows (transitioned ts);
    }
