-- ===== src/Evaluation/Defs.antt =====
-- `evaluate_device_status` of backend/services/status_service.py.
use unoc_network_simulator.Prelude.{
  ℕ, Bool, true, false, ◌&&◌, Option, none, some, List, [], ◌∷◌, ◌==◌, if◌then◌else◌, then_get,
}
use unoc_network_simulator.Model.{
  Status, up, down, degraded, DeviceRole, always_online, passive, active, SignalStatus, no_signal,
  Device, derive_role, is_router, is_ont,
}

-- What the evaluation asks of the resolvers, for the tables as they are; `none` is an exception.
pub record Resolvers : Type 0 where
  pub eval_passive_status : Device → Option Status
  pub has_upstream_l3_or_anchor : Device → Option Bool
  pub has_l3_reachability_to_anchor : Device → Option Bool

-- `upstream_cache`
abbrev pub Cache : Type 0
Cache = List (ℕ × Bool)

abbrev pub cached : Cache → ℕ → Option Bool
cached [] i = none
cached ((k, b) ∷ rest) i = if k == i then some b else cached rest i

abbrev pub up_if : Bool → Status
up_if true = up
up_if false = down

-- An exception in a resolver is DOWN.
abbrev pub up_if_ok : Option Bool → Status
up_if_ok none = down
up_if_ok (some b) = up_if b

-- An ONT without an optical signal.
abbrev pub is_dark : Option SignalStatus → Bool
is_dark (some no_signal) = true
is_dark _ = false

abbrev pub resolved : Resolvers → Device → Option Bool
resolved r d =
    if is_router d.type then r.has_l3_reachability_to_anchor d else r.has_upstream_l3_or_anchor d

abbrev pub by_cache : Resolvers → Option Bool → Device → Status
by_cache r (some b) d = up_if b
by_cache r none d = up_if_ok (resolved r d)

abbrev pub or_degraded : Option Status → Status
or_degraded none = degraded
or_degraded (some s) = s

unfoldable pub active_status : Resolvers → Option Cache → Device → Status
active_status r cache d =
    if d.provisioned
    then (if is_ont d.type && is_dark d.signal_status
        then down
        else by_cache r (then_get cache (λ c. cached c d.id)) d)
    else down

abbrev pub by_role : Resolvers → Option Cache → Device → DeviceRole → Status
by_role r cache d always_online = up
by_role r cache d passive = or_degraded (r.eval_passive_status d)
by_role r cache d active = active_status r cache d

abbrev pub override_or : Option Status → Status → Status
override_or none s = s
override_or (some o) s = o

unfoldable pub evaluate_device_status : Resolvers → Option Cache → Device → Status
evaluate_device_status r cache d =
    override_or d.admin_override_status (by_role r cache d (derive_role d.type))
