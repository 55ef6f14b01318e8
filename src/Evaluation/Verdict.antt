-- ===== src/Evaluation/Verdict.antt =====
-- The status that `evaluate_device_status` gives, with and without a cache.
use unoc_network_simulator.Prelude.{
  ◌≡◌, ◌↔◌, refl, subst, ap, sym, ◌∙◌, Bool, true, false, ◌&&◌, Option, none, some, arith,
  if◌then◌else◌,
}
use unoc_network_simulator.Model.{
  Status, up, down, Device, DeviceRole, always_online, passive, active, derive_role, is_ont,
}
use unoc_network_simulator.Evaluation.Defs.{
  Resolvers, Cache, cached, is_dark, resolved, by_cache, by_role, active_status, override_or,
  evaluate_device_status, up_if_ok,
}

up_shape :
    (prov dark : Bool) (o : Option Bool)
    → ((if prov then (if dark then down else up_if_ok o) else down) ≡ up)
      ↔ ((prov ≡ true) × (dark ≡ false) × (o ≡ some true))
up_shape false dark o = (λ h. ground arith, λ (p, q, s). ground arith)
up_shape true true o = (λ h. ground arith, λ (p, q, s). ground arith)
up_shape true false none = (λ h. ground arith, λ (p, q, s). ground arith)
up_shape true false (some true) = (λ h. (refl, refl, refl), λ (p, q, s). refl)
up_shape true false (some false) = (λ h. ground arith, λ (p, q, s). ground arith)

override_free : (o : Option Status) (s : Status) → o ≡ none → override_or o s ≡ s
override_free none s h = refl
override_free (some t) s h = ground arith

module _ (r : Resolvers) (d : Device) where
  -- Without a cache, an active device that is not overridden is UP exactly if it is provisioned, is no ONT without a
  -- signal, and the resolver finds it a way to an anchor.
  pub evaluate_up_iff :
      d.admin_override_status ≡ none
      → derive_role d.type ≡ active
      → (evaluate_device_status r none d ≡ up) ↔ (
          (d.provisioned ≡ true)
          × ((is_ont d.type && is_dark d.signal_status) ≡ false)
          × (resolved r d ≡ some true))
  unfolding evaluate_device_status active_status
  evaluate_up_iff free role =
      let dark = is_ont d.type && is_dark d.signal_status in
      let evaluated : evaluate_device_status r none d ≡ active_status r none d =
        override_free d.admin_override_status (by_role r none d (derive_role d.type)) free
        ∙ ap (by_role r none d) role in
      subst
        (λ (s : Status).
          (s ≡ up) ↔ ((d.provisioned ≡ true) × (dark ≡ false) × (resolved r d ≡ some true)))
        (sym evaluated) (up_shape d.provisioned dark (resolved r d))

  by_cache-eq :
      (o : Option Bool)
      → ((b : Bool) → o ≡ some b → resolved r d ≡ some b)
      → by_cache r o d ≡ by_cache r none d
  by_cache-eq none h = refl
  by_cache-eq (some b) h = rw (h b refl) refl

  by_role-eq :
      (c : Cache) (role : DeviceRole)
      → by_cache r (cached c d.id) d ≡ by_cache r none d
      → by_role r (some c) d role ≡ by_role r none d role
  unfolding active_status
  by_role-eq c always_online h = refl
  by_role-eq c passive h = refl
  by_role-eq c active h = rw h refl

  -- With a cache whose entry for the device is what the resolver would answer, the evaluation gives
  -- the same status as without a cache.
  pub evaluate_device_status-cached :
      (c : Cache)
      → ((b : Bool) → cached c d.id ≡ some b → resolved r d ≡ some b)
      → evaluate_device_status r (some c) d ≡ evaluate_device_status r none d
  unfolding evaluate_device_status active_status
  evaluate_device_status-cached c coherent =
      ap (override_or d.admin_override_status)
        (by_role-eq c (derive_role d.type) (by_cache-eq (cached c d.id) coherent))
