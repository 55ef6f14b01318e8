-- ===== src/Simulation/Parts.antt =====
-- The replay of a log that the loops append to, one part of the projections at a time.
use unoc_network_simulator.Prelude.{ℕ, ◌-◌, ◌≡◌, refl, ap, ◌∙◌, List, [], ◌∷◌, ◌++◌, either_way}
use unoc_network_simulator.Model.{Device, Interface, Link, is_ont}
use unoc_network_simulator.Model.Tables.{Tables}
use unoc_network_simulator.Subscribers.{is_cpe, SubscriberDecision}
use unoc_network_simulator.Simulation.Defs.{
  EventBody, device_created, port_connected, device_linked, cpe_provisioned, ont_assigned,
  service_bound, SimulationEvent, EventLog, append, device_payload, port_payload, link_payload,
  assigned_payload, bound_payload, log_devices, log_ports, log_links, log_assigned, is_counted,
  log_decision, log_decisions,
}
use unoc_network_simulator.Simulation.Replay.{
  Projections, replay_event, replay_from, empty_projections,
}

replay_from-append :
    (xs : List SimulationEvent) (e : SimulationEvent) (p : Projections)
    → replay_from (xs ++ e ∷ []) p ≡ replay_event e.sequence e.body (replay_from xs p)
replay_from-append [] e p = refl
replay_from-append (x ∷ xs) e p = replay_from-append xs e (replay_event x.sequence x.body p)

-- The projections of a log.
abbrev pub play : EventLog → Projections
play log = replay_from log.events empty_projections

-- An event that is appended is replayed last.
pub play-append :
    (body : EventBody) (log : EventLog)
    → play (append body log) ≡ replay_event log.sequence body (play log)
unfolding append
play-append body log =
    replay_from-append log.events (record { sequence = log.sequence; body = body })
      empty_projections

-- What a part of the projections keeps under the events of a kind, an `append` at a time.
module _ {ℓ} {A : Type ℓ} (part : Projections → A) where
  abbrev pub Keeps : EventBody → Type ℓ
  Keeps body = (n : ℕ) (p : Projections) → part (replay_event n body p) ≡ part p

  pub part-append :
      (body : EventBody) (log : EventLog)
      → Keeps body
      → part (play (append body log)) ≡ part (play log)
  part-append body log keeps = ap part (play-append body log) ∙ keeps log.sequence (play log)

  pub part-log_ports :
      (is : List Interface) (log : EventLog)
      → ((i : Interface) → Keeps (port_connected (port_payload i)))
      → part (play (log_ports is log)) ≡ part (play log)
  part-log_ports [] log keeps = refl
  part-log_ports (i ∷ is) log keeps =
      part-log_ports is (append (port_connected (port_payload i)) log) keeps
      ∙ part-append (port_connected (port_payload i)) log (keeps i)

  pub part-log_links :
      (t : Tables) (ls : List Link) (log : EventLog)
      → ((l : Link) → Keeps (device_linked (link_payload t l)))
      → part (play (log_links t ls log)) ≡ part (play log)
  part-log_links t [] log keeps = refl
  part-log_links t (l ∷ ls) log keeps =
      part-log_links t ls (append (device_linked (link_payload t l)) log) keeps
      ∙ part-append (device_linked (link_payload t l)) log (keeps l)

  pub part-log_devices :
      (ds : List Device) (log : EventLog)
      → ((d : Device) → Keeps (device_created (device_payload d)))
      → part (play (log_devices ds log)) ≡ part (play log)
  part-log_devices [] log keeps = refl
  part-log_devices (d ∷ ds) log keeps =
      part-log_devices ds (append (device_created (device_payload d)) log) keeps
      ∙ part-append (device_created (device_payload d)) log (keeps d)

  module _ (assigned : (dec : SubscriberDecision) → Keeps (cpe_provisioned (assigned_payload dec)))
      (served : (dec : SubscriberDecision) → Keeps (ont_assigned (assigned_payload dec))) where
    pub part-log_assigned :
        (dec : SubscriberDecision) (log : EventLog)
        → part (play (log_assigned dec log)) ≡ part (play log)
    unfolding log_assigned
    part-log_assigned dec log =
        let same : EventLog → Type ℓ = λ l. part (play l) ≡ part (play log) in
        either_way same (is_cpe dec.subscriber_type) _ _
          (part-append (cpe_provisioned (assigned_payload dec)) log (assigned dec))
          (either_way same (is_ont dec.subscriber_type) _ _
            (part-append (ont_assigned (assigned_payload dec)) log (served dec)) refl)

    module _
        (bound : (dec : SubscriberDecision) (n : ℕ)
          → Keeps (service_bound (bound_payload dec n))) where
      pub part-log_decision :
          (dec : SubscriberDecision) (log : EventLog)
          → part (play (log_decision dec log)) ≡ part (play log)
      unfolding log_decision
      part-log_decision dec log =
          let log' = log_assigned dec log in
          either_way (λ l. part (play l) ≡ part (play log)) (is_counted dec.counted) _ _
            (part-append (service_bound (bound_payload dec (log'.sequence - 1))) log' (bound dec _)
              ∙ part-log_assigned dec log)
            (part-log_assigned dec log)

      pub part-log_decisions :
          (decs : List SubscriberDecision) (log : EventLog)
          → part (play (log_decisions decs log)) ≡ part (play log)
      part-log_decisions [] log = refl
      part-log_decisions (dec ∷ decs) log =
          part-log_decisions decs (log_decision dec log) ∙ part-log_decision dec log
