-- ===== src/Simulation/Analytics.antt =====
-- The counters of a replay against the decisions of the subscriber model.
use unoc_network_simulator.Prelude.{
  ℕ, suc, ◌+◌, ◌-◌, ◌≡◌, refl, ap, ◌∙◌, Bool, true, false, Option, none, some, List, [], ◌∷◌, arith,
  length, if◌then◌else◌, Bool-cases, inl, inr, either_way, length-append,
}
use unoc_network_simulator.Prelude.Dicts.{Dict, get_or, sum_of, sum_of-put}
use unoc_network_simulator.Prelude.Sorting.{sort_by, insert_by}
use unoc_network_simulator.Model.{Device, Interface, Link}
use unoc_network_simulator.Model.Tables.{Tables}
use unoc_network_simulator.Subscribers.{
  Domain, olt_domain, aon_domain, before, SubscriberDecision, resolve_subscriber_model,
}
use unoc_network_simulator.Subscribers.Counts.{
  counts_for_olt, counted_olt, occupied, resolve_subscriber_model-occupied,
}
use unoc_network_simulator.Simulation.Defs.{
  BoundPayload, device_created, port_connected, device_linked, cpe_provisioned, ont_assigned,
  service_bound, EventLog, device_payload, port_payload, link_payload, assigned_payload,
  bound_payload, log_devices, log_ports, log_links, log_assigned, is_counted, log_decision,
  log_decisions, by_id, by_link_id, by_subscriber, empty_log, sorted_decisions,
  build_simulation_event_log,
}
use unoc_network_simulator.Simulation.Replay.{
  Projections, bump, count_bound, replay_event, replay_simulation_events,
}
use unoc_network_simulator.Simulation.Parts.{
  Keeps, play, play-append, part-log_ports, part-log_links, part-log_devices, part-log_assigned,
}

sum_of-bump : (k : ℕ) (d : Dict ℕ) → sum_of (λ n. n) (bump k d) ≡ suc (sum_of (λ n. n) d)
sum_of-bump k d = omega (arith, sum_of-put (λ n. n) 0 k (suc (get_or 0 k d)) d refl)

-- The weights of the decisions that are counted.
abbrev pub weigh : (Option Domain → ℕ) → SubscriberDecision → ℕ
weigh w dec = if is_counted dec.counted then w dec.domain else 0

abbrev pub weight : (Option Domain → ℕ) → List SubscriberDecision → ℕ
weight w [] = 0
weight w (dec ∷ decs) = weigh w dec + weight w decs

weight-insert_by :
    (w : Option Domain → ℕ) (dec : SubscriberDecision) (decs : List SubscriberDecision)
    → weight w (insert_by by_subscriber dec decs) ≡ weigh w dec + weight w decs
weight-insert_by w dec [] = refl
weight-insert_by w dec (e ∷ es) =
    either_way (λ l. weight w l ≡ weigh w dec + (weigh w e + weight w es)) (by_subscriber e dec) _ _
      (omega (arith, weight-insert_by w dec es)) refl

weight-sort_by :
    (w : Option Domain → ℕ) (decs : List SubscriberDecision)
    → weight w (sort_by by_subscriber decs) ≡ weight w decs
weight-sort_by w [] = refl
weight-sort_by w (dec ∷ decs) =
    weight-insert_by w dec (sort_by by_subscriber decs) ∙ omega (arith, weight-sort_by w decs)

-- A counter that only SERVICE_BOUND changes, by a weight of the domain.
record IsCounter (part : Projections → ℕ) (w : Option Domain → ℕ) : Type 0 where
  created : (d : Device) → Keeps part (device_created (device_payload d))
  connected : (i : Interface) → Keeps part (port_connected (port_payload i))
  linked : (t : Tables) (l : Link) → Keeps part (device_linked (link_payload t l))
  served : (dec : SubscriberDecision) → Keeps part (cpe_provisioned (assigned_payload dec))
  assigned : (dec : SubscriberDecision) → Keeps part (ont_assigned (assigned_payload dec))
  bound :
      (b : BoundPayload) (n : ℕ) (p : Projections)
      → part (replay_event n (service_bound b) p) ≡ part p + w b.domain
  empty : part (play empty_log) ≡ 0

module _ (part : Projections → ℕ) (w : Option Domain → ℕ) (c : IsCounter part w) where
  assigned_keeps :
      (dec : SubscriberDecision) (log : EventLog)
      → part (play (log_assigned dec log)) ≡ part (play log)
  assigned_keeps = part-log_assigned part c.served c.assigned

  decision_weighs :
      (dec : SubscriberDecision) (log : EventLog)
      → part (play (log_decision dec log)) ≡ part (play log) + weigh w dec
  unfolding log_decision
  decision_weighs dec log =
      let log' = log_assigned dec log in
      let b = bound_payload dec (log'.sequence - 1) in
      elim (Bool-cases (is_counted dec.counted)) [
        | inl t ↦ rw t (
            ap part (play-append (service_bound b) log')
            ∙ (c.bound b log'.sequence (play log') ∙ rw (assigned_keeps dec log) refl))
        | inr f ↦ rw f (assigned_keeps dec log ∙ omega arith)
      ]

  decisions_weigh :
      (decs : List SubscriberDecision) (log : EventLog)
      → part (play (log_decisions decs log)) ≡ part (play log) + weight w decs
  decisions_weigh [] log = omega arith
  decisions_weigh (dec ∷ decs) log =
      decisions_weigh decs (log_decision dec log) ∙ omega (arith, decision_weighs dec log)

  -- After the replay of a log that is built from tables, the counter has the weights of the
  -- decisions that the subscriber model counts.
  part_counts :
      (t : Tables)
      → part (replay_simulation_events (build_simulation_event_log t).events).projections
        ≡ weight w (resolve_subscriber_model t).decisions
  unfolding replay_simulation_events build_simulation_event_log
  part_counts t =
      let ds = sort_by by_id t.devices in
      let is = sort_by before t.interfaces in
      let ls = sort_by by_link_id t.links in
      let one = log_devices ds empty_log in
      let two = log_ports is one in
      omega (
        arith,
        decisions_weigh (sorted_decisions t) (log_links t ls two),
        weight-sort_by w (resolve_subscriber_model t).decisions,
        part-log_links part t ls two (c.linked t),
        part-log_ports part is one c.connected,
        part-log_devices part ds empty_log c.created,
        c.empty,
      )

abbrev olt_weight : Option Domain → ℕ
olt_weight (some olt_domain) = 1
olt_weight _ = 0

abbrev one_each : Option Domain → ℕ
one_each dom = 1

weight_olt : (decs : List SubscriberDecision) → weight olt_weight decs ≡ counted_olt decs
weight_olt [] = refl
weight_olt (dec ∷ decs) = rw (same dec.counted dec.domain) (omega (arith, weight_olt decs))
  where
    same :
        (c : Option Bool) (dom : Option Domain)
        → (if is_counted c then olt_weight dom else 0) ≡ (if counts_for_olt c dom then 1 else 0)
    same none dom = refl
    same (some false) dom = refl
    same (some true) none = refl
    same (some true) (some olt_domain) = refl
    same (some true) (some aon_domain) = refl

pon_bound :
    (dom : Option Domain) (b : BoundPayload) (p : Projections)
    → (sum_of (λ n. n) (count_bound dom b p).pon_ports
        ≡ sum_of (λ n. n) p.pon_ports + olt_weight dom)
      × (sum_of (λ n. n) (count_bound dom b p).olt_subscribers
          ≡ sum_of (λ n. n) p.olt_subscribers + olt_weight dom)
pon_bound none b p = (omega arith, omega arith)
pon_bound (some aon_domain) b p = (omega arith, omega arith)
pon_bound (some olt_domain) b p =
    (omega (arith, sum_of-bump _ p.pon_ports), omega (arith, sum_of-bump _ p.olt_subscribers))

pon_ports-IsCounter : IsCounter (λ p. sum_of (λ n. n) p.pon_ports) olt_weight
unfolding replay_event
pon_ports-IsCounter = record {
  created = λ d n p. refl;
  connected = λ i n p. refl;
  linked = λ t l n p. refl;
  served = λ dec n p. refl;
  assigned = λ dec n p. refl;
  bound = λ b n p. (pon_bound b.domain b p).0;
  empty = refl;
}

olt_subscribers-IsCounter : IsCounter (λ p. sum_of (λ n. n) p.olt_subscribers) olt_weight
unfolding replay_event
olt_subscribers-IsCounter = record {
  created = λ d n p. refl;
  connected = λ i n p. refl;
  linked = λ t l n p. refl;
  served = λ dec n p. refl;
  assigned = λ dec n p. refl;
  bound = λ b n p. (pon_bound b.domain b p).1;
  empty = refl;
}

bindings-IsCounter : IsCounter (λ p. length p.service_bindings) one_each
unfolding replay_event
bindings-IsCounter = record {
  created = λ d n p. refl;
  connected = λ i n p. refl;
  linked = λ t l n p. refl;
  served = λ dec n p. refl;
  assigned = λ dec n p. refl;
  bound = λ b n p. length-append p.service_bindings (b ∷ []);
  empty = refl;
}

-- Replaying the log that is built from any tables counts what the subscriber model counts: the PON
-- ports together have as many subscribers as the model's PON occupancy, so have the OLTs together,
-- and the effective number of subscribers is the number of decisions that count one.
pub replay_simulation_events-counts :
    (t : Tables)
    → let r = replay_simulation_events (build_simulation_event_log t).events in
      let m = resolve_subscriber_model t in
      (sum_of (λ n. n) r.projections.pon_ports ≡ occupied m.pon_occupancy)
      × (sum_of (λ n. n) r.projections.olt_subscribers ≡ occupied m.pon_occupancy)
      × (r.effective_subscriber_count ≡ weight (λ dom. 1) m.decisions)
unfolding replay_simulation_events
replay_simulation_events-counts t =
    let decs = (resolve_subscriber_model t).decisions in
    let known = weight_olt decs ∙ resolve_subscriber_model-occupied t in
    (
      part_counts (λ p. sum_of (λ n. n) p.pon_ports) olt_weight pon_ports-IsCounter t ∙ known,
      part_counts (λ p. sum_of (λ n. n) p.olt_subscribers) olt_weight olt_subscribers-IsCounter t
          ∙ known,
      part_counts (λ p. length p.service_bindings) one_each bindings-IsCounter t,
    )
