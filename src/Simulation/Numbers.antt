-- ===== src/Simulation/Numbers.antt =====
-- The numbers of the events of a log, and the events that a bound service refers to.
use unoc_network_simulator.Prelude.{
  ℕ, suc, ◌-◌, ◌≡◌, refl, sym, subst, Bool, true, false, ◌&&◌, ◌||◌, Option, none, some, List, [],
  ◌∷◌, ◌++◌, arith, ◌==◌, length, length-append, get_elem?, Bool-cases, either_way, inl, inr,
  ==_refl, Option-cases,
}
use unoc_network_simulator.Prelude.Numbering.{
  IsNumberedFrom, IsNumberedFrom-append, get_elem?-append, get_elem?-length,
}
use unoc_network_simulator.Prelude.Sorting.{sort_by, Every, Every-sort_by}
use unoc_network_simulator.Model.{Device, Interface, Link, is_ont}
use unoc_network_simulator.Model.Tables.{Tables}
use unoc_network_simulator.Subscribers.{
  Domain, Anchor, Reason, is_cpe, is_aon, is_at, before, SubscriberDecision, decide, settle,
  resolve_subscriber_model,
}
use unoc_network_simulator.Subscribers.Decisions.{is_leaf, resolve_subscriber_model-Every}
use unoc_network_simulator.Prelude.Sets.{contains}
use unoc_network_simulator.Simulation.Defs.{
  EventBody, device_created, port_connected, device_linked, cpe_provisioned, ont_assigned,
  service_bound, SimulationEvent, EventLog, append, device_payload, port_payload, link_payload,
  assigned_payload, bound_payload, log_devices, log_ports, log_links, log_assigned, is_counted,
  log_decision, log_decisions, by_id, by_link_id, by_subscriber, empty_log, sorted_decisions,
  build_simulation_event_log,
}

abbrev pub number : SimulationEvent → ℕ
number e = e.sequence

-- The event is there, and assigns an anchor to the subscriber.
abbrev pub assigns : ℕ → Option SimulationEvent → Bool
assigns i none = false
assigns i (some e) = elim e.body [
  | cpe_provisioned a ↦ a.subscriber_id == i
  | ont_assigned a ↦ a.subscriber_id == i
  | _ ↦ false
]

-- A bound service refers to the event that assigned its subscriber an anchor.
abbrev pub refers : List SimulationEvent → EventBody → Bool
refers events (service_bound b) = assigns b.subscriber_id (get_elem? events b.source_event_sequence)
refers events _ = true

abbrev pub AllRefer : List SimulationEvent → List SimulationEvent → Type 0
AllRefer events [] = Unit {0}
AllRefer events (e ∷ es) = (refers events e.body ≡ true) × AllRefer events es

assigns-append :
    (i n : ℕ) (xs ys : List SimulationEvent)
    → assigns i (get_elem? xs n) ≡ true
    → assigns i (get_elem? (xs ++ ys) n) ≡ true
assigns-append i n xs ys h = elim (Option-cases (get_elem? xs n)) [
  | inl gone ↦ absurd (ground (arith, subst (λ o. assigns i o ≡ true) gone h))
  | inr (e, there) ↦ rw (get_elem?-append xs ys n e there) (subst (λ o. assigns i o ≡ true) there h)
]

refers-append :
    (xs ys : List SimulationEvent) (body : EventBody)
    → refers xs body ≡ true
    → refers (xs ++ ys) body ≡ true
refers-append xs ys (device_created d) h = refl
refers-append xs ys (port_connected i) h = refl
refers-append xs ys (device_linked l) h = refl
refers-append xs ys (cpe_provisioned a) h = refl
refers-append xs ys (ont_assigned a) h = refl
refers-append xs ys (service_bound b) h =
    assigns-append b.subscriber_id b.source_event_sequence xs ys h

AllRefer-append :
    (events ys es : List SimulationEvent) (e : SimulationEvent)
    → AllRefer events es
    → refers events e.body ≡ true
    → AllRefer (events ++ ys) (es ++ e ∷ [])
AllRefer-append events ys [] e h k = (refers-append events ys e.body k, tt)
AllRefer-append events ys (x ∷ es) e (r, h) k =
    (refers-append events ys x.body r, AllRefer-append events ys es e h k)

-- The next number is the number of events, the events are numbered from 0 without a gap, and every
-- bound service refers to an earlier event that assigned its subscriber an anchor.
pub record IsSound (log : EventLog) : Type 0 where
  pub counts : log.sequence ≡ length log.events
  pub numbered : IsNumberedFrom number 0 log.events
  pub refer : AllRefer log.events log.events

append-IsSound :
    (body : EventBody) (log : EventLog)
    → refers log.events body ≡ true
    → IsSound log
    → IsSound (append body log)
unfolding append
append-IsSound body log k h =
    let e : SimulationEvent = record { sequence = log.sequence; body = body } in
    record {
      counts = omega (arith, h.counts, length-append log.events (e ∷ []));
      numbered =
          IsNumberedFrom-append number 0 log.events (e ∷ []) h.numbered
            (omega (arith, h.counts), tt);
      refer = AllRefer-append log.events (e ∷ []) log.events e h.refer k;
    }

log_devices-IsSound :
    (ds : List Device) (log : EventLog) → IsSound log → IsSound (log_devices ds log)
log_devices-IsSound [] log h = h
log_devices-IsSound (d ∷ ds) log h =
    log_devices-IsSound ds _ (append-IsSound (device_created (device_payload d)) log refl h)

log_ports-IsSound :
    (is : List Interface) (log : EventLog) → IsSound log → IsSound (log_ports is log)
log_ports-IsSound [] log h = h
log_ports-IsSound (i ∷ is) log h =
    log_ports-IsSound is _ (append-IsSound (port_connected (port_payload i)) log refl h)

log_links-IsSound :
    (t : Tables) (ls : List Link) (log : EventLog) → IsSound log → IsSound (log_links t ls log)
log_links-IsSound t [] log h = h
log_links-IsSound t (l ∷ ls) log h =
    log_links-IsSound t ls _ (append-IsSound (device_linked (link_payload t l)) log refl h)

abbrev IsLeafType : SubscriberDecision → Type 0
IsLeafType dec = (is_ont dec.subscriber_type || is_cpe dec.subscriber_type) ≡ true

-- The event that was appended is the one before the next number.
append-assigns :
    (i : ℕ) (body : EventBody) (log : EventLog)
    → IsSound log
    → assigns i (some (record { sequence = log.sequence; body = body })) ≡ true
    → assigns i (get_elem? (append body log).events ((append body log).sequence - 1)) ≡ true
unfolding append
append-assigns i body log h k =
    let e : SimulationEvent = record { sequence = log.sequence; body = body } in
    let at : suc log.sequence - 1 ≡ length log.events = omega (arith, h.counts) in
    subst (λ (n : ℕ). assigns i (get_elem? (log.events ++ e ∷ []) n) ≡ true) (sym at)
      (subst (λ o. assigns i o ≡ true) (sym (get_elem?-length log.events e)) k)

log_assigned-IsSound :
    (dec : SubscriberDecision) (log : EventLog)
    → IsLeafType dec
    → IsSound log
    → IsSound (log_assigned dec log)
      × (assigns dec.subscriber_id
            (get_elem? (log_assigned dec log).events ((log_assigned dec log).sequence - 1))
          ≡ true)
unfolding log_assigned
log_assigned-IsSound dec log leaf h =
    let P : EventLog → Type 0 =
      λ l. IsSound l × (assigns dec.subscriber_id (get_elem? l.events (l.sequence - 1)) ≡ true) in
    let served = cpe_provisioned (assigned_payload dec) in
    let assigned = ont_assigned (assigned_payload dec) in
    let same = ==_refl dec.subscriber_id in
    elim (Bool-cases (is_cpe dec.subscriber_type)) [
      | inl c ↦
          rw c
            (append-IsSound served log refl h, append-assigns dec.subscriber_id served log h same)
      | inr n ↦
          let o : is_ont dec.subscriber_type ≡ true = ground (arith, leaf, n) in
          rw (n, o)
            (
              append-IsSound assigned log refl h,
              append-assigns dec.subscriber_id assigned log h same,
            )
    ]

log_decision-IsSound :
    (dec : SubscriberDecision) (log : EventLog)
    → IsLeafType dec
    → IsSound log
    → IsSound (log_decision dec log)
unfolding log_decision
log_decision-IsSound dec log leaf h =
    let log' = log_assigned dec log in
    let (sound, known) = log_assigned-IsSound dec log leaf h in
    either_way IsSound (is_counted dec.counted) _ log'
      (append-IsSound (service_bound (bound_payload dec (log'.sequence - 1))) log' known sound)
      sound

log_decisions-IsSound :
    (decs : List SubscriberDecision) (log : EventLog)
    → Every IsLeafType decs
    → IsSound log
    → IsSound (log_decisions decs log)
log_decisions-IsSound [] log all h = h
log_decisions-IsSound (dec ∷ decs) log (leaf, all) h =
    log_decisions-IsSound decs (log_decision dec log) all (log_decision-IsSound dec log leaf h)

made_leaf :
    (d : Device) (c : Option Bool) (dom : Option Domain) (a : Option Anchor) (r : Reason)
    → is_leaf d ≡ true
    → IsLeafType (decide d c dom a r)
made_leaf d c dom none r h = h
made_leaf d c dom (some a) r h = h

settled_leaf :
    (port winner : ℕ) (cpes : List ℕ) (dec : SubscriberDecision)
    → IsLeafType dec
    → IsLeafType (settle port winner cpes dec)
unfolding settle
settled_leaf port winner cpes dec h =
    either_way IsLeafType (is_aon dec.domain && is_at dec.anchor_interface_id port) _ dec
      (either_way IsLeafType (dec.subscriber_id == winner) _ _ h
        (either_way IsLeafType (contains dec.subscriber_id cpes) _ dec h h))
      h

-- The log that is built from any tables numbers its events from 0 without a gap and in order, its
-- next number is the count of its events, and each service that it binds refers, by its source
-- number, to the event that provisioned or assigned the same subscriber.
pub build_simulation_event_log-IsSound : (t : Tables) → IsSound (build_simulation_event_log t)
unfolding build_simulation_event_log
build_simulation_event_log-IsSound t =
    log_decisions-IsSound (sorted_decisions t) _
      (Every-sort_by IsLeafType by_subscriber (resolve_subscriber_model t).decisions
        (resolve_subscriber_model-Every IsLeafType made_leaf settled_leaf t))
      (log_links-IsSound t (sort_by by_link_id t.links) _ (
        log_ports-IsSound (sort_by before t.interfaces) _ (
          log_devices-IsSound (sort_by by_id t.devices) empty_log
            (record { counts = refl; numbered = tt; refer = tt }))))
