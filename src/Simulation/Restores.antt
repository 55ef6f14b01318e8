-- ===== src/Simulation/Restores.antt =====
-- The physical projection of a replay against the tables.
use unoc_network_simulator.Prelude.{ℕ, ◌≡◌, refl, ap, ◌∙◌, Bool, Option, none, some, List, [], ◌∷◌}
use unoc_network_simulator.Prelude.Dicts.{get}
use unoc_network_simulator.Prelude.Sorting.{
  sort_by, IsKeyed, IsKeyed-sort_by, row_at, row_at-sort_by, put_all, get-put_all, value_or,
}
use unoc_network_simulator.Model.{Device, Interface, Link}
use unoc_network_simulator.Model.Tables.{Tables, get_device, get_interface, get_link}
use unoc_network_simulator.Subscribers.{Domain, olt_domain, aon_domain, before}
use unoc_network_simulator.Simulation.Defs.{
  BoundPayload, device_created, port_connected, device_linked, service_bound, EventLog, append,
  device_payload, port_payload, link_payload, bound_payload, log_devices, log_ports, log_links,
  by_id, by_link_id, empty_log, sorted_decisions, build_simulation_event_log,
}
use unoc_network_simulator.Simulation.Replay.{
  Projections, replay_event, count_bound, replay_simulation_events,
}
use unoc_network_simulator.Simulation.Parts.{
  play, play-append, part-log_ports, part-log_links, part-log_devices, part-log_decisions,
}

devices-log_devices :
    (ds : List Device) (log : EventLog)
    → (play (log_devices ds log)).devices
      ≡ put_all (λ (d : Device). d.id) device_payload ds (play log).devices
unfolding replay_event
devices-log_devices [] log = refl
devices-log_devices (d ∷ ds) log =
    let body = device_created (device_payload d) in
    devices-log_devices ds (append body log)
    ∙ ap (λ (p : Projections). put_all (λ (r : Device). r.id) device_payload ds p.devices)
        (play-append body log)

ports-log_ports :
    (is : List Interface) (log : EventLog)
    → (play (log_ports is log)).ports
      ≡ put_all (λ (i : Interface). i.id) port_payload is (play log).ports
unfolding replay_event
ports-log_ports [] log = refl
ports-log_ports (i ∷ is) log =
    let body = port_connected (port_payload i) in
    ports-log_ports is (append body log)
    ∙ ap (λ (p : Projections). put_all (λ (r : Interface). r.id) port_payload is p.ports)
        (play-append body log)

links-log_links :
    (t : Tables) (ls : List Link) (log : EventLog)
    → (play (log_links t ls log)).links
      ≡ put_all (λ (l : Link). l.id) (link_payload t) ls (play log).links
unfolding replay_event
links-log_links t [] log = refl
links-log_links t (l ∷ ls) log =
    let body = device_linked (link_payload t l) in
    links-log_links t ls (append body log)
    ∙ ap (λ (p : Projections). put_all (λ (r : Link). r.id) (link_payload t) ls p.links)
        (play-append body log)

-- A service that is bound changes nothing of the physical projection.
devices-bound :
    (n : ℕ) (b : BoundPayload) (p : Projections)
    → (replay_event n (service_bound b) p).devices ≡ p.devices
unfolding replay_event
devices-bound n b p = counted b.domain
  where
    counted : (dom : Option Domain) → (count_bound dom b p).devices ≡ p.devices
    counted none = refl
    counted (some olt_domain) = refl
    counted (some aon_domain) = refl

ports-bound :
    (n : ℕ) (b : BoundPayload) (p : Projections)
    → (replay_event n (service_bound b) p).ports ≡ p.ports
unfolding replay_event
ports-bound n b p = counted b.domain
  where
    counted : (dom : Option Domain) → (count_bound dom b p).ports ≡ p.ports
    counted none = refl
    counted (some olt_domain) = refl
    counted (some aon_domain) = refl

links-bound :
    (n : ℕ) (b : BoundPayload) (p : Projections)
    → (replay_event n (service_bound b) p).links ≡ p.links
unfolding replay_event
links-bound n b p = counted b.domain
  where
    counted : (dom : Option Domain) → (count_bound dom b p).links ≡ p.links
    counted none = refl
    counted (some olt_domain) = refl
    counted (some aon_domain) = refl

-- The projections that the whole log replays to.
abbrev replayed : Tables → Projections
replayed t = (replay_simulation_events (build_simulation_event_log t).events).projections

-- What is read of an option's row.
abbrev pub mapped {ℓ κ} : {A : Type ℓ} {B : Type κ} → (A → B) → Option A → Option B
mapped f none = none
mapped f (some x) = some (f x)

value_or-none : {A B : Type 0} (f : A → B) (o : Option A) → value_or f none o ≡ mapped f o
value_or-none f none = refl
value_or-none f (some x) = refl

-- If no two rows of a table have the same identifier, the replay of the log that is built from the
-- tables restores the physical state: under each identifier it holds the payload of the device, of
-- the interface and of the link that the tables have there, and nothing where they have none.
pub replay_simulation_events-restores :
    (t : Tables)
    → IsKeyed (λ (d : Device). d.id) t.devices
    → IsKeyed (λ (i : Interface). i.id) t.interfaces
    → IsKeyed (λ (l : Link). l.id) t.links
    → (i : ℕ)
    → (get i (replayed t).devices ≡ mapped device_payload (get_device t.devices i))
      × (get i (replayed t).ports ≡ mapped port_payload (get_interface t.interfaces i))
      × (get i (replayed t).links ≡ mapped (link_payload t) (get_link t.links i))
unfolding replay_simulation_events build_simulation_event_log replay_event
replay_simulation_events-restores t kd ki kl i =
    let ds = sort_by by_id t.devices in
    let is = sort_by before t.interfaces in
    let ls = sort_by by_link_id t.links in
    let one = log_devices ds empty_log in
    let two = log_ports is one in
    let three = log_links t ls two in
    (
      ap (get i) (
            part-log_decisions (λ p. p.devices) (λ dec n p. refl) (λ dec n p. refl)
              (λ dec m n p. devices-bound n (bound_payload dec m) p) (sorted_decisions t) three
            ∙ (part-log_links (λ p. p.devices) t ls two (λ l n p. refl)
                ∙ (part-log_ports (λ p. p.devices) is one (λ x n p. refl)
                    ∙ devices-log_devices ds empty_log)))
          ∙ get-sorted (λ (d : Device). d.id) by_id device_payload t.devices kd,
      ap (get i) (
            part-log_decisions (λ p. p.ports) (λ dec n p. refl) (λ dec n p. refl)
              (λ dec m n p. ports-bound n (bound_payload dec m) p) (sorted_decisions t) three
            ∙ (part-log_links (λ p. p.ports) t ls two (λ l n p. refl)
                ∙ (ports-log_ports is one
                    ∙ ap (put_all (λ (x : Interface). x.id) port_payload is)
                        (part-log_devices (λ p. p.ports) ds empty_log (λ d n p. refl)))))
          ∙ get-sorted (λ (x : Interface). x.id) before port_payload t.interfaces ki,
      ap (get i) (
            part-log_decisions (λ p. p.links) (λ dec n p. refl) (λ dec n p. refl)
              (λ dec m n p. links-bound n (bound_payload dec m) p) (sorted_decisions t) three
            ∙ (links-log_links t ls two
                ∙ ap (put_all (λ (l : Link). l.id) (link_payload t) ls) (
                    part-log_ports (λ p. p.links) is one (λ x n p. refl)
                    ∙ part-log_devices (λ p. p.links) ds empty_log (λ d n p. refl))))
          ∙ get-sorted (λ (l : Link). l.id) by_link_id (link_payload t) t.links kl,
    )
  where
    get-sorted :
        {A V : Type 0} (key : A → ℕ) (cmp : A → A → Bool) (value : A → V) (rows : List A)
        → IsKeyed key rows
        → get i (put_all key value (sort_by cmp rows) []) ≡ mapped value (row_at key rows i)
    get-sorted key cmp value rows h =
        get-put_all key value (sort_by cmp rows) [] i (IsKeyed-sort_by key cmp rows h)
        ∙ (rw (row_at-sort_by key cmp rows i h) refl ∙ value_or-none value (row_at key rows i))
