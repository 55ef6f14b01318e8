-- ===== src/Lib.antt =====
-- A verification library for the network simulator's backend (backend/).
--
-- The program is a simulator of an access network: devices (gateways, routers, OLTs, ONTs,
-- splitters, containers) with interfaces, links between interfaces, routes and addresses stand in
-- database tables, and services compute from them what is up, what is reachable and how traffic
-- flows.
--
-- How the parts meet: models_pkg/ declares the rows (Model). link_rules.py says which device
-- types may be linked (LinkRules); services/status_link.py and services/link_validator_service.py
-- say which links carry traffic (Links). services/status_recompute.py builds a graph of those
-- links and floods it from the anchors, and services/status_service.py finds the devices that a
-- change affects and the causal chains of it (Propagation). services/dependency_resolver_trace.py
-- follows uplinks and default routes from a device to a gateway (Upstream).
-- services/status_service.py evaluates a device with the answers of such resolvers, and the
-- recompute reports the changes and leaves the reachable set in
-- services/status_propagation_store.py (Evaluation); services/recompute_coalescer.py decides when
-- a recompute runs and over what (Coalescer). Apart from status, services/forwarding_service.py
-- moves flows with the switch of services/l2_service.py and the router of services/l3_service.py
-- (Forwarding), services/mac_allocator.py, services/provisioning_ipam.py and the pools of
-- models_pkg/ipam.py hand out addresses (Addressing), provisioning.py provisions devices with
-- them (Provisioning), and services/traffic/v2_congestion.py tells which devices and links are
-- congested (Traffic). services/subscriber_model.py counts subscribers at the PON ports and
-- access ports that they come to (Subscribers), services/splitter_service.py the ONTs behind the
-- ports of a splitter (Splitters), and services/simulation_event_engine.py writes the tables and
-- those counts as a log and replays it (Simulation), where services/event_store.py keeps the
-- events of a session (Events). services/pathfinding.py builds the optical and the logical graph
-- (Pathfinding), and services/dependency_resolver_core.py and services/provisioning_dependency.py
-- ask them for a router upstream or an access parent (Dependency).
--
-- Which file models which code:
--   * Model/Rows, Model/Tables: the rows of backend/models_pkg/, and the lookups that a session
--     answers, on one value that holds all the tables.
--   * LinkRules: backend/link_rules.py and backend/constants/link_types.py.
--   * Links: backend/services/status_link.py, backend/services/link_validator_service.py.
--   * Propagation/Graph, Defs: `_ensure_graph_cache` and the flood of
--     backend/services/status_recompute.py, the component search of `recompute_dirty` in
--     backend/services/status_service.py.
--   * Propagation/Chain: `detect_causal_chain_python` of backend/services/status_service.py.
--   * Upstream: `trace_l3_path_to_anchor` of backend/services/dependency_resolver_trace.py.
--   * Evaluation: `evaluate_device_status`, `recompute_dirty` and `bulk_update_device_statuses`
--     of backend/services/status_service.py, `recompute_devices_status` of
--     backend/services/status_recompute.py, and backend/services/status_propagation_store.py. The
--     resolvers that an evaluation asks are a record, which a client fills. Evaluation/Passive:
--     backend/services/status_service_passive.py, on one such answer.
--   * Forwarding/Bridge: backend/services/l2_service.py. Forwarding/Decision:
--     backend/services/l3_service.py. Forwarding/Flow: `_find_peer_interface`, `_step` and the
--     loop of `resolve_flow_path` of backend/services/forwarding_service.py. The MAC table is
--     passed along explicitly, since the switches on the way change it.
--   * Addressing/Mac: backend/services/mac_allocator.py. Addressing/Prefixes:
--     backend/services/provisioning_ipam.py. Addressing/Pools: `IPPool` of
--     backend/models_pkg/ipam.py.
--   * Provisioning: backend/provisioning.py.
--   * Traffic/Congestion: backend/services/traffic/v2_congestion.py.
--   * Coalescer: backend/services/recompute_coalescer.py, the sections under its lock as
--     functions, and a step relation for the threads that run them.
--   * Subscribers: backend/services/subscriber_model.py. Splitters:
--     backend/services/splitter_service.py; which names are those of IN and OUT ports, and how
--     one is made, is a parameter.
--   * Events: backend/services/event_store.py, on a session with the rows that are committed and
--     those that the transaction adds. A runtime event is appended by a second session, which
--     sees the committed rows alone and is refused by the unique column `sequence` where the
--     first has flushed the number. Simulation: backend/services/simulation_event_engine.py.
--   * Pathfinding: backend/services/pathfinding.py and `_collect_devices_links` of
--     backend/services/dependency_resolver_core.py. What they use of networkx is a record of
--     operations (Pathfinding/Networkx), and its laws are a hypothesis that Samples/Graphs meets
--     with lists. The cut of `-if0` from a name is a parameter.
--   * Dependency: `has_upstream_l3_or_anchor` of backend/services/dependency_resolver_core.py
--     with its cache, and backend/services/provisioning_dependency.py. The routers are traced by
--     Upstream.
--   * Search: the two orders of a breadth first search that the services write by hand (a vertex
--     is marked when it is queued, or when it is taken), each proved once against walks, searches
--     that stop early, and searches that keep their paths.
--   * Samples: a small network, and each result at it.
--
-- Conventions. An identifier is a string in the source and a number here, which numbers the
-- strings in their lexicographic order, so that the sorted queues of the source keep their order.
-- A float is a number of thousandths. A dict or a set of identifiers is a list. A session that
-- fails has no model: the tables are there. Where a Python loop is not bounded, the model runs on
-- fuel, a result is an option, and a theorem says that the fuel given is enough.
--
-- Bounds and fuel. The flood and the component search get fuel for each device or edge once, the
-- causal chain for each dependency, the trace for each device of the table and one more. The
-- passive searches get fuel for each edge between passive devices and each start, and the
-- searches along links one try for each edge or interface and one more; so does the search with a
-- heap, which pushes an entry for each edge at most. The loop of `resolve_flow_path` recurses on
-- its TTL. The search of the MAC allocator gets one try more than there are addresses in use,
-- which is enough while fewer than 2 ^ 24 are. Networks are IPv4.
--
-- Not modelled: the database and its exceptions, the HTTP and websocket endpoints, metrics, the
-- Go services (their answers are parameters), the traffic engine but for congestion, the caches
-- that one session keeps and the retry of a graph that a concurrent change makes stale
-- (backend/services/dependency_resolver_core.py), the attributes of edges,
-- backend/services/graph_index.py, provisioning_service.py and provisioning_l3_auto.py of
-- backend/services, the layout and the runtime of the event store, `forward_flow`, the
-- diagnostics of a recompute, a timer that does not start, optical budgets, and the seed and
-- tariff tables.
pub mod Prelude
pub mod Search
pub mod Model
pub mod LinkRules
pub mod Links
pub mod Propagation
pub mod Upstream
pub mod Pathfinding
pub mod Dependency
pub mod Evaluation
pub mod Forwarding
pub mod Addressing
pub mod Provisioning
pub mod Traffic
pub mod Coalescer
pub mod Subscribers
pub mod Splitters
pub mod Events
pub mod Simulation
pub mod Samples
