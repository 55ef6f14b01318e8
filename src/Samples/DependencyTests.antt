-- ===== src/Samples/DependencyTests.antt =====
-- The graphs and the upstream check.
use unoc_network_simulator.Prelude.{
  ℕ, ◌≡◌, ◌↔◌, refl, true, false, Option, none, List, [], ◌∷◌, ◌&&◌, any, is_some,
}
use unoc_network_simulator.Prelude.Sorting.{Every}
use unoc_network_simulator.Model.{is_ont}
use unoc_network_simulator.Model.Tables.{Tables}
use unoc_network_simulator.Pathfinding.Networkx.{joins}
use unoc_network_simulator.Pathfinding.{
  DeviceRecord, LinkRecord, collect_devices, collect_links, build_optical_graph, optical_nodes,
  is_olt_id, shortest_optical_path,
}
use unoc_network_simulator.Pathfinding.Optical.{carries_optical, build_optical_graph-has_edge}
use unoc_network_simulator.Pathfinding.Collapse.{
  SeesOlt, IsOpticalPath, shortest_optical_path_correct,
}
use unoc_network_simulator.Pathfinding.Logical.{HasOlt, build_logical_graph-HasOlt}
use unoc_network_simulator.Pathfinding.Store.{
  StoreOp, change, read_optical, read_logical, run_store, run_anew, fresh_store, run_store-eq,
}
use unoc_network_simulator.Dependency.{
  compute_upstream, logical_graph, optical_graph, dependency_ok, has_valid_provisioned_olt_path,
}
use unoc_network_simulator.Dependency.Upstreams.{HasRouter, compute_upstream_iff}
use unoc_network_simulator.Dependency.Memo.{Ask, ask, run_cached, run_computed, run_cached-eq}
use unoc_network_simulator.Dependency.Parents.{HasOltParent, has_valid_provisioned_olt_path_iff}
use unoc_network_simulator.Dependency.Tolerance.{HasRouterNode, dependency_ok_iff}
use unoc_network_simulator.Samples.Network.{network, core, head, split, home, broken}
use unoc_network_simulator.Samples.Graphs.{list_graphs, list_graphs-Laws}

abbrev no_legacy : ℕ → Option ℕ
no_legacy i = none

abbrev records : List DeviceRecord
records = collect_devices no_legacy network.devices

abbrev link_records : List LinkRecord
link_records = collect_links no_legacy network network.links

build_optical_graph-has_edge_example :
    list_graphs.has_edge (build_optical_graph list_graphs records link_records) 4 5
    ≡ any (λ l. joins l.a_device_id l.b_device_id 4 5 && carries_optical records l) link_records
build_optical_graph-has_edge_example =
    build_optical_graph-has_edge list_graphs list_graphs-Laws records link_records 4 5

split_to_home :
    list_graphs.has_edge (build_optical_graph list_graphs records link_records) 4 5 ≡ true
unfolding build_optical_graph collect_links
split_to_home = refl

shortest_optical_path_correct_example :
    IsOpticalPath list_graphs records link_records 5
      (shortest_optical_path list_graphs records link_records 5)
shortest_optical_path_correct_example =
    shortest_optical_path_correct list_graphs records link_records 5

build_logical_graph-HasOlt_example :
    Every
      (λ d.
        is_ont d.type ≡ true
        → is_olt_id list_graphs records d.id ≡ false
        → SeesOlt list_graphs records link_records d.id
        → HasOlt list_graphs list_graphs-Laws records link_records d.id)
      (optical_nodes list_graphs records)
build_logical_graph-HasOlt_example =
    build_logical_graph-HasOlt list_graphs list_graphs-Laws records link_records

abbrev store_ops : List StoreOp
store_ops =
    read_logical false
    ∷ read_optical
    ∷ read_logical true
    ∷ change records []
    ∷ read_logical true
    ∷ read_optical
    ∷ []

run_store-eq_example :
    run_store list_graphs store_ops records link_records (fresh_store list_graphs)
    ≡ run_anew list_graphs store_ops records link_records
run_store-eq_example = run_store-eq list_graphs store_ops records link_records

compute_upstream_iff_example : ((compute_upstream list_graphs no_legacy network home).ok ≡ true) ↔ (
    (is_some (list_graphs.type_of (logical_graph list_graphs no_legacy network) 5) ≡ true)
    × HasRouter list_graphs list_graphs-Laws no_legacy network 5)
compute_upstream_iff_example =
    compute_upstream_iff list_graphs list_graphs-Laws no_legacy network home refl

abbrev asks : List Ask
asks =
    ask home
    ∷ ask head
    ∷ ask home
    ∷ Ask.change (record network { links = [] })
    ∷ ask home
    ∷ ask core
    ∷ []

run_cached-eq_example :
    run_cached list_graphs no_legacy asks 3 network (record { version = none; results = [] })
    ≡ run_computed list_graphs no_legacy asks network
run_cached-eq_example = run_cached-eq list_graphs no_legacy asks 3 network

has_valid_provisioned_olt_path_iff_example :
    (has_valid_provisioned_olt_path list_graphs no_legacy network home ≡ true) ↔ (
      (is_some (list_graphs.type_of (optical_graph list_graphs no_legacy network) 5) ≡ true)
      × HasOltParent list_graphs list_graphs-Laws no_legacy network 5 records)
has_valid_provisioned_olt_path_iff_example =
    has_valid_provisioned_olt_path_iff list_graphs list_graphs-Laws no_legacy network home refl

-- Without the gateway.
abbrev headless : Tables
headless = record network { devices = core ∷ head ∷ split ∷ home ∷ broken ∷ [] }

dependency_ok_iff_example :
    (dependency_ok list_graphs no_legacy headless head ≡ true)
    ↔ HasRouterNode list_graphs list_graphs-Laws no_legacy headless 3
dependency_ok_iff_example =
    dependency_ok_iff list_graphs list_graphs-Laws no_legacy headless head refl refl refl refl refl
