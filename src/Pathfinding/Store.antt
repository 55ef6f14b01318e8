-- ===== src/Pathfinding/Store.antt =====
-- The store's cached graphs against graphs that are built anew.
use unoc_network_simulator.Prelude.{
  ◌≡◌, refl, ap, ◌∙◌, Bool, true, false, none, some, List, [], ◌∷◌, arith, Bool-cases, inl, inr,
}
use unoc_network_simulator.Pathfinding.Networkx.{Networkx}
use unoc_network_simulator.Pathfinding.Defs.{
  DeviceRecord, LinkRecord, build_optical_graph, build_logical_graph, PathfindingStore,
  bump_version, keep_or, get_optical_graph, same_flag, get_logical_graph,
}

-- A change of the topology, after which the version is bumped, or a read.
pub data StoreOp : Type 0 where
  change : List DeviceRecord → List LinkRecord → StoreOp
  read_optical : StoreOp
  read_logical : Bool → StoreOp

module _ (nx : Networkx) where
  -- The graphs that are read from the store.
  abbrev pub run_store :
      List StoreOp → List DeviceRecord → List LinkRecord → PathfindingStore nx → List nx.Graph
  run_store [] ds ls s = []
  run_store (change ds' ls' ∷ ops) ds ls s = run_store ops ds' ls' (bump_version nx s)
  run_store (read_optical ∷ ops) ds ls s =
      let r = get_optical_graph nx ds ls s in r.0 ∷ run_store ops ds ls r.1
  run_store (read_logical relaxed ∷ ops) ds ls s =
      let r = get_logical_graph nx ds ls relaxed s in r.0 ∷ run_store ops ds ls r.1

  -- The graphs that are built at each read.
  abbrev pub run_anew : List StoreOp → List DeviceRecord → List LinkRecord → List nx.Graph
  run_anew [] ds ls = []
  run_anew (change ds' ls' ∷ ops) ds ls = run_anew ops ds' ls'
  run_anew (read_optical ∷ ops) ds ls = build_optical_graph nx ds ls ∷ run_anew ops ds ls
  run_anew (read_logical relaxed ∷ ops) ds ls =
      build_logical_graph nx ds ls relaxed ∷ run_anew ops ds ls

  abbrev pub fresh_store : PathfindingStore nx
  fresh_store = record {
    topo_version = 0;
    optical_graph = none;
    logical_graph = none;
    relaxed_flag = none;
  }

  -- What is cached was built from the topology as it is.
  record IsCurrent (ds : List DeviceRecord) (ls : List LinkRecord) (s : PathfindingStore nx)
      : Type 0 where
    optical :
        keep_or nx s.optical_graph (build_optical_graph nx ds ls) ≡ build_optical_graph nx ds ls
    logical :
        (relaxed : Bool)
        → same_flag nx s.relaxed_flag relaxed ≡ true
        → keep_or nx s.logical_graph (build_logical_graph nx ds ls relaxed)
          ≡ build_logical_graph nx ds ls relaxed

  same_flag-eq : (a b : Bool) → same_flag nx (some a) b ≡ true → a ≡ b
  same_flag-eq true true h = refl
  same_flag-eq false false h = refl
  same_flag-eq true false h = absurd (ground arith)
  same_flag-eq false true h = absurd (ground arith)

  run_store_current :
      (ops : List StoreOp) (ds : List DeviceRecord) (ls : List LinkRecord) (s : PathfindingStore nx)
      → IsCurrent ds ls s
      → run_store ops ds ls s ≡ run_anew ops ds ls
  unfolding bump_version get_optical_graph get_logical_graph
  run_store_current [] ds ls s h = refl
  run_store_current (change ds' ls' ∷ ops) ds ls s h =
      run_store_current ops ds' ls' (bump_version nx s)
        (record { optical = refl; logical = λ relaxed k. refl })
  run_store_current (read_optical ∷ ops) ds ls s h =
      let next = (get_optical_graph nx ds ls s).1 in
      ap (◌∷ (run_store ops ds ls next)) h.optical
      ∙ ap (build_optical_graph nx ds ls ∷◌)
          (run_store_current ops ds ls next (record { optical = h.optical; logical = h.logical }))
  run_store_current (read_logical relaxed ∷ ops) ds ls s h =
      let r = get_logical_graph nx ds ls relaxed s in
      let got : r.0 ≡ build_logical_graph nx ds ls relaxed =
        elim (Bool-cases (same_flag nx s.relaxed_flag relaxed)) [
          | inl t ↦ rw t (h.logical relaxed t)
          | inr f ↦ rw f refl
        ] in
      ap (◌∷ (run_store ops ds ls r.1)) got
      ∙ ap (build_logical_graph nx ds ls relaxed ∷◌) (
          run_store_current ops ds ls r.1 (record {
            optical = h.optical;
            logical =
                λ other k. got ∙ ap (build_logical_graph nx ds ls) (same_flag-eq relaxed other k);
          }))

  -- If each change of the topology bumps the version, the graphs that any run of reads gets from the
  -- store are those that a builder without a cache would build at each read, in the strict and the
  -- relaxed mode and however the modes alternate.
  pub run_store-eq :
      (ops : List StoreOp) (ds : List DeviceRecord) (ls : List LinkRecord)
      → run_store ops ds ls fresh_store ≡ run_anew ops ds ls
  run_store-eq ops ds ls =
      run_store_current ops ds ls fresh_store
        (record { optical = refl; logical = λ relaxed k. refl })
