-- ===== src/Dependency/Parents.antt =====
-- What the parents that provisioning asks for are.
use unoc_network_simulator.Prelude.{
  ℕ, ◌+◌, ◌≡◌, refl, ap, sym, ◌∙◌, ◌↔◌, ◌⊎◌, true, ◌&&◌, Option, none, some, List, [], ◌∷◌, arith,
  Bool-cases, Option-cases, inl, inr, is_some, ==_refl,
}
use unoc_network_simulator.Prelude.Sets.{sorted, contains-sorted}
use unoc_network_simulator.Model.{is_ont, Device}
use unoc_network_simulator.Model.Tables.{Tables, get_device}
use unoc_network_simulator.Search.Walks.{Walk, seed, Route, Walk_of_Route, unseen}
use unoc_network_simulator.Search.Flood.Paths.{IsTrailTo, trail_correct}
use unoc_network_simulator.Pathfinding.Networkx.{Networkx, Laws}
use unoc_network_simulator.Pathfinding.{DeviceRecord, collect_devices, is_olt}
use unoc_network_simulator.Dependency.Access.{
  is_available, has_any, shortest_path, optical_graph, access_graph, olt_candidate, olt_candidates,
  has_valid_provisioned_olt_path,
}

module _ (nx : Networkx) (laws : Laws nx) (strip_if0 : ℕ → Option ℕ) where
  -- The neighbours of a node in their order.
  abbrev pub steps : nx.Graph → ℕ → List ℕ
  steps g u = sorted (nx.neighbors g u)

  -- The two nodes are in the graph, and a walk leads from one to the other.
  abbrev pub Connects : nx.Graph → ℕ → ℕ → Type 0
  Connects g a b =
      (is_some (nx.type_of g a) ≡ true)
      × (is_some (nx.type_of g b) ≡ true)
      × Walk (a ∷ []) (steps g) (λ _. true) b

  -- A path along edges, or nothing, and then the nodes are not connected.
  abbrev pub IsPathOrNone : nx.Graph → ℕ → ℕ → Option (List ℕ) → Type 0
  IsPathOrNone g a b none = Connects g a b → ⊥
  IsPathOrNone g a b (some p) = Connects g a b × Route (steps g) a p b

  -- `_shortest_path` ends: with a path along edges from the source to the goal, or with nothing, and
  -- then one of them is not in the graph or no walk leads from the source to the goal.
  pub shortest_path_correct :
      (g : nx.Graph) (a b : ℕ)
      → (r : Option (List ℕ)) × (shortest_path nx strip_if0 g a b ≡ some r) × IsPathOrNone g a b r
  unfolding shortest_path
  shortest_path_correct g a b =
      elim (Bool-cases (is_some (nx.type_of g a) && is_some (nx.type_of g b))) [
        | inr out ↦ (none, rw out refl, λ (ha, hb, walk). absurd (ground (arith, out, ha, hb)))
        | inl inside ↦
            let (r, ends, is) =
              trail_correct (steps g) b a (nx.nodes g)
                (λ u v m.
                  laws.edge_node g u v
                    (sym (laws.neighbor g u v) ∙ (sym (contains-sorted v (nx.neighbors g u)) ∙ m)))
                (unseen (nx.nodes g) (a ∷ []) + 1) (omega arith) in
            (r, rw inside ends, answered r (ground (arith, inside)) (ground (arith, inside)) is)
      ]
    where
      answered :
          (r : Option (List ℕ))
          → is_some (nx.type_of g a) ≡ true
          → is_some (nx.type_of g b) ≡ true
          → IsTrailTo (steps g) b a r
          → IsPathOrNone g a b r
      answered none ha hb h = λ (_, _, walk). h walk
      answered (some p) ha hb h =
          let start : Walk (a ∷ []) (steps g) (λ _. true) a = seed a (ground (arith, ==_refl a)) in
          ((ha, hb, Walk_of_Route (a ∷ []) (steps g) a b p start h), h)

  -- Among the records there is an OLT whose row is provisioned and not forced down, to which the
  -- device is connected in the access graph.
  abbrev pub HasOltParent : Tables → ℕ → List DeviceRecord → Type 0
  HasOltParent t i [] = ⊥
  HasOltParent t i (rec ∷ recs) =
      ((is_olt rec.type ≡ true)
        × (is_available (get_device t.devices rec.id) ≡ true)
        × Connects (access_graph nx strip_if0 t i) i rec.id)
      ⊎ HasOltParent t i recs

  olt_candidate_iff :
      (t : Tables) (i : ℕ) (rec : DeviceRecord)
      → (is_some (olt_candidate nx strip_if0 t i rec) ≡ true) ↔ (
          (is_olt rec.type ≡ true)
          × (is_available (get_device t.devices rec.id) ≡ true)
          × Connects (access_graph nx strip_if0 t i) i rec.id)
  olt_candidate_iff t i rec =
      let (r, ends, is) = shortest_path_correct (access_graph nx strip_if0 t i) i rec.id in
      elim (Bool-cases (is_olt rec.type && is_available (get_device t.devices rec.id))) [
        | inr f ↦ rw f (λ h. absurd (ground arith), λ (a, b, c). absurd (ground (arith, f, a, b)))
        | inl t ↦
            rw (t, ends)
              (λ h. (ground (arith, t), ground (arith, t), there r is h), λ (a, b, c). found r is c)
      ]
    where
      there :
          (r : Option (List ℕ))
          → IsPathOrNone (access_graph nx strip_if0 t i) i rec.id r
          → is_some r ≡ true
          → Connects (access_graph nx strip_if0 t i) i rec.id
      there none is h = absurd (ground arith)
      there (some p) (c, route) h = c

      found :
          (r : Option (List ℕ))
          → IsPathOrNone (access_graph nx strip_if0 t i) i rec.id r
          → Connects (access_graph nx strip_if0 t i) i rec.id
          → is_some r ≡ true
      found none is c = absurd (is c)
      found (some p) is c = refl

  olt_candidates_iff :
      (t : Tables) (i : ℕ) (recs : List DeviceRecord)
      → (has_any (olt_candidates nx strip_if0 t i recs) ≡ true) ↔ HasOltParent t i recs
  olt_candidates_iff t i [] = (λ h. absurd (ground arith), λ h. absurd h)
  olt_candidates_iff t i (rec ∷ recs) =
      let one = olt_candidate_iff t i rec in
      let rest = olt_candidates_iff t i recs in
      elim (Option-cases (olt_candidate nx strip_if0 t i rec)) [
        | inr (p, e) ↦ rw e (λ h. inl (one.0 (ap is_some e)), λ h. refl)
        | inl e ↦ rw e (λ h. inr (rest.0 h), later e one.1 rest.1)
      ]
    where
      later :
          olt_candidate nx strip_if0 t i rec ≡ none
          → ((is_olt rec.type ≡ true)
                × (is_available (get_device t.devices rec.id) ≡ true)
                × Connects (access_graph nx strip_if0 t i) i rec.id
              → is_some (olt_candidate nx strip_if0 t i rec) ≡ true)
          → (HasOltParent t i recs → has_any (olt_candidates nx strip_if0 t i recs) ≡ true)
          → HasOltParent t i (rec ∷ recs)
          → has_any (olt_candidates nx strip_if0 t i recs) ≡ true
      later e one rest (inl h) = absurd (ground (arith, sym (ap is_some e) ∙ one h))
      later e one rest (inr h) = rest h

  -- An ONT may be provisioned under an OLT exactly if it is in the optical graph and an OLT that is
  -- provisioned and not forced down is connected to it through passive devices and OLTs only.
  pub has_valid_provisioned_olt_path_iff :
      (t : Tables) (d : Device)
      → is_ont d.type ≡ true
      → (has_valid_provisioned_olt_path nx strip_if0 t d ≡ true) ↔ (
          (is_some (nx.type_of (optical_graph nx strip_if0 t) d.id) ≡ true)
          × HasOltParent t d.id (collect_devices strip_if0 t.devices))
  unfolding has_valid_provisioned_olt_path
  has_valid_provisioned_olt_path_iff t d is_one =
      let iff = olt_candidates_iff t d.id (collect_devices strip_if0 t.devices) in
      (
        λ h. (ground (arith, h), iff.0 (ground (arith, h))),
        λ (here, parent). ground (arith, is_one, here, iff.1 parent),
      )
