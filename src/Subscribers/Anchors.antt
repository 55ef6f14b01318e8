-- ===== src/Subscribers/Anchors.antt =====
-- What the search for an anchor answers.
use unoc_network_simulator.Prelude.{
  ℕ, ◌≡◌, refl, ap, sym, subst, ◌∙◌, find_holds, true, false, Option, none, some, List, [], ◌∷◌,
  arith, ◌==◌, Option-cases, inl, inr, ==_iff, then_get,
}
use unoc_network_simulator.Prelude.Sets.{
  contains, add, sorted, contains-append, contains-add, contains-sorted,
}
use unoc_network_simulator.Prelude.Sorting.{contains-sort_by}
use unoc_network_simulator.Model.{Interface, Link, Device}
use unoc_network_simulator.Model.Tables.{
  Tables, get_device, get_interface, interfaces_of, id-get_device,
}
use unoc_network_simulator.Search.Walks.{Walk, unseen-le-length}
use unoc_network_simulator.Search.Flood.First.{IsFirst, first_correct}
use unoc_network_simulator.Search.Queues.{push_back, push_back-IsPush}
use unoc_network_simulator.Subscribers.Defs.{
  Domain, Anchor, sorted_interfaces, ids, interfaces_by_device, link_neighbors, others, sibling_ids,
  port_of, next_ids, is_anchor, ends, all_ports, start_ports, first_anchor, trace_anchor, before,
  anchor_of,
}

contains-link_neighbors :
    (ls : List Link) (i v : ℕ)
    → contains v (link_neighbors ls i) ≡ true
    → contains v (ends ls) ≡ true
unfolding link_neighbors
contains-link_neighbors [] i v h = absurd (ground arith)
contains-link_neighbors (l ∷ ls) i v h = ground (
  arith,
  contains-link_neighbors ls i v,
  contains-add v l.b_interface_id (link_neighbors ls i),
  contains-add v l.a_interface_id (link_neighbors ls i),
  contains-add v l.a_interface_id (add l.b_interface_id (link_neighbors ls i)),
)

contains-others : (i v : ℕ) (xs : List ℕ) → contains v (others i xs) ≡ true → contains v xs ≡ true
contains-others i v [] h = absurd (ground arith)
contains-others i v (x ∷ xs) h = ground (arith, contains-others i v xs)

contains-sorted_interfaces :
    (v : ℕ) (rows : List Interface)
    → contains v (ids (sorted_interfaces rows)) ≡ contains v (ids rows)
unfolding sorted_interfaces
contains-sorted_interfaces v rows = contains-sort_by (λ (r : Interface). r.id) before v rows

contains-interfaces_of :
    (v d : ℕ) (rows : List Interface)
    → contains v (ids (interfaces_of rows d)) ≡ true
    → contains v (ids rows) ≡ true
contains-interfaces_of v d [] h = absurd (ground arith)
contains-interfaces_of v d (r ∷ rs) h = ground (arith, contains-interfaces_of v d rs)

contains-sibling_ids :
    (t : Tables) (iface : Interface) (v : ℕ)
    → contains v (sibling_ids t iface) ≡ true
    → contains v (ids t.interfaces) ≡ true
unfolding sibling_ids
contains-sibling_ids t iface v h =
    let rows = sorted_interfaces t.interfaces in
    let mine = ids (interfaces_by_device t iface.device_id) in
    ground (
      arith,
      contains-others iface.id v mine,
      contains-interfaces_of v iface.device_id rows,
      contains-sorted_interfaces v t.interfaces,
    )

known : (t : Tables) (u v : ℕ) → contains v (next_ids t u) ≡ true → contains v (all_ports t) ≡ true
unfolding next_ids
known t u v h = elim (Option-cases (port_of t u)) [
  | inl gone ↦ absurd (ground (arith, gone))
  | inr ((iface, device), e) ↦
      let linked = sorted (link_neighbors t.links u) in
      ground (
        arith,
        e,
        contains-append v linked (sibling_ids t iface),
        contains-append v (ends t.links) (ids t.interfaces),
        contains-sorted v (link_neighbors t.links u),
        contains-link_neighbors t.links u v,
        contains-sibling_ids t iface v,
      )
]

-- The interfaces that a subscriber's signal can come to: its own, and from there along links and
-- through subscribers and passive devices.
abbrev pub Reaches : Tables → ℕ → ℕ → Type 0
Reaches t d i = Walk (start_ports t d) (next_ids t) (λ _. true) i

-- An anchor that is answered is a port that can be reached and is an anchor, with its device; if
-- none is answered, no port that can be reached is one.
abbrev pub IsAnchorFor : Domain → Tables → ℕ → Option Anchor → Type 0
IsAnchorFor dom t d none = (i : ℕ) → Reaches t d i → is_anchor dom t i ≡ false
IsAnchorFor dom t d (some a) =
    Reaches t d a.interface_id
    × (is_anchor dom t a.interface_id ≡ true)
    × ((iface : Interface) × (get_interface t.interfaces a.interface_id ≡ some iface)
        × (iface.device_id ≡ a.device_id))

first_anchor_ends :
    (dom : Domain) (t : Tables) (d : ℕ)
    → (r : Option ℕ) × (first_anchor dom t d ≡ some r)
      × IsFirst (next_ids t) (λ _. true) push_back (is_anchor dom t) (start_ports t d) r
unfolding first_anchor
first_anchor_ends dom t d =
    let own = start_ports t d in
    first_correct (next_ids t) (λ _. true) push_back push_back-IsPush (is_anchor dom t)
      (all_ports t) own (known t) _ own (λ v. refl)
      (omega (arith, unseen-le-length (all_ports t) own))

-- The row of a port has the port's key, and its device the key that the row names.
port_of-keys :
    (t : Tables) (i : ℕ) (iface : Interface) (device : Device)
    → port_of t i ≡ some (iface, device)
    → (get_interface t.interfaces i ≡ some iface) × (iface.id ≡ i) × (iface.device_id ≡ device.id)
port_of-keys t i iface device h = elim (Option-cases (get_interface t.interfaces i)) [
  | inl gone ↦ absurd (ground (arith, gone))
  | inr (r, e) ↦ elim (Option-cases (get_device t.devices r.device_id)) [
    | inl gone ↦ absurd (ground (arith, e, gone))
    | inr (dv, k) ↦
        let found : some (r, dv) ≡ some (iface, device) = ground (arith, e, k, h) in
        let same : (r, dv) ≡ (iface, device) =
          ap (λ (o : Option (Interface × Device)). elim o [ none ↦ (r, dv) | some z ↦ z ]) found in
        let row = e ∙ ap (λ (z : Interface × Device). some z.0) same in
        (
          row,
          (==_iff iface.id i).0 (find_holds (λ (x : Interface). x.id == i) t.interfaces iface row),
          (ap (λ (z : Interface × Device). z.0.device_id) (sym same)
              ∙ (sym (id-get_device t.devices r.device_id dv k)
                  ∙ ap (λ (z : Interface × Device). z.1.id) same)),
        )
  ]
]

traced :
    (dom : Domain) (t : Tables) (d : ℕ) (r : Option ℕ)
    → first_anchor dom t d ≡ some r
    → trace_anchor dom t d
      ≡ then_get r λ i. then_get (port_of t i) λ (iface, device). some (anchor_of dom iface device)
unfolding trace_anchor
traced dom t d r e = rw (e, trace_anchor) refl

answered :
    (dom : Domain) (t : Tables) (d : ℕ) (r : Option ℕ)
    → first_anchor dom t d ≡ some r
    → IsFirst (next_ids t) (λ _. true) push_back (is_anchor dom t) (start_ports t d) r
    → IsAnchorFor dom t d (trace_anchor dom t d)
answered dom t d none e is = subst (IsAnchorFor dom t d) (sym (traced dom t d none e)) is
answered dom t d (some i) e (walk, hit) = elim (Option-cases (port_of t i)) [
  | inl gone ↦ absurd (ground (arith, gone, hit))
  | inr ((iface, device), k) ↦
      let (row, key, owner) = port_of-keys t i iface device k in
      let at : trace_anchor dom t d ≡ some (anchor_of dom iface device) =
        traced dom t d (some i) e ∙ rw k refl in
      let found : IsAnchorFor dom t d (some (anchor_of dom iface device)) = (
        subst (Reaches t d) (sym key) walk,
        subst (λ (j : ℕ). is_anchor dom t j ≡ true) (sym key) hit,
        (iface, subst (λ (j : ℕ). get_interface t.interfaces j ≡ some iface) (sym key) row, owner),
      ) in
      subst (IsAnchorFor dom t d) (sym at) found
]

-- `trace_anchor` ends, whatever the tables: with an anchor of the domain that the subscriber's
-- signal can come to from one of its interfaces, along links and through the other interfaces of
-- subscribers and passive devices, and with the device of that anchor; or with nothing, and then no
-- interface that the signal can come to is an anchor of the domain.
pub trace_anchor_correct :
    (dom : Domain) (t : Tables) (d : ℕ) → IsAnchorFor dom t d (trace_anchor dom t d)
trace_anchor_correct dom t d = let (r, e, is) = first_anchor_ends dom t d in answered dom t d r e is
