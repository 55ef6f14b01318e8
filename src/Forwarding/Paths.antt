-- ===== src/Forwarding/Paths.antt =====
-- The hops that `resolve_flow_path` of forwarding_service.py returns, and their number.
use unoc_network_simulator.Prelude.{
  ℕ, zero, suc, ◌+◌, ◌≤◌, ◌≡◌, refl, sym, ap, ◌∙◌, ◌⊎◌, inl, inr, true, false, Option, none, some,
  List, [], ◌∷◌, ◌++◌, ◌||◌, arith, ◌==◌, length, length-append, Bool-cases, Option-cases, ==_iff,
  find, find_holds,
}
use unoc_network_simulator.Model.{Interface, Link, is_up}
use unoc_network_simulator.Model.Tables.{Tables, get_interface, peer_interface_id}
use unoc_network_simulator.Forwarding.Bridge.{MacAddressEntry}
use unoc_network_simulator.Forwarding.Flow.{
  Flow, Verdict, drop, forward, MetaAction, Fabric, step, Peer, find_peer_interface, Move, dropped,
  delivered, crosses, over_link, move_of, HopMetadata, at_port, next_flow, metadata, walk_flow,
  resolve_flow_path, DropReason,
}

-- A link that is up, between an interface and the one that the peer names.
pub record Crossing (t : Tables) (i : ℕ) (p : Peer) : Type 0 where
  pub link : Link
  pub found : find (λ ln. ln.a_interface_id == i || ln.b_interface_id == i) t.links ≡ some link
  pub live : is_up link.status ≡ true
  pub far_end : p.interface_id ≡ peer_interface_id link i
  pub row : Interface
  pub is_row : get_interface t.interfaces (peer_interface_id link i) ≡ some row
  pub device : row.device_id ≡ p.device_id

-- The hops after a hop: none, the delivery out of a port, or the far end of a link and what follows.
pub data Chained (w : Fabric) : Flow → List Flow → Type 0 where
  ends : (f : Flow) → Chained w f []
  leaves : (f : Flow) (i : ℕ) → Chained w f (at_port f i ∷ [])
  hops_over :
      (f : Flow) (i : ℕ) (p : Peer) (rest : List Flow)
      → Crossing w.tables i p
      → Chained w (next_flow f p) rest
      → Chained w f (next_flow f p ∷ rest)

find_peer-Crossing :
    (t : Tables) (i : ℕ) (p : Peer) → find_peer_interface t i ≡ some p → Crossing t i p
unfolding find_peer_interface
find_peer-Crossing t i p h =
    elim (Option-cases (find (λ ln. ln.a_interface_id == i || ln.b_interface_id == i) t.links)) [
      | inl gone ↦ absurd (ground arith)
      | inr (ln, e) ↦ elim (Option-cases (get_interface t.interfaces (peer_interface_id ln i))) [
        | inl gone ↦ absurd (ground arith)
        | inr (r, g) ↦ elim (Bool-cases (is_up ln.status)) [
          | inl t_up ↦
              let id : r.id ≡ peer_interface_id ln i =
                (==_iff r.id (peer_interface_id ln i)).0
                  (find_holds (λ x. x.id == peer_interface_id ln i) t.interfaces r g) in
              let at_id : r.id ≡ p.interface_id = ground arith in
              let at_dev : r.device_id ≡ p.device_id = ground arith in
              record {
                link = ln;
                found = e;
                live = t_up;
                far_end = sym at_id ∙ id;
                row = r;
                is_row = g;
                device = at_dev;
              }
          | inr f_up ↦ absurd (ground arith)
        ]
      ]
    ]

over_link-Crossing :
    (t : Tables) (i j : ℕ) (m n : MetaAction) (o : Option Peer) (p : Peer)
    → find_peer_interface t i ≡ o
    → over_link i m o ≡ crosses j n p
    → Crossing t i p
over_link-Crossing t i j m n none p e h = ground arith
over_link-Crossing t i j m n (some q) p e h =
    elim (Bool-cases (q.interface_id == 0 || q.device_id == 0)) [
      | inl empty ↦ absurd (ground arith)
      | inr full ↦ find_peer-Crossing t i p (ground arith)
    ]

-- The egress interface, and a crossing from it, of a verdict that goes on.
move-Crossing :
    (t : Tables) (v : Verdict) (i : ℕ) (m : MetaAction) (p : Peer)
    → move_of t v ≡ crosses i m p
    → (j : ℕ) × Crossing t j p
move-Crossing t (drop r n) i m p h = ground arith
move-Crossing t (forward zero here n) i m p h = ground arith
move-Crossing t (forward (suc j) true n) i m p h = ground arith
move-Crossing t (forward (suc j) false n) i m p h =
    (suc j, over_link-Crossing t (suc j) i n m (find_peer_interface t (suc j)) p refl h)

Move-cases :
    (v : Move)
    → (((r : DropReason) × (m : MetaAction) × (v ≡ dropped r m))
        ⊎ ((i : ℕ) × (m : MetaAction) × (v ≡ delivered i m)))
      ⊎ ((i : ℕ) × (m : MetaAction) × (p : Peer) × (v ≡ crosses i m p))
Move-cases (dropped r m) = inl (inl (r, m, refl))
Move-cases (delivered i m) = inl (inr (i, m, refl))
Move-cases (crosses i m p) = inr (i, m, p, refl)

snoc_append : (xs : List Flow) (y : Flow) (zs : List Flow) → (xs ++ y ∷ []) ++ zs ≡ xs ++ y ∷ zs
snoc_append [] y zs = refl
snoc_append (x ∷ xs) y zs = ap (λ l. x ∷ l) (snoc_append xs y zs)

++_nil : (xs : List Flow) → xs ++ [] ≡ xs
++_nil [] = refl
++_nil (x ∷ xs) = ap (λ l. x ∷ l) (++_nil xs)

module _ (w : Fabric) where
  walk_flow-Chained :
      (k : ℕ) (rows : List MacAddressEntry) (hops : List Flow) (ms : List HopMetadata) (f : Flow)
      → (rest : List Flow) × ((walk_flow w k rows hops ms f).0.hops ≡ hops ++ rest)
        × Chained w f rest
  unfolding walk_flow
  walk_flow-Chained zero rows hops ms f = ([], sym (++_nil hops), ends f)
  walk_flow-Chained (suc k) rows hops ms f =
      elim (Move-cases (move_of w.tables (step w rows f).0)) [
        | inl (inl (r, m, e)) ↦ ([], rw (e, walk_flow) (sym (++_nil hops)), ends f)
        | inl (inr (i, m, e)) ↦ (at_port f i ∷ [], rw (e, walk_flow) refl, leaves f i)
        | inr (i, m, p, e) ↦
            let (rest, same, chain) =
              walk_flow-Chained k (step w rows f).1 (hops ++ next_flow f p ∷ [])
                (ms ++ metadata w f m (some i) false none (some p.link_id) ∷ []) (next_flow f p) in
            let (j, c) = move-Crossing w.tables (step w rows f).0 i m p e in
            (
              next_flow f p ∷ rest,
              rw (e, walk_flow) (same ∙ snoc_append hops (next_flow f p) rest),
              hops_over f j p rest c chain,
            )
      ]

  walk_flow-le :
      (k : ℕ) (rows : List MacAddressEntry) (hops : List Flow) (ms : List HopMetadata) (f : Flow)
      → (length (walk_flow w k rows hops ms f).0.hops ≤ length hops + k)
        × (length (walk_flow w k rows hops ms f).0.hop_metadata ≤ length ms + k)
  unfolding walk_flow
  walk_flow-le zero rows hops ms f = (omega arith, omega arith)
  walk_flow-le (suc k) rows hops ms f = elim (Move-cases (move_of w.tables (step w rows f).0)) [
    | inl (inl (r, m, e)) ↦
        let last = metadata w f m none false (some r) none in
        rw (e, walk_flow) (omega arith, omega (arith, length-append ms (last ∷ [])))
    | inl (inr (i, m, e)) ↦
        let last = metadata w f m (some i) true none none in
        rw (e, walk_flow)
          (
            omega (arith, length-append hops (at_port f i ∷ [])),
            omega (arith, length-append ms (last ∷ [])),
          )
    | inr (i, m, p, e) ↦
        let last = metadata w f m (some i) false none (some p.link_id) in
        let (shorter, fewer) =
          walk_flow-le k (step w rows f).1 (hops ++ next_flow f p ∷ []) (ms ++ last ∷ [])
            (next_flow f p) in
        rw (e, walk_flow)
          (
            omega (arith, shorter, length-append hops (next_flow f p ∷ [])),
            omega (arith, fewer, length-append ms (last ∷ [])),
          )
  ]

  -- The hops of a resolved path start with the given flow, and each of them but a last delivery is
  -- the far end of a link that is up.
  pub resolve_flow_path-Chained :
      (rows : List MacAddressEntry) (f : Flow) (ttl : ℕ)
      → (rest : List Flow) × ((resolve_flow_path w rows f ttl).0.hops ≡ f ∷ rest) × Chained w f rest
  unfolding resolve_flow_path
  resolve_flow_path-Chained rows f ttl = walk_flow-Chained ttl rows (f ∷ []) [] f

  -- A resolved path has at most as many hops after the first as the TTL, and as many entries of
  -- metadata.
  pub resolve_flow_path-le :
      (rows : List MacAddressEntry) (f : Flow) (ttl : ℕ)
      → (length (resolve_flow_path w rows f ttl).0.hops ≤ 1 + ttl)
        × (length (resolve_flow_path w rows f ttl).0.hop_metadata ≤ ttl)
  unfolding resolve_flow_path
  resolve_flow_path-le rows f ttl =
      let (few, fewer) = walk_flow-le ttl rows (f ∷ []) [] f in (few, omega (arith, fewer))
