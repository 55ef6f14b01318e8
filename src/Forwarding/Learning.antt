-- ===== src/Forwarding/Learning.antt =====
-- What a switch learns from a frame, and where it then sends frames.
use unoc_network_simulator.Prelude.{
  ℕ, ◌≡◌, refl, ap, sym, ◌∙◌, false, not, ◌&&◌, Option, none, some, List, [], ◌∷◌, arith, ◌==◌,
  if◌then◌else◌, Bool-cases, Option-cases, either_way, Bool, inl, inr, then_get, any, subst,
}
use unoc_network_simulator.Prelude.Sets.{contains}
use unoc_network_simulator.Model.{Interface}
use unoc_network_simulator.Forwarding.Bridge.{
  BridgeDomain, MacAddressEntry, Bridges, Frame, FrameAction, forward_to, flood_to, broadcast,
  default_domain, in_domain, entry_of, is_entry_of, learn, flood_ports, port_or_flood, forwarding,
  process_frame,
}

-- The interface that a table has for a MAC address in a domain.
abbrev pub port_of : List MacAddressEntry → ℕ → ℕ → Option ℕ
port_of rows bd mac = then_get (entry_of rows bd mac) (λ e. some e.interface_id)

pub port_of-learn :
    (rows : List MacAddressEntry) (bd mac i bd' mac' : ℕ)
    → port_of (learn rows bd mac i) bd' mac'
      ≡ (if bd == bd' && mac == mac' then some i else port_of rows bd' mac')
unfolding learn
port_of-learn [] bd mac i bd' mac' = ground arith
port_of-learn (e ∷ es) bd mac i bd' mac' = ground (arith, port_of-learn es bd mac i bd' mac')

-- At most one row for a domain and an address, `uq_mac_bd_mac`.
abbrev pub IsKeyed : List MacAddressEntry → Type 0
IsKeyed [] = Unit {0}
IsKeyed (e ∷ es) = (entry_of es e.bridge_domain_id e.mac_address ≡ none) × IsKeyed es

pub absent-learn :
    (rows : List MacAddressEntry) (bd mac i bd' mac' : ℕ)
    → entry_of rows bd' mac' ≡ none
    → (bd == bd' && mac == mac') ≡ false
    → entry_of (learn rows bd mac i) bd' mac' ≡ none
unfolding learn
absent-learn [] bd mac i bd' mac' h k = ground arith
absent-learn (e ∷ es) bd mac i bd' mac' h k = ground (arith, absent-learn es bd mac i bd' mac')

pub learn-IsKeyed :
    (rows : List MacAddressEntry) (bd mac i : ℕ) → IsKeyed rows → IsKeyed (learn rows bd mac i)
unfolding learn
learn-IsKeyed [] bd mac i h = (refl, tt)
learn-IsKeyed (e ∷ es) bd mac i (fresh, rest) = elim (Bool-cases (is_entry_of bd mac e)) [
  | inl t ↦ rw t (fresh, rest)
  | inr f ↦ rw f (
    absent-learn es bd mac i e.bridge_domain_id e.mac_address fresh (ground arith),
    learn-IsKeyed es bd mac i rest,
  )
]

-- A frame and the interface that it comes in by.
pub record Sighting : Type 0 where
  pub ingress : ℕ
  pub frame : Frame

-- The table of a switch that gets frames one after another.
abbrev pub run_frames : Bridges → List MacAddressEntry → ℕ → List Sighting → List MacAddressEntry
run_frames b rows device [] = rows
run_frames b rows device (s ∷ ss) =
    run_frames b (process_frame b rows device s.ingress s.frame).1 device ss

-- The interface by which a MAC address last sent a frame, from a start.
abbrev pub last_seen : List Sighting → ℕ → Option ℕ → Option ℕ
last_seen [] mac start = start
last_seen (s ∷ ss) mac start =
    last_seen ss mac (if s.frame.source_mac == mac then some s.ingress else start)

abbrev pub to_port : Option ℕ → List ℕ → FrameAction
to_port (some i) ps = forward_to i
to_port none ps = flood_to ps

port_or_flood-eq :
    (o : Option MacAddressEntry) (ps : List ℕ)
    → port_or_flood o ps ≡ to_port (then_get o (λ e. some e.interface_id)) ps
port_or_flood-eq none ps = refl
port_or_flood-eq (some e) ps = refl

module _ (b : Bridges) (device : ℕ) (d : BridgeDomain)
    (here : default_domain b.domains device ≡ some d) where
  learns :
      (rows : List MacAddressEntry) (i : ℕ) (f : Frame)
      → (process_frame b rows device i f).1 ≡ learn rows d.id f.source_mac i
  unfolding process_frame
  learns rows i f = rw here refl

  learns_all :
      (ss : List Sighting) (rows : List MacAddressEntry) (bd mac : ℕ)
      → port_of (run_frames b rows device ss) bd mac
        ≡ (if d.id == bd then last_seen ss mac (port_of rows bd mac) else port_of rows bd mac)
  learns_all [] rows bd mac = either_way (λ o. port_of rows bd mac ≡ o) (d.id == bd) _ _ refl refl
  learns_all (s ∷ ss) rows bd mac = rw (learns rows s.ingress s.frame) (
      learns_all ss (learn rows d.id s.frame.source_mac s.ingress) bd mac
      ∙ rw (port_of-learn rows d.id s.frame.source_mac s.ingress bd mac)
          (elim (Bool-cases (d.id == bd)) [
            | inl same ↦ rw same (ap (last_seen ss mac) (ground arith))
            | inr other ↦ rw other refl
          ]))

  -- No run of frames makes two rows for one address of a domain.
  pub run_frames-IsKeyed :
      (ss : List Sighting) (rows : List MacAddressEntry)
      → IsKeyed rows
      → IsKeyed (run_frames b rows device ss)
  run_frames-IsKeyed [] rows h = h
  run_frames-IsKeyed (s ∷ ss) rows h =
      run_frames-IsKeyed ss (process_frame b rows device s.ingress s.frame).1 (
        subst (λ (l : List MacAddressEntry). IsKeyed l) (sym (learns rows s.ingress s.frame))
          (learn-IsKeyed rows d.id s.frame.source_mac s.ingress h))

  -- A frame to an address goes out by the interface by which the address last sent a frame, this
  -- frame included, and a broadcast and a frame to an address never seen are flooded.
  pub process_frame-last_seen :
      (rows : List MacAddressEntry) (i : ℕ) (f : Frame)
      → (process_frame b rows device i f).0
        ≡ to_port
            (if f.destination_mac == broadcast
              then none
              else if f.source_mac == f.destination_mac
              then some i
              else port_of rows d.id f.destination_mac)
            (flood_ports b.ports d.id i)
  unfolding process_frame forwarding
  process_frame-last_seen rows i f =
      let ps = flood_ports b.ports d.id i in
      let dst = f.destination_mac in
      rw here (elim (Bool-cases (f.destination_mac == broadcast)) [
        | inl t ↦ ground arith
        | inr n ↦ rw n (
            port_or_flood-eq (entry_of (learn rows d.id f.source_mac i) d.id dst) ps
            ∙ ap (λ o. to_port o ps)
                (ground (arith, port_of-learn rows d.id f.source_mac i d.id dst)))
      ])

drops_all :
    (b : Bridges) (device : ℕ) (ss : List Sighting) (rows : List MacAddressEntry)
    → default_domain b.domains device ≡ none
    → run_frames b rows device ss ≡ rows
unfolding process_frame
drops_all b device [] rows h = refl
drops_all b device (s ∷ ss) rows h =
    ap (λ (l : List MacAddressEntry). run_frames b l device ss) (rw h refl)
    ∙ drops_all b device ss rows h

-- The device's own bridge domain is the one asked for.
abbrev pub is_default : Option BridgeDomain → ℕ → Bool
is_default none bd = false
is_default (some d) bd = d.id == bd

-- However many frames a switch gets, its table has for each address in its own bridge domain the
-- interface by which the address last sent a frame, or else the interface that it had at the start;
-- for other domains, and for all if the switch has no bridge domain, it has what it had at the start.
pub port_of-run_frames :
    (b : Bridges) (device : ℕ) (ss : List Sighting) (rows : List MacAddressEntry) (bd mac : ℕ)
    → port_of (run_frames b rows device ss) bd mac ≡ (
        if is_default (default_domain b.domains device) bd
        then last_seen ss mac (port_of rows bd mac)
        else port_of rows bd mac)
port_of-run_frames b device ss rows bd mac = elim (Option-cases (default_domain b.domains device)) [
  | inl nowhere ↦
      rw nowhere
        (ap (λ (l : List MacAddressEntry). port_of l bd mac) (drops_all b device ss rows nowhere))
  | inr (d, here) ↦ rw here (learns_all b device d here ss rows bd mac)
]

-- A flood goes to the interfaces of the domain, and never back to where the frame came in.
pub contains-flood_ports :
    (rows : List Interface) (bd i x : ℕ)
    → contains x (flood_ports rows bd i)
      ≡ (not (x == i) && any (λ r. r.id == x && in_domain bd r.bridge_domain_id) rows)
unfolding flood_ports
contains-flood_ports [] bd i x = ground arith
contains-flood_ports (r ∷ rs) bd i x = ground (arith, contains-flood_ports rs bd i x)
