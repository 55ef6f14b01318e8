-- ===== src/Evaluation/PassiveUp.antt =====
-- When a passive device is evaluated as UP.
use unoc_network_simulator.Prelude.{
  ℕ, ◌≡◌, ◌↔◌, refl, Bool, true, false, ◌&&◌, Option, some, List, [], ◌∷◌, ◌++◌, arith, ltb,
  if◌then◌else◌, inl, inr, ◌⊎◌, length, any, then_get, ==_iff,
}
use unoc_network_simulator.Prelude.Sets.{contains, pick, contains-pick}
use unoc_network_simulator.Model.{Status, up, down, DeviceType, is_passive_inline}
use unoc_network_simulator.Model.Tables.{Tables}
use unoc_network_simulator.Search.Walks.{Walk}
use unoc_network_simulator.Search.Sweep.Seek.{seek_iff}
use unoc_network_simulator.Search.Queues.{push_back, push_back-IsPush}
use unoc_network_simulator.Evaluation.Passive.{
  is_upstream, is_terminator, adjacent, neighbors, of_class, passive_next, finds_terminator, owners,
  fuel_for, has_terminator, up_when, eval_passive_status,
}
use unoc_network_simulator.Evaluation.PassiveSearch.{known, near_upstream, chain_iff}

abbrev pub near_terminator : Tables → ℕ → Bool
near_terminator t u = any (of_class is_terminator t) (adjacent t u)

-- Some device is near what is looked for, on a walk over passive devices.
abbrev pub Near : Tables → List ℕ → (ℕ → Bool) → Type 0
Near t from near = (v : ℕ) × Walk from (passive_next t) (λ _. true) v × (near v ≡ true)

terminator_iff :
    (t : Tables) (terminators passives : List ℕ)
    → (b : Bool) × (has_terminator t terminators passives ≡ some b)
      × ((b ≡ true)
          ↔ (((x : ℕ) × (contains x terminators ≡ true)) ⊎ Near t passives (near_terminator t)))
unfolding has_terminator finds_terminator
terminator_iff t (x ∷ xs) passives =
    (true, refl, (λ h. inl (x, ground (arith, ==_iff x x)), λ h. refl))
terminator_iff t [] passives =
    let (b, ends, iff) =
      seek_iff (passive_next t) push_back push_back-IsPush passives
        (λ checked u. near_terminator t u) (near_terminator t) (λ checked u w m. refl)
        (owners t.interfaces) (known t) (fuel_for t passives) passives (λ v. refl) (omega arith) in
    (
      b,
      ends,
      (λ h. inr (iff.0 h), λ c. elim c [ inl (x, m) ↦ absurd (ground arith) | inr n ↦ iff.1 n ]),
    )

-- The status, from the answers of the three tests.
abbrev verdict : Bool → Bool → Bool → Status
verdict few b c = if few then down else up_when (b && c)

verdict-eq :
    (few b : Bool) (o : Option Bool) (c : Bool)
    → o ≡ some c
    → (if few
        then some down
        else elim b [ false ↦ some down | true ↦ then_get o (λ x. some (up_when x)) ])
      ≡ some (verdict few b c)
verdict-eq true b o c h = refl
verdict-eq false true o c h = rw h refl
verdict-eq false false o c h = refl

verdict_up : (few b c : Bool) → (verdict few b c ≡ up) ↔ ((few ≡ false) × (b ≡ true) × (c ≡ true))
verdict_up true b c = (λ h. ground arith, λ (p, q, r). ground arith)
verdict_up false true true = (λ h. (refl, refl, refl), λ h. refl)
verdict_up false true false = (λ h. ground arith, λ (p, q, r). ground arith)
verdict_up false false c = (λ h. ground arith, λ (p, q, r). ground arith)

module _ (t : Tables) (ok : ℕ → Bool) (d : ℕ) where
  abbrev pub around : (DeviceType → Bool) → List ℕ
  around q = pick (of_class q t) (neighbors t d)

  passive_around :
      (i : ℕ) → contains i (around is_passive_inline) ≡ true → of_class is_passive_inline t i ≡ true
  passive_around i h =
      ground (arith, contains-pick (of_class is_passive_inline t) (neighbors t d) i, h)

  -- The evaluation of a passive device ends. It is UP exactly if the device has two neighbours, a walk
  -- over passive devices comes near an upstream device that the resolver finds connected, and a
  -- neighbour is a terminator or a walk from a passive neighbour comes near one.
  pub eval_passive_status_iff :
      (s : Status) × (eval_passive_status t ok d ≡ some s)
      × ((s ≡ up) ↔ (
          (ltb (length (neighbors t d)) 2 ≡ false)
          × Near t
              (around is_upstream ++ around is_passive_inline)
              (near_upstream t ok (around is_upstream))
          × (((x : ℕ) × (contains x (around is_terminator) ≡ true))
              ⊎ Near t (around is_passive_inline) (near_terminator t))))
  unfolding eval_passive_status
  eval_passive_status_iff =
      let (b, chain, upstream) =
        chain_iff t ok (around is_upstream) (around is_passive_inline) passive_around in
      let (c, term, terminator) =
        terminator_iff t (around is_terminator) (around is_passive_inline) in
      (
        verdict (ltb (length (neighbors t d)) 2) b c,
        rw chain (
            verdict-eq (ltb (length (neighbors t d)) 2) b
              (has_terminator t (around is_terminator) (around is_passive_inline)) c term),
        (
          λ h.
              let (two, found, ends) = (verdict_up (ltb (length (neighbors t d)) 2) b c).0 h in
              (two, upstream.0 found, terminator.0 ends),
          λ (two, found, ends).
              (verdict_up (ltb (length (neighbors t d)) 2) b c).1
                (two, upstream.1 found, terminator.1 ends),
        ),
      )
