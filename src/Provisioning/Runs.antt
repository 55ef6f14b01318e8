-- ===== src/Provisioning/Runs.antt =====
-- The addresses that a run of `provision_device` of backend/provisioning.py hands out.
use unoc_network_simulator.Prelude.{
  ℕ, suc, ◌+◌, ◌≤◌, ◌<◌, ◌≡◌, ◌⊎◌, refl, ap, sym, ◌∙◌, subst, true, false, Option, none, some, List,
  [], ◌∷◌, arith, ◌==◌, ltb, if◌then◌else◌, Bool-cases, inl, inr, ==_iff, ℕ-cases, either_way,
}
use unoc_network_simulator.Prelude.Sets.{contains}
use unoc_network_simulator.Prelude.Sorting.{Every}
use unoc_network_simulator.Model.{Device, Net}
use unoc_network_simulator.Addressing.Prefixes.{first_host, host_count}
use unoc_network_simulator.Addressing.Pools.{
  PoolKey, core_mgmt, access_mgmt, ont_mgmt, cpe_mgmt, IpPool, advanced, allocate,
}
use unoc_network_simulator.Addressing.MacUnique.{IsDistinct}
use unoc_network_simulator.Provisioning.Defs.{
  Provisionee, ProvisionError, Provisioned, raised, done, same_key, pool_def, ensure_pool,
  write_pool, provision_device,
}
use unoc_network_simulator.Provisioning.Outcomes.{provision_device-Success}

-- The devices of the tables at that time, and the device that is to be provisioned.
pub record Request : Type 0 where
  pub rows : List Device
  pub target : Provisionee

abbrev pub with_address : Option ℕ → List ℕ → List ℕ
with_address none ips = ips
with_address (some ip) ips = ip ∷ ips

-- The addresses that a run hands out; a request that raises leaves the pools as they were.
abbrev pub run_provisions : List Request → List IpPool → List ℕ
run_provisions [] pools = []
run_provisions (q ∷ qs) pools = elim (provision_device q.rows pools q.target) [
  | raised e ↦ run_provisions qs pools
  | done ip d pools' ↦ with_address ip (run_provisions qs pools')
]

-- A row has the network that its key stands for, and starts at the first host.
abbrev pub IsStandard : IpPool → Type 0
IsStandard p = (p.cidr ≡ pool_def p.pool_key) × (1 ≤ p.next_index)

abbrev pub AreStandard : List IpPool → Type 0
AreStandard pools = Every IsStandard pools

same_key-eq : (a b : PoolKey) → same_key a b ≡ true → a ≡ b
same_key-eq core_mgmt core_mgmt h = refl
same_key-eq core_mgmt access_mgmt h = absurd (ground arith)
same_key-eq core_mgmt ont_mgmt h = absurd (ground arith)
same_key-eq core_mgmt cpe_mgmt h = absurd (ground arith)
same_key-eq access_mgmt core_mgmt h = absurd (ground arith)
same_key-eq access_mgmt access_mgmt h = refl
same_key-eq access_mgmt ont_mgmt h = absurd (ground arith)
same_key-eq access_mgmt cpe_mgmt h = absurd (ground arith)
same_key-eq ont_mgmt core_mgmt h = absurd (ground arith)
same_key-eq ont_mgmt access_mgmt h = absurd (ground arith)
same_key-eq ont_mgmt ont_mgmt h = refl
same_key-eq ont_mgmt cpe_mgmt h = absurd (ground arith)
same_key-eq cpe_mgmt core_mgmt h = absurd (ground arith)
same_key-eq cpe_mgmt access_mgmt h = absurd (ground arith)
same_key-eq cpe_mgmt ont_mgmt h = absurd (ground arith)
same_key-eq cpe_mgmt cpe_mgmt h = refl

same_key_refl : (k : PoolKey) → same_key k k ≡ true
same_key_refl core_mgmt = refl
same_key_refl access_mgmt = refl
same_key_refl ont_mgmt = refl
same_key_refl cpe_mgmt = refl

-- The hosts of two pools
abbrev low : PoolKey → ℕ
low k = first_host (pool_def k)

abbrev high : PoolKey → ℕ
high k = first_host (pool_def k) + host_count (pool_def k)

apart :
    (k j : PoolKey) (a : ℕ)
    → same_key k j ≡ false
    → low k ≤ a
    → a < high k
    → low j ≤ a
    → a < high j
    → ⊥
apart core_mgmt core_mgmt a h p q r s = absurd (ground arith)
apart core_mgmt access_mgmt a h p q r s = omega arith
apart core_mgmt ont_mgmt a h p q r s = omega arith
apart core_mgmt cpe_mgmt a h p q r s = omega arith
apart access_mgmt core_mgmt a h p q r s = omega arith
apart access_mgmt access_mgmt a h p q r s = absurd (ground arith)
apart access_mgmt ont_mgmt a h p q r s = omega arith
apart access_mgmt cpe_mgmt a h p q r s = omega arith
apart ont_mgmt core_mgmt a h p q r s = omega arith
apart ont_mgmt access_mgmt a h p q r s = omega arith
apart ont_mgmt ont_mgmt a h p q r s = absurd (ground arith)
apart ont_mgmt cpe_mgmt a h p q r s = omega arith
apart cpe_mgmt core_mgmt a h p q r s = omega arith
apart cpe_mgmt access_mgmt a h p q r s = omega arith
apart cpe_mgmt ont_mgmt a h p q r s = omega arith
apart cpe_mgmt cpe_mgmt a h p q r s = absurd (ground arith)

-- What the pool of a key has, and what is written

ensure_pool-IsStandard :
    (pools : List IpPool) (k : PoolKey)
    → AreStandard pools
    → ((ensure_pool pools k).pool_key ≡ k)
      × ((ensure_pool pools k).cidr ≡ pool_def k)
      × (1 ≤ (ensure_pool pools k).next_index)
ensure_pool-IsStandard [] k h = (refl, refl, omega arith)
ensure_pool-IsStandard (q ∷ qs) k ((net, one), h) = elim (Bool-cases (same_key q.pool_key k)) [
  | inl here ↦
      let key = same_key-eq q.pool_key k here in
      rw (here, ensure_pool) (key, net ∙ ap pool_def key, one)
  | inr away ↦ rw (away, ensure_pool) (ensure_pool-IsStandard qs k h)
]

write_pool-IsStandard :
    (pools : List IpPool) (p : IpPool)
    → IsStandard p
    → AreStandard pools
    → AreStandard (write_pool pools p)
write_pool-IsStandard [] p new h = (new, tt)
write_pool-IsStandard (q ∷ qs) p new (one, h) =
    either_way AreStandard (same_key q.pool_key p.pool_key) _ _ (new, h)
      (one, write_pool-IsStandard qs p new h)

ensure_pool-write_pool :
    (pools : List IpPool) (p : IpPool) (k : PoolKey)
    → ensure_pool (write_pool pools p) k
      ≡ (if same_key p.pool_key k then p else ensure_pool pools k)
ensure_pool-write_pool [] p k = elim (Bool-cases (same_key p.pool_key k)) [
  | inl here ↦ rw (here, ensure_pool) refl
  | inr away ↦ rw (away, ensure_pool) refl
]
ensure_pool-write_pool (q ∷ qs) p k = elim (Bool-cases (same_key q.pool_key p.pool_key)) [
  | inl same ↦
      let key : q.pool_key ≡ p.pool_key = same_key-eq q.pool_key p.pool_key same in
      elim (Bool-cases (same_key p.pool_key k)) [
        | inl here ↦ rw (same, here, ensure_pool) refl
        | inr away ↦
            let q_away : same_key q.pool_key k ≡ false =
              ap (λ (j : PoolKey). same_key j k) key ∙ away in
            rw (same, away, ensure_pool) (rw q_away refl)
      ]
  | inr other ↦ elim (Bool-cases (same_key q.pool_key k)) [
    | inr away ↦ rw (other, away, ensure_pool) (ensure_pool-write_pool qs p k)
    | inl here ↦
        let key : q.pool_key ≡ k = same_key-eq q.pool_key k here in
        let p_away : same_key p.pool_key k ≡ false = elim (Bool-cases (same_key p.pool_key k)) [
          | inr f ↦ f
          | inl t ↦
              let twin : p.pool_key ≡ k = same_key-eq p.pool_key k t in
              absurd (
                ground (
                  arith,
                  other,
                  ap (λ (j : PoolKey). same_key q.pool_key j) (twin ∙ sym key),
                  same_key_refl q.pool_key,
                ))
        ] in
        rw (other, here, p_away, ensure_pool) refl
  ]
]

-- The next address of the pool of a key, and the pool after it is taken.
record IsNext (pools : List IpPool) (k : PoolKey) (a : ℕ) (p : IpPool) : Type 0 where
  key : p.pool_key ≡ k
  net : p.cidr ≡ pool_def k
  next : low k + p.next_index ≡ suc (suc a)
  old : low k + (ensure_pool pools k).next_index ≡ suc a
  lower : low k ≤ a
  upper : a < high k

some_pair :
    (x y : ℕ) (p q : IpPool)
    → ◌≡◌ {A = Option (ℕ × IpPool)} (some (x, p)) (some (y, q))
    → (x ≡ y) × (p ≡ q)
some_pair x y p q h = (
  ap (λ (o : Option (ℕ × IpPool)). elim o [ none ↦ x | some r ↦ r.0 ]) h,
  ap (λ (o : Option (ℕ × IpPool)). elim o [ none ↦ p | some r ↦ r.1 ]) h,
)

allocate-IsNext :
    (pools : List IpPool) (k : PoolKey) (a : ℕ) (p : IpPool)
    → AreStandard pools
    → allocate (ensure_pool pools k) ≡ some (a, p)
    → IsNext pools k a p
unfolding allocate
allocate-IsNext pools k a p standard h =
    let e = ensure_pool pools k in
    let (key, net, one) = ensure_pool-IsStandard pools k standard in
    elim (ℕ-cases e.next_index) [
      | inl zero_it_is ↦ absurd (omega (arith, one, zero_it_is))
      | inr (i, at) ↦ elim (Bool-cases (ltb i (host_count e.cidr))) [
        | inr out ↦ absurd (ground (arith, rw (at, out) at h))
        | inl inside ↦
            let taken : ◌≡◌ {A = Option (ℕ × IpPool)} (some (first_host e.cidr + i, advanced e))
                (some (a, p)) =
              rw (at, inside) at h in
            let (is_a, is_p) = some_pair _ a _ p taken in
            let start : first_host e.cidr ≡ low k = ap first_host net in
            let room : i < host_count (pool_def k) =
              subst (λ (n : Net). i < host_count n) net (ground (arith, inside)) in
            record {
              key = ap (λ (q : IpPool). q.pool_key) (sym is_p) ∙ key;
              net = ap (λ (q : IpPool). q.cidr) (sym is_p) ∙ net;
              next = omega (arith, ap (λ (q : IpPool). q.next_index) is_p, at, is_a, start);
              old = omega (arith, at, is_a, start);
              lower = omega (arith, is_a, start);
              upper = omega (arith, is_a, start, room);
            }
      ]
    ]

-- An address is a host of some pool that the pool has still to hand out.
record IsAhead (pools : List IpPool) (a : ℕ) : Type 0 where
  key : PoolKey
  from_next : low key + (ensure_pool pools key).next_index ≤ suc a
  below : a < high key

-- The pools after an address of a key was taken.
module _ (pools : List IpPool) (k : PoolKey) (a : ℕ) (p : IpPool) (standard : AreStandard pools)
    (next : IsNext pools k a p) where
  written-AreStandard : AreStandard (write_pool pools p)
  written-AreStandard =
      write_pool-IsStandard pools p
        (next.net ∙ ap pool_def (sym next.key), omega (arith, next.next, next.lower)) standard

  -- The pool of a key, by whether it is the one that was written.
  index_of :
      (j : PoolKey)
      → ((same_key k j ≡ true)
          × (low j + (ensure_pool (write_pool pools p) j).next_index ≡ suc (suc a)))
        ⊎ ((same_key k j ≡ false) × (ensure_pool (write_pool pools p) j ≡ ensure_pool pools j))
  index_of j =
      let found : ensure_pool (write_pool pools p) j
          ≡ (if same_key k j then p else ensure_pool pools j) =
        ensure_pool-write_pool pools p j
        ∙ ap (λ (x : PoolKey). if same_key x j then p else ensure_pool pools j) next.key in
      elim (Bool-cases (same_key k j)) [
        | inl here ↦
            let it : ensure_pool (write_pool pools p) j ≡ p = found ∙ rw here refl in
            let same : low k ≡ low j = ap low (same_key-eq k j here) in
            inl (here, omega (arith, ap (λ (q : IpPool). q.next_index) it, same, next.next))
        | inr away ↦ inr (away, found ∙ rw away refl)
      ]

  still-IsAhead : (b : ℕ) → IsAhead (write_pool pools p) b → IsAhead pools b
  still-IsAhead b h = elim (index_of h.key) [
    | inl (here, at) ↦
        let same = same_key-eq k h.key here in
        record {
          key = h.key;
          from_next =
              subst (λ (j : PoolKey). low j + (ensure_pool pools j).next_index ≤ suc b) same
                (omega (arith, next.old, at, h.from_next));
          below = h.below;
        }
    | inr (away, kept) ↦ record {
      key = h.key;
      from_next = omega (arith, h.from_next, ap (λ (q : IpPool). q.next_index) kept);
      below = h.below;
    }
  ]

  -- The address that was taken is not handed out again.
  gone : IsAhead (write_pool pools p) a → ⊥
  gone h = elim (index_of h.key) [
    | inl (here, at) ↦ absurd (omega (arith, at, h.from_next))
    | inr (away, kept) ↦
        let (key, net, one) = ensure_pool-IsStandard pools h.key standard in
        apart k h.key a away next.lower next.upper
          (omega (arith, h.from_next, ap (λ (q : IpPool). q.next_index) kept, one)) h.below
  ]

outcome_cases :
    (o : Provisioned)
    → ((e : ProvisionError) × (o ≡ raised e))
      ⊎ ((ip : Option ℕ) × (d : Provisionee) × (pools : List IpPool) × (o ≡ done ip d pools))
outcome_cases (raised e) = inl (e, refl)
outcome_cases (done ip d pools) = inr (ip, d, pools, refl)

-- A request changes nothing, or takes the next address of a pool.
request_cases :
    (q : Request) (pools : List IpPool)
    → AreStandard pools
    → ((qs : List Request) → run_provisions (q ∷ qs) pools ≡ run_provisions qs pools)
      ⊎ ((k : PoolKey) × (a : ℕ) × (p : IpPool) × IsNext pools k a p
          × ((qs : List Request)
              → run_provisions (q ∷ qs) pools ≡ a ∷ run_provisions qs (write_pool pools p)))
request_cases q pools standard = elim (outcome_cases (provision_device q.rows pools q.target)) [
  | inl (e, fails) ↦ inl (λ qs. rw (fails, run_provisions) refl)
  | inr (ip, d, pools', ends) ↦
      let w = provision_device-Success q.rows pools q.target ip d pools' ends in
      inr (
        w.key,
        w.address,
        w.pool,
        allocate-IsNext pools w.key w.address w.pool standard w.handed_out,
        λ qs.
            let first : run_provisions (q ∷ qs) pools ≡ with_address ip (run_provisions qs pools') =
              rw (ends, run_provisions) refl in
            first
            ∙ (ap (λ o. with_address o (run_provisions qs pools')) w.gives
                ∙ ap (λ (l : List IpPool). w.address ∷ run_provisions qs l) w.written),
      )
]

handed-IsAhead :
    (qs : List Request) (pools : List IpPool) (b : ℕ)
    → AreStandard pools
    → contains b (run_provisions qs pools) ≡ true
    → IsAhead pools b
handed-IsAhead [] pools b standard h = absurd (ground arith)
handed-IsAhead (q ∷ qs) pools b standard h = elim (request_cases q pools standard) [
  | inl skips ↦ handed-IsAhead qs pools b standard (sym (ap (contains b) (skips qs)) ∙ h)
  | inr (k, a, p, next, takes) ↦
      let h' : contains b (a ∷ run_provisions qs (write_pool pools p)) ≡ true =
        sym (ap (contains b) (takes qs)) ∙ h in
      elim (Bool-cases (a == b)) [
        | inl same ↦ record {
          key = k;
          from_next = omega (arith, next.old, (==_iff a b).0 same);
          below = subst (λ (x : ℕ). x < high k) ((==_iff a b).0 same) next.upper;
        }
        | inr other ↦ still-IsAhead pools k a p standard next b (
            handed-IsAhead qs (write_pool pools p) b (written-AreStandard pools k a p standard next)
              (ground (arith, h', other)))
      ]
]

-- However many devices are provisioned one after another, whatever the tables are at each request
-- and whichever requests raise, no address is handed out twice, also not by two different pools, if the
-- pools at the start have the networks of POOL_DEFS and are not before their first hosts.
pub run_provisions-IsDistinct :
    (qs : List Request) (pools : List IpPool)
    → AreStandard pools
    → IsDistinct (run_provisions qs pools)
run_provisions-IsDistinct [] pools standard = tt
run_provisions-IsDistinct (q ∷ qs) pools standard = elim (request_cases q pools standard) [
  | inl skips ↦ subst IsDistinct (sym (skips qs)) (run_provisions-IsDistinct qs pools standard)
  | inr (k, a, p, next, takes) ↦
      let standard' = written-AreStandard pools k a p standard next in
      subst IsDistinct (sym (takes qs)) (
        elim (Bool-cases (contains a (run_provisions qs (write_pool pools p)))) [
          | inr new ↦ new
          | inl again ↦ absurd (
              gone pools k a p standard next
                (handed-IsAhead qs (write_pool pools p) a standard' again))
        ],
        run_provisions-IsDistinct qs (write_pool pools p) standard',
      )
]
