-- ===== src/Addressing/PoolRuns.antt =====
-- What a pool hands out over many allocations.
use unoc_network_simulator.Prelude.{
  ℕ, zero, suc, ◌+◌, ◌≤◌, ◌≡◌, refl, Bool, true, false, Option, none, some, List, [], ◌∷◌, arith,
  sym, subst, ltb, leb, if◌then◌else◌, Bool-cases, inl, inr, then_get,
}
use unoc_network_simulator.Model.{Net}
use unoc_network_simulator.Addressing.Prefixes.{first_host, host_count}
use unoc_network_simulator.Addressing.Pools.{PoolKey, IpPool, allocate}

-- The addresses of so many allocations, `none` if one of them fails.
unfoldable pub run_pool : ℕ → IpPool → Option (List ℕ)
run_pool zero p = some []
run_pool (suc n) p =
    then_get (allocate p) (λ (ip, p'). then_get (run_pool n p') (λ ips. some (ip ∷ ips)))

-- The numbers from one on, so many.
abbrev pub count_up : ℕ → ℕ → List ℕ
count_up zero from = []
count_up (suc n) from = from ∷ count_up n (suc from)

after_first :
    (b : Bool) (x : ℕ) (xs : List ℕ)
    → then_get (if b then some xs else none) (λ ips. some (x ∷ ips))
      ≡ (if b then some (x ∷ xs) else none)
after_first true x xs = refl
after_first false x xs = refl

-- A pool whose next host is the host `i`, counted from 0, hands out the `n` hosts from there on in
-- order, or fails if fewer than `n` are left; so it hands out none twice.
pub run_pool-eq :
    (n i : ℕ) (key : PoolKey) (net : Net)
    → i ≤ host_count net
    → run_pool n record { pool_key = key; cidr = net; next_index = suc i }
      ≡ (if leb (i + n) (host_count net) then some (count_up n (first_host net + i)) else none)
unfolding run_pool allocate
run_pool-eq zero i key net le = ground (arith, le)
run_pool-eq (suc n) i key net le = elim (Bool-cases (ltb i (host_count net))) [
  | inl lt ↦
      let same : suc i + n ≡ i + suc n = omega arith in
      let next : first_host net + suc i ≡ suc (first_host net + i) = omega arith in
      let rest = run_pool-eq n (suc i) key net (ground (arith, lt)) in
      rw lt (
        subst
          (λ (r : Option (List ℕ)). then_get r (λ ips. some ((first_host net + i) ∷ ips)) ≡ (
            if leb (i + suc n) (host_count net)
            then some ((first_host net + i) ∷ count_up n (suc (first_host net + i)))
            else none))
          (sym rest)
          (rw same (
            rw next (
              after_first (leb (i + suc n) (host_count net)) (first_host net + i)
                (count_up n (suc (first_host net + i)))))))
  | inr ge ↦ ground (arith, ge)
]
