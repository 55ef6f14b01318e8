-- ===== src/Samples/AddressTests.antt =====
-- The allocators and provisioning on small tables.
use unoc_network_simulator.Prelude.{
  ℕ, ◌≡◌, refl, true, false, none, some, List, [], ◌∷◌, length, arith,
}
use unoc_network_simulator.Prelude.Sets.{contains}
use unoc_network_simulator.Model.{Net, InterfaceAddress, olt, splitter, core_router}
use unoc_network_simulator.Addressing.Mac.{Allocator, Attempt, no_session, store_fails, commits}
use unoc_network_simulator.Addressing.MacUnique.{run_macs, IsDistinct, run_macs-IsDistinct}
use unoc_network_simulator.Addressing.Prefixes.{
  Prefix, free, exhausted, next_free_ip_in_prefix, first_host, host_count, first_untaken, taken,
}
use unoc_network_simulator.Addressing.FreeHost.{
  LowestFree, next_free_ip-LowestFree, next_free_ip-exhausted,
}
use unoc_network_simulator.Addressing.Pools.{IpPool, access_mgmt, allocate}
use unoc_network_simulator.Addressing.PoolRuns.{run_pool, run_pool-eq}
use unoc_network_simulator.Provisioning.{
  Provisionee, done, raised, already_provisioned, provision_device, dependency_ok, with_defaults,
}
use unoc_network_simulator.Provisioning.Runs.{Request, run_provisions, run_provisions-IsDistinct}
use unoc_network_simulator.Provisioning.Outcomes.{
  Success, provision_device-Success, provision_device-twice,
}
use unoc_network_simulator.Samples.Network.{device, core}

-- An allocator whose database knows the counter 1, and that has used the address of counter 2.
abbrev allocator : Allocator
allocator = record { last = none; used = 2_565_404_098_562 ∷ []; stored = some 1 }

abbrev tries : List Attempt
tries = commits ∷ store_fails ∷ no_session ∷ []

run_macs-IsDistinct_example :
    (macs : List ℕ) × (run_macs tries allocator ≡ some macs)
    × (length macs ≡ length tries)
    × IsDistinct macs
    × ((x : ℕ) → contains x allocator.used ≡ true → contains x macs ≡ false)
run_macs-IsDistinct_example = run_macs-IsDistinct tries allocator (ground arith)

abbrev small : Net
small = record { address = 8; prefixlen = 30 }

abbrev given : ℕ → InterfaceAddress
given ip = record { interface_id = 1; ip = ip; prefix_id = some 4 }

abbrev small_row : Prefix
small_row = record { id = 4; prefix = some small }

finds : next_free_ip_in_prefix (given 9 ∷ []) small_row ≡ free 10 30
unfolding next_free_ip_in_prefix first_untaken
finds = refl

next_free_ip-LowestFree_example :
    LowestFree (given 9 ∷ []) 4 (first_host small) (host_count small) 10
next_free_ip-LowestFree_example = next_free_ip-LowestFree (given 9 ∷ []) 4 small refl 10 30 finds

is_full : next_free_ip_in_prefix (given 9 ∷ given 10 ∷ []) small_row ≡ exhausted
unfolding next_free_ip_in_prefix first_untaken
is_full = refl

next_free_ip-exhausted_test : taken (given 9 ∷ given 10 ∷ []) 4 10 ≡ true
next_free_ip-exhausted_test =
    next_free_ip-exhausted (given 9 ∷ given 10 ∷ []) 4 small refl is_full 10 (ground arith)
      (ground arith)

run_pool-eq_test :
    run_pool 2 record { pool_key = access_mgmt; cidr = small; next_index = 1 } ≡ some (9 ∷ 10 ∷ [])
run_pool-eq_test = run_pool-eq 2 0 access_mgmt small (ground arith)

abbrev new_olt : Provisionee
new_olt = record { row = device 3 olt false none; tx_power_dbm = none; sensitivity_min_dbm = none }

abbrev olt_pool : IpPool
olt_pool = record {
  pool_key = access_mgmt;
  cidr = record { address = 184_157_184; prefixlen = 24 };
  next_index = 2;
}

provisions :
    provision_device (core ∷ []) [] new_olt
    ≡ done (some 184_157_185) (with_defaults new_olt) (olt_pool ∷ [])
unfolding provision_device dependency_ok allocate
provisions = refl

provision_device-Success_test :
    Success (core ∷ []) [] new_olt (some 184_157_185) (with_defaults new_olt) (olt_pool ∷ [])
provision_device-Success_test =
    provision_device-Success (core ∷ []) [] new_olt (some 184_157_185) (with_defaults new_olt)
      (olt_pool ∷ []) provisions

provision_device-twice_test :
    provision_device [] [] (with_defaults new_olt) ≡ raised already_provisioned
provision_device-twice_test =
    provision_device-twice (core ∷ []) [] new_olt (some 184_157_185) (with_defaults new_olt)
      (olt_pool ∷ []) provisions [] []

-- An OLT twice, a core router, and a refused splitter.
abbrev requests : List Request
requests =
    record { rows = core ∷ []; target = new_olt }
    ∷ record { rows = core ∷ []; target = record new_olt { row = device 8 splitter false none } }
    ∷ record { rows = []; target = record new_olt { row = device 9 core_router false none } }
    ∷ record { rows = core ∷ []; target = new_olt }
    ∷ []

three_given : run_provisions requests (olt_pool ∷ []) ≡ 184_157_186 ∷ 184_156_161 ∷ 184_157_187 ∷ []
unfolding provision_device dependency_ok allocate
three_given = refl

run_provisions-IsDistinct_example : IsDistinct (run_provisions requests (olt_pool ∷ []))
run_provisions-IsDistinct_example =
    run_provisions-IsDistinct requests (olt_pool ∷ []) ((refl, ground arith), tt)
