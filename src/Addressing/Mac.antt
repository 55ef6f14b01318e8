-- ===== src/Addressing/Mac.antt =====
-- backend/services/mac_allocator.py: `next_mac` with its counter, the addresses in use and the row of
-- the database. The text of a MAC address is the number that its hexadecimal digits write.
use unoc_network_simulator.Prelude.{
  ℕ, zero, suc, ◌+◌, ◌*◌, ◌/◌, ◌%◌, Option, none, some, List, [], ◌∷◌, length, if◌then◌else◌,
  then_get,
}
use unoc_network_simulator.Prelude.Sets.{contains}

-- The size of the counter's three bytes, 2 ^ 24.
abbrev pub counters : ℕ
counters = 16_777_216

-- `":".join(f"{b:02x}" for b in bytes)`
abbrev join_bytes : ℕ → List ℕ → ℕ
join_bytes acc [] = acc
join_bytes acc (b ∷ bs) = join_bytes (acc * 256 + b) bs

-- The prefix 02:55:4e, and the three low bytes of the counter.
unfoldable pub format_mac : ℕ → ℕ
format_mac c =
    let n = c % counters in
    join_bytes 0 (2 ∷ 85 ∷ 78 ∷ n / 65_536 % 256 ∷ n / 256 % 256 ∷ n % 256 ∷ [])

-- `last` is -1, or a counter; `stored` is the counter of the database's row.
pub record Allocator : Type 0 where
  pub last : Option ℕ
  pub used : List ℕ
  pub stored : Option ℕ

-- How far the database gets: no session, an error in reading the row, one in writing it, or a commit.
pub data Attempt : Type 0 where
  no_session load_fails store_fails commits : Attempt

-- `last + 1`
abbrev pub after : Option ℕ → ℕ
after none = 0
after (some n) = suc n

-- `while mac in _USED: last += 1`, on fuel.
unfoldable pub first_free : ℕ → List ℕ → ℕ → Option ℕ
first_free zero used n = none
first_free (suc k) used n =
    let rest = first_free k used (suc n) in if contains (format_mac n) used then rest else some n

abbrev pub Allocated : Type 0
Allocated = Option (ℕ × Allocator)

abbrev pub take : Allocator → ℕ → ℕ × Allocator
take s n = (format_mac n, record { last = some n; used = format_mac n ∷ s.used; stored = s.stored })

-- One address from the counter after `last`; more than the addresses in use need not be tried.
unfoldable pub allocate : Allocator → Option ℕ → Allocated
allocate s last =
    then_get (first_free (suc (length s.used)) s.used (after last)) (λ n. some (take s n))

-- The counter of the process, or that of the database on first use.
abbrev pub known_last : Allocator → Option ℕ
known_last s = elim s.last [ none ↦ s.stored | some n ↦ some n ]

abbrev pub store : ℕ × Allocator → ℕ × Allocator
store (mac, s) = (mac, record { last = s.last; used = s.used; stored = s.last })

-- The path in memory.
abbrev pub in_memory : Allocator → Allocated
in_memory s = allocate s s.last

abbrev pub with_session : Allocator → Allocated
with_session s = then_get (allocate s (known_last s)) (λ r. some (store r))

-- The row is rolled back, and the address that was taken stays in use.
abbrev pub after_rollback : Allocator → Allocated
after_rollback s = then_get (allocate s (known_last s)) (λ (mac, s'). in_memory s')

-- The row is read on first use only.
abbrev pub load_error : Option ℕ → Allocator → Allocated
load_error none s = in_memory s
load_error (some n) s = with_session s

unfoldable pub next_mac : Attempt → Allocator → Allocated
next_mac no_session s = in_memory s
next_mac load_fails s = load_error s.last s
next_mac store_fails s = after_rollback s
next_mac commits s = with_session s
