-- ===== src/Events/Defs.antt =====
-- The event store: its session, the appends and the snapshot.
use unoc_network_simulator.Prelude.{
  ℕ, suc, Bool, true, false, Option, none, some, List, [], ◌∷◌, ◌++◌, length, ltb, if◌then◌else◌,
  then_get, not, ◌&&◌, ◌||◌, ◌==◌,
}

pub data EventType : Type 0 where
  device_created device_connected device_deleted device_linked device_updated port_connected :
      EventType
  cpe_provisioned ont_assigned service_bound device_provisioned link_created link_deleted :
      EventType
  link_updated provisioning_updated runtime_event : EventType
  other_type : ℕ → EventType

-- `event_type in DOMAIN_EVENT_TYPES`
unfoldable pub is_domain_type : EventType → Bool
is_domain_type (other_type n) = false
is_domain_type _ = true

pub data EventSource : Type 0 where
  event_store runtime_event_bus write_path : EventSource

-- The two keys of a payload that the store itself sets, and the rest of it.
pub record Payload : Type 0 where
  pub entity_id : Option ℕ
  pub timestamp : Option ℕ
  pub rest : ℕ

pub record EventStoreRecord : Type 0 where
  pub sequence : ℕ
  pub event_type : EventType
  pub payload : Payload
  pub source : EventSource
  pub created_at : ℕ
  pub correlation_id : Option ℕ

-- The rows that are committed, and those that the open transaction has flushed.
pub record EventSession : Type 0 where
  pub committed : List EventStoreRecord
  pub pending : List EventStoreRecord

-- What a query of the session sees.
abbrev pub visible : EventSession → List EventStoreRecord
visible s = s.committed ++ s.pending

-- The first row's sequence in descending order.
abbrev pub highest : List EventStoreRecord → Option ℕ
highest [] = none
highest (r ∷ rs) = elim (highest rs) [
  | none ↦ some r.sequence
  | some m ↦ if ltb m r.sequence then some r.sequence else some m
]

unfoldable pub next_sequence : List EventStoreRecord → ℕ
next_sequence rows = elim (highest rows) [ none ↦ 0 | some m ↦ suc m ]

abbrev pub commit : EventSession → EventSession
commit s = record { committed = visible s; pending = [] }

abbrev pub rollback : EventSession → EventSession
rollback s = record s { pending = [] }

-- `session.add(record)`: the next query of the session sees the row.
abbrev pub adds : EventStoreRecord → EventSession → EventSession
adds r s = record s { pending = s.pending ++ (r ∷ []) }

abbrev pub event_row :
    ℕ → EventType → Payload → EventSource → Option ℕ → EventSession → EventStoreRecord
event_row now t p src cid s = record {
  sequence = next_sequence (visible s);
  event_type = t;
  payload = p;
  source = src;
  created_at = now;
  correlation_id = cid;
}

abbrev pub stored_type : EventType → EventType
stored_type t = if is_domain_type t then t else runtime_event

-- `append_event(session, event_type, payload, source=, correlation_id=)`, at the time `now`: it
-- commits, and with it what the transaction has pending.
unfoldable pub append_event :
    ℕ → EventType → Payload → EventSource → Option ℕ → EventSession → EventSession
append_event now t p src cid s = commit (adds (event_row now (stored_type t) p src cid s) s)

-- Another session on the same database: it does not see what this one has flushed.
abbrev pub own_session : EventSession → EventSession
own_session s = record s { pending = [] }

abbrev pub has_sequence : ℕ → List EventStoreRecord → Bool
has_sequence n [] = false
has_sequence n (r ∷ rs) = r.sequence == n || has_sequence n rs

-- `append_runtime_event(event)`, called while `s` is the caller's session: it opens a session of its
-- own, and any exception is swallowed. `opens` says whether the database opens. `sequence` is unique,
-- so the database refuses a row whose number the caller has flushed.
unfoldable pub append_runtime_event :
    Bool → ℕ → EventType → Payload → Option ℕ → EventSession → EventSession
append_runtime_event opens now t p cid s =
    if opens && not (has_sequence (next_sequence s.committed) s.pending)
    then record s {
      committed = (append_event now t p runtime_event_bus cid (own_session s)).committed;
    }
    else s

-- `data.setdefault(key, value)`
abbrev pub setdefault : Option ℕ → ℕ → Option ℕ
setdefault none v = some v
setdefault (some w) v = some w

abbrev pub with_defaults : ℕ → ℕ → Payload → Payload
with_defaults now entity p = record p {
  entity_id = setdefault p.entity_id entity;
  timestamp = setdefault p.timestamp now;
}

-- `append_domain_event(session, event_type, entity_id, payload)`: nothing is EventStoreAppendError.
unfoldable pub append_domain_event :
    ℕ → EventType → ℕ → Payload → Option ℕ → EventSession → Option EventSession
append_domain_event now t entity p cid s =
    if is_domain_type t
    then some (adds (event_row now t (with_defaults now entity p) write_path cid s) s)
    else none

-- One step of `order_by(sequence)`.
abbrev pub insert_row : EventStoreRecord → List EventStoreRecord → List EventStoreRecord
insert_row r [] = r ∷ []
insert_row r (q ∷ qs) = if ltb q.sequence r.sequence then q ∷ insert_row r qs else r ∷ q ∷ qs

abbrev pub ordered : List EventStoreRecord → List EventStoreRecord
ordered [] = []
ordered (r ∷ rs) = insert_row r (ordered rs)

-- `rows[-1]`, if there is one.
abbrev pub last_row : List EventStoreRecord → Option EventStoreRecord
last_row [] = none
last_row (r ∷ rs) = elim (last_row rs) [ none ↦ some r | some q ↦ some q ]

pub record EventStoreSnapshot : Type 0 where
  pub total_events : ℕ
  pub last_event_timestamp : Option ℕ
  pub last_sequence : Option ℕ
  pub events : List EventStoreRecord

unfoldable pub event_store_snapshot : EventSession → EventStoreSnapshot
event_store_snapshot s =
    let rows = ordered (visible s) in
    record {
      total_events = length rows;
      last_event_timestamp = then_get (last_row rows) (λ r. some r.created_at);
      last_sequence = then_get (last_row rows) (λ r. some r.sequence);
      events = rows;
    }
