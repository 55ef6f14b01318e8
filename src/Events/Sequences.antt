-- ===== src/Events/Sequences.antt =====
-- The sequence numbers that any run of appends, commits and rollbacks leaves in the event store.
use unoc_network_simulator.Prelude.{
  sym, not, List-cases, either_way, append_assoc, ℕ, suc, ◌+◌, ◌≡◌, refl, ap, subst, Bool, true,
  false, Option, none, some, List, [], ◌∷◌, ◌++◌, arith, length, ltb, Bool-cases, inl, inr,
  then_get,
}
use unoc_network_simulator.Prelude.Numbering.{
  IsNumberedFrom, IsNumberedFrom-append, IsNumberedFrom-prefix,
}
use unoc_network_simulator.Events.Defs.{
  EventType, is_domain_type, EventSource, Payload, EventStoreRecord, EventSession, visible, adds,
  event_row, stored_type, with_defaults, highest, next_sequence, commit, rollback, append_event,
  own_session, has_sequence, append_runtime_event, append_domain_event, insert_row, ordered,
  last_row, event_store_snapshot,
}

-- The rows are numbered from `n` on without a gap, in the order in which they were added.
abbrev pub IsNumbered : ℕ → List EventStoreRecord → Type 0
IsNumbered n rows = IsNumberedFrom (λ (r : EventStoreRecord). r.sequence) n rows

-- Each row has a type that the domain knows.
abbrev pub IsTyped : List EventStoreRecord → Type 0
IsTyped [] = Unit {0}
IsTyped (r ∷ rs) = (is_domain_type r.event_type ≡ true) × IsTyped rs

pub data Op : Type 0 where
  append : ℕ → EventType → Payload → EventSource → Option ℕ → Op
  runtime : Bool → ℕ → EventType → Payload → Option ℕ → Op
  domain : ℕ → EventType → ℕ → Payload → Option ℕ → Op
  ends : Bool → Op

-- A failed domain append leaves the session as it was; `ends` commits or rolls back.
abbrev pub do_op : Op → EventSession → EventSession
do_op (append now t p src cid) s = append_event now t p src cid s
do_op (runtime opens now t p cid) s = append_runtime_event opens now t p cid s
do_op (domain now t i p cid) s = elim (append_domain_event now t i p cid s) [
  | none ↦ s
  | some s' ↦ s'
]
do_op (ends true) s = commit s
do_op (ends false) s = rollback s

abbrev pub run_ops : List Op → EventSession → EventSession
run_ops [] s = s
run_ops (op ∷ ops) s = run_ops ops (do_op op s)

highest-IsNumbered :
    (n : ℕ) (r : EventStoreRecord) (rs : List EventStoreRecord)
    → IsNumbered n (r ∷ rs)
    → highest (r ∷ rs) ≡ some (n + length rs)
highest-IsNumbered n r [] (e, _) = ap some (omega (arith, e))
highest-IsNumbered n r (q ∷ qs) (e, h) =
    rw (highest-IsNumbered (suc n) q qs h, e)
      (elim (Bool-cases (ltb (suc n + length qs) n)) [
        | inl t ↦ absurd (ground arith)
        | inr f ↦ rw f (ap some (omega arith))
      ])

next_sequence-length :
    (rows : List EventStoreRecord) → IsNumbered 0 rows → next_sequence rows ≡ length rows
unfolding next_sequence
next_sequence-length [] h = refl
next_sequence-length (r ∷ rs) h = rw (highest-IsNumbered 0 r rs h, next_sequence) (omega arith)

IsNumbered-append :
    (n : ℕ) (xs ys : List EventStoreRecord)
    → IsNumbered n xs
    → IsNumbered (length xs + n) ys
    → IsNumbered n (xs ++ ys)
IsNumbered-append = IsNumberedFrom-append (λ (r : EventStoreRecord). r.sequence)

IsTyped-append : (xs ys : List EventStoreRecord) → IsTyped xs → IsTyped ys → IsTyped (xs ++ ys)
IsTyped-append [] ys h k = k
IsTyped-append (x ∷ xs) ys (e, h) k = (e, IsTyped-append xs ys h k)

IsTyped-prefix : (xs ys : List EventStoreRecord) → IsTyped (xs ++ ys) → IsTyped xs
IsTyped-prefix [] ys h = tt
IsTyped-prefix (x ∷ xs) ys (e, h) = (e, IsTyped-prefix xs ys h)

-- What the appends, commits and rollbacks keep of the rows that the session sees.
abbrev pub IsSound : EventSession → Type 0
IsSound s = IsNumbered 0 (visible s) × IsTyped (visible s)

-- A row with the next number and a known type may be added at the end of the pending rows.
adds-IsSound :
    (s : EventSession) (r : EventStoreRecord)
    → IsSound s
    → r.sequence ≡ next_sequence (visible s)
    → is_domain_type r.event_type ≡ true
    → IsSound (adds r s)
adds-IsSound s r (n, t) e k =
    let assoc = append_assoc s.committed s.pending (r ∷ []) in
    (
      subst (IsNumbered 0) assoc (
          IsNumbered-append 0 (visible s) (r ∷ []) n
            (omega (arith, e, next_sequence-length (visible s) n), tt)),
      subst IsTyped assoc (IsTyped-append (visible s) (r ∷ []) t (k, tt)),
    )

commit-IsSound : (s : EventSession) → IsSound s → IsSound (commit s)
commit-IsSound s (n, t) =
    (IsNumbered-append 0 (visible s) [] n tt, IsTyped-append (visible s) [] t tt)

rollback-IsSound : (s : EventSession) → IsSound s → IsSound (rollback s)
rollback-IsSound s (n, t) =
    let n' =
      IsNumberedFrom-prefix (λ (r : EventStoreRecord). r.sequence) 0 s.committed s.pending n in
    let t' = IsTyped-prefix s.committed s.pending t in
    (IsNumbered-append 0 s.committed [] n' tt, IsTyped-append s.committed [] t' tt)

stored_type-is_domain_type : (t : EventType) → is_domain_type (stored_type t) ≡ true
unfolding is_domain_type
stored_type-is_domain_type t = ground arith

append_event-IsSound :
    (now : ℕ) (t : EventType) (p : Payload) (src : EventSource) (cid : Option ℕ) (s : EventSession)
    → IsSound s
    → IsSound (append_event now t p src cid s)
unfolding append_event
append_event-IsSound now t p src cid s h =
    let row = event_row now (stored_type t) p src cid s in
    commit-IsSound (adds row s) (adds-IsSound s row h refl (stored_type-is_domain_type t))

-- What the caller has flushed has the number that another session would take.
blocked :
    (s : EventSession) (r : EventStoreRecord) (rs : List EventStoreRecord)
    → IsSound s
    → s.pending ≡ r ∷ rs
    → has_sequence (next_sequence s.committed) s.pending ≡ true
blocked s r rs (n, t) e =
    let key = λ (q : EventStoreRecord). q.sequence in
    let before = IsNumberedFrom-prefix key 0 s.committed s.pending n in
    let (first, later) =
      subst (IsNumbered (length s.committed + 0)) e (pending_from s.committed 0 n) in
    rw e (ground (arith, first, next_sequence-length s.committed before))
  where
    pending_from :
        (xs : List EventStoreRecord) (k : ℕ)
        → IsNumbered k (xs ++ s.pending)
        → IsNumbered (length xs + k) s.pending
    pending_from [] k h = subst (λ (i : ℕ). IsNumbered i s.pending) (omega arith) h
    pending_from (x ∷ xs) k (first, h) =
        subst (λ (i : ℕ). IsNumbered i s.pending) (omega arith) (pending_from xs (suc k) h)

-- A session of its own appends where the caller has flushed nothing, and is refused otherwise.
runtime-IsSound :
    (opens : Bool) (now : ℕ) (t : EventType) (p : Payload) (cid : Option ℕ) (s : EventSession)
    → IsSound s
    → IsSound (append_runtime_event opens now t p cid s)
unfolding append_runtime_event append_event
runtime-IsSound false now t p cid s h = h
runtime-IsSound true now t p cid s h = elim (List-cases s.pending) [
  | inr (r, rs, e) ↦ rw (blocked s r rs h e) h
  | inl e ↦
      let whole = append_event now t p EventSource.runtime_event_bus cid (own_session s) in
      let own : IsSound (own_session s) =
        subst (λ (ps : List EventStoreRecord). IsSound (record s { pending = ps })) e h in
      either_way IsSound (not (has_sequence (next_sequence s.committed) s.pending)) _ _
        (subst
          (λ (ps : List EventStoreRecord).
            IsSound (record { committed = whole.committed; pending = ps }))
          (sym e)
          (append_event-IsSound now t p EventSource.runtime_event_bus cid (own_session s) own))
        h
]

do_op-IsSound : (op : Op) (s : EventSession) → IsSound s → IsSound (do_op op s)
unfolding append_runtime_event append_domain_event
do_op-IsSound (append now t p src cid) s h = append_event-IsSound now t p src cid s h
do_op-IsSound (runtime opens now t p cid) s h = runtime-IsSound opens now t p cid s h
do_op-IsSound (domain now t i p cid) s h = elim (Bool-cases (is_domain_type t)) [
  | inl k ↦
      let row = event_row now t (with_defaults now i p) EventSource.write_path cid s in
      rw (k, do_op) (adds-IsSound s row h refl k)
  | inr k ↦ rw (k, do_op) h
]
do_op-IsSound (ends true) s h = commit-IsSound s h
do_op-IsSound (ends false) s h = rollback-IsSound s h

-- Whatever run of appends of all three kinds, commits and rollbacks starts from a session that sees
-- rows which are numbered from 0 without a gap and have types that the domain knows, the rows that the
-- session sees afterwards are numbered from 0 without a gap in the order in which they were added, and
-- have types that the domain knows: a number is never used twice, also after a rollback and where a
-- runtime event is appended by a session of its own in the middle of the transaction, and no rejected
-- or unknown type is stored.
pub run_ops-IsSound : (ops : List Op) (s : EventSession) → IsSound s → IsSound (run_ops ops s)
run_ops-IsSound [] s h = h
run_ops-IsSound (op ∷ ops) s h = run_ops-IsSound ops (do_op op s) (do_op-IsSound op s h)

insert_row-IsNumbered :
    (n : ℕ) (r : EventStoreRecord) (rs : List EventStoreRecord)
    → IsNumbered n (r ∷ rs)
    → insert_row r rs ≡ r ∷ rs
insert_row-IsNumbered n r [] h = refl
insert_row-IsNumbered n r (q ∷ qs) (e, (f, h)) = elim (Bool-cases (ltb q.sequence r.sequence)) [
  | inl t ↦ absurd (ground arith)
  | inr k ↦ rw k refl
]

ordered-IsNumbered :
    (n : ℕ) (rows : List EventStoreRecord) → IsNumbered n rows → ordered rows ≡ rows
ordered-IsNumbered n [] h = refl
ordered-IsNumbered n (r ∷ rs) (e, h) =
    rw (ordered-IsNumbered (suc n) rs h) (insert_row-IsNumbered n r rs (e, h))

last_row-IsNumbered :
    (n : ℕ) (r : EventStoreRecord) (rs : List EventStoreRecord)
    → IsNumbered n (r ∷ rs)
    → (q : EventStoreRecord) × (last_row (r ∷ rs) ≡ some q) × (q.sequence ≡ n + length rs)
last_row-IsNumbered n r [] (e, _) = (r, refl, omega (arith, e))
last_row-IsNumbered n r (q ∷ qs) (e, h) =
    let (z, l, k) = last_row-IsNumbered (suc n) q qs h in (z, rw l refl, omega (arith, k))

-- One less than the number of rows, if there are rows.
abbrev pub count_before : List EventStoreRecord → Option ℕ
count_before [] = none
count_before (r ∷ rs) = some (length rs)

-- A snapshot of such a store lists the rows in the order in which they were added, counts them, and
-- has a last sequence number that is one less than the count; it has none, and no last time stamp,
-- if there are no rows.
pub event_store_snapshot-IsSound :
    (s : EventSession)
    → IsSound s
    → ((event_store_snapshot s).events ≡ visible s)
      × ((event_store_snapshot s).total_events ≡ length (visible s))
      × ((event_store_snapshot s).last_sequence ≡ count_before (visible s))
unfolding event_store_snapshot
event_store_snapshot-IsSound s (n, t) =
    let o = ordered-IsNumbered 0 (visible s) n in (o, ap length o, rw o (ends_at (visible s) n))
  where
    ends_at :
        (rows : List EventStoreRecord)
        → IsNumbered 0 rows
        → then_get (last_row rows) (λ r. some r.sequence) ≡ count_before rows
    ends_at [] h = refl
    ends_at (r ∷ rs) h =
        let (q, l, k) = last_row-IsNumbered 0 r rs h in rw l (ap some (omega (arith, k)))
