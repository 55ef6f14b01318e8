-- ===== src/Coalescer/Wakeup.antt =====
-- Pending triggers of the coalescer, and the threads that are to take them.
use unoc_network_simulator.Prelude.{
  ℕ-cases, ℕ, zero, suc, ◌+◌, ◌≤◌, ◌≡◌, refl, Bool, true, false, not, ◌||◌, Option, List, [], ◌∷◌,
  arith, Bool-cases, inl, inr, ◌⊎◌, any, either_way, ◌∙◌,
}
use unoc_network_simulator.Prelude.Sets.{contains}
use unoc_network_simulator.Coalescer.Defs.{
  Config, Job, Step, schedules, expires, takes, begins, finishes, flushes, stops, Steps, here, more,
  initial, schedule, expire, take_pending, begin_job, finish_job, flush_now, stop, is_nil,
}

-- A timer is set, or something is pending.
abbrev pub owes : Config → Bool
owes c = c.has_timer || not (is_nil c.pending_scopes) || not (is_nil c.pending_keys)

-- Then a timer waits, or a thread is about to take what is pending.
abbrev pub IsCovered : Config → Type 0
IsCovered c = owes c ≡ true → 1 ≤ c.waiting + c.ringing

schedule-IsCovered :
    (scope key : Option ℕ) (c : Config) → IsCovered c → IsCovered (schedule scope key c)
unfolding schedule
schedule-IsCovered scope key c h o = elim (Bool-cases c.has_timer) [
  | inl on ↦ ground (arith, h (ground (arith, on)), on)
  | inr off ↦ ground (arith, off)
]

flush-IsCovered : (in_time : Bool) (c : Config) → IsCovered c → IsCovered (flush_now in_time c)
unfolding flush_now
flush-IsCovered in_time c h = elim (Bool-cases c.has_timer) [
  | inl on ↦ rw on (λ o. omega arith)
  | inr off ↦ rw off (λ o. h (ground (arith, o, off)))
]

Step-IsCovered : (c c' : Config) → Step c c' → IsCovered c → IsCovered c'
unfolding expire take_pending begin_job finish_job stop
Step-IsCovered _ _ (schedules scope key c) h = schedule-IsCovered scope key c h
Step-IsCovered _ _ (expires n c w) h = λ o. ground (arith, h o, w)
Step-IsCovered _ _ (takes n c r) h = λ o. absurd (ground arith)
Step-IsCovered _ _ (begins j js c e) h = h
Step-IsCovered _ _ (finishes ok before after j c e) h = h
Step-IsCovered _ _ (flushes in_time c g) h = flush-IsCovered in_time c h
Step-IsCovered _ _ (stops in_time c g) h = λ o. absurd (ground arith)

Steps-IsCovered : (c c' : Config) → Steps c c' → IsCovered c → IsCovered c'
Steps-IsCovered _ _ (here c) h = h
Steps-IsCovered _ _ (more a b c s rest) h = Steps-IsCovered b c rest (Step-IsCovered a b s h)

-- In every state that the threads reach a set timer or a pending trigger has a timer that waits, or a
-- thread that is about to take what is pending.
pub reachable-IsCovered : (on : Bool) (c : Config) → Steps (initial on) c → IsCovered c
reachable-IsCovered on c s = Steps-IsCovered (initial on) c s (λ o. absurd (ground arith))

abbrev pub has_key : ℕ → List Job → Bool
has_key k js = any (λ j. contains k j.keys) js

none_in : (k : ℕ) (xs : List ℕ) → is_nil xs ≡ true → contains k xs ≡ false
none_in k [] h = refl
none_in k (x ∷ xs) h = ground arith

owes_key : (k : ℕ) (c : Config) → contains k c.pending_keys ≡ true → owes c ≡ true
owes_key k c h = elim (Bool-cases (is_nil c.pending_keys)) [
  | inl nil ↦ absurd (ground (arith, none_in k c.pending_keys nil, h))
  | inr full ↦ ground (arith, full)
]

taken :
    (k : ℕ) (c : Config)
    → c.enabled ≡ true
    → contains k c.pending_keys ≡ true
    → has_key k (take_pending c).jobs ≡ true
unfolding take_pending
taken k c on h = rw on (ground (arith, h))

-- What the timers and threads that are there do, if nobody calls the coalescer: a timer that waits
-- fires, or a thread that waits for the lock takes what is pending.
pub data Turn : Config → Config → Type 0 where
  fires : (n : ℕ) (c : Config) → c.waiting ≡ suc n → Turn c (expire c)
  grabs : (n : ℕ) (c : Config) → c.ringing ≡ suc n → Turn c (take_pending c)

pub data Turns : ℕ → Config → Config → Type 0 where
  still : (c : Config) → Turns 0 c c
  turn : (n : ℕ) (a b c : Config) → Turn a b → Turns n b c → Turns (suc n) a c

-- No timer waits, and no thread.
abbrev pub IsQuiet : Config → Type 0
IsQuiet c = (c.waiting ≡ 0) × (c.ringing ≡ 0)

Step-enabled : (c c' : Config) → Step c c' → c'.enabled ≡ c.enabled
unfolding schedule expire take_pending begin_job finish_job flush_now stop
Step-enabled _ _ (schedules scope key c) = refl
Step-enabled _ _ (expires n c w) = refl
Step-enabled _ _ (takes n c r) = refl
Step-enabled _ _ (begins j js c e) = refl
Step-enabled _ _ (finishes ok before after j c e) = refl
Step-enabled _ _ (flushes in_time c g) =
    either_way (λ (x : Config). x.enabled ≡ c.enabled) c.has_timer _ c refl refl
Step-enabled _ _ (stops in_time c g) = refl

Steps-enabled : (c c' : Config) → Steps c c' → c'.enabled ≡ c.enabled
Steps-enabled _ _ (here c) = refl
Steps-enabled _ _ (more a b c s later) = Steps-enabled b c later ∙ Step-enabled a b s

-- The key is pending and a timer or thread is there for it, or a job has it.
IsKept : ℕ → Config → Type 0
IsKept k c =
    ((contains k c.pending_keys ≡ true) × (1 ≤ c.waiting + c.ringing)) ⊎ (has_key k c.jobs ≡ true)

Turn-IsKept :
    (k : ℕ) (c c' : Config)
    → Turn c c'
    → c.enabled ≡ true
    → IsKept k c
    → IsKept k c' × (c'.enabled ≡ true)
unfolding expire take_pending IsKept
Turn-IsKept k _ _ (fires n c w) on (inl (pending, there)) =
    (inl (pending, omega (arith, there, w)), on)
Turn-IsKept k _ _ (fires n c w) on (inr had) = (inr had, on)
Turn-IsKept k _ _ (grabs n c r) on (inl (pending, there)) = (inr (taken k c on pending), on)
Turn-IsKept k _ _ (grabs n c r) on (inr had) = (inr (rw on (ground (arith, had))), on)

Turns-IsKept :
    (k n : ℕ) (c c' : Config) → Turns n c c' → c.enabled ≡ true → IsKept k c → IsKept k c'
Turns-IsKept k _ _ _ (still c) on h = h
Turns-IsKept k _ _ _ (turn n a b c t later) on h =
    let (h', on') = Turn-IsKept k a b t on h in Turns-IsKept k n b c later on' h'

abbrev pub turns_left : Config → ℕ
turns_left c = c.waiting + c.waiting + c.ringing

Turn-left : (c c' : Config) → Turn c c' → turns_left c ≡ suc (turns_left c')
unfolding expire take_pending
Turn-left _ _ (fires n c w) = omega (arith, w)
Turn-left _ _ (grabs n c r) = omega (arith, r)

Turns-le : (n : ℕ) (c c' : Config) → Turns n c c' → n + turns_left c' ≡ turns_left c
Turns-le _ _ _ (still c) = omega arith
Turns-le _ _ _ (turn n a b c t later) = omega (arith, Turn-left a b t, Turns-le n b c later)

-- Where something waits there is a turn.
next_move : (c : Config) → IsQuiet c ⊎ ((c' : Config) × Turn c c')
next_move c = elim (ℕ-cases c.ringing) [
  | inr (n, r) ↦ inr (take_pending c, grabs n c r)
  | inl none_rings ↦ elim (ℕ-cases c.waiting) [
    | inr (n, w) ↦ inr (expire c, fires n c w)
    | inl none_waits ↦ inl (none_waits, none_rings)
  ]
]

runs_out :
    (fuel : ℕ) (c : Config)
    → turns_left c ≤ fuel
    → (n : ℕ) × (c' : Config) × Turns n c c' × IsQuiet c'
runs_out zero c le = elim (next_move c) [
  | inl quiet ↦ (0, c, still c, quiet)
  | inr (b, t) ↦ absurd (omega (arith, le, Turn-left c b t))
]
runs_out (suc fuel) c le = elim (next_move c) [
  | inl quiet ↦ (0, c, still c, quiet)
  | inr (b, t) ↦
      let (n, c', later, quiet) = runs_out fuel b (omega (arith, le, Turn-left c b t)) in
      (suc n, c', turn n c b c' t later, quiet)
]

-- No trigger is lost: in every state that an enabled coalescer reaches, a key that is pending is taken
-- by the timers and threads that are there, with no further call. Their turns come to an end, after at
-- most two for each timer and one for each thread, and in whatever order they take them, when no timer
-- and no thread is left a job has the key.
pub key_is_taken :
    (c : Config) (k : ℕ)
    → Steps (initial true) c
    → contains k c.pending_keys ≡ true
    → ((n : ℕ) × (c' : Config) × Turns n c c' × IsQuiet c')
      × ((n : ℕ) (c' : Config)
          → Turns n c c'
          → (n ≤ turns_left c) × (IsQuiet c' → has_key k c'.jobs ≡ true))
unfolding IsKept
key_is_taken c k s pending =
    let covered = reachable-IsCovered true c s (owes_key k c pending) in
    let on : c.enabled ≡ true = Steps-enabled (initial true) c s in
    (
      runs_out (turns_left c) c (omega arith),
      λ n c' turns. (
        omega (arith, Turns-le n c c' turns),
        λ (none_waits, none_rings). elim (Turns-IsKept k n c c' turns on (inl (pending, covered))) [
          | inl (p, there) ↦ absurd (omega (arith, there, none_waits, none_rings))
          | inr had ↦ had
        ],
      ),
    )
