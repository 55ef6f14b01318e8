-- ===== src/Coalescer/Defs.antt =====
-- The sections that backend/services/recompute_coalescer.py runs under its lock, and the steps that
-- threads take in any order. Timers start; their delays are not modelled.
use unoc_network_simulator.Prelude.{
  ℕ, suc, ◌-◌, ◌≡◌, Bool, true, false, not, ◌||◌, ◌&&◌, Option, none, some, List, [], ◌∷◌, ◌++◌,
  ltb, if◌then◌else◌, is_some,
}
use unoc_network_simulator.Prelude.Sets.{add, sorted}
use unoc_network_simulator.Model.Tables.{Tables, get_device, get_link}

-- The scopes and keys that an execution has taken.
pub record Job : Type 0 where
  pub scopes : List ℕ
  pub keys : List ℕ

-- `_STATE`, and the threads: timers that wait, threads that are about to run `_execute_now`, and jobs
-- that run.
pub record Config : Type 0 where
  pub enabled : Bool
  pub has_timer : Bool
  pub pending_scopes : List ℕ
  pub pending_keys : List ℕ
  pub executing : Bool
  pub scheduled : ℕ
  pub coalesced : ℕ
  pub executed : ℕ
  pub waiting : ℕ
  pub ringing : ℕ
  pub jobs : List Job

abbrev add_some : Option ℕ → List ℕ → List ℕ
add_some none xs = xs
add_some (some x) xs = add x xs

-- `schedule(scope, key)`, where an empty text is `none`.
unfoldable pub schedule : Option ℕ → Option ℕ → Config → Config
schedule scope key c = record c {
  has_timer = true;
  pending_scopes = add_some scope c.pending_scopes;
  pending_keys = add_some key c.pending_keys;
  scheduled = suc c.scheduled;
  coalesced = if c.has_timer then suc c.coalesced else c.coalesced;
  waiting = if c.has_timer then c.waiting else suc c.waiting;
}

-- A timer fires: its thread waits for the lock.
unfoldable pub expire : Config → Config
expire c = record c { waiting = c.waiting - 1; ringing = suc c.ringing }

-- The first section of `_execute_now`, and its return where the coalescer is disabled.
unfoldable pub take_pending : Config → Config
take_pending c = record c {
  has_timer = false;
  pending_scopes = [];
  pending_keys = [];
  ringing = c.ringing - 1;
  jobs =
      if c.enabled
      then record { scopes = c.pending_scopes; keys = c.pending_keys } ∷ c.jobs
      else c.jobs;
}

-- `executing = True`
unfoldable pub begin_job : Config → Config
begin_job c = record c { executing = true }

-- The end of a job, which may have failed.
unfoldable pub finish_job : Bool → List Job → List Job → Config → Config
finish_job ok before after c = record c {
  executing = false;
  executed = if ok then suc c.executed else c.executed;
  jobs = before ++ after;
}

-- `flush_now`; `in_time` tells whether the timer had not fired yet.
unfoldable pub flush_now : Bool → Config → Config
flush_now in_time c =
    if c.has_timer
    then record c {
      has_timer = false;
      waiting = if in_time then c.waiting - 1 else c.waiting;
      ringing = suc c.ringing;
    }
    else c

unfoldable pub stop : Bool → Config → Config
stop in_time c = record c {
  has_timer = false;
  pending_scopes = [];
  pending_keys = [];
  waiting = if c.has_timer && in_time then c.waiting - 1 else c.waiting;
}

abbrev pub is_nil : List ℕ → Bool
is_nil [] = true
is_nil (x ∷ xs) = false

unfoldable pub is_idle : Config → Bool
is_idle c = not c.has_timer && is_nil c.pending_scopes && is_nil c.pending_keys && not c.executing

-- The state at import.
abbrev pub initial : Bool → Config
initial on = record {
  enabled = on;
  has_timer = false;
  pending_scopes = [];
  pending_keys = [];
  executing = false;
  scheduled = 0;
  coalesced = 0;
  executed = 0;
  waiting = 0;
  ringing = 0;
  jobs = [];
}

-- A cancel is in time only for a timer that waits.
abbrev pub can_cancel : Bool → Config → Bool
can_cancel in_time c = not in_time || ltb 0 c.waiting

-- What some thread does next.
pub data Step : Config → Config → Type 0 where
  schedules : (scope key : Option ℕ) (c : Config) → Step c (schedule scope key c)
  expires : (n : ℕ) (c : Config) → c.waiting ≡ suc n → Step c (expire c)
  takes : (n : ℕ) (c : Config) → c.ringing ≡ suc n → Step c (take_pending c)
  begins : (j : Job) (js : List Job) (c : Config) → c.jobs ≡ j ∷ js → Step c (begin_job c)
  finishes :
      (ok : Bool) (before after : List Job) (j : Job) (c : Config)
      → c.jobs ≡ before ++ j ∷ after
      → Step c (finish_job ok before after c)
  flushes :
      (in_time : Bool) (c : Config) → can_cancel in_time c ≡ true → Step c (flush_now in_time c)
  stops : (in_time : Bool) (c : Config) → can_cancel in_time c ≡ true → Step c (stop in_time c)

pub data Steps : Config → Config → Type 0 where
  here : (c : Config) → Steps c c
  more : (a b c : Config) → Step a b → Steps b c → Steps a c

-- What `_run_consolidated_recompute` runs: the devices and links of a partial recompute, or all.
pub data Plan : Type 0 where
  incremental : List ℕ → List ℕ → Plan
  full : Plan

-- A key of a device is a device, also where a link has it too.
abbrev pub device_keys : Tables → List ℕ → List ℕ
device_keys t [] = []
device_keys t (k ∷ ks) =
    let rest = device_keys t ks in if is_some (get_device t.devices k) then k ∷ rest else rest

abbrev pub link_keys : Tables → List ℕ → List ℕ
link_keys t [] = []
link_keys t (k ∷ ks) =
    let rest = link_keys t ks in
    if is_some (get_device t.devices k)
    then rest
    else if is_some (get_link t.links k)
    then k ∷ rest
    else rest

abbrev pub plan_of : List ℕ → List ℕ → Plan
plan_of [] [] = full
plan_of ds ls = incremental ds ls

unfoldable pub consolidated : Tables → List ℕ → Plan
consolidated t keys = plan_of (device_keys t (sorted keys)) (link_keys t (sorted keys))
