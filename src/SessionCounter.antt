-- ===== src/SessionCounter.antt =====
-- rust/src/support/session_access_counter.rs: how many requests use each session, and the timers
-- that clean up the sessions that none uses. `inc` and `dec` hold the map's lock throughout, so
-- each is one step. A spawned task that sleeps is an entry of `timers`; when the sleep ends
-- (`fire`) it calls the cleanup, which the model records in `cleaned`.
pub mod Invariant
pub mod Count
pub mod Cleanup
mod Tests
use mcpway.Base.{
  ℕ, zero, suc, ◌+◌, ◌-◌, String, Option, none, some, List, [], ◌∷◌, eqb, if◌then◌else◌, Bool, true,
  false,
}
use mcpway.Base.Dict.{Dict, lookup, insert, remove}

-- The handle of a spawned task is its number.
pub data SessionState : Type 0 where
  active : ℕ → SessionState
  timeout : ℕ → SessionState

pub record Timer : Type 0 where
  pub handle : ℕ
  pub session : String

pub record SessionAccessCounter : Type 0 where
  pub timeout_ms : ℕ
  pub sessions : Dict SessionState
  pub timers : List Timer
  pub next_handle : ℕ
  pub cleaned : List String

unfoldable pub new_counter : ℕ → SessionAccessCounter
new_counter timeout_ms = record {
  timeout_ms = timeout_ms;
  sessions = [];
  timers = [];
  next_handle = 0;
  cleaned = [];
}

-- `handle.abort()`, which is no error if the task is done.
unfoldable pub abort : ℕ → List Timer → List Timer
abort h [] = []
abort h (t ∷ ts) = let rest = abort h ts in if eqb t.handle h then rest else t ∷ rest

-- The map without the entry that `sessions.remove(session_id)` took out, and with a new one.
abbrev pub replace : String → SessionState → SessionAccessCounter → Dict SessionState
replace id state c = insert id state (remove id c.sessions)

inc_from : Option SessionState → String → SessionAccessCounter → SessionAccessCounter
unfolding abort
inc_from none id c = record c { sessions = replace id (active 1) c }
inc_from (some (timeout h)) id c = record c {
  sessions = replace id (active 1) c;
  timers = abort h c.timers;
}
inc_from (some (active n)) id c = record c { sessions = replace id (active (n + 1)) c }

unfoldable pub inc : String → SessionAccessCounter → SessionAccessCounter
unfolding inc_from
inc id c = inc_from (lookup id c.sessions) id c

-- The branch of `dec` at an active session with the given count.
dec_active : ℕ → String → SessionAccessCounter → SessionAccessCounter
dec_active zero id c = record c { sessions = remove id c.sessions }
dec_active (suc zero) id c = record c {
  sessions = replace id (timeout c.next_handle) c;
  timers = record { handle = c.next_handle; session = id } ∷ c.timers;
  next_handle = suc c.next_handle;
}
dec_active (suc (suc n)) id c = record c { sessions = replace id (active (suc n)) c }

dec_from : Option SessionState → String → SessionAccessCounter → SessionAccessCounter
unfolding dec_active
dec_from none id c = c
dec_from (some (timeout h)) id c = record c { sessions = replace id (timeout h) c }
dec_from (some (active n)) id c = dec_active n id c

unfoldable pub dec : String → SessionAccessCounter → SessionAccessCounter
unfolding dec_from
dec id c = dec_from (lookup id c.sessions) id c

-- The task of a timer at the end of its sleep.
unfoldable pub fire : Timer → SessionAccessCounter → SessionAccessCounter
unfolding abort
fire t c = record c { timers = abort t.handle c.timers; cleaned = t.session ∷ c.cleaned }
