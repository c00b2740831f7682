-- ===== src/StreamableHttp/Manager.antt =====
-- `SessionManager`: the sessions, the counter of their requests and the runtime arguments. What
-- starting a child process yields is a parameter; `restarts` records the children that were
-- started again, the latest first, with their arguments, and `ended` those that were shut down.
use mcpway.Base.{ℕ, String, Bool, true, false, Option, none, some, List, [], ◌∷◌}
use mcpway.Base.Dict.{Dict, lookup, insert, remove, keys}
use mcpway.Runtime.{RuntimeArgs, RuntimeArgsStore, get_effective}
use mcpway.SessionCounter.{SessionAccessCounter, Timer, new_counter, inc, dec, fire}
use mcpway.StreamableHttp.Session.{Session, new_session}

pub record SessionManager : Type 0 where
  pub runtime : RuntimeArgsStore
  pub sessions : Dict Session
  pub session_counter : Option SessionAccessCounter
  pub restarts : List (String × RuntimeArgs)
  pub ended : List String

unfoldable pub new_manager : RuntimeArgsStore → Option ℕ → SessionManager
new_manager runtime session_timeout = record {
  runtime = runtime;
  sessions = [];
  session_counter = elim session_timeout [ none ↦ none | some ms ↦ some (new_counter ms) ];
  restarts = [];
  ended = [];
}

-- `if let Some(counter) = &self.session_counter { … }`
count_with : (SessionAccessCounter → SessionAccessCounter) → SessionManager → SessionManager
count_with f m = record m {
  session_counter = elim m.session_counter [ none ↦ none | some c ↦ some (f c) ];
}

unfoldable pub session_inc : String → SessionManager → SessionManager
unfolding count_with
session_inc id m = count_with (inc id) m

unfoldable pub session_dec : String → SessionManager → SessionManager
unfolding count_with
session_dec id m = count_with (dec id) m

pub data Created : Type 0 where
  created : SessionManager → Created
  failed : String → Created

-- `id` is the new `Uuid`, and `spawn` says whether the child starts, or the error.
unfoldable pub create_session : (RuntimeArgs → Option String) → String → SessionManager → Created
unfolding session_inc
create_session spawn id m = elim (spawn (get_effective (some id) m.runtime)) [
  | some error ↦ failed error
  | none ↦ created (session_inc id (record m { sessions = insert id new_session m.sessions }))
]

unfoldable pub get_session : String → SessionManager → Option Session
get_session id m = lookup id m.sessions

unfoldable pub remove_session : String → SessionManager → SessionManager × Bool
remove_session id m = elim (lookup id m.sessions) [
  | none ↦ (m, false)
  | some session ↦ (record m { sessions = remove id m.sessions; ended = id ∷ m.ended }, true)
]

-- The session restarted, if there is one; `restart` says whether its child starts, or the error.
unfoldable pub restart_session :
    (RuntimeArgs → Option String) → String → SessionManager → SessionManager × Option String
restart_session restart id m =
    let args = get_effective (some id) m.runtime in
    elim (lookup id m.sessions) [
      | none ↦ (m, none)
      | some session ↦ (record m { restarts = (id, args) ∷ m.restarts }, restart args)
    ]

unfoldable pub restart_each :
    (RuntimeArgs → Option String) → List String → SessionManager → SessionManager
unfolding restart_session
restart_each restart [] m = m
restart_each restart (id ∷ ids) m = restart_each restart ids (restart_session restart id m).0

unfoldable pub restart_all : (RuntimeArgs → Option String) → SessionManager → SessionManager
unfolding restart_each
restart_all restart m = restart_each restart (keys m.sessions) m

-- The end of a timer's sleep: the closure of `SessionManager::new` spawns a task, which later
-- takes the session out (`run_cleanup`).
unfoldable pub timer_fires : Timer → SessionManager → SessionManager
unfolding count_with
timer_fires t m = count_with (fire t) m

unfoldable pub run_cleanup : String → SessionManager → SessionManager
unfolding remove_session
run_cleanup id m = (remove_session id m).0
