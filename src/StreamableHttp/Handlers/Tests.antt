-- ===== src/StreamableHttp/Handlers/Tests.antt =====
-- The theorems on the handlers at a gateway that has one session, which none uses.
use mcpway.Base.{◌≡◌, refl, none, some, [], ◌∷◌, String, true, false, ◌+◌, ◌⊎◌, arith, eq_iff}
use mcpway.Base.Dict.{lookup, insert, remove}
use mcpway.Json.{Value, str, obj, field, end, get, get_field}
use mcpway.Runtime.{RuntimeArgs}
use mcpway.SessionCounter.{SessionAccessCounter, Timer, new_counter, inc, dec}
use mcpway.SessionCounter.Invariant.{Listed, first, begin_request, end_request, Reach, here, next}
use mcpway.StreamableHttp.Message.{is_initialize_request}
use mcpway.StreamableHttp.Session.{
  Session, new_session, request, register, wait_for, route, response_key, request_key, await_answer,
}
use mcpway.StreamableHttp.Manager.{
  SessionManager, session_inc, get_session, remove_session, timer_fires, run_cleanup,
}
use mcpway.StreamableHttp.Handlers.{
  ValidHeader, Child, AppState, stateful_post, stateful_get, stateful_delete, response_closed,
}
use mcpway.StreamableHttp.Handlers.Balance.{open_requests, stateful_post-balanced}
use mcpway.StreamableHttp.Handlers.Access.{Later, stateful_post-sessions, stateful_delete-closes}
use mcpway.StreamableHttp.Handlers.Race.{stateful_delete-leaks, cleanup_of_used_session}

abbrev valid : ValidHeader
valid name value = some (name, value)

abbrev child : Child
child = record {
  spawn = λ args. none;
  print = λ id. "?";
  wait =
      λ session message. record { send_error = none; written = message ∷ []; is_cancelled = false };
}

abbrev no_args : RuntimeArgs
no_args = record { extra_cli_args = []; env = []; headers = [] }

abbrev once : SessionAccessCounter
once = inc "s" (new_counter 50)

abbrev idle : SessionAccessCounter
idle = dec "s" once

abbrev timer : Timer
timer = record { handle = 0; session = "s" }

abbrev state : AppState
state = record {
  base_headers = [];
  manager = record {
    runtime = record { global = no_args; sessions = [] };
    sessions = ("s", new_session) ∷ [];
    session_counter = some idle;
    restarts = [];
    ended = [];
  };
}

abbrev message : Value
message = obj (field "id" (str "a") (field "method" (str "ping") end))

open_session : get_session "s" state.manager ≡ some new_session
unfolding get_session lookup
open_session = refl

abbrev posted : AppState
posted = (stateful_post valid child "new" (some "s") message state).0

stateful_post-balanced_example :
    open_requests "s"
      (response_closed (stateful_post valid child "new" (some "s") message state).1 posted).manager
    ≡ open_requests "s" state.manager
stateful_post-balanced_example =
    stateful_post-balanced valid child "new" (some "s") message state "s"

other_unknown : get_session "t" state.manager ≡ none
unfolding get_session lookup
other_unknown = ground (arith, eq_iff "s" "t")

abbrev the_session : String
the_session = "s"

abbrev new_id : String
new_id = "new"

stateful_post-answered : (stateful_post valid child "new" (some "s") message state).1.status ≡ 200
unfolding stateful_post get_session lookup session_inc request register wait_for route response_key
    request_key await_answer insert remove get get_field new_session
stateful_post-answered = refl

stateful_post-sessions_example :
    (get_session "s" posted.manager ≡ get_session "s" state.manager)
    ⊎ ((before : Session) × (some the_session ≡ some the_session)
        × (get_session "s" state.manager ≡ some before)
        × Later before "s" posted)
    ⊎ ((some the_session ≡ none)
        × (is_initialize_request message ≡ true)
        × (the_session ≡ new_id)
        × Later new_session "s" posted)
stateful_post-sessions_example =
    stateful_post-sessions valid child "new" (some "s") message state "s"

abbrev nothing_else : SessionManager → SessionManager
nothing_else m = m

deleted_ok : (stateful_delete valid nothing_else (some "s") state).1.status ≡ 200
unfolding stateful_delete get_session remove_session session_inc lookup
deleted_ok = refl

stateful_delete-closes_example :
    (stateful_post valid child "new"
      (some "s")
      message
      (stateful_delete valid nothing_else (some "s") state).0).1.status
    ≡ 400
stateful_delete-closes_example =
    (stateful_delete-closes valid nothing_else "s" "s" state child "new" message deleted_ok).2

-- Another DELETE that takes the session out.
abbrev closed_by_other : SessionManager → SessionManager
closed_by_other m = record m { sessions = [] }

gone : get_session "s" (closed_by_other (session_inc "s" state.manager)) ≡ none
unfolding get_session lookup
gone = refl

stateful_delete-leaks_example :
    ((stateful_delete valid closed_by_other (some "s") state).1.status ≡ 400)
    × (open_requests "s"
          (response_closed
            (stateful_delete valid closed_by_other (some "s") state).1
            (stateful_delete valid closed_by_other (some "s") state).0).manager
        ≡ open_requests "s" state.manager + 1)
stateful_delete-leaks_example =
    stateful_delete-leaks valid closed_by_other "s" state idle new_session refl open_session gone
      refl

idle-Reach : Reach (new_counter 50) idle
idle-Reach = next (next here (begin_request (new_counter 50) "s")) (end_request once "s")

timer-Listed : Listed timer idle.timers
unfolding inc dec new_counter lookup insert remove
timer-Listed = first

abbrev used : AppState
used =
    (stateful_get valid (some "s") (record state { manager = timer_fires timer state.manager })).0

cleanup_of_used_session_example :
    (open_requests "s" (run_cleanup "s" used.manager) ≡ 1)
    × (get_session "s" (run_cleanup "s" used.manager) ≡ none)
cleanup_of_used_session_example =
    let shown =
      cleanup_of_used_session valid 50 idle timer state new_session idle-Reach timer-Listed refl
        open_session in
    (shown.1, shown.2)
