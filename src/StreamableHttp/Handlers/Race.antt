-- ===== src/StreamableHttp/Handlers/Race.antt =====
-- Two interleavings in which the count of a session and the session itself part ways.
use mcpway.Base.{ℕ, ◌+◌, ◌≡◌, none, some, String, arith, eq_iff}
use mcpway.Base.Dict.{lookup-remove}
use mcpway.SessionCounter.{SessionAccessCounter, new_counter, Timer, fire}
use mcpway.SessionCounter.Invariant.{Reach, Listed, timer_session-idle}
use mcpway.SessionCounter.Count.{users-inc}
use mcpway.StreamableHttp.Session.{Session}
use mcpway.StreamableHttp.Manager.{
  SessionManager, session_inc, get_session, timer_fires, run_cleanup,
}
use mcpway.StreamableHttp.Handlers.{
  ValidHeader, AppState, stateful_get, stateful_delete, response_closed,
}
use mcpway.StreamableHttp.Handlers.Balance.{open_requests}

-- If another task closes the session while a DELETE is between its look-up and its removal, and
-- does not change the counts, the DELETE is refused and its count is never taken back: after the
-- end of its response the session counts one request more than before.
pub stateful_delete-leaks :
    (valid : ValidHeader) (others : SessionManager → SessionManager) (id : String) (s : AppState)
    (c : SessionAccessCounter) (session : Session)
    → s.manager.session_counter ≡ some c
    → get_session id s.manager ≡ some session
    → get_session id (others (session_inc id s.manager)) ≡ none
    → (others (session_inc id s.manager)).session_counter
      ≡ (session_inc id s.manager).session_counter
    → let (after, response) = stateful_delete valid others (some id) s in
      (response.status ≡ 400)
      × (open_requests id (response_closed response after).manager ≡ open_requests id s.manager + 1)
unfolding stateful_delete open_requests response_closed
stateful_delete-leaks valid others id s c session counter found gone same =
    ground (arith, users-inc id id c, eq_iff id id)

-- If the timer of an idle session fires, and before the task that it spawned runs, a GET finds the
-- session and opens its stream, then the task closes the session although a request uses it.
pub cleanup_of_used_session :
    (valid : ValidHeader) (ms : ℕ) (c : SessionAccessCounter) (t : Timer) (s : AppState)
    (session : Session)
    → Reach (new_counter ms) c
    → Listed t c.timers
    → s.manager.session_counter ≡ some c
    → get_session t.session s.manager ≡ some session
    → let fired : AppState = record s { manager = timer_fires t s.manager } in
      let (used, response) = stateful_get valid (some t.session) fired in
      let cleaned = run_cleanup t.session used.manager in
      (response.status ≡ 200)
      × (open_requests t.session cleaned ≡ 1)
      × (get_session t.session cleaned ≡ none)
unfolding stateful_get open_requests run_cleanup timer_fires fire
cleanup_of_used_session valid ms c t s session r l counter found =
    let idle = (timer_session-idle ms c r).0 t l in
    ground (
      arith,
      users-inc t.session t.session (fire t c),
      eq_iff t.session t.session,
      lookup-remove t.session t.session s.manager.sessions,
    )
