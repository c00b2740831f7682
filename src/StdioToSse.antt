-- ===== src/StdioToSse.antt =====
-- rust/src/gateways/stdio_to_sse.rs: one child for many event streams. A session is `true` while the
-- receiver of its stream is open; what the child writes goes to all of them. Events wait in a queue
-- per session, which the model keeps as what was sent. How a value prints as JSON is a parameter.
pub mod Sessions
mod Tests
use mcpway.Base.{
  ℕ, zero, suc, ◌+◌, ◌-◌, ◌*◌, ◌≤◌, ◌<◌, String, Char, code, ◌≡◌, refl, sym, ap, subst, ◌∙◌, ◌≢◌,
  ◌⊎◌, inl, inr, Bool, true, false, not, ◌&&◌, ◌||◌, Option, none, some, List, [], ◌∷◌, arith,
  eq_iff, ltb, leb, eqb, ◌==◌, if◌then◌else◌, Bool-cases, Option-cases, is_some, or_else, unwrap_or,
  and_then, keep_if, eq-false_of_ne, length, any, select,
}
use mcpway.Base.Text.{◌++◌, is_empty}
use mcpway.Base.Int.{ℤ, pos, negsuc, fits_i64}
use mcpway.Base.Dict.{
  Dict, lookup, insert, remove, contains, insert_all, lookup-insert, lookup-remove,
}
use mcpway.Json.{
  Value, Fields, Items, null, bool, int, float, str, arr, obj, end, field, no_items, item, get,
  get_field, insert_field, as_str, as_object, as_array, as_i64, elems,
}

-- `Event::default()` with its name, if it has one, and its data.
pub record Event : Type 0 where
  pub name : Option String
  pub text : String

pub data StatusCode : Type 0 where
  created_ok bad_request bad_gateway service_unavailable : StatusCode

-- What a handler answers, less the headers.
pub record Response : Type 0 where
  pub status : StatusCode
  pub body : String

pub record AppState : Type 0 where
  pub sessions : Dict Bool
  pub message_path : String
  pub base_url : String
  -- What was sent to the child and to the sessions, the latest first.
  pub to_child : List Value
  pub delivered : List (String × Event)

-- The URL that the client is told to post to.
unfoldable pub endpoint_of : String → AppState → String
endpoint_of session s =
    if is_empty s.base_url
    then s.message_path ++ "?sessionId=" ++ session
    else s.base_url ++ s.message_path ++ "?sessionId=" ++ session

-- `sse_handler`, with the new `Uuid`.
unfoldable pub sse_handler : String → AppState → AppState
unfolding endpoint_of insert
sse_handler session s = record s {
  sessions = insert session true s.sessions;
  delivered =
      (session, record { name = some "endpoint"; text = endpoint_of session s }) ∷ s.delivered;
}

-- The response stream is dropped, and its receiver with it.
unfoldable pub receiver_dropped : String → AppState → AppState
unfolding lookup insert
receiver_dropped session s = elim (lookup session s.sessions) [
  | none ↦ s
  | some was ↦ record s { sessions = insert session false s.sessions }
]

-- Whether the session is active; a closed one is taken out.
abbrev pub check_session : Option Bool → String → AppState → Bool × AppState
check_session (some true) session s = (true, s)
check_session (some false) session s = (false, record s { sessions = remove session s.sessions })
check_session none session s = (false, s)

abbrev pub forward : Bool → Value → AppState → Response × AppState
forward true payload s =
    (record { status = created_ok; body = "" }, record s { to_child = payload ∷ s.to_child })
forward false payload s = (record { status = bad_gateway; body = "Failed to write to child" }, s)

-- `accepted` says whether the child takes what it is sent.
unfoldable pub message_handler : Bool → String → Value → AppState → Response × AppState
unfolding lookup
message_handler accepted session payload s =
    if is_empty session
    then (record { status = bad_request; body = "Missing sessionId parameter" }, s)
    else (let (active, checked) = check_session (lookup session s.sessions) session s in
        if active then forward accepted payload checked else (
          record {
            status = service_unavailable;
            body = "No active SSE connection for session " ++ session;
          },
          checked,
        ))

unfoldable pub send_each : Event → Dict Bool → List (String × Event) → List (String × Event)
send_each event [] sent = sent
send_each event ((session, true) ∷ more) sent = send_each event more ((session, event) ∷ sent)
send_each event ((session, false) ∷ more) sent = send_each event more sent

unfoldable pub remove_dead : Dict Bool → Dict Bool → Dict Bool
unfolding remove
remove_dead [] sessions = sessions
remove_dead ((session, true) ∷ more) sessions = remove_dead more sessions
remove_dead ((session, false) ∷ more) sessions = remove_dead more (remove session sessions)

-- One round of the task that reads what the child writes.
unfoldable pub child_message : (Value → String) → Value → AppState → AppState
unfolding send_each remove_dead
child_message write message s = record s {
  delivered = send_each (record { name = none; text = write message }) s.sessions s.delivered;
  sessions = remove_dead s.sessions s.sessions;
}
