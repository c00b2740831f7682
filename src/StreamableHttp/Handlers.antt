-- ===== src/StreamableHttp/Handlers.antt =====
-- The handlers of the stateful endpoint. A handler's session header is `none` if it is missing or
-- no text. The guard of a response names the session whose count the end of the response lowers
-- (`SessionResponseGuard`, whose `fired` flag lets it act once). A POST is one step: what its child
-- writes while it waits is part of it, and what other requests do meanwhile is not.
pub mod Post
pub mod Balance
pub mod Access
pub mod Race
mod Tests
use mcpway.Base.{
  ℕ, String, Bool, true, false, Option, none, some, List, [], ◌∷◌, is_some, ◌⊎◌, inl, inr,
  if◌then◌else◌,
}
use mcpway.Base.Dict.{Dict, insert, insert_all}
use mcpway.Json.{Value, get}
use mcpway.Runtime.{RuntimeArgs, RuntimeArgsStore, get_effective}
use mcpway.StreamableHttp.Message.{is_initialize_request}
use mcpway.StreamableHttp.Session.{Session, new_session, Wait, request}
use mcpway.StreamableHttp.Manager.{
  SessionManager, created, failed, Created, session_inc, session_dec, create_session, get_session,
  remove_session,
}

pub data Body : Type 0 where
  empty : Body
  text : String → Body
  json : Value → Body
  -- A JSON-RPC error with its code, negated, its message and its id.
  rpc_error : ℕ → String → Option Value → Body
  event_stream : Body

pub record Response : Type 0 where
  pub status : ℕ
  pub body : Body
  pub session_header : Option String
  pub headers : Dict String
  pub guard : Option String

-- The gateway's state, less what only the log shows.
pub record AppState : Type 0 where
  pub base_headers : Dict String
  pub manager : SessionManager

-- What the handlers use of the HTTP library: the normal form of a header, if it is one.
abbrev pub ValidHeader : Type 0
ValidHeader = String → String → Option (String × String)

-- `merge_headers`, and `header_map_from` on the empty map
unfoldable pub merge_headers : ValidHeader → Dict String → Dict String → Dict String
merge_headers valid base [] = base
merge_headers valid base ((k, v) ∷ overlay) = elim (valid k v) [
  | none ↦ merge_headers valid base overlay
  | some (name, value) ↦ merge_headers valid (insert name value base) overlay
]

unfoldable pub apply_headers : ValidHeader → AppState → Option String → Response → Response
unfolding merge_headers
apply_headers valid s id r = record r {
  headers =
      insert_all r.headers
        (merge_headers valid s.base_headers (get_effective id s.manager.runtime).headers);
}

abbrev plain : ℕ → Body → Response
plain status body = record {
  status = status;
  body = body;
  session_header = none;
  headers = [];
  guard = none;
}

abbrev pub no_session : Response
no_session = plain 400 (rpc_error 32000 "Bad Request: No valid session ID provided" none)

abbrev pub bad_session : Response
bad_session = plain 400 (text "Invalid or missing session ID")

-- What the handlers use of the children and of the printer of JSON: whether a child starts, and what a
-- request meets.
pub record Child : Type 0 where
  pub spawn : RuntimeArgs → Option String
  pub print : Value → String
  pub wait : Session → Value → Wait

-- The response that the session makes to a POST, and the session then.
exchange : Child → Session → Value → Session × Response
unfolding request
exchange child session payload =
    let meets = child.wait session payload in
    elim (get "id" payload) [
      | some id ↦
          (let (after, result) = request child.print meets id session in
            elim result [
              | inl answer ↦ (after, plain 200 (json answer))
              | inr error ↦ (after, plain 500 (rpc_error 32603 error (some id)))
            ])
      | none ↦
          if is_some meets.send_error
          then (session, plain 502 (rpc_error 32603 "Failed to send message" none))
          else (session, plain 204 empty)
    ]

-- A session is shared, so what is done to it is seen in the map.
keep_session : String → Session → AppState → AppState
keep_session id session s = record s {
  manager = record s.manager { sessions = insert id session s.manager.sessions };
}

-- The end of a handler: the session header, the runtime headers and the guard.
finish : ValidHeader → AppState → String → Response → Response
unfolding apply_headers
finish valid s id r =
    record (apply_headers valid s (some id) (record r { session_header = some id })) {
      guard = some id;
    }

-- The exchange in a session that was counted, and the end of the handler.
pub respond : ValidHeader → Child → String → Session → Value → AppState → AppState × Response
unfolding exchange finish keep_session
respond valid child id session payload s =
    let (later, response) = exchange child session payload in
    let kept = keep_session id later s in (kept, finish valid kept id response)

-- The two ways to a session: the one that the header names, or a new one.
post_existing : ValidHeader → Child → String → Value → AppState → AppState × Response
unfolding respond
post_existing valid child id payload s = elim (get_session id s.manager) [
  | none ↦ (s, no_session)
  | some session ↦
      respond valid child id session payload (record s { manager = session_inc id s.manager })
]

post_new : ValidHeader → Child → String → Value → AppState → AppState × Response
unfolding respond
post_new valid child uuid payload s =
    if is_initialize_request payload
    then elim (create_session child.spawn uuid s.manager) [
      | failed error ↦ (s, plain 500 (rpc_error 32603 error none))
      | created m ↦ respond valid child uuid new_session payload (record s { manager = m })
    ]
    else (s, no_session)

-- `uuid` is the id of the session that the request may create.
unfoldable pub stateful_post :
    ValidHeader → Child → String → Option String → Value → AppState → AppState × Response
unfolding post_existing post_new get_session session_inc create_session
stateful_post valid child uuid header payload s = elim header [
  | some id ↦ post_existing valid child id payload s
  | none ↦ post_new valid child uuid payload s
]

unfoldable pub stateful_get : ValidHeader → Option String → AppState → AppState × Response
unfolding get_session session_inc finish
stateful_get valid none s = (s, bad_session)
stateful_get valid (some id) s = elim (get_session id s.manager) [
  | none ↦ (s, bad_session)
  | some session ↦
      (let counted : AppState = record s { manager = session_inc id s.manager } in
        (counted, finish valid counted id (plain 200 event_stream)))
]

-- `others` is what other tasks do between the look-up and the removal, where no lock is held.
unfoldable pub stateful_delete :
    ValidHeader → (SessionManager → SessionManager) → Option String → AppState → AppState × Response
unfolding get_session session_inc remove_session apply_headers
stateful_delete valid others none s = (s, bad_session)
stateful_delete valid others (some id) s = elim (get_session id s.manager) [
  | none ↦ (s, bad_session)
  | some session ↦
      (let (m, removed) = remove_session id (others (session_inc id s.manager)) in
        let after : AppState = record s { manager = m } in
        if removed
        then (
          after,
          record (apply_headers valid after (some id) (plain 200 empty)) { guard = some id },
        )
        else (after, bad_session))
]

-- The end of a response: `SessionResponseGuard::drop`, which acts at the first drop only.
unfoldable pub response_closed : Response → AppState → AppState
unfolding session_dec
response_closed r s = elim r.guard [
  | none ↦ s
  | some id ↦ record s { manager = session_dec id s.manager }
]
