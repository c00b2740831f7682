-- ===== src/StreamableHttp/Handlers/Access.antt =====
-- Which requests are refused, and which sessions a request can open or close.
use mcpway.Base.{
  sym, ap, subst, refl, ◌∙◌, inl, inr, Option-cases, Bool-cases, ◌∷◌, ◌≡◌, ◌⊎◌, true, false, Option,
  none, some, String, arith, ◌==◌, eq_iff, if◌then◌else◌, ◌↔◌,
}
use mcpway.Base.Dict.{lookup, lookup-insert, lookup-remove}
use mcpway.Json.{Value, get}
use mcpway.StreamableHttp.Message.{is_initialize_request}
use mcpway.StreamableHttp.Session.{Session, new_session}
use mcpway.StreamableHttp.Session.Request.{AddsNone, request-AddsNone}
use mcpway.StreamableHttp.Manager.{SessionManager, session_inc, get_session}
use mcpway.StreamableHttp.Handlers.Post.{counted, opened, stateful_post-cases}
use mcpway.StreamableHttp.Handlers.{
  Response, respond, Session, exchange, ValidHeader, Child, AppState, stateful_post,
  stateful_delete,
}

-- The session that a request asks for: the one that its header names, if it is open.
abbrev pub Unknown : Option String → Value → AppState → Type 0
Unknown none payload s = is_initialize_request payload ≡ false
Unknown (some id) payload s = get_session id s.manager ≡ none

-- A POST is answered with status 400 exactly if its session is not open, or if it names no session
-- and is no `initialize` request; the gateway's state then stays as it is.
pub stateful_post-refused :
    (valid : ValidHeader) (child : Child) (uuid : String) (header : Option String) (payload : Value)
    (s : AppState)
    → let (after, response) = stateful_post valid child uuid header payload s in
      ((response.status ≡ 400) ↔ Unknown header payload s) × (response.status ≡ 400 → after ≡ s)
unfolding stateful_post
stateful_post-refused valid child uuid (some id) payload s = ground arith
stateful_post-refused valid child uuid none payload s = ground arith

-- The exchange leaves no request waiting.
exchange-AddsNone :
    (child : Child) (session : Session) (payload : Value)
    → AddsNone session (exchange child session payload).0
unfolding exchange AddsNone
exchange-AddsNone child session payload k n h = elim (Option-cases (get "id" payload)) [
  | inl e ↦ ground (arith, e, h)
  | inr (id, e) ↦
      (let left = request-AddsNone child.print (child.wait session payload) id session k n in
        ground (arith, e, h, left))
]

-- The session of a response is the one after its exchange, and every other is as before.
respond-sessions :
    (valid : ValidHeader) (child : Child) (id : String) (session : Session) (payload : Value)
    (s : AppState) (j : String)
    → get_session j (respond valid child id session payload s).0.manager
      ≡ (if id == j then some (exchange child session payload).0 else get_session j s.manager)
unfolding respond get_session lookup
respond-sessions valid child id session payload s j =
    lookup-insert id j (exchange child session payload).0 s.manager.sessions

-- The session with this id is open after a request, with nothing waiting that did not wait before.
abbrev pub Later : Session → String → AppState → Type 0
Later before id after =
    (later : Session) × (get_session id after.manager ≡ some later) × AddsNone before later

-- After a POST every session is as before, but for two: the one that its header names, and the one that an
-- `initialize` request without session header opens under the new id. In these, whatever the child
-- writes and however the request ends, no request waits that did not wait before, which in the new
-- session is none.
pub stateful_post-sessions :
    (valid : ValidHeader) (child : Child) (uuid : String) (header : Option String) (payload : Value)
    (s : AppState) (j : String)
    → let after = (stateful_post valid child uuid header payload s).0 in
      (get_session j after.manager ≡ get_session j s.manager)
      ⊎ ((before : Session) × (header ≡ some j)
          × (get_session j s.manager ≡ some before)
          × Later before j after)
      ⊎ ((header ≡ none)
          × (is_initialize_request payload ≡ true)
          × (j ≡ uuid)
          × Later new_session j after)
unfolding session_inc get_session
stateful_post-sessions valid child uuid header payload s j =
    let result = stateful_post valid child uuid header payload s in
    elim (stateful_post-cases valid child uuid payload s header) [
      | inl (same, no_guard) ↦ inl (ap (λ (t : AppState). get_session j t.manager) same)
      | inr (inl (id, session, named, found, is)) ↦
          (let seen : get_session j result.0.manager ≡ (
                if id == j
                then some (exchange child session payload).0
                else get_session j s.manager) =
              ap (λ (r : AppState × Response). get_session j r.0.manager) is
              ∙ respond-sessions valid child id session payload (counted id s) j in
            elim (Bool-cases (id == j)) [
              | inr other ↦ inl (seen ∙ rw other refl)
              | inl e ↦
                  (let at : id ≡ j = (eq_iff id j).0 e in
                    inr (
                      inl (
                        session,
                        named ∙ ap some at,
                        subst (λ k. get_session k s.manager ≡ some session) at found,
                        (
                          (exchange child session payload).0,
                          seen ∙ rw e refl,
                          exchange-AddsNone child session payload,
                        ),
                      )))
            ])
      | inr (inr (unnamed, is_init, is)) ↦
          (let seen : get_session j result.0.manager ≡ (
                if uuid == j
                then some (exchange child new_session payload).0
                else get_session j (opened uuid s).manager) =
              ap (λ (r : AppState × Response). get_session j r.0.manager) is
              ∙ respond-sessions valid child uuid new_session payload (opened uuid s) j in
            elim (Bool-cases (uuid == j)) [
              | inr other ↦ inl (
                  seen
                  ∙ rw other refl
                  ∙ lookup-insert uuid j new_session s.manager.sessions
                  ∙ rw other refl)
              | inl e ↦ inr (
                  inr (
                    unnamed,
                    is_init,
                    sym ((eq_iff uuid j).0 e),
                    (
                      (exchange child new_session payload).0,
                      seen ∙ rw e refl,
                      exchange-AddsNone child new_session payload,
                    ),
                  ))
            ])
    ]

-- A DELETE answered with status 200 has closed its session and no other: whatever the other tasks
-- did meanwhile, the session is gone, its child was shut down, and every other session is as they
-- left it. A POST with that session's id is then refused.
pub stateful_delete-closes :
    (valid : ValidHeader) (others : SessionManager → SessionManager) (id j : String) (s : AppState)
    (child : Child) (uuid : String) (payload : Value)
    → let (after, response) = stateful_delete valid others (some id) s in
      response.status ≡ 200
      → (get_session j after.manager
          ≡ (if id == j then none else get_session j (others (session_inc id s.manager))))
        × (after.manager.ended ≡ id ∷ (others (session_inc id s.manager)).ended)
        × ((stateful_post valid child uuid (some id) payload after).1.status ≡ 400)
unfolding stateful_delete stateful_post
stateful_delete-closes valid others id j s child uuid payload h =
    let left = (others (session_inc id s.manager)).sessions in
    ground (arith, lookup-remove id j left, lookup-remove id id left, eq_iff id j, eq_iff id id)
