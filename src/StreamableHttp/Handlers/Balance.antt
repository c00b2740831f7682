-- ===== src/StreamableHttp/Handlers/Balance.antt =====
-- A request counts its session up once, and the end of its response counts it down once.
use mcpway.Base.{
  sym, ap, subst, ◌∙◌, inl, inr, ℕ, ◌≡◌, refl, Option, none, some, String, arith, eq_iff,
}
use mcpway.Base.Dict.{insert}
use mcpway.Json.{Value}
use mcpway.SessionCounter.{SessionAccessCounter, inc}
use mcpway.SessionCounter.Count.{users, users-inc, users-dec}
use mcpway.StreamableHttp.Session.{Session, new_session}
use mcpway.StreamableHttp.Manager.{SessionManager, session_inc, session_dec}
use mcpway.StreamableHttp.Handlers.Post.{counted, opened, stateful_post-cases}
use mcpway.StreamableHttp.Handlers.{
  Response, ValidHeader, Child, AppState, stateful_post, stateful_get, response_closed, respond,
}

-- The open requests of a session, 0 if they are not counted.
users_of : String → Option SessionAccessCounter → ℕ
users_of j none = 0
users_of j (some c) = users j c

unfoldable pub open_requests : String → SessionManager → ℕ
unfolding users_of
open_requests j m = users_of j m.session_counter

-- Counting up and then down again changes no session's count.
inc_dec-open_requests :
    (id j : String) (m : SessionManager)
    → open_requests j (session_dec id (session_inc id m)) ≡ open_requests j m
unfolding open_requests session_inc session_dec
inc_dec-open_requests id j m = go m.session_counter
  where
    go :
        (o : Option SessionAccessCounter)
        → users_of j
            (session_dec id (session_inc id (record m { session_counter = o }))).session_counter
          ≡ users_of j o
    go none = refl
    go (some c) = ground (arith, users-dec id j (inc id c), users-inc id j c, eq_iff id j)

-- The exchange changes no count, and the end of its response counts its session down.
respond-counts :
    (valid : ValidHeader) (child : Child) (id : String) (session : Session) (payload : Value)
    (s : AppState) (j : String)
    → let (after, response) = respond valid child id session payload s in
      open_requests j (response_closed response after).manager
      ≡ open_requests j (session_dec id s.manager)
unfolding respond response_closed open_requests session_dec
respond-counts valid child id session payload s j = refl

-- Once the response to a POST is closed, every session has as many open requests as before the
-- request, whatever branch the handler took and whatever the child did.
pub stateful_post-balanced :
    (valid : ValidHeader) (child : Child) (uuid : String) (header : Option String) (payload : Value)
    (s : AppState) (j : String)
    → let (after, response) = stateful_post valid child uuid header payload s in
      open_requests j (response_closed response after).manager ≡ open_requests j s.manager
unfolding response_closed open_requests
stateful_post-balanced valid child uuid header payload s j =
    let IsBalanced = λ (result : AppState × Response).
      open_requests j (response_closed result.1 result.0).manager ≡ open_requests j s.manager in
    elim (stateful_post-cases valid child uuid payload s header) [
      | inl (same, no_guard) ↦
          ground (arith, no_guard) ∙ ap (λ (t : AppState). open_requests j t.manager) same
      | inr (inl (id, session, named, found, result)) ↦ subst IsBalanced (sym result) (
          respond-counts valid child id session payload (counted id s) j
          ∙ inc_dec-open_requests id j s.manager)
      | inr (inr (unnamed, is_init, result)) ↦ subst IsBalanced (sym result) (
          respond-counts valid child uuid new_session payload (opened uuid s) j
          ∙ inc_dec-open_requests uuid j
              (record s.manager { sessions = insert uuid new_session s.manager.sessions }))
    ]

-- Once the response to a GET, an event stream or a refusal, is closed, every session has as many open
-- requests as before the GET.
pub stateful_get-balanced :
    (valid : ValidHeader) (header : Option String) (s : AppState) (j : String)
    → let (after, response) = stateful_get valid header s in
      open_requests j (response_closed response after).manager ≡ open_requests j s.manager
unfolding stateful_get response_closed
stateful_get-balanced valid none s j = refl
stateful_get-balanced valid (some id) s j = ground (arith, inc_dec-open_requests id j s.manager)
