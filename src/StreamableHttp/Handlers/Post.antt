-- ===== src/StreamableHttp/Handlers/Post.antt =====
-- The ways that a POST can go: refused, in an open session, or in a new one.
use mcpway.Base.{
  ◌≡◌, refl, ◌⊎◌, inl, inr, true, Option, none, some, String, Option-cases, Bool-cases,
}
use mcpway.Base.Dict.{insert}
use mcpway.Json.{Value}
use mcpway.Runtime.{get_effective}
use mcpway.StreamableHttp.Message.{is_initialize_request}
use mcpway.StreamableHttp.Session.{Session, new_session}
use mcpway.StreamableHttp.Manager.{session_inc, get_session, create_session}
use mcpway.StreamableHttp.Handlers.{
  ValidHeader, Child, AppState, Response, stateful_post, post_existing, post_new, respond,
}

-- The session of the header, counted.
abbrev pub counted : String → AppState → AppState
counted id s = record s { manager = session_inc id s.manager }

-- A new session, counted.
abbrev pub opened : String → AppState → AppState
opened uuid s = record s {
  manager =
      session_inc uuid (record s.manager { sessions = insert uuid new_session s.manager.sessions });
}

module _ (valid : ValidHeader) (child : Child) (uuid : String) (payload : Value)
    (s : AppState) where
  abbrev pub Refused : AppState × Response → Type 0
  Refused (after, response) = (after ≡ s) × (response.guard ≡ none)

  abbrev pub InOpen : Option String → AppState × Response → Type 0
  InOpen header result =
      (id : String) × (session : Session) × (header ≡ some id)
      × (get_session id s.manager ≡ some session)
      × (result ≡ respond valid child id session payload (counted id s))

  abbrev pub InNew : Option String → AppState × Response → Type 0
  InNew header result =
      (header ≡ none)
      × (is_initialize_request payload ≡ true)
      × (result ≡ respond valid child uuid new_session payload (opened uuid s))

  pub stateful_post-cases :
      (header : Option String)
      → let result = stateful_post valid child uuid header payload s in
        Refused result ⊎ InOpen header result ⊎ InNew header result
  unfolding stateful_post post_existing post_new create_session
  stateful_post-cases (some id) = elim (Option-cases (get_session id s.manager)) [
    | inl e ↦ inl (rw (post_existing, e) (refl, refl))
    | inr (session, e) ↦ inr (inl (id, session, refl, e, rw (post_existing, e) refl))
  ]
  stateful_post-cases none = elim (Bool-cases (is_initialize_request payload)) [
    | inr e ↦ inl (rw (post_new, e) (refl, refl))
    | inl e ↦ elim (Option-cases (child.spawn (get_effective (some uuid) s.manager.runtime))) [
      | inr (error, f) ↦ inl (rw (post_new, e, create_session, f) (refl, refl))
      | inl f ↦ inr (inr (refl, e, rw (post_new, e, create_session, f) refl))
    ]
  ]
