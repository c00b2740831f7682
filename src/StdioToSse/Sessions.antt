-- ===== src/StdioToSse/Sessions.antt =====
-- rust/src/gateways/stdio_to_sse.rs: who may post, and who gets what the child writes.
use mcpway.Base.{
  not, ◌&&◌, not, String, ◌≡◌, refl, Bool, true, false, Option, none, some, List, [], ◌∷◌, ◌↔◌,
  arith, eq_iff, ◌==◌, if◌then◌else◌,
}
use mcpway.Base.Text.{is_empty}
use mcpway.StdioToSse.{
  AppState, Response, StatusCode, created_ok, bad_request, bad_gateway, message_handler, Event,
  send_each, child_message,
}
use mcpway.Base.Dict.Sorted.{IsSorted, lookup-Above}
use mcpway.Base.Dict.{lookup-remove, Dict, lookup}
use mcpway.Json.{Value}

-- What the child has been sent after an answer with this status.
unfoldable pub sent_if : StatusCode → Value → List Value → List Value
sent_if created_ok payload old = payload ∷ old
sent_if _ payload old = old

abbrev pub closed_entry : Option Bool → Bool
closed_entry (some true) = false
closed_entry (some false) = true
closed_entry none = false

module _ (accepted : Bool) (session : String) (payload : Value) (s : AppState) where
  unfoldable pub answer : Response
  unfolding message_handler
  answer = (message_handler accepted session payload s).0

  unfoldable pub after : AppState
  unfolding message_handler
  after = (message_handler accepted session payload s).1

  -- The session is named and known, and its stream is closed.
  unfoldable pub is_closed : Bool
  is_closed = not (is_empty session) && closed_entry (lookup session s.sessions)

  -- What is posted is answered with 200 exactly if the session is named, its stream is open and the child
  -- takes the message, and only then the child is sent it. A session without a name is answered
  -- with 400, and a named one that is open with 502 where the child does not take the message. No
  -- session is sent anything. A session that is named and whose stream is closed is taken out of
  -- the map, and every other entry stays.
  pub message_handler-status :
      ((answer.status ≡ created_ok) ↔ (
        (is_empty session ≡ false) × (lookup session s.sessions ≡ some true) × (accepted ≡ true)))
      × ((answer.status ≡ bad_request) ↔ (is_empty session ≡ true))
      × ((answer.status ≡ bad_gateway) ↔ (
          (is_empty session ≡ false)
          × (lookup session s.sessions ≡ some true)
          × (accepted ≡ false)))
      × (after.to_child ≡ sent_if answer.status payload s.to_child)
      × (after.delivered ≡ s.delivered)
      × ((j : String)
          → lookup j after.sessions
            ≡ (if is_closed && session == j then none else lookup j s.sessions))
  unfolding message_handler sent_if answer after is_closed
  message_handler-status = ground (arith, λ (j : String). lookup-remove session j s.sessions)

-- What a session was sent, the latest first.
unfoldable pub received : String → List (String × Event) → List Event
received session [] = []
received session ((to, event) ∷ sent) =
    let rest = received session sent in if to == session then event ∷ rest else rest

unfoldable pub with_event : Option Bool → Event → List Event → List Event
with_event (some true) event old = event ∷ old
with_event _ event old = old

received-send_each :
    (session : String) (event : Event) (all : Dict Bool) (sent : List (String × Event))
    → IsSorted all
    → received session (send_each event all sent)
      ≡ with_event (lookup session all) event (received session sent)
unfolding received send_each lookup with_event
received-send_each session event [] sent h = refl
received-send_each session event ((k, true) ∷ more) sent h = ground (
  arith,
  received-send_each session event more ((k, event) ∷ sent) h.1,
  eq_iff k session,
  lookup-Above k more h.0,
)
received-send_each session event ((k, false) ∷ more) sent h = ground (
  arith,
  received-send_each session event more sent h.1,
  eq_iff k session,
  lookup-Above k more h.0,
)

-- The sessions' keys are in order. Whatever the child writes goes once to every session whose stream is
-- open, also the answer to a request that another session posted.
pub child_message-received :
    (write : Value → String) (session : String) (message : Value) (s : AppState)
    → IsSorted s.sessions
    → received session (child_message write message s).delivered
      ≡ with_event
          (lookup session s.sessions)
          (record { name = none; text = write message })
          (received session s.delivered)
unfolding child_message
child_message-received write session message s h =
    received-send_each session (record { name = none; text = write message }) s.sessions s.delivered
      h
