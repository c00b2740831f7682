-- ===== src/StdioToSse/Tests.antt =====
-- rust/src/gateways/stdio_to_sse.rs: two sessions and one child.
use mcpway.Base.{
  String, if◌then◌else◌, ◌==◌, ◌&&◌, String, ◌≡◌, refl, true, false, none, some, [], ◌∷◌, ◌↔◌,
}
use mcpway.StdioToSse.{
  message_handler, bad_request, bad_gateway, AppState, created_ok, sse_handler, endpoint_of,
  child_message,
}
use mcpway.StdioToSse.Sessions.{
  is_closed, sent_if, answer, after, received, with_event, message_handler-status,
  child_message-received,
}
use mcpway.Base.Dict.{lookup, insert}
use mcpway.Json.{Value, null}

abbrev print_ping : Value → String
print_ping v = "{}"

abbrev fresh : AppState
fresh = record {
  sessions = [];
  message_path = "/message";
  base_url = "";
  to_child = [];
  delivered = [];
}

abbrev two_sessions : AppState
two_sessions = record {
  sessions = ("s1", true) ∷ ("s2", true) ∷ [];
  message_path = "/message";
  base_url = "";
  to_child = [];
  delivered =
      ("s2", record { name = some "endpoint"; text = "/message?sessionId=s2" })
      ∷ ("s1", record { name = some "endpoint"; text = "/message?sessionId=s1" })
      ∷ [];
}

sse_handler-two_sessions : sse_handler "s2" (sse_handler "s1" fresh) ≡ two_sessions
unfolding sse_handler endpoint_of insert
sse_handler-two_sessions = refl

message_handler-status_example :
    (((answer true "s1" null two_sessions).status ≡ created_ok)
      ↔ ((false ≡ false) × (some true ≡ some true) × (true ≡ true)))
    × (((answer true "s1" null two_sessions).status ≡ bad_request) ↔ (false ≡ true))
    × (((answer true "s1" null two_sessions).status ≡ bad_gateway)
        ↔ ((false ≡ false) × (some true ≡ some true) × (true ≡ false)))
    × ((after true "s1" null two_sessions).to_child ≡ null ∷ [])
    × ((after true "s1" null two_sessions).delivered ≡ two_sessions.delivered)
    × ((j : String)
        → lookup j (after true "s1" null two_sessions).sessions ≡ (
            if is_closed true "s1" null two_sessions && "s1" == j
            then none
            else lookup j two_sessions.sessions))
unfolding lookup sent_if answer after message_handler
message_handler-status_example = message_handler-status true "s1" null two_sessions

child_message-s1 :
    received "s1" (child_message print_ping null two_sessions).delivered
    ≡ record { name = none; text = "{}" }
      ∷ record { name = some "endpoint"; text = "/message?sessionId=s1" }
      ∷ []
unfolding received with_event lookup
child_message-s1 = child_message-received print_ping "s1" null two_sessions ((refl, tt), (tt, tt))
