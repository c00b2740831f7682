-- ===== src/StreamableHttp/Session/Tests.antt =====
-- The theorems on a session at one request whose id is a text and one whose id is a number.
use mcpway.Base.{◌≡◌, ◌≢◌, refl, Option, none, some, [], ◌∷◌, arith, String, ℕ, ◌≤◌, length}
use mcpway.Base.Int.{pos}
use mcpway.Base.Dict.{lookup}
use mcpway.Json.{Value, int, str, obj, field, end, get, get_field}
use mcpway.StreamableHttp.Session.{
  Session, new_session, register, waiting, route, response_key, request_key, pending_limit,
}
use mcpway.StreamableHttp.Session.Bound.{registers, here, next, registered, reachable_pending}
use mcpway.StreamableHttp.Session.Routing.{
  run, register_request, child_message, answer_delivered, route_all, HasNumber, numeric_answer_lost,
}

abbrev asked : Session
asked = registered "a" new_session

abbrev answer : Value
answer = obj (field "id" (str "a") end)

abbrev numeric : Value
numeric = obj (field "id" (int (pos 1)) end)

abbrev print : Value → String
print v = "1"

asked-register : register "a" new_session ≡ waiting 0 asked
unfolding register new_session lookup
asked-register = refl

numeric-register : register "1" new_session ≡ waiting 0 (registered "1" new_session)
unfolding register new_session lookup
numeric-register = refl

answer_key : response_key answer ≡ some "a"
unfolding response_key get get_field
answer_key = refl

numeric_key : response_key numeric ≡ none
unfolding response_key get get_field
numeric_key = refl

numeric-HasNumber : HasNumber numeric
unfolding get get_field
numeric-HasNumber = (pos 1, refl)

abbrev no_key : Option String
no_key = none

none_some : no_key ≢ some "a"
none_some e = ground arith

reachable_pending_example :
    (length asked.pending ≤ pending_limit)
    × ((i j : String) (n : ℕ)
        → lookup i asked.pending ≡ some n
        → lookup j asked.pending ≡ some n
        → i ≡ j)
reachable_pending_example = reachable_pending asked (next here (registers "a" 0 asked-register))

answer_delivered_example :
    (route answer (run (register_request "b" ∷ child_message numeric ∷ []) asked)).delivered
    ≡ (0, answer) ∷ (run (register_request "b" ∷ child_message numeric ∷ []) asked).delivered
answer_delivered_example =
    (answer_delivered "a" 0 new_session asked (register_request "b" ∷ child_message numeric ∷ [])
      answer asked-register (tt, (λ e. none_some (ground (arith, numeric_key)), tt)) answer_key).0

numeric_answer_lost_example :
    ((route_all (numeric ∷ numeric ∷ []) (registered "1" new_session)).delivered
      ≡ new_session.delivered)
    × (lookup "1" (route_all (numeric ∷ numeric ∷ []) (registered "1" new_session)).pending
        ≡ some 0)
unfolding request_key
numeric_answer_lost_example =
    numeric_answer_lost print (pos 1) 0 new_session (registered "1" new_session)
      (numeric ∷ numeric ∷ []) numeric-register (numeric-HasNumber, (numeric-HasNumber, tt))
