-- ===== src/StdioToWs/Ids.antt =====
-- rust/src/gateways/stdio_to_ws.rs: the ids of requests on their way to the child and back.
use mcpway.Base.{String, true, none, some, ◌∷◌, ◌≡◌, refl, ◌∙◌, arith}
use mcpway.Base.Int.{fits_i64}
use mcpway.Base.Decimal.{parse_i64, parse_i64-print_int}
use mcpway.StdioToWs.Prefix.{HasNoColon, split_once-append}
use mcpway.Base.Dict.{lookup}
use mcpway.Json.{
  null, bool, float, arr, arr, float, bool, Value, Fields, int, str, obj, get, insert_field,
  get_field-insert_field,
}
use mcpway.StdioToWs.{
  Gateway, print_id, prefix_id, prefixed, strip_prefixed_id, raw_id, child_message,
}

-- An id that reads back as itself: an integer of 64 bits, or a text that is not one.
unfoldable pub IsKept : Value → Type 0
IsKept (int n) = fits_i64 n ≡ true
IsKept (str s) = parse_i64 s ≡ none
IsKept _ = ⊥

pub raw_id-print_id :
    (print : Value → String) (id : Value) → IsKept id → raw_id (print_id print id) ≡ id
unfolding raw_id print_id IsKept
raw_id-print_id print (int n) h = ground (arith, parse_i64-print_int n)
raw_id-print_id print (str s) h = ground (arith, h)
raw_id-print_id print null h = absurd h
raw_id-print_id print (bool b) h = absurd h
raw_id-print_id print (float s) h = absurd h
raw_id-print_id print (arr vs) h = absurd h
raw_id-print_id print (obj fs) h = absurd h

strip_prefixed_id-prefix_id :
    (print : Value → String) (client : String) (id : Value) (message : Value)
    → HasNoColon client
    → get "id" message ≡ some (prefix_id print client id)
    → strip_prefixed_id message ≡ some (client, raw_id (print_id print id))
unfolding strip_prefixed_id prefix_id
strip_prefixed_id-prefix_id print client id message h e =
    let split = split_once-append client (print_id print id) h in
    rw (strip_prefixed_id, e) (rw split refl)

get-prefixed :
    (print : Value → String) (client : String) (id : Value) (request : Fields)
    → get "id" (obj request) ≡ some id
    → get "id" (prefixed print client (obj request)) ≡ some (prefix_id print client id)
unfolding prefixed get
get-prefixed print client id request e =
    rw (prefixed, e)
      (ground (arith, get_field-insert_field "id" "id" (prefix_id print client id) request))

-- A client whose id has no colon sends a request with an id that is an integer of 64 bits, or a text
-- that does not parse as one. An answer of the child that repeats the id it was given goes, with the
-- client's own id in it, to this client, if it is still connected, and to no other; the gateway
-- changes in nothing else.
pub child_message-prefixed :
    (print : Value → String) (client : String) (id : Value) (request answer : Fields) (g : Gateway)
    → HasNoColon client
    → IsKept id
    → get "id" (obj request) ≡ some id
    → get "id" (obj answer) ≡ get "id" (prefixed print client (obj request))
    → lookup client g.clients ≡ some true
    → child_message (obj answer) g
      ≡ (record g { delivered = (client, obj (insert_field "id" id answer)) ∷ g.delivered })
unfolding child_message insert_field
child_message-prefixed print client id request answer g h kept e same connected =
    let same_id = same ∙ get-prefixed print client id request e in
    rw
      (
        child_message,
        strip_prefixed_id-prefix_id print client id (obj answer) h same_id,
        raw_id-print_id print id kept,
        connected,
      )
      refl
