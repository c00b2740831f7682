-- ===== src/StdioToWs/Tests.antt =====
-- rust/src/gateways/stdio_to_ws.rs: what the theorems say of two clients and one child.
use mcpway.Base.{String, ◌≡◌, refl, true, false, some, [], ◌∷◌}
use mcpway.Base.Int.{pos}
use mcpway.Base.Dict.{lookup, insert}
use mcpway.Json.{Value, Fields, int, str, obj, end, field, get, insert_field}
use mcpway.StdioToWs.{
  print_id, prefix_id, raw_id, strip_prefixed_id, str, strip_prefixed_id, obj, print_id, get,
  prefix_id, ◌∷◌, String, [], false, raw_id, lookup, insert_field, insert, true, Value,
  RuntimeArgsStore, Gateway, child_message, client_message, connect, receiver_dropped, prefixed,
}
use mcpway.StdioToWs.Ids.{child_message-prefixed, IsKept}
use mcpway.StdioToWs.Prefix.{HasNoColon}
use mcpway.Runtime.{RuntimeArgsStore}
use mcpway.StdioToWs.Routing.{
  without_closed, with_message, child_message-broadcast, received, with_message, without_closed,
}

abbrev no_runtime : RuntimeArgsStore
no_runtime = record {
  global = record { extra_cli_args = []; env = []; headers = [] };
  sessions = [];
}

abbrev pub print_other : Value → String
print_other v = "null"

abbrev pub two_clients : Gateway
two_clients = record {
  runtime = no_runtime;
  clients = ("a1", true) ∷ ("b2", true) ∷ [];
  to_child = [];
  delivered = [];
}

abbrev call_fields : Fields
call_fields = field "id" (int (pos 7)) (field "method" (str "ping") end)

abbrev pub reply_fields : Fields
reply_fields = field "id" (str "b2:7") (field "result" (obj end) end)

connect-two_clients :
    connect "a1" (connect "b2" (record two_clients { clients = [] })) ≡ two_clients
unfolding connect insert
connect-two_clients = refl

client_message-two_clients :
    client_message print_other "b2" (obj call_fields) two_clients
    ≡ (record two_clients { to_child = obj (insert_field "id" (str "b2:7") call_fields) ∷ [] })
unfolding client_message insert_field prefixed prefix_id get
client_message-two_clients = refl

child_message-prefixed_example :
    child_message (obj reply_fields) two_clients ≡ (record two_clients {
      delivered = ("b2", obj (insert_field "id" (int (pos 7)) reply_fields)) ∷ [];
    })
unfolding lookup get prefixed prefix_id insert_field HasNoColon IsKept
child_message-prefixed_example =
    child_message-prefixed print_other "b2" (int (pos 7)) call_fields reply_fields two_clients
      (refl, (refl, tt)) refl refl refl refl

-- A text that reads as a number comes back as the number.
text_id : raw_id (print_id print_other (str "42")) ≡ int (pos 42)
unfolding raw_id print_id
text_id = refl

abbrev pub notice : Value
notice = obj (field "method" (str "log") end)

abbrev one_closed : Gateway
one_closed = record two_clients { clients = ("a1", false) ∷ ("b2", true) ∷ [] }

receiver_dropped-one_closed : receiver_dropped "a1" two_clients ≡ one_closed
unfolding receiver_dropped lookup insert
receiver_dropped-one_closed = refl

child_message-broadcast_example :
    (received "b2" (child_message notice one_closed).delivered ≡ notice ∷ [])
    × (lookup "b2" (child_message notice one_closed).clients ≡ some true)
unfolding received lookup with_message without_closed strip_prefixed_id get
child_message-broadcast_example =
    child_message-broadcast notice "b2" one_closed ((refl, tt), (tt, tt)) refl
