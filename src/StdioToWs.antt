-- ===== src/StdioToWs.antt =====
-- rust/src/gateways/stdio_to_ws.rs: one child for many WebSocket clients. The id of a request goes
-- to the child with the client's id before it, which says where the answer belongs. The clients' map
-- is behind a lock that is taken for single steps; a client is `true` while its receiver is open.
-- How a value that is no text and no number prints is a parameter, as is whether the child restarts.
mod Prefix
pub mod Ids
pub mod Routing
pub mod Tests
use mcpway.Base.{
  String, Bool, true, false, Option, none, some, List, [], ◌∷◌, and_then, if◌then◌else◌,
}
use mcpway.Base.Int.{ℤ}
use mcpway.Base.Text.{◌++◌, split_once}
use mcpway.Base.Decimal.{print_int, parse_i64}
use mcpway.Base.Dict.{Dict, lookup, insert, remove}
use mcpway.Json.{Value, null, bool, int, float, str, arr, obj, get, insert_field, as_str}
use mcpway.Runtime.{
  RuntimeArgs, RuntimeArgsStore, RuntimeUpdate, RuntimeArgsUpdate, RuntimeScope, RuntimeApplyResult,
  apply_ok, apply_error, update_global, global, session, get_effective,
}

-- `Display` of an id, as `prefix_id` writes it after the client's.
unfoldable pub print_id : (Value → String) → Value → String
unfolding print_int
print_id print (str s) = s
print_id print (int n) = print_int n
print_id print (float s) = s
print_id print v = print v

unfoldable pub prefix_id : (Value → String) → String → Value → Value
unfolding print_id
prefix_id print client id = str (client ++ ":" ++ print_id print id)

-- The id after the prefix: a number if it reads as one.
unfoldable pub raw_id : String → Value
unfolding parse_i64
raw_id raw = elim (parse_i64 raw) [ none ↦ str raw | some n ↦ int n ]

unfoldable pub strip_prefixed_id : Value → Option (String × Value)
unfolding raw_id get split_once
strip_prefixed_id message = elim (and_then (get "id" message) as_str) [
  | none ↦ none
  | some id ↦ elim (split_once b':' id) [
    | none ↦ none
    | some (client, raw) ↦ some (client, raw_id raw)
  ]
]

-- `outgoing.as_object_mut()` with the id put in.
abbrev pub with_id : Value → Value → Value
with_id id (obj fs) = obj (insert_field "id" id fs)
with_id id v = v

pub record Gateway : Type 0 where
  pub runtime : RuntimeArgsStore
  pub clients : Dict Bool
  -- What was sent, the latest first: to the child, and to the clients.
  pub to_child : List Value
  pub delivered : List (String × Value)

-- The start of `handle_socket`, with the new `Uuid`.
unfoldable pub connect : String → Gateway → Gateway
connect client g = record g { clients = insert client true g.clients }

-- The end of `handle_socket`.
unfoldable pub disconnect : String → Gateway → Gateway
disconnect client g = record g { clients = remove client g.clients }

-- The end of `send_task`, which drops the receiver.
unfoldable pub receiver_dropped : String → Gateway → Gateway
receiver_dropped client g = elim (lookup client g.clients) [
  | none ↦ g
  | some was ↦ record g { clients = insert client false g.clients }
]

unfoldable pub prefixed : (Value → String) → String → Value → Value
unfolding prefix_id get
prefixed print client message = elim (get "id" message) [
  | none ↦ message
  | some id ↦ with_id (prefix_id print client id) message
]

-- A message goes to the child; its error is ignored.
unfoldable pub client_message : (Value → String) → String → Value → Gateway → Gateway
unfolding prefixed
client_message print client message g = record g {
  to_child = prefixed print client message ∷ g.to_child;
}

-- One round of `recv_task`; a text that is no JSON is passed over.
unfoldable pub client_text :
    (String → Option Value) → (Value → String) → String → String → Gateway → Gateway
unfolding client_message
client_text parse print client text g = elim (parse text) [
  | none ↦ g
  | some message ↦ client_message print client message g
]

-- `sender.send(…)`, and the entry of a closed client taken out.
abbrev pub deliver : String → Value → Option Bool → Gateway → Gateway
deliver client message none g = g
deliver client message (some true) g = record g { delivered = (client, message) ∷ g.delivered }
deliver client message (some false) g = record g { clients = remove client g.clients }

-- The senders one after another, then the closed ones taken out.
unfoldable pub send_each : Value → Dict Bool → List (String × Value) → List (String × Value)
send_each message [] sent = sent
send_each message ((client, true) ∷ more) sent = send_each message more ((client, message) ∷ sent)
send_each message ((client, false) ∷ more) sent = send_each message more sent

unfoldable pub remove_dead : Dict Bool → Dict Bool → Dict Bool
remove_dead [] clients = clients
remove_dead ((client, true) ∷ more) clients = remove_dead more clients
remove_dead ((client, false) ∷ more) clients = remove_dead more (remove client clients)

unfoldable pub broadcast : Value → Gateway → Gateway
unfolding send_each remove_dead
broadcast message g = record g {
  delivered = send_each message g.clients g.delivered;
  clients = remove_dead g.clients g.clients;
}

-- One round of the task that reads what the child writes.
unfoldable pub child_message : Value → Gateway → Gateway
unfolding strip_prefixed_id broadcast
child_message message g = elim (strip_prefixed_id message) [
  | some (client, id) ↦ deliver client (with_id id message) (lookup client g.clients) g
  | none ↦ broadcast message g
]

-- The task that applies runtime updates; `restart` says whether the child restarts.
unfoldable pub apply_update :
    (RuntimeArgs → Bool) → RuntimeUpdate → RuntimeArgsStore → RuntimeArgsStore × RuntimeApplyResult
unfolding update_global get_effective
apply_update restart u store = elim u.scope [
  | session id ↦ (store, apply_error "Per-session runtime overrides are not supported for stdio→WS")
  | global ↦
      (let (next, result) = update_global u.update store in
        (
          next,
          if result.restart_needed
              then if restart (get_effective none next)
                then apply_ok "Restarted child with new runtime args" true
                else apply_error "Failed to restart child"
              else apply_ok "Updated runtime args" false,
        ))
]
