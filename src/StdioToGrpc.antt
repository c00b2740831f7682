-- ===== src/StdioToGrpc.antt =====
-- rust/src/gateways/stdio_to_grpc.rs: one child for many gRPC streams. The clients and their ids are as
-- for WebSocket; a message of the child goes out in an envelope with a running number, and a call
-- is let in by its bearer token. How JSON is read and written is a parameter.
pub mod Streams
pub mod Numbers
mod Tests
use mcpway.Base.{
  ℕ, zero, suc, ◌+◌, ◌-◌, ◌*◌, ◌≤◌, ◌<◌, String, Char, code, ◌≡◌, refl, sym, ap, subst, ◌∙◌, ◌≢◌,
  ◌⊎◌, inl, inr, Bool, true, false, not, ◌&&◌, ◌||◌, Option, none, some, List, [], ◌∷◌, map, ◌%◌,
  ◌^◌, arith, eq_iff, ltb, leb, eqb, ◌==◌, if◌then◌else◌, Bool-cases, Option-cases, is_some,
  or_else, unwrap_or, and_then, keep_if, eq-false_of_ne, length, any, select,
}
use mcpway.Base.Text.{◌++◌, split_once, is_empty, trim}
use mcpway.Base.Decimal.{print_int, parse_i64}
use mcpway.StdioToWs.{with_id}
use mcpway.Base.Result.{Result, ok, err}
use mcpway.Base.Int.{ℤ, pos, negsuc, fits_i64}
use mcpway.Base.Dict.{
  Dict, lookup, insert, remove, contains, insert_all, lookup-insert, lookup-remove,
}
use mcpway.Json.{
  Value, Fields, Items, null, bool, int, float, str, arr, obj, end, field, no_items, item, get,
  get_field, insert_field, as_str, as_object, as_array, as_i64, elems,
}

-- `tonic::Status::unauthenticated`
pub data Status : Type 0 where
  unauthenticated : String → Status

pub record Envelope : Type 0 where
  pub json_rpc : String
  pub metadata : Dict String
  pub session_id : String
  pub seq : ℕ

-- `AppState`, with what was sent to the child and to the clients, the latest first. A client is
-- `true` while the receiver of its stream is open.
pub record AppState : Type 0 where
  pub clients : Dict Bool
  pub seq : ℕ
  pub bearer_token : Option String
  pub to_child : List Value
  pub delivered : List (String × Envelope)

-- `authorize`, at the text of the metadata's `authorization`
unfoldable pub authorize : Option String → Option String → Result Status Unit
authorize auth none = ok tt
authorize none (some token) = err (unauthenticated "missing authorization metadata")
authorize (some auth) (some token) =
    if auth == ("Bearer " ++ token) then ok tt else err (unauthenticated "invalid bearer token")

unfoldable pub prefix_id : (Value → String) → String → Value → Value
unfolding print_int
prefix_id print client (str s) = str (client ++ ":" ++ s)
prefix_id print client (int n) = str (client ++ ":" ++ print_int n)
prefix_id print client (float s) = str (client ++ ":" ++ s)
prefix_id print client id = str (client ++ ":" ++ print id)

unfoldable pub strip_prefixed_id : Value → Option (String × Value)
unfolding parse_i64 get split_once
strip_prefixed_id message = elim (and_then (get "id" message) as_str) [
  | none ↦ none
  | some id ↦ elim (split_once b':' id) [
    | none ↦ none
    | some (client, raw) ↦ some (client, elim (parse_i64 raw) [ none ↦ str raw | some n ↦ int n ])
  ]
]

-- The start of `stream`, with the new `Uuid`.
unfoldable pub stream : Option String → String → AppState → Result Status AppState
unfolding authorize insert
stream auth client g = elim (authorize auth g.bearer_token) [
  | err status ↦ err status
  | ok _ ↦ ok (record g { clients = insert client true g.clients })
]

unfoldable pub health : Option String → Bool → AppState → Result Status Bool
unfolding authorize
health auth alive g = elim (authorize auth g.bearer_token) [
  | err status ↦ err status
  | ok _ ↦ ok alive
]

-- The end of the task that reads the stream.
unfoldable pub stream_end : String → AppState → AppState
unfolding remove
stream_end client g = record g { clients = remove client g.clients }

-- The response stream is dropped, and its receiver with it.
unfoldable pub receiver_dropped : String → AppState → AppState
unfolding lookup insert
receiver_dropped client g = elim (lookup client g.clients) [
  | none ↦ g
  | some was ↦ record g { clients = insert client false g.clients }
]

unfoldable pub prefixed : (Value → String) → String → Value → Value
unfolding prefix_id get
prefixed print client message = elim (get "id" message) [
  | none ↦ message
  | some id ↦ with_id (prefix_id print client id) message
]

-- `child.send`; its failure ends the task that reads the stream.
abbrev pub send_child : Bool → String → Value → AppState → AppState
send_child true client message g = record g { to_child = message ∷ g.to_child }
send_child false client message g = stream_end client g

-- One envelope of a client's stream; `accepted` says whether the child takes what it is sent.
unfoldable pub client_envelope :
    (String → Option Value) → (Value → String) → Bool → String → String → AppState → AppState
unfolding trim prefixed
client_envelope parse print accepted client json_rpc g =
    if is_empty (trim json_rpc) then g else elim (parse json_rpc) [
      | none ↦ g
      | some message ↦ send_child accepted client (prefixed print client message) g
    ]

abbrev pub deliver : String → Envelope → Option Bool → AppState → AppState
deliver client envelope none g = g
deliver client envelope (some true) g = record g { delivered = (client, envelope) ∷ g.delivered }
deliver client envelope (some false) g = stream_end client g

unfoldable pub send_each :
    Envelope → Dict Bool → List (String × Envelope) → List (String × Envelope)
send_each envelope [] sent = sent
send_each envelope ((client, true) ∷ more) sent =
    send_each envelope more ((client, envelope) ∷ sent)
send_each envelope ((client, false) ∷ more) sent = send_each envelope more sent

unfoldable pub remove_dead : Dict Bool → Dict Bool → Dict Bool
unfolding remove
remove_dead [] clients = clients
remove_dead ((client, true) ∷ more) clients = remove_dead more clients
remove_dead ((client, false) ∷ more) clients = remove_dead more (remove client clients)

-- `Envelope { … }` with `seq.fetch_add(1) + 1`; 64 bits wrap.
abbrev pub envelope_of : (Value → String) → Value → AppState → Envelope
envelope_of write outgoing g = record {
  json_rpc = write outgoing;
  metadata = [];
  session_id = "";
  seq = (g.seq + 1) % 2 ^ 64;
}

abbrev pub next_seq : AppState → AppState
next_seq g = record g { seq = (g.seq + 1) % 2 ^ 64 }

unfoldable pub broadcast : Envelope → AppState → AppState
unfolding send_each remove_dead
broadcast envelope g = record g {
  delivered = send_each envelope g.clients g.delivered;
  clients = remove_dead g.clients g.clients;
}

-- One round of the task that reads what the child writes.
unfoldable pub child_message : (Value → String) → Value → AppState → AppState
unfolding strip_prefixed_id broadcast lookup
child_message write message g = elim (strip_prefixed_id message) [
  | some (client, id) ↦
      deliver client (envelope_of write (with_id id message) g) (lookup client g.clients)
        (next_seq g)
  | none ↦ broadcast (envelope_of write message g) (next_seq g)
]
