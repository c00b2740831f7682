-- ===== src/SseToStdio.antt =====
-- rust/src/gateways/sse_to_stdio.rs: the loop that sends the requests read from the standard input
-- to an SSE server and prints the responses, and the task that prints what the server pushes. Both
-- write whole lines to one output, so a run is the sequence of what they print. The HTTP exchange is a parameter, as are the clock,
-- the wait for the endpoint, the id of an automatic `initialize` and how a number prints.
pub mod Responses
mod Tests
use mcpway.Base.{
  ◌||◌, ◌==◌, ℕ, String, Bool, true, false, Option, none, some, List, [], ◌∷◌, is_some,
  if◌then◌else◌, and_then, ◌&&◌, not, unwrap_or,
}
use mcpway.Base.Int.{ℤ, negsuc}
use mcpway.Base.Text.{◌++◌, trim, is_empty, strip_prefix}
use mcpway.Json.{Value, Fields, null, int, str, obj, field, end, get, insert_field, as_i64, as_str}
use mcpway.Reliability.{RetryPolicy, CircuitBreaker, Outcome, ok, err, Run, run_with_retry}
use mcpway.StreamableHttp.Message.{
  is_initialize_request, create_initialize_request, create_initialized_notification,
}

-- A response of the server: its status, whether that is a success, and its text or the error of
-- reading it.
pub record HttpReply : Type 0 where
  pub status : String
  pub is_success : Bool
  pub text : Outcome String

pub record Outside : Type 0 where
  -- What sending a message at an attempt and a time yields, and when.
  pub post : Value → ℕ → ℕ → Outcome HttpReply × ℕ
  pub wake : ℕ → ℕ → ℕ
  -- The error of `wait_for_message_endpoint` before the message at this time, if it fails.
  pub endpoint_error : ℕ → Option String
  pub parse : String → Outcome Value
  pub print_int : ℤ → String
  pub init_id : ℕ → String
  pub version : String
  pub protocol_version : String
  pub policy : RetryPolicy

-- `printed` and `posted` record what was written to the output and to the server, latest first.
pub record Gateway : Type 0 where
  pub initialized : Bool
  pub circuit_breaker : CircuitBreaker
  pub now : ℕ
  pub printed : List Value
  pub posted : List Value

unfoldable pub is_request : Value → Bool
unfolding get
is_request message = is_some (get "method" message) && is_some (get "id" message)

abbrev pub error_payload : ℤ → String → Value
error_payload code message =
    obj (field "error" (obj (field "code" (int code) (field "message" (str message) end))) end)

unfoldable pub normalize_error_message : Outside → ℤ → String → String
unfolding strip_prefix
normalize_error_message outside code message =
    elim (strip_prefix ("MCP error " ++ outside.print_int code ++ ":") message) [
      | none ↦ message
      | some rest ↦ trim rest
    ]

-- The error of a response: with a code, its message is normalized; else it is passed on.
unfoldable pub wrap_error : Outside → Value → Value
unfolding normalize_error_message get
wrap_error outside error = elim (and_then (get "code" error) as_i64) [
  | none ↦ error
  | some code ↦ obj (
      field "code" (int code) (
        field "message"
          (str (
            normalize_error_message outside code
              (unwrap_or (and_then (get "message" error) as_str) "Internal error")))
          end))
]

-- The `jsonrpc` and `id` of a response.
abbrev pub envelope : Value → Fields
envelope req =
    insert_field "id" (unwrap_or (get "id" req) null)
      (insert_field "jsonrpc" (unwrap_or (get "jsonrpc" req) (str "2.0")) end)

unfoldable pub wrap_response : Outside → Value → Value → Value
unfolding get insert_field wrap_error
wrap_response outside req payload = elim (get "error" payload) [
  | some error ↦ obj (insert_field "error" (wrap_error outside error) (envelope req))
  | none ↦ elim (get "result" payload) [
    | some result ↦ obj (insert_field "result" result (envelope req))
    | none ↦ obj (envelope req)
  ]
]

-- What a JSON text of a response with this status says.
abbrev pub payload_of : HttpReply → Value → Outcome Value
payload_of reply json = elim (get "error" json) [
  | some error ↦ ok (obj (field "error" error end))
  | none ↦
      if reply.is_success
      then ok (obj (field "result" (unwrap_or (get "result" json) json) end))
      else err ("Request failed with status " ++ reply.status)
]

unfoldable pub parse_text : Outside → HttpReply → String → Outcome Value
unfolding get
parse_text outside reply text =
    if is_empty (trim text)
    then if reply.is_success
      then err "Empty response"
      else err ("Request failed with status " ++ reply.status)
    else elim (outside.parse text) [ err e ↦ err e | ok json ↦ payload_of reply json ]

unfoldable pub parse_response_payload : Outside → HttpReply → Outcome Value
unfolding parse_text
parse_response_payload outside reply = elim reply.text [
  | err e ↦ err e
  | ok text ↦ parse_text outside reply text
]

-- The operations that are retried.
abbrev pub request_once : Outside → Value → ℕ → ℕ → Outcome Value × ℕ
request_once outside message attempt now =
    let (outcome, later) = outside.post message attempt now in
    (elim outcome [ err e ↦ err e | ok reply ↦ parse_response_payload outside reply ], later)

abbrev pub notify_once : Outside → ℕ → ℕ → Outcome Bool × ℕ
notify_once outside attempt now =
    let (outcome, later) = outside.post create_initialized_notification attempt now in
    (
      elim outcome [
        | err e ↦ err e
        | ok reply ↦
            if reply.is_success
            then ok true
            else err ("Initialized notification failed with status " ++ reply.status)
      ],
      later,
    )

abbrev pub send_request : Outside → Value → Gateway → Gateway × Value
send_request outside message g =
    let run =
      run_with_retry "sse-request" (request_once outside message) outside.wake outside.policy
        g.circuit_breaker g.now in
    (
      record g { circuit_breaker = run.breaker; now = run.now; posted = message ∷ g.posted },
      elim run.result [ ok payload ↦ payload | err e ↦ error_payload (negsuc 31999) e ],
    )

-- `send_initialized_notification`, whose success sets the flag.
abbrev pub announce : Outside → Gateway → Gateway
announce outside g =
    let run =
      run_with_retry "sse-initialized-notification" (notify_once outside) outside.wake
        outside.policy g.circuit_breaker g.now in
    record g {
      initialized = elim run.result [ ok done ↦ true | err e ↦ g.initialized ];
      circuit_breaker = run.breaker;
      now = run.now;
      posted = create_initialized_notification ∷ g.posted;
    }

abbrev pub print : Value → Gateway → Gateway
print line g = record g { printed = line ∷ g.printed }

-- The request itself, and the notification after an `initialize` of the client.
unfoldable pub forward : Outside → Value → Gateway → Gateway
unfolding wrap_response
forward outside message g =
    let (sent, payload) = send_request outside message g in
    let ready =
      if is_initialize_request message
        && (not (is_some (get "error" payload)) && not sent.initialized)
      then announce outside sent
      else sent in
    print (wrap_response outside message payload) ready

-- The automatic `initialize`, before the first request that is none.
unfoldable pub initialize_first : Outside → Value → Gateway → Gateway
unfolding forward
initialize_first outside message g =
    let init =
      create_initialize_request outside.version (outside.init_id g.now) outside.protocol_version in
    let (sent, payload) = send_request outside init g in
    if is_some (get "error" payload)
    then print (wrap_response outside message payload) sent
    else forward outside message (announce outside sent)

-- One round of the loop of `run`, at a message of the standard input.
unfoldable pub handle_message : Outside → Value → Gateway → Gateway
unfolding initialize_first forward is_request
handle_message outside message g =
    if is_request message
    then elim (outside.endpoint_error g.now) [
      | some error ↦ print (wrap_response outside message (error_payload (negsuc 31999) error)) g
      | none ↦
          if not g.initialized && not (is_initialize_request message)
          then initialize_first outside message g
          else forward outside message g
    ]
    else print message g

-- An event of the server's stream: the message endpoint goes to the waiting requests, and what is
-- JSON is printed.
unfoldable pub handle_event : Outside → String → String → Gateway → Gateway
handle_event outside name text g =
    if name == "endpoint" || is_empty (trim text)
    then g
    else elim (outside.parse text) [ err e ↦ g | ok json ↦ print json g ]

-- What the loop and the task read. A line stands where its response is printed among the events.
pub data Input : Type 0 where
  stdin_line stdin_error : String → Input
  sse_event : (name text : String) → Input

-- All rounds, with the error of `run`; a line that is blank or no JSON is skipped, and an error of the
-- standard input ends the gateway.
unfoldable pub run_gateway : Outside → List Input → Gateway → Gateway × Option String
unfolding handle_message handle_event
run_gateway outside [] g = (g, none)
run_gateway outside (stdin_error e ∷ inputs) g = (g, some e)
run_gateway outside (sse_event name text ∷ inputs) g =
    run_gateway outside inputs (handle_event outside name text g)
run_gateway outside (stdin_line line ∷ inputs) g =
    let skipped = run_gateway outside inputs g in
    if is_empty (trim line) then skipped else elim (outside.parse line) [
      | err e ↦ skipped
      | ok message ↦ run_gateway outside inputs (handle_message outside message g)
    ]
