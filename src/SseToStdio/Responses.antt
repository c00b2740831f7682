-- ===== src/SseToStdio/Responses.antt =====
-- Which responses the gateway prints.
use mcpway.Base.{
  String, true, false, some, List, [], ◌∷◌, ◌≡◌, refl, sym, subst, ◌⊎◌, ◌∙◌, arith, is_some,
  if◌then◌else◌, unwrap_or, Option-cases, Bool-cases, ◌==◌, ◌&&◌, not, inl, inr,
}
use mcpway.Base.Text.{trim, is_empty}
use mcpway.Json.{
  str, Value, null, end, get, get_field, insert_field, get_field-insert_field, Fields,
}
use mcpway.Reliability.{ok, err, Outcome}
use mcpway.SseToStdio.{
  is_initialize_request, negsuc, announce, error_payload, create_initialize_request, send_request,
  Outside, Gateway, is_request, wrap_response, envelope, handle_message, initialize_first, forward,
  run_gateway, handle_event, print, Input, stdin_line, stdin_error, sse_event,
}

put-id :
    (k : String) (v : Value) (fs : Fields)
    → k == "id" ≡ false
    → get_field "id" (insert_field k v fs) ≡ get_field "id" fs
put-id k v fs ne = get_field-insert_field k "id" v fs ∙ rw ne refl

envelope-id : (req : Value) → get_field "id" (envelope req) ≡ some (unwrap_or (get "id" req) null)
envelope-id req =
    get_field-insert_field "id" "id" (unwrap_or (get "id" req) null)
      (insert_field "jsonrpc" (unwrap_or (get "jsonrpc" req) (str "2.0")) end)

-- A response has the id of its request, or null.
wrap_response-id :
    (outside : Outside) (req payload : Value)
    → get "id" (wrap_response outside req payload) ≡ some (unwrap_or (get "id" req) null)
unfolding wrap_response get
wrap_response-id outside req payload = ground (
  arith,
  envelope-id req,
  λ (v : Value). put-id "error" v (envelope req) refl,
  λ (v : Value). put-id "result" v (envelope req) refl,
)

-- What is printed for a message: a request's response has its id, and any other is passed on.
abbrev pub Answers : Value → Value → Type 0
Answers message printed =
    (is_request message ≡ true → get "id" printed ≡ get "id" message)
    × (is_request message ≡ false → printed ≡ message)

abbrev pub Printed : Value → Gateway → Gateway → Type 0
Printed message before after =
    (line : Value) × Answers message line × (after.printed ≡ line ∷ before.printed)

response-Answers :
    (outside : Outside) (message payload : Value)
    → is_request message ≡ true
    → Answers message (wrap_response outside message payload)
unfolding is_request
response-Answers outside message payload h = elim (Option-cases (get "id" message)) [
  | inl e ↦ absurd (ground arith)
  | inr (id, e) ↦
      (λ r. wrap_response-id outside message payload ∙ rw e refl, λ r. absurd (ground arith))
]

forward-Printed :
    (outside : Outside) (message : Value) (g : Gateway)
    → is_request message ≡ true
    → Printed message g (forward outside message g)
unfolding forward
forward-Printed outside message g h =
    let payload = (send_request outside message g).1 in
    (
      wrap_response outside message payload,
      response-Answers outside message payload h,
      ground arith,
    )

initialize_first-Printed :
    (outside : Outside) (message : Value) (g : Gateway)
    → is_request message ≡ true
    → Printed message g (initialize_first outside message g)
unfolding initialize_first
initialize_first-Printed outside message g h =
    let init =
      create_initialize_request outside.version (outside.init_id g.now) outside.protocol_version in
    let sent = (send_request outside init g).0 in
    let payload = (send_request outside init g).1 in
    elim (Bool-cases (is_some (get "error" payload))) [
      | inl e ↦ (
        wrap_response outside message payload,
        response-Answers outside message payload h,
        ground arith,
      )
      | inr e ↦
          (let (line, answers, shown) = forward-Printed outside message (announce outside sent) h in
            (line, answers, ground arith))
    ]

handle_message-Printed :
    (outside : Outside) (message : Value) (g : Gateway)
    → Printed message g (handle_message outside message g)
unfolding handle_message
handle_message-Printed outside message g = elim (Bool-cases (is_request message)) [
  | inr e ↦ (message, (λ h. absurd (ground arith), λ h. refl), ground arith)
  | inl e ↦ elim (Option-cases (outside.endpoint_error g.now)) [
    | inr (error, f) ↦
        (let payload = error_payload (negsuc 31999) error in
          (
            wrap_response outside message payload,
            response-Answers outside message payload e,
            ground arith,
          ))
    | inl f ↦
        (let (line, answers, shown) = forward-Printed outside message g e in
          let (first, first_answers, first_shown) = initialize_first-Printed outside message g e in
          elim (Bool-cases (not g.initialized && not (is_initialize_request message))) [
            | inl b ↦ (first, first_answers, ground arith)
            | inr b ↦ (line, answers, ground arith)
          ])
  ]
]

-- What makes the gateway print a line: a message of the client, or JSON that the server pushes.
pub data Cause : Type 0 where
  message_of pushed : Value → Cause

abbrev if_json : Outside → String → (Value → Cause) → List Cause → List Cause
if_json outside text cause rest =
    if is_empty (trim text)
    then rest
    else elim (outside.parse text) [ err e ↦ rest | ok json ↦ cause json ∷ rest ]

unfoldable pub event_causes : Outside → String → String → List Cause → List Cause
event_causes outside name text rest =
    if name == "endpoint" then rest else if_json outside text pushed rest

-- The causes in what is read, up to an error of the standard input.
unfoldable pub causes : Outside → List Input → List Cause
unfolding event_causes
causes outside [] = []
causes outside (stdin_error e ∷ inputs) = []
causes outside (stdin_line line ∷ inputs) = if_json outside line message_of (causes outside inputs)
causes outside (sse_event name text ∷ inputs) =
    event_causes outside name text (causes outside inputs)

-- The line that a cause makes the gateway print.
abbrev pub Line : Cause → Value → Type 0
Line (message_of message) line = Answers message line
Line (pushed json) line = line ≡ json

-- The output `after` is `before` with one line for each cause, in order; the latest line is first.
abbrev pub Answered : List Cause → List Value → List Value → Type 0
Answered [] before after = after ≡ before
Answered (cause ∷ more) before after =
    (line : Value) × Line cause line × Answered more (line ∷ before) after

Outcome-cases : (o : Outcome Value) → ((e : String) × (o ≡ err e)) ⊎ ((v : Value) × (o ≡ ok v))
Outcome-cases (ok v) = inr (v, refl)
Outcome-cases (err e) = inl (e, refl)

-- An event prints nothing and is no cause, or prints its JSON and is its cause.
handle_event-cases :
    (outside : Outside) (name text : String) (g : Gateway) (rest : List Cause)
    → ((handle_event outside name text g ≡ g) × (event_causes outside name text rest ≡ rest))
      ⊎ ((json : Value) × (handle_event outside name text g ≡ print json g)
          × (event_causes outside name text rest ≡ pushed json ∷ rest))
unfolding handle_event event_causes
handle_event-cases outside name text g rest = elim (Bool-cases (name == "endpoint")) [
  | inl e ↦ inl (rw (handle_event, e) refl, rw (event_causes, e) refl)
  | inr e ↦ elim (Bool-cases (is_empty (trim text))) [
    | inl b ↦ inl (rw (handle_event, e, b) refl, rw (event_causes, e, b) refl)
    | inr b ↦ elim (Outcome-cases (outside.parse text)) [
      | inl (problem, f) ↦ inl (rw (handle_event, e, b, f) refl, rw (event_causes, e, b, f) refl)
      | inr (json, f) ↦ inr (json, rw (handle_event, e, b, f) refl, rw (event_causes, e, b, f) refl)
    ]
  ]
]

-- Whatever the server does, and whether the requests, the automatic initialization or the endpoint
-- fail or not, the gateway prints exactly one line for each message that it reads from the client
-- and for each JSON event that the server pushes and that does not name the endpoint, in order, up
-- to an error of the standard input. The line of a message is the message itself if it is no
-- request, and else a response with the id of the request; the line of an event is its JSON.
pub run_gateway-Answered :
    (outside : Outside) (inputs : List Input) (g : Gateway)
    → Answered (causes outside inputs) g.printed (run_gateway outside inputs g).0.printed
unfolding run_gateway causes
run_gateway-Answered outside [] g = refl
run_gateway-Answered outside (stdin_error e ∷ inputs) g = refl
run_gateway-Answered outside (sse_event name text ∷ inputs) g =
    let rest = causes outside inputs in
    let shows = λ (before : Gateway) (after : Gateway).
      Answered rest before.printed (run_gateway outside inputs after).0.printed in
    elim (handle_event-cases outside name text g rest) [
      | inl (same, none_more) ↦
          rw none_more (subst (λ h. shows g h) (sym same) (run_gateway-Answered outside inputs g))
      | inr (json, same, one_more) ↦
          (let printed = print json g in
            rw one_more (
              json,
              refl,
              subst (λ h. shows printed h) (sym same) (run_gateway-Answered outside inputs printed),
            ))
    ]
run_gateway-Answered outside (stdin_line line ∷ inputs) g =
    let skipped = run_gateway-Answered outside inputs g in
    let handled =
      λ (message : Value). run_gateway-Answered outside inputs (handle_message outside message g) in
    elim (Bool-cases (is_empty (trim line))) [
      | inl e ↦ rw e skipped
      | inr e ↦ elim (Outcome-cases (outside.parse line)) [
        | inl (problem, f) ↦ rw (e, f) skipped
        | inr (message, f) ↦
            (let (shown, answers, same) = handle_message-Printed outside message g in
              rw (e, f)
                (
                  shown,
                  answers,
                  subst
                      (λ before.
                        Answered (causes outside inputs) before
                          (run_gateway outside inputs (handle_message outside message g)).0.printed)
                      same (handled message),
                ))
      ]
    ]
