-- ===== src/StdioToGrpc/Streams.antt =====
-- rust/src/gateways/stdio_to_grpc.rs and stdio_to_ws.rs: the two gateways route alike.
use mcpway.Base.{
  String, ◌≡◌, refl, sym, ap, ◌∙◌, inl, inr, Bool, true, false, Option, none, some, List, [], ◌∷◌,
  arith, Bool-cases, Option-cases,
}
use mcpway.Base.Dict.{Dict, lookup, insert, remove}
use mcpway.Json.{Value, bool, int, float, str, arr, obj, get}
use mcpway.StdioToWs.{Gateway, with_id}
use mcpway.StdioToWs as Ws
use mcpway.Base.Result.{ok, err}
use mcpway.StdioToGrpc.{
  trim, is_empty, AppState, Envelope, authorize, prefix_id, strip_prefixed_id, stream, stream_end,
  receiver_dropped, prefixed, client_envelope, child_message, send_each, deliver, remove_dead,
  broadcast, envelope_of, next_seq,
}

-- What the clients of the one gateway and of the other have been sent, as texts.
unfoldable pub written : (Value → String) → List (String × Value) → List (String × String)
written write [] = []
written write ((client, message) ∷ sent) = (client, write message) ∷ written write sent

unfoldable pub opened : List (String × Envelope) → List (String × String)
opened [] = []
opened ((client, envelope) ∷ sent) = (client, envelope.json_rpc) ∷ opened sent

-- The gateways stand alike: the same clients are open, the children and the clients got the same.
unfoldable pub IsAlike : (Value → String) → Gateway → AppState → Type 0
unfolding written opened
IsAlike write w g =
    (w.clients ≡ g.clients)
    × (w.to_child ≡ g.to_child)
    × (written write w.delivered ≡ opened g.delivered)

-- What happens to a gateway.
pub data Event : Type 0 where
  opens : String → Event
  ends : String → Event
  drops : String → Event
  sends : String → String → Event
  child_writes : Value → Event

module _ (parse : String → Option Value) (print write : Value → String) where
  unfoldable pub ws_step : Event → Gateway → Gateway
  ws_step (opens client) w = Ws.connect client w
  ws_step (ends client) w = Ws.disconnect client w
  ws_step (drops client) w = Ws.receiver_dropped client w
  ws_step (sends client text) w = Ws.client_text parse print client text w
  ws_step (child_writes message) w = Ws.child_message message w

  -- A stream that is not let in leaves the state.
  unfoldable pub grpc_step : Option String → Event → AppState → AppState
  grpc_step auth (opens client) g = elim (stream auth client g) [ ok next ↦ next | err status ↦ g ]
  grpc_step auth (ends client) g = stream_end client g
  grpc_step auth (drops client) g = receiver_dropped client g
  grpc_step auth (sends client text) g = client_envelope parse print true client text g
  grpc_step auth (child_writes message) g = child_message write message g

  unfoldable pub ws_run : List Event → Gateway → Gateway
  unfolding ws_step
  ws_run [] w = w
  ws_run (e ∷ es) w = ws_run es (ws_step e w)

  unfoldable pub grpc_run : Option String → List Event → AppState → AppState
  unfolding grpc_step
  grpc_run auth [] g = g
  grpc_run auth (e ∷ es) g = grpc_run auth es (grpc_step auth e g)

prefix_id-same :
    (print : Value → String) (client : String) (id : Value)
    → prefix_id print client id ≡ Ws.prefix_id print client id
unfolding prefix_id Ws.prefix_id Ws.print_id
prefix_id-same print client (str s) = refl
prefix_id-same print client (int s) = refl
prefix_id-same print client (float s) = refl
prefix_id-same print client Value.null = refl
prefix_id-same print client (bool b) = refl
prefix_id-same print client (arr vs) = refl
prefix_id-same print client (obj fs) = refl

prefixed-same :
    (print : Value → String) (client : String) (message : Value)
    → prefixed print client message ≡ Ws.prefixed print client message
unfolding prefixed Ws.prefixed
prefixed-same print client message = elim (Option-cases (get "id" message)) [
  | inl e ↦ rw (prefixed, Ws.prefixed, e) refl
  | inr (id, e) ↦ rw (prefixed, Ws.prefixed, e) (rw (prefix_id-same print client id) refl)
]

remove_dead-same :
    (closing clients : Dict Bool) → remove_dead closing clients ≡ Ws.remove_dead closing clients
unfolding remove_dead Ws.remove_dead
remove_dead-same [] clients = refl
remove_dead-same ((client, true) ∷ more) clients = remove_dead-same more clients
remove_dead-same ((client, false) ∷ more) clients = remove_dead-same more (remove client clients)

send_each-same :
    (write : Value → String) (message : Value) (envelope : Envelope) (cs : Dict Bool)
    (sent : List (String × Value)) (out : List (String × Envelope))
    → envelope.json_rpc ≡ write message
    → written write sent ≡ opened out
    → written write (Ws.send_each message cs sent) ≡ opened (send_each envelope cs out)
unfolding written opened send_each Ws.send_each
send_each-same write message envelope [] sent out e h = h
send_each-same write message envelope ((client, true) ∷ more) sent out e h =
    send_each-same write message envelope more ((client, message) ∷ sent) ((client, envelope) ∷ out)
      e (rw (e, h) refl)
send_each-same write message envelope ((client, false) ∷ more) sent out e h =
    send_each-same write message envelope more sent out e h

sends-IsAlike :
    (parse : String → Option Value) (print write : Value → String) (client text : String)
    (w : Gateway) (g : AppState)
    → (is_empty (trim text) ≡ true → parse text ≡ none)
    → IsAlike write w g
    → IsAlike write
        (Ws.client_text parse print client text w)
        (client_envelope parse print true client text g)
unfolding IsAlike client_envelope Ws.client_text Ws.client_message
sends-IsAlike parse print write client text w g blank h = elim (Bool-cases (is_empty (trim text))) [
  | inl e ↦ rw (Ws.client_text, blank e, e) h
  | inr e ↦ elim (Option-cases (parse text)) [
    | inl n ↦ rw (Ws.client_text, e, n) h
    | inr (message, n) ↦
        rw (Ws.client_text, e, n) (h.0, rw (prefixed-same print client message, h.1) refl, h.2)
  ]
]

deliver-IsAlike :
    (write : Value → String) (client : String) (message : Value) (envelope : Envelope)
    (entry : Option Bool) (w : Gateway) (g : AppState)
    → envelope.json_rpc ≡ write message
    → IsAlike write w g
    → IsAlike write (Ws.deliver client message entry w) (deliver client envelope entry g)
unfolding IsAlike written opened stream_end
deliver-IsAlike write client message envelope none w g e h = h
deliver-IsAlike write client message envelope (some true) w g e h = (h.0, h.1, rw (e, h.2) refl)
deliver-IsAlike write client message envelope (some false) w g e h =
    (ap (remove client) h.0, h.1, h.2)

broadcast-IsAlike :
    (write : Value → String) (message : Value) (w : Gateway) (g : AppState)
    → IsAlike write w g
    → IsAlike write (Ws.broadcast message w) (broadcast (envelope_of write message g) (next_seq g))
unfolding IsAlike broadcast Ws.broadcast
broadcast-IsAlike write message w g h =
    let sent =
      send_each-same write message (envelope_of write message g) g.clients w.delivered g.delivered
        refl h.2 in
    (rw h.0 (sym (remove_dead-same g.clients g.clients)), h.1, rw h.0 sent)

lookup-clients :
    (client : String) (w : Gateway) (g : AppState)
    → w.clients ≡ g.clients
    → lookup client w.clients ≡ lookup client g.clients
lookup-clients client w g h = ap (lookup client) h

receiver_dropped-IsAlike :
    (write : Value → String) (client : String) (w : Gateway) (g : AppState)
    → IsAlike write w g
    → IsAlike write (Ws.receiver_dropped client w) (receiver_dropped client g)
unfolding IsAlike receiver_dropped Ws.receiver_dropped
receiver_dropped-IsAlike write client w g h =
    let same = lookup-clients client w g h.0 in
    elim (Option-cases (lookup client g.clients)) [
      | inl e ↦ rw (receiver_dropped, Ws.receiver_dropped, same, e) h
      | inr (was, e) ↦
          rw (receiver_dropped, Ws.receiver_dropped, same, e)
            (ap (insert client false) h.0, h.1, h.2)
    ]

child_message-IsAlike :
    (write : Value → String) (message : Value) (w : Gateway) (g : AppState)
    → IsAlike write w g
    → IsAlike write (Ws.child_message message w) (child_message write message g)
unfolding child_message Ws.child_message strip_prefixed_id Ws.strip_prefixed_id Ws.raw_id IsAlike
child_message-IsAlike write message w g h = elim (Option-cases (Ws.strip_prefixed_id message)) [
  | inl e ↦ rw (child_message, Ws.child_message, e) (broadcast-IsAlike write message w g h)
  | inr ((client, id), e) ↦
      let outgoing = with_id id message in
      rw (child_message, Ws.child_message, e, lookup-clients client w g (h.0))
        (deliver-IsAlike write client outgoing (envelope_of write outgoing g)
          (lookup client g.clients) w (next_seq g) refl h)
]

step-IsAlike :
    (parse : String → Option Value) (print write : Value → String) (auth : Option String)
    (event : Event) (w : Gateway) (g : AppState)
    → ((text : String) → is_empty (trim text) ≡ true → parse text ≡ none)
    → authorize auth g.bearer_token ≡ ok tt
    → IsAlike write w g
    → IsAlike write (ws_step parse print write event w) (grpc_step parse print write auth event g)
unfolding ws_step grpc_step IsAlike Ws.connect Ws.disconnect stream_end stream
step-IsAlike parse print write auth (opens client) w g blank in_ h =
    rw (grpc_step, stream, in_) (ap (insert client true) h.0, h.1, h.2)
step-IsAlike parse print write auth (ends client) w g blank in_ h =
    (ap (remove client) h.0, h.1, h.2)
step-IsAlike parse print write auth (drops client) w g blank in_ h =
    receiver_dropped-IsAlike write client w g h
step-IsAlike parse print write auth (sends client text) w g blank in_ h =
    sends-IsAlike parse print write client text w g (blank text) h
step-IsAlike parse print write auth (child_writes message) w g blank in_ h =
    child_message-IsAlike write message w g h

step-authorize :
    (parse : String → Option Value) (print write : Value → String) (auth : Option String)
    (event : Event) (g : AppState)
    → (grpc_step parse print write auth event g).bearer_token ≡ g.bearer_token
unfolding grpc_step stream stream_end receiver_dropped client_envelope child_message broadcast
step-authorize parse print write auth (opens client) g = ground arith
step-authorize parse print write auth (ends client) g = refl
step-authorize parse print write auth (drops client) g = ground arith
step-authorize parse print write auth (sends client text) g = ground arith
step-authorize parse print write auth (child_writes message) g = ground arith

-- What is sent as a text is JSON only if it is not blank. The WebSocket gateway and the gRPC gateway
-- that let every stream in and whose child takes what it is sent, started alike and run through
-- the same events, end alike: the same clients are open, the child was sent the same, and the
-- clients were sent the same texts in the same order.
pub grpc_run-IsAlike :
    (parse : String → Option Value) (print write : Value → String) (auth : Option String)
    (events : List Event) (w : Gateway) (g : AppState)
    → ((text : String) → is_empty (trim text) ≡ true → parse text ≡ none)
    → authorize auth g.bearer_token ≡ ok tt
    → IsAlike write w g
    → IsAlike write (ws_run parse print write events w) (grpc_run parse print write auth events g)
unfolding ws_run grpc_run
grpc_run-IsAlike parse print write auth [] w g blank in_ h = h
grpc_run-IsAlike parse print write auth (e ∷ es) w g blank in_ h =
    grpc_run-IsAlike parse print write auth es (ws_step parse print write e w)
      (grpc_step parse print write auth e g) blank
      (ap (authorize auth) (step-authorize parse print write auth e g) ∙ in_)
      (step-IsAlike parse print write auth e w g blank in_ h)
