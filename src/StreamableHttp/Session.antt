-- ===== src/StreamableHttp/Session.antt =====
-- `Session`: the requests that wait for an answer of the child, and the routing of what the child
-- writes. `pending` is behind a lock that each operation takes once, so an operation is one step;
-- a oneshot channel is a number, and `delivered` records what was sent into it. How a value
-- prints (`Value::to_string`) is a parameter. Messages that are lost where the receiver of the
-- child lags are left out.
pub mod Bound
pub mod Routing
pub mod Request
mod Tests
use mcpway.Base.{
  ℕ, zero, suc, ◌+◌, String, Option, none, some, List, [], ◌∷◌, leb, ltb, if◌then◌else◌, and_then,
  is_some, length, ◌==◌, Bool, true, false, ◌⊎◌, inl, inr,
}
use mcpway.Base.Text.{◌++◌}
use mcpway.Base.Dict.{Dict, lookup, contains, insert, remove}
use mcpway.Json.{Value, get, as_str}

-- `SESSION_PENDING_REQUEST_BUFFER`
abbrev pub pending_limit : ℕ
pending_limit = 512

pub record Session : Type 0 where
  pub pending : Dict ℕ
  pub delivered : List (ℕ × Value)
  pub notifications : List Value
  pub next_sender : ℕ

unfoldable pub new_session : Session
new_session = record { pending = []; delivered = []; notifications = []; next_sender = 0 }

pub data Refusal : Type 0 where
  in_flight too_many : String → Refusal

pub data Registered : Type 0 where
  waiting : ℕ → Session → Registered
  refused : Refusal → Registered

-- The key of a request: its id if that is a text, else how the id prints.
unfoldable pub request_key : (Value → String) → Value → String
unfolding get
request_key print id = elim (as_str id) [ none ↦ print id | some s ↦ s ]

-- The first critical section of `request`.
unfoldable pub register : String → Session → Registered
register id s =
    if contains id s.pending
    then refused (in_flight id)
    else if leb pending_limit (length s.pending)
    then refused (too_many id)
    else waiting s.next_sender
        (record s { pending = insert id s.next_sender s.pending; next_sender = suc s.next_sender })

-- The entry taken out again: after a failed send, a closed channel, or the time limit.
unfoldable pub forget : String → Session → Session
forget id s = record s { pending = remove id s.pending }

-- `msg.get("id").and_then(|v| v.as_str())`
unfoldable pub response_key : Value → Option String
unfolding get
response_key msg = and_then (get "id" msg) as_str

-- Send to the waiting sender, or to the subscribers of notifications.
deliver : Option ℕ → String → Value → Session → Session
deliver none id msg s = record s { notifications = msg ∷ s.notifications }
deliver (some sender) id msg s = record s {
  pending = remove id s.pending;
  delivered = (sender, msg) ∷ s.delivered;
}

route_from : Option String → Value → Session → Session
unfolding deliver
route_from none msg s = record s { notifications = msg ∷ s.notifications }
route_from (some id) msg s = deliver (lookup id s.pending) id msg s

-- One round of `start_routing`, at a message of the child.
unfoldable pub route : Value → Session → Session
unfolding response_key route_from
route msg s = route_from (response_key msg) msg s

-- What a request meets: the error of sending it, if the child does not take it, what the child writes
-- while it waits, and how the wait ends if no answer comes: by the time limit or with the sender dropped.
pub record Wait : Type 0 where
  pub send_error : Option String
  pub written : List Value
  pub is_cancelled : Bool

abbrev pub answers : String → Value → Bool
unfolding response_key
answers id msg = elim (response_key msg) [ none ↦ false | some k ↦ k == id ]

-- The messages are routed until one answers the request with this key, whose entry is there.
unfoldable pub wait_for : String → List Value → Session → Session × Option Value
unfolding route
wait_for id [] s = (s, none)
wait_for id (msg ∷ more) s =
    let later = wait_for id more (route msg s) in
    if answers id msg then (route msg s, some msg) else later

abbrev pub refusal_text : Refusal → String
refusal_text (in_flight id) = "Request id already in-flight: " ++ id
refusal_text (too_many id) = "Too many in-flight requests in session (max 512)"

-- `request` once its entry is there.
unfoldable pub await_answer : Wait → String → Session → Session × (Value ⊎ String)
unfolding wait_for forget
await_answer w id s = elim w.send_error [
  | some error ↦ (forget id s, inr error)
  | none ↦
      (let (waited, answer) = wait_for id w.written s in
        elim answer [
          | some msg ↦ (waited, inl msg)
          | none ↦ (
            forget id waited,
            inr (if w.is_cancelled then "Request cancelled" else "Request timed out after 30000ms"),
          )
        ])
]

-- `Session::request` of a message with this id.
unfoldable pub request : (Value → String) → Wait → Value → Session → Session × (Value ⊎ String)
unfolding register await_answer request_key
request print w id s = elim (register (request_key print id) s) [
  | refused refusal ↦ (s, inr (refusal_text refusal))
  | waiting sender registered ↦ await_answer w (request_key print id) registered
]
