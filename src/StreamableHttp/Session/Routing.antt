-- ===== src/StreamableHttp/Session/Routing.antt =====
-- Which request an answer of the child reaches.
use mcpway.Base.{
  ℕ, ◌≡◌, ◌≢◌, refl, ◌∙◌, Option, none, some, List, [], ◌∷◌, arith, String, eq_iff, inl, inr,
  Option-cases, All, ap,
}
use mcpway.Base.Int.{ℤ}
use mcpway.Base.Dict.{lookup, lookup-insert, lookup-remove}
use mcpway.Json.{Value, int, get}
use mcpway.StreamableHttp.Session.{
  Session, Registered, register, waiting, refused, forget, route, route_from, deliver, response_key,
  request_key,
}
use mcpway.StreamableHttp.Session.Bound.{register-inversion}

-- What the other tasks of a session do: a refused registration changes nothing.
pub data Event : Type 0 where
  register_request : String → Event
  give_up : String → Event
  child_message : Value → Event

settle : Registered → Session → Session
settle (waiting sender t) s = t
settle (refused r) s = s

unfoldable pub step : Event → Session → Session
unfolding settle register forget route
step (register_request id) s = settle (register id s) s
step (give_up id) s = forget id s
step (child_message msg) s = route msg s

unfoldable pub run : List Event → Session → Session
unfolding step
run [] s = s
run (e ∷ es) s = run es (step e s)

-- The event ends no request that waits under `id`.
abbrev pub Spares : String → Event → Type 0
Spares id (register_request j) = Unit
Spares id (give_up j) = j ≢ id
Spares id (child_message msg) = response_key msg ≢ some id

route_from-lookup :
    (id : String) (n : ℕ) (key : Option String) (msg : Value) (s : Session)
    → key ≢ some id
    → lookup id s.pending ≡ some n
    → lookup id (route_from key msg s).pending ≡ some n
unfolding route_from
route_from-lookup id n none msg s ne h = h
route_from-lookup id n (some j) msg s ne h = elim (Option-cases (lookup j s.pending)) [
  | inl e ↦ rw (e, deliver) h
  | inr (m, e) ↦
      rw (e, deliver)
        (ground (arith, eq_iff j id, lookup-remove j id s.pending, λ (q : j ≡ id). ne (ap some q)))
]

step-lookup :
    (id : String) (n : ℕ) (e : Event) (s : Session)
    → Spares id e
    → lookup id s.pending ≡ some n
    → lookup id (step e s).pending ≡ some n
unfolding step
step-lookup id n (register_request j) s sp h =
    ground (arith, eq_iff j id, lookup-insert j id s.next_sender s.pending)
step-lookup id n (give_up j) s sp h = ground (arith, eq_iff j id, lookup-remove j id s.pending)
step-lookup id n (child_message msg) s sp h = route_from-lookup id n (response_key msg) msg s sp h

run-lookup :
    (id : String) (n : ℕ) (es : List Event) (s : Session)
    → All (Spares id) es
    → lookup id s.pending ≡ some n
    → lookup id (run es s).pending ≡ some n
unfolding run
run-lookup id n [] s sp h = h
run-lookup id n (e ∷ es) s sp h = run-lookup id n es (step e s) sp.1 (step-lookup id n e s sp.0 h)

registered-lookup :
    (id : String) (n : ℕ) (s t : Session)
    → register id s ≡ waiting n t
    → (lookup id t.pending ≡ some n) × (t.delivered ≡ s.delivered)
registered-lookup id n s t h =
    let (_, _, m, e) = register-inversion id s t n h in
    ground (arith, lookup-insert id id s.next_sender s.pending, eq_iff id id)

-- A request that was accepted gets the child's answer: after whatever else goes on in the session,
-- as long as the request did not give up and no answer for it came before, the first message of
-- the child whose id is the request's key is sent to this request's channel, as it is, and its
-- entry is taken out.
pub answer_delivered :
    (id : String) (n : ℕ) (s t : Session) (es : List Event) (msg : Value)
    → register id s ≡ waiting n t
    → All (Spares id) es
    → response_key msg ≡ some id
    → let before = run es t in
      let after = route msg before in
      (after.delivered ≡ (n, msg) ∷ before.delivered)
      × (after.notifications ≡ before.notifications)
      × (lookup id after.pending ≡ none)
unfolding route
answer_delivered id n s t es msg h sp k =
    let found = run-lookup id n es t sp (registered-lookup id n s t h).0 in
    rw (k, found) (ground (arith, lookup-remove id id (run es t).pending, eq_iff id id))

-- The id of the message is a number.
abbrev pub HasNumber : Value → Type 0
HasNumber msg = (k : ℤ) × (get "id" msg ≡ some (int k))

pub route_all : List Value → Session → Session
route_all [] s = s
route_all (msg ∷ msgs) s = route_all msgs (route msg s)

number-response_key : (msg : Value) → HasNumber msg → response_key msg ≡ none
unfolding response_key
number-response_key msg (k, e) = rw e refl

route_number :
    (msg : Value) (s : Session)
    → HasNumber msg
    → ((route msg s).delivered ≡ s.delivered) × ((route msg s).pending ≡ s.pending)
unfolding route
route_number msg s number =
    let e = number-response_key msg number in (rw (e, route_from) refl, rw (e, route_from) refl)

route_all_numbers :
    (msgs : List Value) (s : Session)
    → All HasNumber msgs
    → ((route_all msgs s).delivered ≡ s.delivered) × ((route_all msgs s).pending ≡ s.pending)
unfolding route_all
route_all_numbers [] s a = (refl, refl)
route_all_numbers (m ∷ ms) s a =
    let (d, p) = route_all_numbers ms (route m s) a.1 in
    let (d', p') = route_number m s a.0 in (d ∙ d', p ∙ p')

-- Messages of the child with a numeric id are never matched with a request, not even with the one
-- that carries the same number: no channel gets anything, and the request still waits.
pub numeric_answer_lost :
    (print : Value → String) (i : ℤ) (n : ℕ) (s t : Session) (msgs : List Value)
    → register (request_key print (int i)) s ≡ waiting n t
    → All HasNumber msgs
    → let after = route_all msgs t in
      (after.delivered ≡ s.delivered) × (lookup (request_key print (int i)) after.pending ≡ some n)
numeric_answer_lost print i n s t msgs h numbers =
    let (found, same) = registered-lookup (request_key print (int i)) n s t h in
    let (delivered, pending) = route_all_numbers msgs t numbers in
    (delivered ∙ same, ap (lookup (request_key print (int i))) pending ∙ found)
