-- ===== src/StreamableHttp/Session/Request.antt =====
-- `Session::request`: it leaves no entry behind.
use mcpway.Base.{
  ℕ, ◌≡◌, refl, sym, ◌∙◌, String, true, false, none, some, List, [], ◌∷◌, arith, eq_iff, ◌==◌,
  Option-cases, Bool-cases, inl, inr, ◌⊎◌,
}
use mcpway.Base.Dict.{lookup, lookup-insert, lookup-remove}
use mcpway.Json.{Value}
use mcpway.StreamableHttp.Session.{
  Session, Wait, Refusal, register, forget, response_key, route, answers, wait_for, await_answer,
  request, request_key, Registered, waiting, refused,
}

-- Every entry that waits later waited before, for the same sender.
unfoldable pub AddsNone : Session → Session → Type 0
AddsNone before later =
    (k : String) (n : ℕ) → lookup k later.pending ≡ some n → lookup k before.pending ≡ some n

-- As `AddsNone`, but for the entry of one key.
AddsOther : String → Session → Session → Type 0
AddsOther id before later =
    (k : String) (n : ℕ)
    → (id == k) ≡ false
    → lookup k later.pending ≡ some n
    → lookup k before.pending ≡ some n

route-AddsNone : (msg : Value) (s : Session) → AddsNone s (route msg s)
unfolding AddsNone route
route-AddsNone msg s k n h = elim (Option-cases (response_key msg)) [
  | inl e ↦ ground (arith, e, h)
  | inr (id, e) ↦ ground (arith, e, h, lookup-remove id k s.pending)
]

-- The entry that a message answers is taken out.
route-answered :
    (id : String) (msg : Value) (s : Session)
    → answers id msg ≡ true
    → lookup id (route msg s).pending ≡ none
unfolding route
route-answered id msg s h = elim (Option-cases (response_key msg)) [
  | inl e ↦ ground (arith, e, h)
  | inr (k, e) ↦ ground (arith, e, h, eq_iff k id, lookup-remove k id s.pending)
]

wait_for-AddsNone :
    (id : String) (msgs : List Value) (s : Session) → AddsNone s (wait_for id msgs s).0
unfolding AddsNone wait_for
wait_for-AddsNone id [] s k n h = h
wait_for-AddsNone id (msg ∷ more) s k n h = elim (Bool-cases (answers id msg)) [
  | inl e ↦ route-AddsNone msg s k n (sym (rw (wait_for, e) refl) ∙ h)
  | inr e ↦
      route-AddsNone msg s k n
        (wait_for-AddsNone id more (route msg s) k n (sym (rw (wait_for, e) refl) ∙ h))
]

-- An answer that came has taken out the entry.
wait_for-answered :
    (id : String) (msgs : List Value) (s : Session) (answer : Value)
    → (wait_for id msgs s).1 ≡ some answer
    → lookup id (wait_for id msgs s).0.pending ≡ none
unfolding wait_for
wait_for-answered id [] s answer h = absurd (ground (arith, h))
wait_for-answered id (msg ∷ more) s answer h = elim (Bool-cases (answers id msg)) [
  | inl e ↦ rw (wait_for, e) (route-answered id msg s e)
  | inr e ↦
      rw (wait_for, e)
        (wait_for-answered id more (route msg s) answer (sym (rw (wait_for, e) refl) ∙ h))
]

forget-AddsNone : (id : String) (s : Session) → AddsNone s (forget id s)
unfolding AddsNone forget
forget-AddsNone id s k n h = ground (arith, h, lookup-remove id k s.pending)

forget-gone : (id : String) (s : Session) → lookup id (forget id s).pending ≡ none
unfolding forget
forget-gone id s = ground (arith, lookup-remove id id s.pending, eq_iff id id)

-- The end of the wait: nothing is added, and the entry of the key is gone.
await_answer-ends :
    (w : Wait) (id : String) (s : Session)
    → AddsNone s (await_answer w id s).0 × (lookup id (await_answer w id s).0.pending ≡ none)
unfolding AddsNone await_answer
await_answer-ends w id s = elim (Option-cases w.send_error) [
  | inr (error, e) ↦ rw (await_answer, e) (forget-AddsNone id s, forget-gone id s)
  | inl e ↦ elim (Option-cases (wait_for id w.written s).1) [
    | inr (msg, f) ↦
        rw (await_answer, e, f)
          (wait_for-AddsNone id w.written s, wait_for-answered id w.written s msg f)
    | inl f ↦
        (let waited = (wait_for id w.written s).0 in
          rw (await_answer, e, f)
            (
              (λ k n h. wait_for-AddsNone id w.written s k n (forget-AddsNone id waited k n h)),
              forget-gone id waited,
            ))
  ]
]

Registered-cases :
    (r : Registered)
    → ((why : Refusal) × (r ≡ refused why))
      ⊎ ((sender : ℕ) × (later : Session) × (r ≡ waiting sender later))
Registered-cases (refused why) = inl (why, refl)
Registered-cases (waiting sender later) = inr (sender, later, refl)

register-AddsOther :
    (id : String) (s later : Session) (sender : ℕ)
    → register id s ≡ waiting sender later
    → AddsOther id s later
unfolding register AddsOther
register-AddsOther id s later sender h k n other there =
    ground (arith, h, other, there, lookup-insert id k s.next_sender s.pending)

-- However a request ends, by an answer, an error of the child, a refusal or the time limit, every entry
-- that then waits in the session waited before.
pub request-AddsNone :
    (print : Value → String) (w : Wait) (id : Value) (s : Session)
    → AddsNone s (request print w id s).0
unfolding request AddsNone AddsOther
request-AddsNone print w id s k n h =
    let key = request_key print id in
    elim (Registered-cases (register key s)) [
      | inl (why, e) ↦ sym (rw (request, e) refl) ∙ h
      | inr (sender, later, e) ↦
          (let (adds, gone) = await_answer-ends w key later in
            let there : lookup k (await_answer w key later).0.pending ≡ some n =
              sym (rw (request, e) refl) ∙ h in
            elim (Bool-cases (key == k)) [
              | inl same ↦ absurd (ground (arith, gone, there, (eq_iff key k).0 same))
              | inr other ↦ register-AddsOther key s later sender e k n other (adds k n there)
            ])
    ]
