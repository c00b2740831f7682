-- ===== src/StreamableHttp/Session/Bound.antt =====
-- How many requests wait in a session, and under which keys.
use mcpway.Base.{
  subst, sym, Bool-cases, leb, ℕ, suc, ◌≤◌, ◌<◌, ◌≡◌, refl, Option, none, some, arith, String, ◌==◌,
  eq_iff, if◌then◌else◌, length, ◌⊎◌, inl, inr, Option-cases,
}
use mcpway.Base.Dict.{
  lookup, insert, remove, lookup-insert, lookup-remove, length-insert_fresh, length-remove-le,
}
use mcpway.Json.{Value}
use mcpway.StreamableHttp.Session.{
  Session, new_session, register, waiting, refused, in_flight, too_many, forget, route, route_from,
  deliver, response_key, pending_limit,
}

pub data Step : Session → Session → Type 0 where
  registers :
      {s t : Session} (id : String) (sender : ℕ) → register id s ≡ waiting sender t → Step s t
  forgets : (s : Session) (id : String) → Step s (forget id s)
  routes : (s : Session) (msg : Value) → Step s (route msg s)

pub data Reach (s : Session) : Session → Type 0 where
  here : Reach s s
  next : {t u : Session} → Reach s t → Step t u → Reach s u

-- A sender waits under one key only, and was made before the next one.
pub record Inv (s : Session) : Type 0 where
  pub bounded : length s.pending ≤ pending_limit
  pub made : (id : String) (n : ℕ) → lookup id s.pending ≡ some n → n < s.next_sender
  pub one_key :
      (i j : String) (n : ℕ) → lookup i s.pending ≡ some n → lookup j s.pending ≡ some n → i ≡ j

new_session-Inv : Inv new_session
unfolding new_session lookup
new_session-Inv = record {
  bounded = omega arith;
  made = λ id n h. absurd (ground arith);
  one_key = λ i j n h k. absurd (ground arith);
}

remove-Inv :
    (id : String) (s t : Session)
    → t.pending ≡ remove id s.pending
    → t.next_sender ≡ s.next_sender
    → Inv s
    → Inv t
remove-Inv id s t e f v = record {
  bounded = ground (arith, length-remove-le id s.pending, v.bounded);
  made = λ j n h. ground (arith, lookup-remove id j s.pending, v.made j n);
  one_key = λ i j n h k.
      ground (arith, lookup-remove id i s.pending, lookup-remove id j s.pending, v.one_key i j n);
}

abbrev pub registered : String → Session → Session
registered id s = record s {
  pending = insert id s.next_sender s.pending;
  next_sender = suc s.next_sender;
}

pub register-inversion :
    (id : String) (s t : Session) (sender : ℕ)
    → register id s ≡ waiting sender t
    → (lookup id s.pending ≡ none)
      × (length s.pending < pending_limit)
      × (sender ≡ s.next_sender)
      × (t ≡ registered id s)
unfolding register
register-inversion id s t sender h = elim (Option-cases (lookup id s.pending)) [
  | inl e ↦ ground arith
  | inr (n, e) ↦ absurd (ground arith)
]

registered-Inv :
    (id : String) (s : Session)
    → lookup id s.pending ≡ none
    → length s.pending < pending_limit
    → Inv s
    → Inv (registered id s)
registered-Inv id s fresh room v = record {
  bounded = omega (arith, length-insert_fresh id s.next_sender s.pending fresh);
  made = λ j n h. ground (arith, lookup-insert id j s.next_sender s.pending, v.made j n);
  one_key = λ i j n h k. ground (
    arith,
    eq_iff id i,
    eq_iff id j,
    lookup-insert id i s.next_sender s.pending,
    lookup-insert id j s.next_sender s.pending,
    v.one_key i j n,
    v.made i n,
    v.made j n,
  );
}

route_from-Inv :
    (key : Option String) (msg : Value) (s : Session) → Inv s → Inv (route_from key msg s)
unfolding route_from
route_from-Inv none msg s v = record { bounded = v.bounded; made = v.made; one_key = v.one_key }
route_from-Inv (some id) msg s v = go (lookup id s.pending)
  where
    go : (o : Option ℕ) → Inv (deliver o id msg s)
    go none = record { bounded = v.bounded; made = v.made; one_key = v.one_key }
    go (some sender) = remove-Inv id s _ refl refl v

Step-Inv : {s t : Session} → Step s t → Inv s → Inv t
unfolding forget route
Step-Inv (registers {s} {t} id sender h) v =
    let (fresh, room, _, e) = register-inversion id s t sender h in
    subst Inv (sym e) (registered-Inv id s fresh room v)
Step-Inv (forgets s id) v = remove-Inv id s _ refl refl v
Step-Inv (routes s msg) v = route_from-Inv (response_key msg) msg s v

pub Reach-Inv : {s t : Session} → Inv s → Reach s t → Inv t
Reach-Inv v here = v
Reach-Inv v (next r st) = Step-Inv st (Reach-Inv v r)

-- However requests register, are answered, give up and time out, at most `pending_limit` requests
-- wait in a session, and no two requests share a sender: an answer can reach one request only.
pub reachable_pending :
    (s : Session)
    → Reach new_session s
    → (length s.pending ≤ pending_limit)
      × ((i j : String) (n : ℕ) → lookup i s.pending ≡ some n → lookup j s.pending ≡ some n → i ≡ j)
reachable_pending s r = let v = Reach-Inv new_session-Inv r in (v.bounded, v.one_key)

-- A request is refused exactly if its key is taken or the session is full, and is told which; else
-- it waits under its key with a new sender and no other key changes.
pub register-branches :
    (id j : String) (s : Session)
    → ((n : ℕ) × (lookup id s.pending ≡ some n) × (register id s ≡ refused (in_flight id)))
      ⊎ ((lookup id s.pending ≡ none)
          × (pending_limit ≤ length s.pending)
          × (register id s ≡ refused (too_many id)))
      ⊎ ((lookup id s.pending ≡ none)
          × (length s.pending < pending_limit)
          × (t : Session) × (register id s ≡ waiting s.next_sender t)
          × (lookup j t.pending ≡ (if id == j then some s.next_sender else lookup j s.pending)))
unfolding register
register-branches id j s = elim (Option-cases (lookup id s.pending)) [
  | inr (n, e) ↦ inl (n, e, ground arith)
  | inl e ↦ elim (Bool-cases (leb pending_limit (length s.pending))) [
    | inl full ↦ inr (inl (e, ground arith, ground arith))
    | inr room ↦ inr (
        inr (
          e,
          ground arith,
          registered id s,
          ground arith,
          lookup-insert id j s.next_sender s.pending,
        ))
  ]
]
