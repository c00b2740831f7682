-- ===== src/SessionCounter/Invariant.antt =====
-- What holds of the counter after any interleaving of calls and timers.
use mcpway.Base.{
  none, suc, zero, refl, ◌+◌, inr, inl, eqb, Option, ◌≤◌, Bool-cases, subst, false, ℕ, ◌<◌, ◌≡◌,
  ◌≢◌, some, List, [], ◌∷◌, arith, String, ◌==◌, eq_iff, if◌then◌else◌, All,
}
use mcpway.Base.Dict.{Dict, lookup, remove, lookup-insert, lookup-remove}
use mcpway.SessionCounter.{
  abort, inc_from, dec_from, SessionState, active, timeout, Timer, SessionAccessCounter,
  new_counter, inc, dec, fire, replace,
}

pub data Listed (t : Timer) : List Timer → Type 0 where
  first : {ts : List Timer} → Listed t (t ∷ ts)
  later : {u : Timer} {ts : List Timer} → Listed t ts → Listed t (u ∷ ts)

-- One step: a request begins or ends, or the sleep of a running timer ends.
pub data Step : SessionAccessCounter → SessionAccessCounter → Type 0 where
  begin_request : (c : SessionAccessCounter) (id : String) → Step c (inc id c)
  end_request : (c : SessionAccessCounter) (id : String) → Step c (dec id c)
  time_out : (c : SessionAccessCounter) (t : Timer) → Listed t c.timers → Step c (fire t c)

pub data Reach (s : SessionAccessCounter) : SessionAccessCounter → Type 0 where
  here : Reach s s
  next : {t u : SessionAccessCounter} → Reach s t → Step t u → Reach s u

-- An active session has a positive count, and the handles are below the next one.
abbrev pub IsGood : ℕ → SessionState → Type 0
IsGood n (active k) = 0 < k
IsGood n (timeout h) = h < n

IsGood-mono : {m n : ℕ} (state : SessionState) → m ≤ n → IsGood m state → IsGood n state
IsGood-mono (active k) h g = g
IsGood-mono (timeout k) h g = omega arith

-- A running timer belongs to a session that waits for it.
abbrev Waits : Dict SessionState → Timer → Type 0
Waits d t = lookup t.session d ≡ some (timeout t.handle)

pub record Inv (c : SessionAccessCounter) : Type 0 where
  pub good :
      (id : String) (state : SessionState)
      → lookup id c.sessions ≡ some state
      → IsGood c.next_handle state
  pub waits : All (Waits c.sessions) c.timers

new_counter-Inv : (ms : ℕ) → Inv (new_counter ms)
unfolding new_counter lookup
new_counter-Inv ms = record { good = λ id state h. absurd (ground arith); waits = tt }

pub lookup-replace :
    (id j : String) (state : SessionState) (c : SessionAccessCounter)
    → lookup j (replace id state c) ≡ (if id == j then some state else lookup j c.sessions)
lookup-replace id j state c =
    ground (arith, lookup-insert id j state (remove id c.sessions), lookup-remove id j c.sessions)

-- The timers of the other sessions do not see a change of `id`.
Waits-replace :
    (id : String) (state : SessionState) (c : SessionAccessCounter) (ts : List Timer)
    → All (λ t. t.session ≢ id) ts
    → All (Waits c.sessions) ts
    → All (Waits (replace id state c)) ts
Waits-replace id state c [] n w = tt
Waits-replace id state c (t ∷ ts) n w = (
  ground (arith, lookup-replace id t.session state c, eq_iff id t.session, n.0),
  Waits-replace id state c ts n.1 w.1,
)

abbrev NotTimeout : Option SessionState → Type 0
NotTimeout none = Unit
NotTimeout (some (active n)) = Unit
NotTimeout (some (timeout h)) = ⊥

-- No timer runs for a session that is not in the timeout state.
others_of_active :
    (id : String) (d : Dict SessionState) (ts : List Timer)
    → NotTimeout (lookup id d)
    → All (Waits d) ts
    → All (λ t. t.session ≢ id) ts
others_of_active id d [] n w = tt
others_of_active id d (t ∷ ts) n w = (
  λ e. absurd (subst NotTimeout (subst (λ s. lookup s d ≡ some (timeout t.handle)) e w.0) n),
  others_of_active id d ts n w.1,
)

abort-Waits :
    (h : ℕ) (d : Dict SessionState) (ts : List Timer)
    → All (Waits d) ts
    → All (Waits d) (abort h ts)
unfolding abort
abort-Waits h d [] w = tt
abort-Waits h d (t ∷ ts) w = ground (arith, abort-Waits h d ts w.1)

-- Once the timer of a session is aborted, none runs for it.
others_of_abort :
    (id : String) (h : ℕ) (d : Dict SessionState) (ts : List Timer)
    → lookup id d ≡ some (timeout h)
    → All (Waits d) ts
    → All (λ t. t.session ≢ id) (abort h ts)
unfolding abort
others_of_abort id h d [] e w = tt
others_of_abort id h d (t ∷ ts) e w = elim (Bool-cases (eqb t.handle h)) [
  | inl same ↦ rw same (others_of_abort id h d ts e w.1)
  | inr differs ↦ rw differs (
    λ s. not_same (subst (λ s'. lookup s' d ≡ some (timeout t.handle)) s w.0) differs,
    others_of_abort id h d ts e w.1,
  )
]
  where
    not_same : lookup id d ≡ some (timeout t.handle) → eqb t.handle h ≡ false → ⊥
    not_same f g = ground arith

IsGood-replace :
    (id : String) (state : SessionState) (c : SessionAccessCounter) (n : ℕ)
    → c.next_handle ≤ n
    → Inv c
    → IsGood n state
    → (j : String) (found : SessionState) → lookup j (replace id state c) ≡ some found
    → IsGood n found
IsGood-replace id state c n le v g j found h = elim (Bool-cases (id == j)) [
  | inl same ↦ subst (IsGood n) (ground (arith, lookup-replace id j state c)) g
  | inr other ↦ IsGood-mono found le (v.good j found (ground (arith, lookup-replace id j state c)))
]

inc-Inv : (id : String) (c : SessionAccessCounter) → Inv c → Inv (inc id c)
unfolding inc
inc-Inv id c v = go (lookup id c.sessions) refl
  where
    go : (o : Option SessionState) → lookup id c.sessions ≡ o → Inv (inc_from o id c)
    go none e = record {
      good = IsGood-replace id (active 1) c c.next_handle (omega arith) v (omega arith);
      waits =
          Waits-replace id (active 1) c c.timers
            (others_of_active id c.sessions c.timers (rw e tt) v.waits) v.waits;
    }
    go (some (active n)) e = record {
      good = IsGood-replace id (active (n + 1)) c c.next_handle (omega arith) v (omega arith);
      waits =
          Waits-replace id (active (n + 1)) c c.timers
            (others_of_active id c.sessions c.timers (rw e tt) v.waits) v.waits;
    }
    go (some (timeout h)) e = record {
      good = IsGood-replace id (active 1) c c.next_handle (omega arith) v (omega arith);
      waits =
          Waits-replace id (active 1) c (abort h c.timers)
            (others_of_abort id h c.sessions c.timers e v.waits)
            (abort-Waits h c.sessions c.timers v.waits);
    }

-- Taking out and putting back a state changes nothing that a timer sees.
Waits-same :
    (id : String) (state : SessionState) (c : SessionAccessCounter) (ts : List Timer)
    → lookup id c.sessions ≡ some state
    → All (Waits c.sessions) ts
    → All (Waits (replace id state c)) ts
Waits-same id state c [] e w = tt
Waits-same id state c (t ∷ ts) e w = (
  ground (arith, lookup-replace id t.session state c, eq_iff id t.session),
  Waits-same id state c ts e w.1,
)

dec-Inv : (id : String) (c : SessionAccessCounter) → Inv c → Inv (dec id c)
unfolding dec
dec-Inv id c v = go (lookup id c.sessions) refl
  where
    go : (o : Option SessionState) → lookup id c.sessions ≡ o → Inv (dec_from o id c)
    go none e = v
    go (some (timeout h)) e = record {
      good =
          IsGood-replace id (timeout h) c c.next_handle (omega arith) v (v.good id (timeout h) e);
      waits = Waits-same id (timeout h) c c.timers e v.waits;
    }
    go (some (active zero)) e = absurd (omega (arith, v.good id (active 0) e))
    go (some (active (suc zero))) e = record {
      good =
          IsGood-replace id (timeout c.next_handle) c (suc c.next_handle) (omega arith) v
            (omega arith);
      waits = (
        ground (arith, lookup-replace id id (timeout c.next_handle) c, eq_iff id id),
        Waits-replace id (timeout c.next_handle) c c.timers
            (others_of_active id c.sessions c.timers (rw e tt) v.waits) v.waits,
      );
    }
    go (some (active (suc (suc n)))) e = record {
      good = IsGood-replace id (active (suc n)) c c.next_handle (omega arith) v (omega arith);
      waits =
          Waits-replace id (active (suc n)) c c.timers
            (others_of_active id c.sessions c.timers (rw e tt) v.waits) v.waits;
    }

pub Step-Inv : {c d : SessionAccessCounter} → Step c d → Inv c → Inv d
unfolding fire
Step-Inv (begin_request c id) v = inc-Inv id c v
Step-Inv (end_request c id) v = dec-Inv id c v
Step-Inv (time_out c t l) v = record {
  good = v.good;
  waits = abort-Waits t.handle c.sessions c.timers v.waits;
}

Reach-Inv : {c d : SessionAccessCounter} → Inv c → Reach c d → Inv d
Reach-Inv v here = v
Reach-Inv v (next r s) = Step-Inv s (Reach-Inv v r)

Listed-Waits :
    (d : Dict SessionState) {t : Timer} {ts : List Timer}
    → Listed t ts
    → All (Waits d) ts
    → Waits d t
Listed-Waits d first w = w.0
Listed-Waits d (later l) w = Listed-Waits d l w.1

pub reachable-Inv : (ms : ℕ) {c : SessionAccessCounter} → Reach (new_counter ms) c → Inv c
reachable-Inv ms r = Reach-Inv (new_counter-Inv ms) r

-- In every state that requests and timers can lead to, an active session has a positive count, and
-- a timer that runs belongs to a session that is in the timeout state and waits for just this
-- timer: no cleanup is started while a request uses the session, and a request that begins stops
-- the timer of its session.
pub timer_session-idle :
    (ms : ℕ) (c : SessionAccessCounter)
    → Reach (new_counter ms) c
    → ((t : Timer) → Listed t c.timers → lookup t.session c.sessions ≡ some (timeout t.handle))
      × ((id : String) (n : ℕ) → lookup id c.sessions ≡ some (active n) → 0 < n)
timer_session-idle ms c r =
    let v = reachable-Inv ms r in
    (λ t l. Listed-Waits c.sessions l v.waits, λ id n e. v.good id (active n) e)
