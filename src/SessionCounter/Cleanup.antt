-- ===== src/SessionCounter/Cleanup.antt =====
-- When the cleanup of a session is armed, and what becomes of the session's entry.
use mcpway.Base.{ℕ, zero, suc, ◌+◌, ◌≡◌, ◌≢◌, refl, Option, none, some, ◌∷◌, arith, String, eq_iff}
use mcpway.Base.Dict.{lookup}
use mcpway.SessionCounter.{
  SessionState, active, timeout, SessionAccessCounter, new_counter, inc, dec, fire, inc_from,
  dec_from,
}
use mcpway.SessionCounter.Invariant.{
  Inv, lookup-replace, Step, begin_request, end_request, time_out, Reach, here, next, reachable-Inv,
  Step-Inv,
}
use mcpway.SessionCounter.Count.{users}

-- The end of the last open request of a session starts a new timer for it, and its entry waits for
-- this timer; the timers that ran go on.
pub dec-arms :
    (c : SessionAccessCounter) (id : String)
    → users id c ≡ 1
    → ((dec id c).timers ≡ record { handle = c.next_handle; session = id } ∷ c.timers)
      × (lookup id (dec id c).sessions ≡ some (timeout c.next_handle))
unfolding dec
dec-arms c id h = go (lookup id c.sessions) refl
  where
    go :
        (o : Option SessionState)
        → lookup id c.sessions ≡ o
        → ((dec_from o id c).timers ≡ record { handle = c.next_handle; session = id } ∷ c.timers)
          × (lookup id (dec_from o id c).sessions ≡ some (timeout c.next_handle))
    go none e = absurd (ground arith)
    go (some (timeout k)) e = absurd (ground arith)
    go (some (active zero)) e = absurd (ground arith)
    go (some (active (suc zero))) e =
        (refl, ground (arith, lookup-replace id id (timeout c.next_handle) c, eq_iff id id))
    go (some (active (suc (suc n)))) e = absurd (ground arith)

inc-known :
    (c : SessionAccessCounter) (j id : String)
    → lookup id c.sessions ≢ none
    → lookup id (inc j c).sessions ≢ none
unfolding inc
inc-known c j id h = go (lookup j c.sessions)
  where
    go : (o : Option SessionState) → lookup id (inc_from o j c).sessions ≢ none
    go none = λ e. ground (arith, lookup-replace j id (active 1) c)
    go (some (active n)) = λ e. ground (arith, lookup-replace j id (active (n + 1)) c)
    go (some (timeout k)) = λ e. ground (arith, lookup-replace j id (active 1) c)

dec-known :
    (c : SessionAccessCounter) (j id : String)
    → Inv c
    → lookup id c.sessions ≢ none
    → lookup id (dec j c).sessions ≢ none
unfolding dec
dec-known c j id v h = go (lookup j c.sessions) refl
  where
    go :
        (o : Option SessionState)
        → lookup j c.sessions ≡ o
        → lookup id (dec_from o j c).sessions ≢ none
    go none f = h
    go (some (timeout k)) f = λ e. ground (arith, lookup-replace j id (timeout k) c)
    go (some (active zero)) f = absurd (omega (arith, v.good j (active 0) f))
    go (some (active (suc zero))) f =
        λ e. ground (arith, lookup-replace j id (timeout c.next_handle) c)
    go (some (active (suc (suc n)))) f = λ e. ground (arith, lookup-replace j id (active (suc n)) c)

Step-known :
    {c d : SessionAccessCounter} (id : String)
    → Inv c
    → Step c d
    → lookup id c.sessions ≢ none
    → lookup id d.sessions ≢ none
unfolding fire
Step-known id v (begin_request c j) h = inc-known c j id h
Step-known id v (end_request c j) h = dec-known c j id v h
Step-known id v (time_out c t l) h = h

Reach-known :
    {c d : SessionAccessCounter} (id : String)
    → Inv c
    → Reach c d
    → lookup id c.sessions ≢ none
    → (lookup id d.sessions ≢ none) × Inv d
Reach-known id v here h = (h, v)
Reach-known id v (next r s) h =
    let (k, w) = Reach-known id v r h in (Step-known id w s k, Step-Inv s w)

-- A session that the counter has once seen keeps an entry in its map for ever, also after the
-- timer has fired and the session was cleaned up: nothing takes the entry out.
pub entry_never_removed :
    (ms : ℕ) (c d : SessionAccessCounter) (id : String)
    → Reach (new_counter ms) c
    → lookup id c.sessions ≢ none
    → Reach c d
    → lookup id d.sessions ≢ none
entry_never_removed ms c d id r h q = (Reach-known id (reachable-Inv ms r) q h).0
