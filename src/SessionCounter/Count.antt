-- ===== src/SessionCounter/Count.antt =====
-- The counter against its abstract view: how many requests of a session are open.
use mcpway.Base.{
  ℕ, zero, suc, ◌+◌, ◌-◌, ◌≡◌, refl, Option, none, some, List, [], ◌∷◌, arith, String, ◌==◌, eq_iff,
  if◌then◌else◌, ap, ◌∙◌,
}
use mcpway.Base.Dict.{lookup, lookup-remove}
use mcpway.SessionCounter.{
  SessionState, active, timeout, Timer, SessionAccessCounter, new_counter, inc, dec, fire, inc_from,
  dec_from,
}
use mcpway.SessionCounter.Invariant.{lookup-replace}

pub data Event : Type 0 where
  begins ends : String → Event
  fires : Timer → Event

unfoldable pub step : Event → SessionAccessCounter → SessionAccessCounter
unfolding inc dec fire
step (begins id) c = inc id c
step (ends id) c = dec id c
step (fires t) c = fire t c

unfoldable pub run : List Event → SessionAccessCounter → SessionAccessCounter
unfolding step
run [] c = c
run (e ∷ es) c = run es (step e c)

-- The requests of the session `id` that are open, and with how many the counter counts.
abbrev pub opened : String → List Event → ℕ → ℕ
opened id [] n = n
opened id (begins j ∷ es) n = opened id es (if j == id then n + 1 else n)
opened id (ends j ∷ es) n = opened id es (if j == id then n - 1 else n)
opened id (fires t ∷ es) n = opened id es n

abbrev pub count_of : Option SessionState → ℕ
count_of none = 0
count_of (some (active n)) = n
count_of (some (timeout h)) = 0

abbrev pub users : String → SessionAccessCounter → ℕ
users id c = count_of (lookup id c.sessions)

pub users-inc :
    (j id : String) (c : SessionAccessCounter)
    → users id (inc j c) ≡ (if j == id then users id c + 1 else users id c)
unfolding inc
users-inc j id c = go (lookup j c.sessions) refl
  where
    go :
        (o : Option SessionState)
        → lookup j c.sessions ≡ o
        → users id (inc_from o j c) ≡ (if j == id then users id c + 1 else users id c)
    go none e = ground (arith, eq_iff j id, lookup-replace j id (active 1) c)
    go (some (active n)) e = ground (arith, eq_iff j id, lookup-replace j id (active (n + 1)) c)
    go (some (timeout h)) e = ground (arith, eq_iff j id, lookup-replace j id (active 1) c)

pub users-dec :
    (j id : String) (c : SessionAccessCounter)
    → users id (dec j c) ≡ (if j == id then users id c - 1 else users id c)
unfolding dec
users-dec j id c = go (lookup j c.sessions) refl
  where
    go :
        (o : Option SessionState)
        → lookup j c.sessions ≡ o
        → users id (dec_from o j c) ≡ (if j == id then users id c - 1 else users id c)
    go none e = ground (arith, eq_iff j id)
    go (some (timeout h)) e = ground (arith, eq_iff j id, lookup-replace j id (timeout h) c)
    go (some (active zero)) e = ground (arith, eq_iff j id, lookup-remove j id c.sessions)
    go (some (active (suc zero))) e =
        ground (arith, eq_iff j id, lookup-replace j id (timeout c.next_handle) c)
    go (some (active (suc (suc n)))) e =
        ground (arith, eq_iff j id, lookup-replace j id (active (suc n)) c)

users-run_from :
    (id : String) (es : List Event) (c : SessionAccessCounter)
    → users id (run es c) ≡ opened id es (users id c)
unfolding run step
users-run_from id [] c = refl
users-run_from id (begins j ∷ es) c =
    users-run_from id es (inc j c) ∙ ap (opened id es) (users-inc j id c)
users-run_from id (ends j ∷ es) c =
    users-run_from id es (dec j c) ∙ ap (opened id es) (users-dec j id c)
users-run_from id (fires t ∷ es) c = users-run_from id es (fire t c)

-- Whatever requests begin and end and whatever timers fire, in any order, the count of a session
-- is the number of its open requests; a request that ends when none is open is not counted.
pub users-run :
    (ms : ℕ) (id : String) (es : List Event) → users id (run es (new_counter ms)) ≡ opened id es 0
unfolding new_counter lookup
users-run ms id es = users-run_from id es (new_counter ms)
