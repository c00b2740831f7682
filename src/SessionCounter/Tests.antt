-- ===== src/SessionCounter/Tests.antt =====
-- The theorems on the counter at a run of two requests and a timeout.
use mcpway.Base.{◌≡◌, ◌≢◌, refl, none, some, [], ◌∷◌}
use mcpway.Base.Dict.{lookup, insert, remove}
use mcpway.SessionCounter.{timeout, Timer, SessionAccessCounter, new_counter, inc, dec, fire}
use mcpway.SessionCounter.Invariant.{
  Listed, first, begin_request, end_request, time_out, Reach, here, next, timer_session-idle,
}
use mcpway.SessionCounter.Count.{begins, ends, fires, run, users, users-run}
use mcpway.SessionCounter.Cleanup.{entry_never_removed}

abbrev used : SessionAccessCounter
used = inc "s" (new_counter 50)

abbrev timer : Timer
timer = record { handle = 0; session = "s" }

used_once : users "s" used ≡ 1
unfolding inc new_counter lookup insert remove
used_once = refl

idle_timers : (dec "s" used).timers ≡ timer ∷ []
unfolding inc dec new_counter lookup insert remove
idle_timers = refl

idle-Reach : Reach (new_counter 50) (dec "s" used)
idle-Reach = next (next here (begin_request (new_counter 50) "s")) (end_request used "s")

timer-Listed : Listed timer (dec "s" used).timers
unfolding inc dec new_counter lookup insert remove
timer-Listed = first

timer_session-idle_example : lookup "s" (dec "s" used).sessions ≡ some (timeout 0)
timer_session-idle_example = (timer_session-idle 50 (dec "s" used) idle-Reach).0 timer timer-Listed

users-run_example :
    users "s"
      (run (begins "s" ∷ begins "t" ∷ ends "s" ∷ fires timer ∷ begins "s" ∷ []) (new_counter 9))
    ≡ 1
users-run_example =
    users-run 9 "s" (begins "s" ∷ begins "t" ∷ ends "s" ∷ fires timer ∷ begins "s" ∷ [])

used_known : lookup "s" used.sessions ≢ none
unfolding inc new_counter lookup insert remove
used_known e = cc e

-- After the cleanup the session is still in the map.
entry_never_removed_example : lookup "s" (fire timer (dec "s" used)).sessions ≢ none
entry_never_removed_example =
    entry_never_removed 50 used (fire timer (dec "s" used)) "s"
      (next here (begin_request (new_counter 50) "s")) used_known
      (next (next here (end_request used "s")) (time_out (dec "s" used) timer timer-Listed))
