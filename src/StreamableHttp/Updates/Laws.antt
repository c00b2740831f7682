-- ===== src/StreamableHttp/Updates/Laws.antt =====
-- What an update restarts, and with which arguments.
use mcpway.Base.{
  ◌&&◌, String, ◌≡◌, refl, Bool, true, ◌||◌, Option, some, List, [], ◌∷◌, is_some, ap, ◌∙◌, ◌&&◌,
  if◌then◌else◌, arith, eq_iff,
}
use mcpway.Base.Dict.{Dict, lookup, keys}
use mcpway.Runtime.{
  RuntimeArgs, RuntimeArgsStore, RuntimeArgsUpdate, update_global, update_session, global, session,
  get_effective,
}
use mcpway.StreamableHttp.Session.{Session}
use mcpway.StreamableHttp.Manager.{SessionManager, restart_all, restart_each, restart_session}
use mcpway.StreamableHttp.Updates.{apply_runtime_update}

-- The update gives the child new arguments or variables.
abbrev pub needs_restart : RuntimeArgsUpdate → Bool
needs_restart update = is_some update.extra_cli_args || is_some update.env

-- An update of one session in stateful mode is stored for this session; if it gives arguments or
-- variables and the session is open, exactly this session's child is started again, with the
-- arguments that are effective after the update, and else none is.
pub update_session-restarts :
    (restart : RuntimeArgs → Option String) (id : String) (update : RuntimeArgsUpdate)
    (m : SessionManager)
    → let after =
        (apply_runtime_update restart true (record { scope = session id; update = update }) m).0 in
      (after.runtime ≡ (update_session id update m.runtime).0)
      × (after.sessions ≡ m.sessions)
      × (after.restarts ≡ (
          if needs_restart update && is_some (lookup id m.sessions)
          then (id, get_effective (some id) after.runtime) ∷ m.restarts
          else m.restarts))
unfolding apply_runtime_update
update_session-restarts restart id update m = ground arith

-- The children that a restart of these sessions starts again, the last first.
abbrev pub restarted :
    RuntimeArgsStore → Dict Session → List (String × RuntimeArgs) → List (String × RuntimeArgs)
restarted store [] done = done
restarted store ((id, s) ∷ more) done =
    restarted store more ((id, get_effective (some id) store) ∷ done)

abbrev Within : Dict Session → Dict Session → Type 0
Within d [] = Unit
Within d ((id, s) ∷ more) = (is_some (lookup id d) ≡ true) × Within d more

Within-cons :
    (j : String) (s : Session) (d more : Dict Session) → Within d more → Within ((j, s) ∷ d) more
unfolding lookup
Within-cons j s d [] w = tt
Within-cons j s d ((id, t) ∷ more) w = (ground arith, Within-cons j s d more w.1)

Within-self : (d : Dict Session) → Within d d
unfolding lookup
Within-self [] = tt
Within-self ((j, s) ∷ d) = (ground (arith, eq_iff j j), Within-cons j s d d (Within-self d))

one :
    (restart : RuntimeArgs → Option String) (id : String) (m : SessionManager)
    → is_some (lookup id m.sessions) ≡ true
    → (restart_session restart id m).0
      ≡ record m { restarts = (id, get_effective (some id) m.runtime) ∷ m.restarts }
unfolding restart_session
one restart id m h = ground arith

restart_each-restarted :
    (restart : RuntimeArgs → Option String) (more : Dict Session) (m : SessionManager)
    → Within m.sessions more
    → restart_each restart (keys more) m
      ≡ record m { restarts = restarted m.runtime more m.restarts }
unfolding restart_each
restart_each-restarted restart [] m w = refl
restart_each-restarted restart ((id, s) ∷ more) m w =
    let next : SessionManager = record m {
      restarts = (id, get_effective (some id) m.runtime) ∷ m.restarts;
    } in
    let step : (restart_session restart id m).0 ≡ next = one restart id m w.0 in
    ap (restart_each restart (keys more)) step ∙ restart_each-restarted restart more next w.1

-- A global update in stateful mode is stored, and if it gives arguments or variables, the child
-- of every open session is started again, once and with the arguments that are effective for it
-- after the update; the answer says so. Without such a part, or in stateless mode, none is.
pub update_global-restarts :
    (restart : RuntimeArgs → Option String) (stateful : Bool) (update : RuntimeArgsUpdate)
    (m : SessionManager)
    → let (after, result) =
        apply_runtime_update restart stateful (record { scope = global; update = update }) m in
      (after.runtime ≡ (update_global update m.runtime).0)
      × (after.sessions ≡ m.sessions)
      × (result.status ≡ "ok")
      × (result.restart ≡ (needs_restart update && stateful))
      × (after.restarts ≡ (
          if needs_restart update && stateful
          then restarted after.runtime m.sessions m.restarts
          else m.restarts))
unfolding apply_runtime_update restart_all
update_global-restarts restart stateful update m = ground (
  arith,
  restart_each-restarted restart m.sessions
      (record m { runtime = (update_global update m.runtime).0 }) (Within-self m.sessions),
)
