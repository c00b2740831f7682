-- ===== src/StreamableHttp/Updates.antt =====
-- The task of `run` that applies runtime updates to the sessions.
pub mod Laws
mod Tests
use mcpway.Base.{
  ℕ, String, Bool, true, false, Option, none, some, List, [], ◌∷◌, is_some, if◌then◌else◌,
}
use mcpway.Runtime.{
  RuntimeArgs, RuntimeArgsStore, RuntimeUpdate, RuntimeArgsUpdate, RuntimeScope, RuntimeApplyResult,
  UpdateResult, apply_ok, apply_error, update_global, update_session, global, session,
}
use mcpway.StreamableHttp.Manager.{SessionManager, restart_all, restart_session}

-- `restart` says whether a child started again with these arguments fails, with the error.
update_all :
    (RuntimeArgs → Option String)
    → Bool
    → RuntimeArgsUpdate
    → SessionManager
    → SessionManager × RuntimeApplyResult
update_all restart stateful update m =
    let (store, result) = update_global update m.runtime in
    let updated = record m { runtime = store } in
    if result.restart_needed
    then if stateful
      then (
        restart_all restart updated,
        apply_ok "Restarted all sessions with new runtime args" true,
      )
      else (updated, apply_ok "Updated runtime args for future requests" false)
    else (updated, apply_ok "Updated runtime args" false)

update_one :
    (RuntimeArgs → Option String)
    → Bool
    → String
    → RuntimeArgsUpdate
    → SessionManager
    → SessionManager × RuntimeApplyResult
update_one restart false id update m =
    (m, apply_error "Per-session overrides require stateful Streamable HTTP")
update_one restart true id update m =
    let (store, result) = update_session id update m.runtime in
    let updated = record m { runtime = store } in
    let (restarted, error) = restart_session restart id updated in
    if result.restart_needed
    then (
      restarted,
      if is_some error
          then apply_error "Failed to restart session"
          else apply_ok "Restarted session with new runtime args" true,
    )
    else (updated, apply_ok "Updated session runtime args" false)

apply_scope :
    (RuntimeArgs → Option String)
    → Bool
    → RuntimeScope
    → RuntimeArgsUpdate
    → SessionManager
    → SessionManager × RuntimeApplyResult
unfolding update_all update_one
apply_scope restart stateful global update m = update_all restart stateful update m
apply_scope restart stateful (session id) update m = update_one restart stateful id update m

unfoldable pub apply_runtime_update :
    (RuntimeArgs → Option String)
    → Bool
    → RuntimeUpdate
    → SessionManager
    → SessionManager × RuntimeApplyResult
unfolding apply_scope update_global update_session restart_session
apply_runtime_update restart stateful u m = apply_scope restart stateful u.scope u.update m
