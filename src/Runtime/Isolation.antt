-- ===== src/Runtime/Isolation.antt =====
-- Which sessions an update of the store reaches.
use mcpway.Base.{
  String, ◌≡◌, ◌≢◌, ◌||◌, none, some, arith, eq_iff, is_some, ◌==◌, if◌then◌else◌, unwrap_or,
}
use mcpway.Base.Dict.{lookup, lookup-insert}
use mcpway.Runtime.{
  RuntimeArgsUpdate, RuntimeArgsStore, update_global, update_session, get_effective, apply_update,
  default_args, session_entry,
}

-- An update of one session changes the effective arguments of no other session and not the global
-- ones.
pub update_session-isolated :
    (store : RuntimeArgsStore) (id other : String) (update : RuntimeArgsUpdate)
    → id ≢ other
    → let after = (update_session id update store).0 in
      (get_effective (some other) after ≡ get_effective (some other) store)
      × (get_effective none after ≡ get_effective none store)
unfolding update_session get_effective
update_session-isolated store id other update ne = ground (
  arith,
  lookup-insert id other (apply_update update (session_entry id store)).0 store.sessions,
  eq_iff id other,
)

-- After an update of a session its overlay is the old one, or the empty one, with each given part
-- replaced, and the overlay of every other session is kept.
pub update_session-lookup :
    (store : RuntimeArgsStore) (id j : String) (update : RuntimeArgsUpdate)
    → let old = unwrap_or (lookup id store.sessions) default_args in
      lookup j (update_session id update store).0.sessions ≡ (
        if id == j
        then some (record {
          extra_cli_args = unwrap_or update.extra_cli_args old.extra_cli_args;
          env = unwrap_or update.env old.env;
          headers = unwrap_or update.headers old.headers;
        })
        else lookup j store.sessions)
unfolding update_session
update_session-lookup store id j update = ground (
  arith,
  lookup-insert id j (apply_update update (session_entry id store)).0 store.sessions,
  eq_iff id j,
)

-- A global update reaches every session: the global arguments change in the given parts and all
-- overlays are kept. A restart is asked for exactly when arguments or variables are given, and a
-- header change is reported exactly when headers are.
pub update_global-result :
    (store : RuntimeArgsStore) (update : RuntimeArgsUpdate)
    → let (after, result) = update_global update store in
      (after.global ≡ record {
        extra_cli_args = unwrap_or update.extra_cli_args store.global.extra_cli_args;
        env = unwrap_or update.env store.global.env;
        headers = unwrap_or update.headers store.global.headers;
      })
      × (after.sessions ≡ store.sessions)
      × (result.restart_needed ≡ (is_some update.extra_cli_args || is_some update.env))
      × (result.headers_changed ≡ is_some update.headers)
unfolding update_global
update_global-result store update = ground arith
