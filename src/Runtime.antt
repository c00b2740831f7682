-- ===== src/Runtime.antt =====
-- rust/src/types.rs, rust/src/runtime/store.rs and rust/src/runtime/mod.rs: the runtime arguments of
-- a child process, and the store that holds the global ones and an overlay for each session.
-- Each operation takes the store's lock once, so an operation is one step of the state.
pub mod Merge
pub mod Isolation
pub mod Prompt
mod Tests
use mcpway.Base.{String, Bool, true, false, Option, none, some, List, [], ◌∷◌, ◌++◌, unwrap_or}
use mcpway.Base.Dict.{Dict, lookup, insert, insert_all, keys}

pub record RuntimeArgs : Type 0 where
  pub extra_cli_args : List String
  pub env : Dict String
  pub headers : Dict String

abbrev pub default_args : RuntimeArgs
default_args = record { extra_cli_args = []; env = []; headers = [] }

-- An empty overlay part leaves the base's as it is.
merge_list : List String → List String → List String
merge_list base [] = base
merge_list base (x ∷ overlay) = base ++ x ∷ overlay

merge_map : Dict String → Dict String → Dict String
merge_map base [] = base
merge_map base (e ∷ overlay) = insert_all base (e ∷ overlay)

-- `RuntimeArgs::merge`
unfoldable pub merge : RuntimeArgs → RuntimeArgs → RuntimeArgs
unfolding merge_list merge_map
merge base overlay = record {
  extra_cli_args = merge_list base.extra_cli_args overlay.extra_cli_args;
  env = merge_map base.env overlay.env;
  headers = merge_map base.headers overlay.headers;
}

pub record RuntimeArgsUpdate : Type 0 where
  pub extra_cli_args : Option (List String)
  pub env : Option (Dict String)
  pub headers : Option (Dict String)

pub record UpdateResult : Type 0 where
  pub restart_needed : Bool
  pub headers_changed : Bool

pub record RuntimeArgsStore : Type 0 where
  pub global : RuntimeArgs
  pub sessions : Dict RuntimeArgs

unfoldable pub new_store : RuntimeArgs → RuntimeArgsStore
new_store initial = record { global = initial; sessions = [] }

abbrev Pending : Type 0
Pending = RuntimeArgs × UpdateResult

set_extra : Option (List String) → Pending → Pending
set_extra none p = p
set_extra (some extra) (next, result) =
    (record next { extra_cli_args = extra }, record result { restart_needed = true })

set_env : Option (Dict String) → Pending → Pending
set_env none p = p
set_env (some env) (next, result) =
    (record next { env = env }, record result { restart_needed = true })

set_headers : Option (Dict String) → Pending → Pending
set_headers none p = p
set_headers (some headers) (next, result) =
    (record next { headers = headers }, record result { headers_changed = true })

-- The three `if let` blocks that `update_global` and `update_session` share.
unfoldable pub apply_update : RuntimeArgsUpdate → RuntimeArgs → RuntimeArgs × UpdateResult
unfolding set_extra set_env set_headers
apply_update update args = set_headers update.headers (
    set_env update.env (
      set_extra update.extra_cli_args
        (args, record { restart_needed = false; headers_changed = false })))

unfoldable pub update_global :
    RuntimeArgsUpdate → RuntimeArgsStore → RuntimeArgsStore × UpdateResult
unfolding apply_update
update_global update store =
    let (next, result) = apply_update update store.global in
    (record store { global = next }, result)

-- `entry(session_id).or_default()`
session_entry : String → RuntimeArgsStore → RuntimeArgs
session_entry id store = unwrap_or (lookup id store.sessions) default_args

unfoldable pub update_session :
    String → RuntimeArgsUpdate → RuntimeArgsStore → RuntimeArgsStore × UpdateResult
unfolding apply_update session_entry
update_session id update store =
    let (entry, result) = apply_update update (session_entry id store) in
    (record store { sessions = insert id entry store.sessions }, result)

unfoldable pub get_effective : Option String → RuntimeArgsStore → RuntimeArgs
get_effective none store = store.global
get_effective (some id) store = elim (lookup id store.sessions) [
  | none ↦ store.global
  | some overlay ↦ merge store.global overlay
]

unfoldable pub list_sessions : RuntimeArgsStore → List String
list_sessions store = keys store.sessions

pub data RuntimeScope : Type 0 where
  global : RuntimeScope
  session : String → RuntimeScope

pub record RuntimeUpdate : Type 0 where
  pub scope : RuntimeScope
  pub update : RuntimeArgsUpdate

pub record RuntimeApplyResult : Type 0 where
  pub status : String
  pub message : String
  pub restart : Bool

abbrev pub apply_ok : String → Bool → RuntimeApplyResult
apply_ok message restart = record { status = "ok"; message = message; restart = restart }

abbrev pub apply_error : String → RuntimeApplyResult
apply_error message = record { status = "error"; message = message; restart = false }
