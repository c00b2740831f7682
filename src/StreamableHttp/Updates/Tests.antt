-- ===== src/StreamableHttp/Updates/Tests.antt =====
-- The theorems on updates at a gateway with one open session.
use mcpway.Base.{Option, none, some, [], ◌∷◌, String, true}
use mcpway.Runtime.{RuntimeArgs, RuntimeArgsUpdate, session, global}
use mcpway.StreamableHttp.Session.{new_session}
use mcpway.StreamableHttp.Manager.{SessionManager}
use mcpway.StreamableHttp.Updates.{apply_runtime_update}

abbrev no_args : RuntimeArgs
no_args = record { extra_cli_args = []; env = []; headers = [] }

abbrev update : RuntimeArgsUpdate
update = record { extra_cli_args = some ("--debug" ∷ []); env = none; headers = none }

abbrev manager : SessionManager
manager = record {
  runtime = record { global = no_args; sessions = [] };
  sessions = ("s1", new_session) ∷ [];
  session_counter = none;
  restarts = [];
  ended = [];
}

abbrev never_fails : RuntimeArgs → Option String
never_fails args = none

abbrev of_session : SessionManager
of_session =
    (apply_runtime_update never_fails true (record { scope = session "s1"; update = update })
      manager).0

abbrev of_all : SessionManager
of_all =
    (apply_runtime_update never_fails true (record { scope = global; update = update }) manager).0
