-- ===== src/Runtime/Tests.antt =====
-- The theorems on the store and the prompt at concrete inputs.
use mcpway.Base.{String, ◌≡◌, Option, none, some, [], ◌∷◌, arith, eq_iff, if◌then◌else◌, ◌==◌}
use mcpway.Runtime.{
  RuntimeArgs, RuntimeArgsStore, RuntimeArgsUpdate, RuntimeUpdate, get_effective, update_session,
  session,
}
use mcpway.Runtime.Isolation.{update_session-isolated}
use mcpway.Runtime.Prompt.{PromptInput, prompt_args}

abbrev overlay : RuntimeArgs
overlay = record { extra_cli_args = "--debug" ∷ []; env = ("KEY", "session") ∷ []; headers = [] }

abbrev store : RuntimeArgsStore
store = record {
  global = record {
    extra_cli_args = "--root" ∷ [];
    env = ("KEY", "global") ∷ ("LANG", "C") ∷ [];
    headers = [];
  };
  sessions = ("s1", overlay) ∷ [];
}

abbrev update : RuntimeArgsUpdate
update = record { extra_cli_args = none; env = some (("KEY", "new") ∷ []); headers = none }

update_session-isolated_example :
    (get_effective (some "s2") (update_session "s1" update store).0
      ≡ get_effective (some "s2") store)
    × (get_effective none (update_session "s1" update store).0 ≡ get_effective none store)
update_session-isolated_example =
    update_session-isolated store "s1" "s2" update (ground (arith, eq_iff "s1" "s2"))

abbrev input : PromptInput
input = record {
  scope = "session";
  session_id = some "s1";
  extra_cli_args = none;
  env = none;
  headers = none;
}

-- A parser that knows one line.
abbrev parse : String → Option PromptInput
parse line = if line == "{}" then some input else none

abbrev asked : RuntimeUpdate
asked = record { scope = session "s1"; update = prompt_args input }
