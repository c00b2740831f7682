-- ===== src/Runtime/Prompt.antt =====
-- rust/src/runtime/prompt.rs: the loop that reads updates from the terminal. The lines that the
-- terminal yields, the JSON parser for `PromptInput` and the open end of the channel are inputs.
use mcpway.Base.{
  ℕ, zero, suc, ◌≡◌, refl, arith, map, ◌++◌, take, String, Option, none, some, List, [], ◌∷◌, ◌==◌,
  if◌then◌else◌,
}
use mcpway.Base.Text.{trim, is_empty}
use mcpway.Runtime.{RuntimeArgsUpdate, RuntimeScope, global, session, RuntimeUpdate}

pub record PromptInput : Type 0 where
  pub scope : String
  pub session_id : Option String
  pub extra_cli_args : Option (List String)
  pub env : Option (List (String × String))
  pub headers : Option (List (String × String))

-- The `match` on the scope; `none` is the `continue` after the error is logged.
unfoldable pub prompt_scope : PromptInput → Option RuntimeScope
prompt_scope input =
    if input.scope == "global"
    then some global
    else if input.scope == "session"
    then elim input.session_id [ none ↦ none | some id ↦ some (session id) ]
    else none

abbrev pub prompt_args : PromptInput → RuntimeArgsUpdate
prompt_args input = record {
  extra_cli_args = input.extra_cli_args;
  env = input.env;
  headers = input.headers;
}

-- What one line of the terminal asks for.
unfoldable pub prompt_line : (String → Option PromptInput) → String → Option RuntimeUpdate
unfolding prompt_scope trim
prompt_line parse line = if is_empty (trim line) then none else elim (parse (trim line)) [
  | none ↦ none
  | some input ↦ elim (prompt_scope input) [
    | none ↦ none
    | some scope ↦ some (record { scope = scope; update = prompt_args input })
  ]
]

-- The reading loop, with the updates that are sent. A line is `none` where reading fails, and
-- `open_for` is the number of sends that succeed before the receiver is gone.
unfoldable pub prompt_loop :
    (String → Option PromptInput) → List (Option String) → ℕ → List RuntimeUpdate
unfolding prompt_line
prompt_loop parse [] open_for = []
prompt_loop parse (none ∷ lines) open_for = []
prompt_loop parse (some line ∷ lines) open_for = elim (prompt_line parse line) [
  | none ↦ prompt_loop parse lines open_for
  | some update ↦ elim open_for [ zero ↦ [] | suc left ↦ update ∷ prompt_loop parse lines left ]
]

-- The updates that the lines ask for.
abbrev pub updates_of : (String → Option PromptInput) → List String → List RuntimeUpdate
updates_of parse [] = []
updates_of parse (line ∷ lines) = elim (prompt_line parse line) [
  | none ↦ updates_of parse lines
  | some update ↦ update ∷ updates_of parse lines
]

-- A line that is blank, is no JSON, names no scope or lacks its session is skipped and stops
-- nothing: the updates of all readable lines are sent, in order, up to the first failing send or
-- the first line that cannot be read.
pub prompt_loop-updates_of :
    (parse : String → Option PromptInput) (lines : List String) (more : List (Option String))
    (open_for : ℕ)
    → prompt_loop parse (map some lines ++ none ∷ more) open_for
      ≡ take open_for (updates_of parse lines)
unfolding prompt_loop
prompt_loop-updates_of parse [] more zero = refl
prompt_loop-updates_of parse [] more (suc n) = refl
prompt_loop-updates_of parse (line ∷ lines) more zero =
    ground (arith, prompt_loop-updates_of parse lines more zero)
prompt_loop-updates_of parse (line ∷ lines) more (suc n) = ground (
  arith,
  prompt_loop-updates_of parse lines more (suc n),
  prompt_loop-updates_of parse lines more n,
)
