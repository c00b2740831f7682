-- ===== src/Generator.antt =====
-- rust/src/generator/definition.rs and normalize.rs: an artifact's definition is read from JSON and
-- made into bindings of environment variables. How a command line is joined (`shell_words::join`)
-- is a parameter. The loop that looks for a free name has one round more than there are names, which
-- is enough (Generator/Free.antt).
pub mod Names
pub mod Free
pub mod Bindings
pub mod Templates
pub mod Definition
mod Tests
use mcpway.Base.{
  ℕ, zero, suc, ◌+◌, ◌-◌, ◌*◌, ◌≤◌, ◌<◌, String, Char, code, ◌≡◌, refl, sym, ap, subst, ◌∙◌, ◌≢◌,
  ◌⊎◌, inl, inr, Bool, true, false, not, ◌&&◌, ◌||◌, Option, none, some, List, [], ◌∷◌, map, arith,
  eq_iff, ltb, leb, eqb, ◌==◌, if◌then◌else◌, Bool-cases, Option-cases, is_some, or_else, unwrap_or,
  and_then, keep_if, eq-false_of_ne, length, any, select,
}
use mcpway.Base.Text.{◌++◌, is_empty, trim}
use mcpway.Base.Decimal.{print_nat}
use mcpway.Base.Dict.{keys}
use mcpway.Base.Result.{Result, ok, err, ok_or, ◌>>=◌}
use mcpway.Generator.Names.{sanitize_artifact_name, sanitize_env_key}
use mcpway.Base.Int.{ℤ, pos, negsuc, fits_i64}
use mcpway.Base.Dict.{
  Dict, lookup, insert, remove, contains, insert_all, lookup-insert, lookup-remove,
}
use mcpway.Json.{
  Value, Fields, Items, null, bool, int, float, str, arr, obj, end, field, no_items, item, get,
  get_field, insert_field, as_str, as_object, as_array, as_i64, elems,
}

pub record ParsedServerDefinition : Type 0 where
  pub server_name : String
  pub command : String
  pub args : List String
  pub env : Dict String
  pub headers : Dict String

-- The items of an array, which are all texts.
unfoldable pub string_items : Items → Option (List String)
string_items no_items = some []
string_items (item v more) =
    let rest = string_items more in
    elim (as_str v) [
      | none ↦ none
      | some s ↦ elim rest [ none ↦ none | some texts ↦ some (s ∷ texts) ]
    ]

unfoldable pub parse_string_array : Option Value → String → String → Result String (List String)
unfolding string_items
parse_string_array none name server_name = ok []
parse_string_array (some value) name server_name = elim (as_array value) [
  | none ↦ err ("Server '" ++ server_name ++ "' field '" ++ name ++ "' must be an array")
  | some items ↦
      ok_or (string_items items)
        ("Server '" ++ server_name ++ "' field '" ++ name ++ "' must contain only strings")
]

-- The loop over the fields of an object, from the first that is left.
unfoldable pub string_fields : String → String → Fields → Dict String → Result String (Dict String)
unfolding insert
string_fields name server_name end out = ok out
string_fields name server_name (field key v more) out = elim (as_str v) [
  | none ↦
      err ("Server '" ++ server_name ++ "' field '" ++ name ++ "." ++ key ++ "' must be a string")
  | some s ↦ string_fields name server_name more (insert key s out)
]

unfoldable pub parse_string_map : Option Value → String → String → Result String (Dict String)
unfolding string_fields
parse_string_map none name server_name = ok []
parse_string_map (some value) name server_name = elim (as_object value) [
  | none ↦ err ("Server '" ++ server_name ++ "' field '" ++ name ++ "' must be an object")
  | some fields ↦ string_fields name server_name fields []
]

-- `.and_then(Value::as_str).map(str::trim).filter(|v| !v.is_empty())`
unfoldable pub trimmed_text : Option Value → Option String
unfolding trim
trimmed_text none = none
trimmed_text (some v) = elim (as_str v) [
  | none ↦ none
  | some s ↦ if is_empty (trim s) then none else some (trim s)
]

unfoldable pub parse_fields : String → Fields → Result String ParsedServerDefinition
unfolding trimmed_text parse_string_array parse_string_map get_field
parse_fields server_name server = do
  command ←
      ok_or (trimmed_text (get_field "command" server))
        ("Server '" ++ server_name ++ "' is missing a non-empty 'command'")
  args ← parse_string_array (get_field "args" server) "args" server_name
  env ← parse_string_map (get_field "env" server) "env" server_name
  headers ← parse_string_map (get_field "headers" server) "headers" server_name
  ok (record {
    server_name = server_name;
    command = command;
    args = args;
    env = env;
    headers = headers;
  })

unfoldable pub parse_server_object : String → Value → Result String ParsedServerDefinition
unfolding parse_fields
parse_server_object server_name value = elim (as_object value) [
  | none ↦ err ("Server definition for '" ++ server_name ++ "' must be an object")
  | some server ↦ parse_fields server_name server
]

-- The server that is asked for, or the only one.
unfoldable pub select_server : Option String → Fields → Result String (String × Value)
unfolding get_field
select_server requested end = err "mcpServers is empty"
select_server (some requested) servers = elim (get_field requested servers) [
  | none ↦ err ("Server key '" ++ requested ++ "' not found in mcpServers")
  | some value ↦ ok (requested, value)
]
select_server none (field name value end) = ok (name, value)
select_server none servers = err "Definition has multiple mcpServers entries; pass --server <name>"

unfoldable pub parse_definition_value : Value → Option String → Result String ParsedServerDefinition
unfolding select_server parse_server_object get_field
parse_definition_value root requested = do
  root_obj ← ok_or (as_object root) "Definition JSON must be an object"
  servers ←
      ok_or (get_field "mcpServers" root_obj)
        "Definition must contain top-level 'mcpServers' object"
  servers_obj ← ok_or (as_object servers) "mcpServers must be an object"
  chosen ← select_server requested servers_obj
  parse_server_object chosen.0 chosen.1

pub record EnvBinding : Type 0 where
  pub key : String
  pub source_env : String

pub record HeaderBinding : Type 0 where
  pub header : String
  pub source_env : String

pub record NormalizedDefinition : Type 0 where
  pub artifact_name : String
  pub server_name : String
  pub command : String
  pub args : List String
  pub stdio_command : String
  pub env_bindings : List EnvBinding
  pub header_bindings : List HeaderBinding

abbrev pub member : String → List String → Bool
member s names = any (λ n. n == s) names

-- The candidate at a suffix; 0 stands for the name itself.
unfoldable pub candidate : String → ℕ → String
unfolding print_nat
candidate base zero = base
candidate base (suc n) = base ++ "_" ++ print_nat (suc n)

-- The loop from a suffix on, on fuel.
unfoldable pub free_name : ℕ → String → ℕ → List String → String
unfolding candidate
free_name zero base n used = candidate base n
free_name (suc fuel) base n used =
    let later = free_name fuel base (suc n) used in
    if member (candidate base n) used then later else candidate base n

abbrev pub header_base : String → String
unfolding sanitize_env_key
header_base header = "MCPWAY_HEADER_" ++ sanitize_env_key header

-- The loop over the headers; `used` holds the names that are taken, the latest first.
unfoldable pub bind_headers : List String → List String → List HeaderBinding
unfolding free_name header_base
bind_headers [] used = []
bind_headers (header ∷ more) used =
    let name = free_name (length used) (header_base header) 0 used in
    record { header = header; source_env = name } ∷ bind_headers more (name ∷ used)

unfoldable pub bind_env : List String → List EnvBinding
bind_env [] = []
bind_env (key ∷ more) = record { key = key; source_env = key } ∷ bind_env more

unfoldable pub normalize_definition :
    (List String → String)
    → ParsedServerDefinition
    → Option String
    → Result String NormalizedDefinition
unfolding bind_headers bind_env sanitize_artifact_name
normalize_definition join parsed artifact_name_override =
    let artifact_name =
      sanitize_artifact_name (unwrap_or artifact_name_override parsed.server_name) in
    if is_empty artifact_name
    then err "Artifact name resolved to empty value"
    else ok (record {
      artifact_name = artifact_name;
      server_name = parsed.server_name;
      command = parsed.command;
      args = parsed.args;
      stdio_command = join (parsed.command ∷ parsed.args);
      env_bindings = bind_env (keys parsed.env);
      header_bindings = bind_headers (keys parsed.headers) [];
    })

abbrev pub template : String → String
template name = "${" ++ name ++ "}"

unfoldable pub header_template_map : List HeaderBinding → Dict String → Dict String
unfolding insert
header_template_map [] out = out
header_template_map (b ∷ more) out =
    header_template_map more (insert b.header (template b.source_env) out)

unfoldable pub env_template_map : List EnvBinding → Dict String → Dict String
unfolding insert
env_template_map [] out = out
env_template_map (b ∷ more) out = env_template_map more (insert b.key (template b.source_env) out)
