-- ===== src/Generator/Tests.antt =====
-- rust/src/generator: the theorems on a definition with two headers of one variable.
use mcpway.Base.{String, ◌≡◌, refl, none, some, List, [], ◌∷◌}
use mcpway.Base.Text.{
  trim, trim_matches, trim_start_matches, trim_end_matches, char_lowercase, char_uppercase,
}
use mcpway.Base.Result.{ok}
use mcpway.Base.Decimal.{print_nat}
use mcpway.Connect.{resolve_env_template_value}
use mcpway.Connect.Names.{kept, join_all, has_two, join_dashes, is_dash}
use mcpway.Connect.Tests.{outside}
use mcpway.Generator.{
  ParsedServerDefinition, parse_definition_value, normalize_definition, bind_env, bind_headers,
  header_base, free_name, candidate,
}
use mcpway.Generator.Names.{
  sanitize_artifact_name, sanitize_env_key, env_kept, join_all_lines, has_lines, join_lines,
}
use mcpway.Generator.Bindings.{HasNoRepeat, sources, bound, bind_headers-HasNoRepeat}
use mcpway.Generator.Templates.{resolve_env_template_value-template}
use mcpway.Generator.Definition.{definition_value, parse_definition_value-definition_value}
use mcpway.Base.Dict.{lookup}

abbrev definition : ParsedServerDefinition
definition = record {
  server_name = "My Server";
  command = "node";
  args = "server.js" ∷ [];
  env = ("API_KEY", "secret") ∷ [];
  headers = ("X-Key", "a") ∷ ("x key", "b") ∷ [];
}

abbrev joined : List String → String
joined pieces = "node server.js"

normalize_definition-definition :
    normalize_definition joined definition none
    ≡ ok (record {
      artifact_name = "my-server";
      server_name = "My Server";
      command = "node";
      args = "server.js" ∷ [];
      stdio_command = "node server.js";
      env_bindings = record { key = "API_KEY"; source_env = "API_KEY" } ∷ [];
      header_bindings =
          record { header = "X-Key"; source_env = "MCPWAY_HEADER_X_KEY" }
          ∷ record { header = "x key"; source_env = "MCPWAY_HEADER_X_KEY_1" }
          ∷ [];
    })
unfolding normalize_definition sanitize_artifact_name kept char_lowercase join_all has_two
    join_dashes is_dash trim_matches trim_start_matches trim_end_matches bind_env bind_headers
    header_base sanitize_env_key env_kept char_uppercase join_all_lines has_lines join_lines
    free_name candidate print_nat
normalize_definition-definition = refl

bind_headers-HasNoRepeat_example :
    HasNoRepeat (sources (bind_headers ("X-Key" ∷ "x key" ∷ []) []))
    × (bound (bind_headers ("X-Key" ∷ "x key" ∷ []) []) ≡ "X-Key" ∷ "x key" ∷ [])
bind_headers-HasNoRepeat_example = bind_headers-HasNoRepeat ("X-Key" ∷ "x key" ∷ []) []

resolve_env_template_value-template_example :
    resolve_env_template_value outside "${API_KEY}" ≡ "here"
resolve_env_template_value-template_example =
    resolve_env_template_value-template outside "API_KEY" refl

parse_definition_value-definition_value_example :
    (q : ParsedServerDefinition) × (parse_definition_value (definition_value definition) none
      ≡ ok q)
    × (parse_definition_value (definition_value definition) (some "My Server") ≡ ok q)
    × (q.server_name ≡ "My Server")
    × (q.command ≡ "node")
    × (q.args ≡ "server.js" ∷ [])
    × (lookup "API_KEY" q.env ≡ some "secret")
    × (lookup "API_KEY" q.headers ≡ none)
unfolding lookup trim
parse_definition_value-definition_value_example =
    parse_definition_value-definition_value definition "API_KEY" refl refl (tt, tt)
      ((refl, tt), (tt, tt))
