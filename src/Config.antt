-- ===== src/Config.antt =====
-- rust/src/config.rs: the command line. What `clap` finds in the arguments, by the name of an option,
-- is a parameter, since that crate parses them; so are the environment's variables. Each function
-- below makes from it the configuration of one command, or the error that is shown.
pub mod Run
pub mod Connect
pub mod Commands
pub mod Flags
pub mod Headers
pub mod Accepted
pub mod Modes
pub mod Tests
use mcpway.Base.{
  ℕ, zero, suc, ◌+◌, ◌-◌, ◌*◌, ◌≤◌, ◌<◌, String, Char, code, ◌≡◌, refl, sym, ap, subst, ◌∙◌, ◌≢◌,
  ◌⊎◌, inl, inr, Bool, true, false, not, ◌&&◌, ◌||◌, Option, none, some, List, [], ◌∷◌,
  ◌++◌ as append, map, arith, eq_iff, ltb, leb, eqb, ◌==◌, if◌then◌else◌, Bool-cases, Option-cases,
  is_some, or_else, unwrap_or, and_then, keep_if, eq-false_of_ne, length, any, select,
}
use mcpway.Base.Text.{◌++◌, split_once, is_empty, trim, starts_with}
use mcpway.Base.Result.{Result, ok, err, ok_or}
use mcpway.Discovery.{DiscoveredTransport, DiscoveryScope}
use mcpway.Discovery.Search.Registry.{ConnectProtocol}
use mcpway.Logs.{LogsLevel, LogsTransport}
use mcpway.Base.Int.{ℤ, pos, negsuc, fits_i64}
use mcpway.Base.Dict.{
  Dict, lookup, insert, remove, contains, insert_all, lookup-insert, lookup-remove,
}
use mcpway.Json.{
  Value, Fields, Items, null, bool, int, float, str, arr, obj, end, field, no_items, item, get,
  get_field, insert_field, as_str, as_object, as_array, as_i64, elems,
}

pub data OutputTransport : Type 0 where
  stdio sse ws streamable_http grpc : OutputTransport

pub data LogLevel : Type 0 where
  debug info none_ : LogLevel

pub data CorsConfig : Type 0 where
  disabled : CorsConfig
  allow_all : CorsConfig
  allow_list : List String → CorsConfig

pub data OAuthFlow : Type 0 where
  device auth_code : OAuthFlow

pub data DiscoverSortBy : Type 0 where
  name source scope transport origin_path : DiscoverSortBy

pub data SortOrder : Type 0 where
  asc desc : SortOrder

pub data ImportSource : Type 0 where
  auto cursor claude codex windsurf opencode nodecode vscode : ImportSource

pub data ConfigError : Type 0 where
  missing_transport : ConfigError
  multiple_transports : ConfigError
  invalid_session_timeout : String → ConfigError
  invalid_runtime_port : String → ConfigError
  invalid_arg : String → ConfigError

-- `clap::ArgMatches`: `get_one` at the types that the program asks for, `get_many` and `get_flag`.
pub record ArgMatches : Type 0 where
  pub get_one : String → Option String
  pub get_many : String → Option (List String)
  pub get_flag : String → Bool
  pub get_number : String → Option ℕ
  pub get_output_transport : String → Option OutputTransport
  pub get_protocol : String → Option ConnectProtocol
  pub get_log_level : String → Option LogLevel
  pub get_oauth_flow : String → Option OAuthFlow
  pub get_import_source : String → Option ImportSource
  pub get_transport : String → Option DiscoveredTransport
  pub get_scope : String → Option DiscoveryScope
  pub get_sort_by : String → Option DiscoverSortBy
  pub get_order : String → Option SortOrder
  pub get_logs_level : String → Option LogsLevel
  pub get_logs_transport : String → Option LogsTransport

-- `impl Display for ConfigError`
abbrev pub message_of : ConfigError → String
message_of missing_transport = "You must specify one of --stdio, --sse, or --streamable-http"
message_of multiple_transports = "Specify only one of --stdio, --sse, or --streamable-http"
message_of (invalid_session_timeout msg) = msg
message_of (invalid_runtime_port msg) = msg
message_of (invalid_arg msg) = msg

abbrev pub protocol_name : ConnectProtocol → String
protocol_name ConnectProtocol.sse = "sse"
protocol_name ConnectProtocol.ws = "ws"
protocol_name ConnectProtocol.streamable_http = "streamable-http"
protocol_name ConnectProtocol.grpc = "grpc"

abbrev pub required_arg : ArgMatches → String → Result ConfigError String
required_arg m key = ok_or (m.get_one key) (invalid_arg ("Missing required arg --" ++ key))

abbrev pub parse_optional_bool : ArgMatches → String → String → Option Bool
parse_optional_bool m on off =
    if m.get_flag on then some true else if m.get_flag off then some false else none

-- `….map(|value| value.trim()).filter(|value| !value.is_empty())`
unfoldable pub non_blank : Option String → Option String
unfolding trim
non_blank none = none
non_blank (some value) = if is_empty (trim value) then none else some (trim value)

unfoldable pub default_output_transport : List String → Option OutputTransport
default_output_transport args =
    if any (λ arg. arg == "--stdio") args
    then some sse
    else if any (λ arg. arg == "--sse") args
    then some stdio
    else if any (λ arg. arg == "--streamable-http") args
    then some stdio
    else none

pub record CorsInput : Type 0 where
  pub present : Bool
  pub allow_all : Bool
  pub values : List String

abbrev pub add_value : String → CorsInput → CorsInput
add_value next input =
    if next == "*"
    then record input { allow_all = true }
    else record input { values = append input.values (next ∷ []) }

-- The loop of `parse_cors_flags`, from the argument at `i` on.
unfoldable pub cors_loop : List String → CorsInput → CorsInput
unfolding starts_with
cors_loop [] input = input
cors_loop (arg ∷ []) input =
    if arg == "--cors" then record input { present = true; allow_all = true } else input
cors_loop (arg ∷ next ∷ rest) input =
    let flagged = cors_loop (next ∷ rest) (record input { present = true; allow_all = true }) in
    let valued = cors_loop rest (add_value next (record input { present = true })) in
    let skipped = cors_loop (next ∷ rest) input in
    if arg == "--cors" then (if starts_with next "--" then flagged else valued) else skipped

unfoldable pub parse_cors_flags : List String → CorsInput
unfolding cors_loop
parse_cors_flags args = cors_loop args (record { present = false; allow_all = false; values = [] })

abbrev pub cors_of : CorsInput → CorsConfig
cors_of input =
    if input.present
    then if input.allow_all
      then allow_all
      else elim input.values [ [] ↦ allow_all | v ∷ vs ↦ allow_list (v ∷ vs) ]
    else disabled

-- One round of the loop of `parse_headers`.
unfoldable pub add_header : String → Dict String → Dict String
unfolding split_once trim insert
add_header raw headers = elim (split_once b':' raw) [
  | none ↦ headers
  | some (key, value) ↦
      if is_empty (trim key) || is_empty (trim value)
      then headers
      else insert (trim key) (trim value) headers
]

unfoldable pub add_headers : List String → Dict String → Dict String
unfolding add_header
add_headers [] headers = headers
add_headers (raw ∷ more) headers = add_headers more (add_header raw headers)

unfoldable pub add_bearer : Option String → Dict String → Dict String
unfolding trim insert
add_bearer none headers = headers
add_bearer (some token) headers =
    if is_empty (trim token)
    then headers
    else insert "Authorization" ("Bearer " ++ trim token) headers

-- It never fails.
unfoldable pub parse_headers : List String → Option String → Result ConfigError (Dict String)
unfolding add_headers add_bearer
parse_headers header_values oauth2_bearer =
    ok (add_bearer oauth2_bearer (add_headers header_values []))

unfoldable pub add_env : String → Dict String → Dict String
unfolding split_once trim insert
add_env raw env = elim (split_once b'=' raw) [
  | none ↦ env
  | some (key, value) ↦ if is_empty (trim key) then env else insert (trim key) value env
]

unfoldable pub add_envs : List String → Dict String → Dict String
unfolding add_env
add_envs [] env = env
add_envs (raw ∷ more) env = add_envs more (add_env raw env)

unfoldable pub parse_env_values : List String → Dict String
unfolding add_envs
parse_env_values values = add_envs values []
