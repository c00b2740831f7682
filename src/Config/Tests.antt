-- ===== src/Config/Tests.antt =====
-- rust/src/config.rs: the theorems on a few command lines.
use mcpway.Base.{String, ◌≡◌, refl, true, false, Option, none, some, List, [], ◌∷◌}
use mcpway.Base.Text.{starts_with}
use mcpway.Base.Result.{ok, err, is_ok}
use mcpway.Base.Decimal.{parse_i64}
use mcpway.Config.{
  ArgMatches, invalid_arg, allow_all, sse, info, parse_headers, add_headers, add_bearer, add_envs,
  parse_env_values, cors_loop, parse_cors_flags, default_output_transport, non_blank,
}
use mcpway.Config.Run.{
  Config, parse_config_from, check_transports, select_output, parse_session_timeout,
  parse_admin_port, parse_port,
}
use mcpway.Config.Accepted.{
  has_output, absent_or_upto, IsProper, parse_config_from-is_ok, parse_config_from-IsProper,
}
use mcpway.Base.Dict.{Dict, lookup}

-- What `clap` finds when nothing is given.
abbrev pub no_matches : ArgMatches
no_matches = record {
  get_one = λ k. none;
  get_many = λ k. none;
  get_flag = λ k. false;
  get_number = λ k. none;
  get_output_transport = λ k. none;
  get_protocol = λ k. none;
  get_log_level = λ k. none;
  get_oauth_flow = λ k. none;
  get_import_source = λ k. none;
  get_transport = λ k. none;
  get_scope = λ k. none;
  get_sort_by = λ k. none;
  get_order = λ k. none;
  get_logs_level = λ k. none;
  get_logs_transport = λ k. none;
}

abbrev stdio_options : Dict String
stdio_options = ("session-timeout", "30") ∷ ("stdio", "npx server") ∷ []

abbrev stdio_matches : ArgMatches
unfolding lookup
stdio_matches = record no_matches { get_one = λ k. lookup k stdio_options }

abbrev stdio_args : List String
stdio_args =
    "mcpway" ∷ "--stdio" ∷ "npx server" ∷ "--session-timeout" ∷ "30" ∷ "--cors" ∷ "--stateful" ∷ []

abbrev no_env : String → Option String
no_env k = none

parse_config_from-is_ok_example : is_ok (parse_config_from stdio_matches no_env stdio_args) ≡ true
unfolding has_output absent_or_upto parse_i64 lookup stdio_matches
parse_config_from-is_ok_example = parse_config_from-is_ok stdio_matches no_env stdio_args

-- `--stdio=CMD` is one argument, from which no transport is inferred.
joined_option :
    parse_config_from stdio_matches no_env ("mcpway" ∷ "--stdio=npx server" ∷ [])
    ≡ err (invalid_arg "output-transport must be specified or inferable from input transport")
unfolding parse_config_from stdio_matches lookup check_transports select_output
    default_output_transport
joined_option = refl

-- The configuration of `stdio_args`, with another port.
abbrev stdio_config : Config
stdio_config = record {
  stdio = some "npx server";
  sse = none;
  streamable_http = none;
  output_transport = sse;
  port = 8000;
  base_url = "";
  sse_path = "/sse";
  message_path = "/message";
  streamable_http_path = "/mcp";
  log_level = info;
  cors = allow_all;
  health_endpoints = [];
  headers = [];
  env = [];
  stateful = false;
  session_timeout = some 30;
  protocol_version = "2024-11-05";
  runtime_prompt = false;
  runtime_admin_port = none;
  runtime_admin_host = "127.0.0.1";
  runtime_admin_token = none;
  retry_attempts = 2;
  retry_base_delay_ms = 250;
  retry_max_delay_ms = 2000;
  circuit_failure_threshold = 3;
  circuit_cooldown_ms = 5000;
}

parse_config_from-stdio_config : parse_config_from stdio_matches no_env stdio_args ≡ ok stdio_config
unfolding parse_config_from stdio_matches lookup check_transports select_output
    default_output_transport parse_session_timeout parse_i64 parse_admin_port parse_port
    parse_headers add_headers add_bearer parse_cors_flags cors_loop starts_with parse_env_values
    add_envs non_blank
parse_config_from-stdio_config = refl

parse_config_from-IsProper_example : IsProper stdio_config
parse_config_from-IsProper_example =
    parse_config_from-IsProper stdio_matches no_env stdio_args stdio_config
      parse_config_from-stdio_config

abbrev connect_options : Dict String
connect_options = ("endpoint", "https://example.com/mcp") ∷ ("oauth-client-id", "cli") ∷ []

abbrev connect_matches : ArgMatches
unfolding lookup
connect_matches = record no_matches { get_one = λ k. lookup k connect_options }
