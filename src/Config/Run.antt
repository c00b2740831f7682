-- ===== src/Config/Run.antt =====
-- rust/src/config.rs, `parse_config_from`: the configuration of the gateway. Each option that can fail
-- has a step of its own, in the order of the code.
use mcpway.Base.{
  ℕ, String, Bool, not, ◌||◌, Option, none, some, List, [], ◌∷◌, ltb, leb, eqb, if◌then◌else◌,
  is_some, or_else, unwrap_or, and_then, length, select,
}
use mcpway.Base.Text.{◌++◌, is_empty}
use mcpway.Base.Result.{Result, ok, err, ok_or, ◌>>=◌}
use mcpway.Base.Decimal.{parse_i64, parse_unsigned}
use mcpway.Config.{
  ArgMatches, ConfigError, missing_transport, multiple_transports, invalid_session_timeout,
  invalid_runtime_port, invalid_arg, OutputTransport, LogLevel, info, CorsConfig,
  default_output_transport, parse_headers, parse_env_values, parse_cors_flags, cors_of, non_blank,
}
use mcpway.Base.Int.{pos, negsuc}
use mcpway.Base.Dict.{Dict}

pub record Config : Type 0 where
  pub stdio : Option String
  pub sse : Option String
  pub streamable_http : Option String
  pub output_transport : OutputTransport
  pub port : ℕ
  pub base_url : String
  pub sse_path : String
  pub message_path : String
  pub streamable_http_path : String
  pub log_level : LogLevel
  pub cors : CorsConfig
  pub health_endpoints : List String
  pub headers : Dict String
  pub env : Dict String
  pub stateful : Bool
  pub session_timeout : Option ℕ
  pub protocol_version : String
  pub runtime_prompt : Bool
  pub runtime_admin_port : Option ℕ
  pub runtime_admin_host : String
  pub runtime_admin_token : Option String
  pub retry_attempts : ℕ
  pub retry_base_delay_ms : ℕ
  pub retry_max_delay_ms : ℕ
  pub circuit_failure_threshold : ℕ
  pub circuit_cooldown_ms : ℕ

abbrev pub count_active : ArgMatches → ℕ
count_active m = length (
    select (λ v. v)
      (is_some (m.get_one "stdio")
        ∷ is_some (m.get_one "sse")
        ∷ is_some (m.get_one "streamable-http")
        ∷ []))

unfoldable pub check_transports : ArgMatches → Result ConfigError (Unit {0})
check_transports m =
    if eqb (count_active m) 0
    then err missing_transport
    else if ltb 1 (count_active m)
    then err multiple_transports
    else ok tt

unfoldable pub select_output : ArgMatches → List String → Result ConfigError OutputTransport
unfolding default_output_transport
select_output m raw_args =
    ok_or (or_else (m.get_output_transport "output-transport") (default_output_transport raw_args))
      (invalid_arg "output-transport must be specified or inferable from input transport")

abbrev pub timeout_message : String → String
timeout_message raw = "session-timeout must be a positive number, received: " ++ raw

-- A number of 64 bits above 0, as `u64`.
abbrev pub positive : String → Option ℕ
unfolding parse_i64
positive raw = elim (parse_i64 raw) [
  | none ↦ none
  | some (pos n) ↦ if leb n 0 then none else some n
  | some (negsuc n) ↦ none
]

unfoldable pub parse_session_timeout : Option String → Result ConfigError (Option ℕ)
parse_session_timeout none = ok none
parse_session_timeout (some raw) = elim (positive raw) [
  | none ↦ err (invalid_session_timeout (timeout_message raw))
  | some n ↦ ok (some n)
]

unfoldable pub parse_admin_port : Option String → Result ConfigError (Option ℕ)
unfolding parse_i64
parse_admin_port none = ok none
parse_admin_port (some raw) =
    let out_of_range =
      err (invalid_runtime_port ("runtime-admin-port must be in 1..=65535, received: " ++ raw)) in
    elim (parse_i64 raw) [
      | none ↦
          err (invalid_runtime_port ("runtime-admin-port must be a valid port, received: " ++ raw))
      | some (negsuc n) ↦ out_of_range
      | some (pos n) ↦ if leb n 0 || ltb 65535 n then out_of_range else ok (some n)
    ]

-- A port that does not read as `u16` is 8000, without an error.
unfoldable pub parse_port : Option String → ℕ
unfolding parse_unsigned
parse_port raw = unwrap_or (and_then raw (parse_unsigned 65535)) 8000

unfoldable pub parse_config_from :
    ArgMatches → (String → Option String) → List String → Result ConfigError Config
unfolding check_transports select_output parse_session_timeout parse_admin_port parse_port
    parse_headers parse_cors_flags parse_env_values
parse_config_from m env_var raw_args = do
  chosen ← check_transports m
  output_transport ← select_output m raw_args
  headers ← parse_headers (unwrap_or (m.get_many "header") []) (m.get_one "oauth2-bearer")
  session_timeout ← parse_session_timeout (m.get_one "session-timeout")
  runtime_admin_port ← parse_admin_port (m.get_one "runtime-admin-port")
  ok (record {
    stdio = m.get_one "stdio";
    sse = m.get_one "sse";
    streamable_http = m.get_one "streamable-http";
    output_transport = output_transport;
    port = parse_port (or_else (m.get_one "port") (env_var "PORT"));
    base_url = unwrap_or (m.get_one "base-url") "";
    sse_path = unwrap_or (m.get_one "sse-path") "/sse";
    message_path = unwrap_or (m.get_one "message-path") "/message";
    streamable_http_path = unwrap_or (m.get_one "streamable-http-path") "/mcp";
    log_level = unwrap_or (m.get_log_level "log-level") info;
    cors = cors_of (parse_cors_flags raw_args);
    health_endpoints = select (λ v. not (is_empty v)) (unwrap_or (m.get_many "health-endpoint") []);
    headers = headers;
    env = parse_env_values (unwrap_or (m.get_many "env") []);
    stateful = m.get_flag "stateful";
    session_timeout = session_timeout;
    protocol_version = unwrap_or (m.get_one "protocol-version") "2024-11-05";
    runtime_prompt = m.get_flag "runtime-prompt";
    runtime_admin_port = runtime_admin_port;
    runtime_admin_host = unwrap_or (m.get_one "runtime-admin-host") "127.0.0.1";
    runtime_admin_token =
        non_blank
          (or_else (m.get_one "runtime-admin-token") (env_var "MCPWAY_RUNTIME_ADMIN_TOKEN"));
    retry_attempts = unwrap_or (m.get_number "retry-attempts") 2;
    retry_base_delay_ms = unwrap_or (m.get_number "retry-base-delay-ms") 250;
    retry_max_delay_ms = unwrap_or (m.get_number "retry-max-delay-ms") 2000;
    circuit_failure_threshold = unwrap_or (m.get_number "circuit-failure-threshold") 3;
    circuit_cooldown_ms = unwrap_or (m.get_number "circuit-cooldown-ms") 5000;
  })
