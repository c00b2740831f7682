-- ===== src/Config/Connect.antt =====
-- rust/src/config.rs, `parse_connect_config_from`: the configuration of `connect`.
use mcpway.Base.{
  ℕ, ◌+◌, String, Bool, true, false, not, ◌&&◌, ◌||◌, Option, none, some, List, [], ltb, eqb,
  if◌then◌else◌, is_some, unwrap_or, length,
}
use mcpway.Base.Result.{Result, ok, err, ok_or, map_ok, ◌>>=◌}
use mcpway.Discovery.Search.Registry.{ConnectProtocol}
use mcpway.Config.{
  ArgMatches, ConfigError, invalid_arg, LogLevel, info, OAuthFlow, device, parse_headers,
  parse_env_values,
}
use mcpway.Base.Dict.{Dict}

pub record ConnectOauthConfig : Type 0 where
  pub profile : Option String
  pub issuer : String
  pub client_id : String
  pub scopes : List String
  pub flow : OAuthFlow
  pub no_browser : Bool
  pub cache_path : Option String
  pub login : Bool
  pub logout : Bool
  pub audience : Option String

pub record ConnectConfig : Type 0 where
  pub endpoint : Option String
  pub server : Option String
  pub stdio_cmd : Option String
  pub stdio_args : List String
  pub stdio_env : Dict String
  pub stdio_wrapper : Option String
  pub save_wrapper_dir : Option String
  pub protocol : Option ConnectProtocol
  pub headers : Dict String
  pub registry_path : Option String
  pub save_profile_dir : Option String
  pub profile_name : Option String
  pub log_level : LogLevel
  pub protocol_version : String
  pub oauth : Option ConnectOauthConfig
  pub retry_attempts : ℕ
  pub retry_base_delay_ms : ℕ
  pub retry_max_delay_ms : ℕ
  pub circuit_failure_threshold : ℕ
  pub circuit_cooldown_ms : ℕ

abbrev pub stdio_mode : ArgMatches → Bool
stdio_mode m = is_some (m.get_one "stdio-cmd") || is_some (m.get_one "stdio-wrapper")

-- `b as u8`
abbrev pub bit : Bool → ℕ
bit true = 1
bit false = 0

abbrev pub selected_modes : ArgMatches → ℕ
selected_modes m =
    bit (is_some (m.get_one "endpoint")) + bit (is_some (m.get_one "server")) + bit (stdio_mode m)

unfoldable pub check_modes : ArgMatches → Result ConfigError (Unit {0})
check_modes m =
    if eqb (selected_modes m) 0
    then err (
        invalid_arg
          "connect requires one mode: <ENDPOINT>, --server <NAME>, --stdio-cmd <CMD>, or --stdio-wrapper <PATH>")
    else if ltb 1 (selected_modes m)
    then err (invalid_arg "connect accepts exactly one mode: endpoint, --server, or stdio override")
    else if is_some (m.get_one "stdio-cmd") && is_some (m.get_one "stdio-wrapper")
    then err (invalid_arg "--stdio-cmd and --stdio-wrapper cannot be used together")
    else if is_some (m.get_protocol "protocol") && stdio_mode m
    then err (invalid_arg "--protocol is only supported for remote endpoint/server modes")
    else ok tt

abbrev pub oauth_requested : ArgMatches → Bool
oauth_requested m =
    is_some (m.get_one "oauth-profile")
    || is_some (m.get_one "oauth-issuer")
    || is_some (m.get_one "oauth-client-id")
    || not (eqb (length (unwrap_or (m.get_many "oauth-scope") [])) 0)
    || m.get_flag "oauth-no-browser"
    || is_some (m.get_one "oauth-cache")
    || m.get_flag "oauth-login"
    || m.get_flag "oauth-logout"
    || is_some (m.get_one "oauth-audience")

unfoldable pub oauth_fields : ArgMatches → Result ConfigError ConnectOauthConfig
oauth_fields m = do
  issuer ←
      ok_or (m.get_one "oauth-issuer")
        (invalid_arg "--oauth-issuer is required when OAuth is enabled")
  client_id ←
      ok_or (m.get_one "oauth-client-id")
        (invalid_arg "--oauth-client-id is required when OAuth is enabled")
  ok (record {
    profile = m.get_one "oauth-profile";
    issuer = issuer;
    client_id = client_id;
    scopes = unwrap_or (m.get_many "oauth-scope") [];
    flow = unwrap_or (m.get_oauth_flow "oauth-flow") device;
    no_browser = m.get_flag "oauth-no-browser";
    cache_path = m.get_one "oauth-cache";
    login = m.get_flag "oauth-login";
    logout = m.get_flag "oauth-logout";
    audience = m.get_one "oauth-audience";
  })

unfoldable pub oauth_config : ArgMatches → Result ConfigError (Option ConnectOauthConfig)
unfolding oauth_fields
oauth_config m = if oauth_requested m then map_ok some (oauth_fields m) else ok none

-- At the matches of the subcommand `connect`, if `clap` found it.
unfoldable pub parse_connect_config_from : Option ArgMatches → Result ConfigError ConnectConfig
unfolding check_modes parse_headers oauth_config parse_env_values
parse_connect_config_from none = err (invalid_arg "Failed to parse connect subcommand")
parse_connect_config_from (some m) = do
  chosen ← check_modes m
  headers ← parse_headers (unwrap_or (m.get_many "header") []) (m.get_one "oauth2-bearer")
  oauth ← oauth_config m
  ok (record {
    endpoint = m.get_one "endpoint";
    server = m.get_one "server";
    stdio_cmd = m.get_one "stdio-cmd";
    stdio_args = unwrap_or (m.get_many "stdio-arg") [];
    stdio_env = parse_env_values (unwrap_or (m.get_many "stdio-env") []);
    stdio_wrapper = m.get_one "stdio-wrapper";
    save_wrapper_dir = m.get_one "save-wrapper";
    protocol = m.get_protocol "protocol";
    headers = headers;
    registry_path = m.get_one "registry";
    save_profile_dir = m.get_one "save-profile";
    profile_name = m.get_one "profile-name";
    log_level = unwrap_or (m.get_log_level "log-level") info;
    protocol_version = unwrap_or (m.get_one "protocol-version") "2024-11-05";
    oauth = oauth;
    retry_attempts = unwrap_or (m.get_number "retry-attempts") 2;
    retry_base_delay_ms = unwrap_or (m.get_number "retry-base-delay-ms") 250;
    retry_max_delay_ms = unwrap_or (m.get_number "retry-max-delay-ms") 2000;
    circuit_failure_threshold = unwrap_or (m.get_number "circuit-failure-threshold") 3;
    circuit_cooldown_ms = unwrap_or (m.get_number "circuit-cooldown-ms") 5000;
  })
