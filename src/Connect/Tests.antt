-- ===== src/Connect/Tests.antt =====
-- rust/src/connect.rs: the theorems on a saved wrapper, an endpoint and a login.
use mcpway.Base.{
  String, ◌≡◌, refl, ◌⊎◌, if◌then◌else◌, ◌==◌, true, false, none, some, [], ◌∷◌, or_else,
}
use mcpway.Base.Text.{
  trim, trim_matches, trim_start_matches, trim_end_matches, strip_prefix, strip_last,
  to_ascii_lowercase, char_lowercase,
}
use mcpway.Base.Result.{Result, ok, err, map_ok}
use mcpway.Discovery.Search.Registry.{ConnectProtocol, ResolvedImportedServer}
use mcpway.Config.{
  ArgMatches, info, device, parse_headers, add_headers, add_bearer, parse_env_values, add_envs,
}
use mcpway.Base.Dict.{last_entry}
use mcpway.Config.Tests.{no_matches}
use mcpway.Config.Connect.{
  ConnectConfig, ConnectOauthConfig, parse_connect_config_from, check_modes, oauth_config,
}
use mcpway.Connect.{
  Outside, LaunchSpec, remote, run, remote_headers, has_authorization_header, same_letters,
  infer_protocol, launch_of, template_env, texts_of, items_of, fields_of, wrapper_value, normalized,
  resolve_env_template_value, resolve_connect_stdio_command, is_json,
}
use mcpway.Connect.Names.{join_all, has_two, join_dashes, is_dash, kept, sanitize_wrapper_name}
use mcpway.Connect.Modes.{run-modes, remote_headers-authorized}
use mcpway.Connect.Wrapper.{resolve_connect_stdio_command-saved, resolved}
use mcpway.Base.Dict.{Dict, lookup, insert, insert_all}
use mcpway.Json.{get, get_field, insert_field}

abbrev spec : LaunchSpec
spec = record {
  name = "demo";
  command = "npx";
  args = "server" ∷ [];
  env = ("HOME", "${HOME}") ∷ ("MODE", "x") ∷ [];
}

-- One file, with the wrapper of `spec`; what is read is always it.
abbrev pub outside : Outside
outside = record {
  parse_url = λ endpoint. ok (record { scheme = "https"; path_segments = some ("mcp" ∷ []) });
  split = λ cmd. ok (cmd ∷ []);
  env_var = λ name. some "here";
  extension = λ path. some "JSON";
  file_stem = λ path. some "demo-stdio-wrapper";
  read_to_string = λ path. ok "wrapper";
  read_json = λ text. ok (wrapper_value spec);
  write_json = λ v. "wrapper";
}

abbrev connect_config : ConnectConfig
connect_config = record {
  endpoint = none;
  server = none;
  stdio_cmd = none;
  stdio_args = "--verbose" ∷ [];
  stdio_env = ("MODE", "y") ∷ [];
  stdio_wrapper = some "demo.json";
  save_wrapper_dir = none;
  protocol = none;
  headers = [];
  registry_path = none;
  save_profile_dir = none;
  profile_name = none;
  log_level = info;
  protocol_version = "2024-11-05";
  oauth = none;
  retry_attempts = 2;
  retry_base_delay_ms = 250;
  retry_max_delay_ms = 2000;
  circuit_failure_threshold = 3;
  circuit_cooldown_ms = 5000;
}

launch_of-spec :
    launch_of outside "demo.json" connect_config (wrapper_value spec)
    ≡ ok (record {
      name = "demo-stdio-wrapper";
      command = "npx";
      args = "server" ∷ "--verbose" ∷ [];
      env = ("HOME", "here") ∷ ("MODE", "y") ∷ [];
    })
unfolding launch_of wrapper_value normalized get get_field texts_of items_of template_env fields_of
    insert insert_field insert_all resolve_env_template_value trim strip_prefix strip_last
launch_of-spec = refl

infer_protocol-outside :
    infer_protocol outside "https://example.com/mcp" ≡ ok ConnectProtocol.streamable_http
unfolding infer_protocol same_letters to_ascii_lowercase
infer_protocol-outside = refl

abbrev endpoint_options : Dict String
endpoint_options = ("endpoint", "https://example.com/mcp") ∷ []

abbrev endpoint_matches : ArgMatches
unfolding lookup
endpoint_matches = record no_matches { get_one = λ k. lookup k endpoint_options }

abbrev endpoint_config : ConnectConfig
endpoint_config = record connect_config {
  endpoint = some "https://example.com/mcp";
  stdio_args = [];
  stdio_env = [];
  stdio_wrapper = none;
}

parse_connect_config_from-endpoint :
    parse_connect_config_from (some endpoint_matches) ≡ ok endpoint_config
unfolding parse_connect_config_from endpoint_matches lookup check_modes oauth_config parse_headers
    add_headers add_bearer parse_env_values add_envs
parse_connect_config_from-endpoint = refl

abbrev no_server : String → Result String ResolvedImportedServer
no_server name = err "no registry"

run-modes_example :
    run outside no_server endpoint_config
    ≡ map_ok
        (remote endpoint_config "https://example.com/mcp")
        (infer_protocol outside "https://example.com/mcp")
unfolding endpoint_matches lookup
run-modes_example =
    (run-modes outside no_server endpoint_matches endpoint_config parse_connect_config_from-endpoint
        refl).3
      "https://example.com/mcp" refl

abbrev login : ConnectOauthConfig
login = record {
  profile = none;
  issuer = "https://issuer";
  client_id = "cli";
  scopes = [];
  flow = device;
  no_browser = false;
  cache_path = none;
  login = true;
  logout = false;
  audience = none;
}

abbrev sent : Dict String
sent = ("Authorization", "Bearer t") ∷ ("X", "1") ∷ []

remote_headers-authorized_example :
    ((login.login ≡ true) ⊎ (has_authorization_header (("X", "1") ∷ []) ≡ false)
      → (k : String)
      → lookup k sent
        ≡ (if "Authorization" == k then some "Bearer t" else lookup k (("X", "1") ∷ [])))
    × (login.login ≡ false
        → has_authorization_header (("X", "1") ∷ []) ≡ true
        → sent ≡ ("X", "1") ∷ [])
    × (has_authorization_header sent ≡ true)
unfolding remote_headers insert
remote_headers-authorized_example = remote_headers-authorized login "t" (("X", "1") ∷ []) sent refl

sanitize_wrapper_name-mixed : sanitize_wrapper_name "--My  Server! " ≡ "my-server"
unfolding sanitize_wrapper_name kept char_lowercase join_all has_two join_dashes is_dash
    trim_matches trim_start_matches trim_end_matches
sanitize_wrapper_name-mixed = refl

resolve_connect_stdio_command-saved_example :
    (env : Dict String) × (resolve_connect_stdio_command outside connect_config
      ≡ ok (record {
        name = "demo-stdio-wrapper";
        command = "npx";
        args = "server" ∷ "--verbose" ∷ [];
        env = env;
      }))
    × ((k : String)
        → lookup k env
          ≡ or_else (last_entry k connect_config.stdio_env) (resolved outside (lookup k spec.env)))
unfolding is_json same_letters to_ascii_lowercase
resolve_connect_stdio_command-saved_example =
    resolve_connect_stdio_command-saved outside "demo.json" connect_config spec refl refl refl refl
      refl
