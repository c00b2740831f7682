-- ===== src/Connect.antt =====
-- rust/src/connect.rs: what `connect` does with its configuration. The parts of an endpoint's URL and
-- of a path, the split of a command line, the environment and the files are parameters.
pub mod Names
pub mod Modes
pub mod Wrapper
pub mod Tests
use mcpway.Base.{
  ℕ, zero, suc, ◌+◌, ◌-◌, ◌*◌, ◌≤◌, ◌<◌, String, Char, code, ◌≡◌, refl, sym, ap, subst, ◌∙◌, ◌≢◌,
  ◌⊎◌, inl, inr, Bool, true, false, not, ◌&&◌, ◌||◌, Option, none, some, List, [], ◌∷◌,
  ◌++◌ as append, map, arith, eq_iff, ltb, leb, eqb, ◌==◌, if◌then◌else◌, Bool-cases, Option-cases,
  is_some, or_else, unwrap_or, and_then, keep_if, eq-false_of_ne, length, any, select,
}
use mcpway.Base.Text.{◌++◌, is_empty, trim, strip_prefix, strip_last, to_ascii_lowercase}
use mcpway.Base.Dict.{keys}
use mcpway.Base.Result.{Result, ok, err, ok_or, map_ok, ◌>>=◌}
use mcpway.Discovery.Search.Registry.{ConnectProtocol, ResolvedImportedServer, local}
use mcpway.Config.{OutputTransport, disabled}
use mcpway.Config.Run.{Config}
use mcpway.Config.Connect.{ConnectConfig, ConnectOauthConfig}
use mcpway.Base.Int.{ℤ, pos, negsuc, fits_i64}
use mcpway.Base.Dict.{
  Dict, lookup, insert, remove, contains, insert_all, lookup-insert, lookup-remove,
}
use mcpway.Json.{
  Value, Fields, Items, null, bool, int, float, str, arr, obj, end, field, no_items, item, get,
  get_field, insert_field, as_str, as_object, as_array, as_i64, elems,
}

pub record Url : Type 0 where
  pub scheme : String
  pub path_segments : Option (List String)

-- Code of other crates and of the system. `split` is `shell_words::split`; a file is read as text.
pub record Outside : Type 0 where
  pub parse_url : String → Result String Url
  pub split : String → Result String (List String)
  pub env_var : String → Option String
  pub extension : String → Option String
  pub file_stem : String → Option String
  pub read_to_string : String → Result String String
  pub read_json : String → Result String Value
  pub write_json : Value → String

-- `eq_ignore_ascii_case`
unfoldable pub same_letters : String → String → Bool
unfolding to_ascii_lowercase
same_letters s t = to_ascii_lowercase s == to_ascii_lowercase t

unfoldable pub has_authorization_header : Dict String → Bool
unfolding same_letters
has_authorization_header headers = any (λ key. same_letters key "authorization") (keys headers)

unfoldable pub infer_protocol : Outside → String → Result String ConnectProtocol
unfolding same_letters
infer_protocol o endpoint = elim (o.parse_url endpoint) [
  | err e ↦ err ("Invalid endpoint URL: " ++ e)
  | ok url ↦ go url
]
  where
    go : Url → Result String ConnectProtocol
    go url =
        if url.scheme == "ws" || url.scheme == "wss"
        then ok ConnectProtocol.ws
        else if url.scheme == "grpc" || url.scheme == "grpcs"
        then ok ConnectProtocol.grpc
        else if url.scheme == "http" || url.scheme == "https"
        then if any (λ segment. same_letters segment "sse") (unwrap_or url.path_segments [])
          then ok ConnectProtocol.sse
          else ok ConnectProtocol.streamable_http
        else err (
            "Unsupported endpoint scheme '" ++ url.scheme
            ++ "'. Use ws://, wss://, http://, https://, grpc://, or grpcs://")

-- `CommandSpec`
pub record CommandSpec : Type 0 where
  pub program : String
  pub args : List String

unfoldable pub parse_command_spec : Outside → String → Result String CommandSpec
parse_command_spec o cmd = elim (o.split cmd) [
  | err e ↦ err e
  | ok [] ↦ err "stdio command is empty"
  | ok (program ∷ args) ↦ ok (record { program = program; args = args })
]

-- `StdioLaunchSpec`
pub record LaunchSpec : Type 0 where
  pub name : String
  pub command : String
  pub args : List String
  pub env : Dict String

-- `${NAME}` is the variable's value, if it has one; any other text is itself.
unfoldable pub resolve_env_template_value : Outside → String → String
unfolding trim strip_prefix strip_last
resolve_env_template_value o value =
    elim (and_then (strip_prefix "${" (trim value)) (strip_last b'}')) [
      | none ↦ value
      | some key ↦ if is_empty key then value else unwrap_or (o.env_var key) value
    ]

-- The texts of an array; what is no text is passed over.
unfoldable pub texts_of : Items → List String
texts_of no_items = []
texts_of (item (str s) more) = s ∷ texts_of more
texts_of (item v more) = texts_of more

-- The entries of `env_template`, resolved; what is no text is empty.
unfoldable pub template_env : Outside → Fields → Dict String
unfolding insert resolve_env_template_value
template_env o end = []
template_env o (field key raw more) =
    insert key (elim (as_str raw) [ none ↦ "" | some s ↦ resolve_env_template_value o s ])
      (template_env o more)

-- `Value::pointer` at `/normalized/…`
unfoldable pub normalized : String → Value → Option Value
unfolding get
normalized key value = and_then (get "normalized" value) (get key)

abbrev pub stem_of : Outside → String → String
stem_of o path = unwrap_or (o.file_stem path) "wrapper-stdio"

-- The launch that a wrapper's value describes.
unfoldable pub launch_of : Outside → String → ConnectConfig → Value → Result String LaunchSpec
unfolding normalized texts_of template_env insert_all
launch_of o path config value = elim (and_then (normalized "command" value) as_str) [
  | none ↦ err ("Wrapper " ++ path ++ " missing command field (expected normalized.command)")
  | some command ↦ ok (record {
    name = stem_of o path;
    command = command;
    args =
        append (texts_of (unwrap_or (and_then (normalized "args" value) as_array) no_items))
          config.stdio_args;
    env =
        insert_all
          (template_env o (unwrap_or (and_then (normalized "env_template" value) as_object) end))
          config.stdio_env;
  })
]

abbrev pub map_err : {A : Type 0} → (String → String) → Result String A → Result String A
map_err f (ok a) = ok a
map_err f (err e) = err (f e)

unfoldable pub resolve_from_wrapper_json :
    Outside → String → ConnectConfig → Result String LaunchSpec
unfolding launch_of
resolve_from_wrapper_json o path config = do
  body ← map_err (λ e. "Failed to read wrapper " ++ path ++ ": " ++ e) (o.read_to_string path)
  value ← map_err (λ e. "Invalid wrapper JSON at " ++ path ++ ": " ++ e) (o.read_json body)
  launch_of o path config value

unfoldable pub is_json : Outside → String → Bool
unfolding same_letters
is_json o path = elim (o.extension path) [ none ↦ false | some ext ↦ same_letters ext "json" ]

unfoldable pub resolve_wrapper : Outside → ConnectConfig → Option String → Result String LaunchSpec
unfolding resolve_from_wrapper_json is_json
resolve_wrapper o config none = err "Missing stdio mode source"
resolve_wrapper o config (some path) =
    if is_json o path
    then resolve_from_wrapper_json o path config
    else ok (record {
      name = stem_of o path;
      command = path;
      args = config.stdio_args;
      env = config.stdio_env;
    })

unfoldable pub resolve_command : Outside → ConnectConfig → String → Result String LaunchSpec
unfolding parse_command_spec
resolve_command o config cmd = do
  spec ← parse_command_spec o cmd
  ok (record {
    name = "ad-hoc-stdio";
    command = spec.program;
    args = append spec.args config.stdio_args;
    env = config.stdio_env;
  })

unfoldable pub resolve_connect_stdio_command : Outside → ConnectConfig → Result String LaunchSpec
unfolding resolve_wrapper resolve_command
resolve_connect_stdio_command o config = elim config.stdio_cmd [
  | some cmd ↦ resolve_command o config cmd
  | none ↦ resolve_wrapper o config config.stdio_wrapper
]

-- What `run` goes on to do: forget the tokens, start a command (written as a wrapper first
-- if there is a directory for it), or connect to an endpoint.
pub data Action : Type 0 where
  logout : ConnectOauthConfig → Action
  start : Option String → LaunchSpec → Action
  remote : ConnectConfig → String → ConnectProtocol → Action

-- `profile_name` is set to the server's name where a profile is saved and has no name.
abbrev pub effective : ConnectConfig → String → String → Dict String → ConnectConfig
unfolding insert_all
effective config name endpoint headers = record config {
  endpoint = some endpoint;
  headers = insert_all headers config.headers;
  profile_name =
      if is_some config.save_profile_dir && not (is_some config.profile_name)
      then some name
      else config.profile_name;
}

unfoldable pub run_server_mode : ConnectConfig → ResolvedImportedServer → Result String Action
unfolding effective
run_server_mode config (ResolvedImportedServer.remote name endpoint protocol headers) =
    ok (
      remote (effective config name endpoint headers) endpoint (unwrap_or config.protocol protocol))
run_server_mode config (local name command args env) =
    if is_some config.protocol
    then err "--protocol is only supported for remote endpoints or remote imported servers"
    else if is_some config.save_profile_dir
    then err
        "--save-profile is not supported for imported stdio servers; use `import --save-profiles`"
    else ok (
        start config.save_wrapper_dir
          (record { name = name; command = command; args = args; env = env }))

unfoldable pub chosen_protocol :
    Outside → Option ConnectProtocol → String → Result String ConnectProtocol
unfolding infer_protocol
chosen_protocol o none endpoint = infer_protocol o endpoint
chosen_protocol o (some explicit) endpoint = ok explicit

unfoldable pub run_endpoint : Outside → ConnectConfig → Result String Action
unfolding chosen_protocol
run_endpoint o config = do
  endpoint ←
      ok_or config.endpoint
        "connect requires one mode: <ENDPOINT>, --server <NAME>, --stdio-cmd <CMD>, or --stdio-wrapper <PATH>"
  protocol ← chosen_protocol o config.protocol endpoint
  ok (remote config endpoint protocol)

abbrev pub asks_logout : Option ConnectOauthConfig → Option ConnectOauthConfig
asks_logout none = none
asks_logout (some oauth) = if oauth.logout then some oauth else none

-- By the server of the configuration, if it has one.
unfoldable pub run_target :
    Outside
    → (String → Result String ResolvedImportedServer)
    → ConnectConfig
    → Option String
    → Result String Action
unfolding run_server_mode run_endpoint
run_target o resolved config (some name) = resolved name >>= run_server_mode config
run_target o resolved config none = run_endpoint o config

-- `resolved` is `resolve_server` at the registry of the configuration.
unfoldable pub run :
    Outside → (String → Result String ResolvedImportedServer) → ConnectConfig → Result String Action
unfolding resolve_connect_stdio_command run_target
run o resolved config = elim (asks_logout config.oauth) [
  | some oauth ↦ ok (logout oauth)
  | none ↦
      if is_some config.stdio_cmd || is_some config.stdio_wrapper
      then map_ok (start config.save_wrapper_dir) (resolve_connect_stdio_command o config)
      else run_target o resolved config config.server
]

-- The headers of `run_remote_mode`: `token` is what `resolve_access_token` answers, asked for only if
-- OAuth is configured.
unfoldable pub remote_headers :
    Option ConnectOauthConfig → Result String String → Dict String → Result String (Dict String)
unfolding has_authorization_header insert
remote_headers none token headers = ok headers
remote_headers (some oauth) token headers = do
  text ← token
  ok (
      if oauth.login || not (has_authorization_header headers)
      then insert "Authorization" ("Bearer " ++ text) headers
      else headers)

unfoldable pub to_gateway_config : ConnectConfig → String → ConnectProtocol → Config
to_gateway_config config endpoint protocol = record {
  stdio = none;
  sse = elim protocol [ ConnectProtocol.sse ↦ some endpoint | _ ↦ none ];
  streamable_http = elim protocol [ ConnectProtocol.streamable_http ↦ some endpoint | _ ↦ none ];
  output_transport = OutputTransport.stdio;
  port = 8000;
  base_url = "";
  sse_path = "/sse";
  message_path = "/message";
  streamable_http_path = "/mcp";
  log_level = config.log_level;
  cors = disabled;
  health_endpoints = [];
  headers = config.headers;
  env = [];
  stateful = false;
  session_timeout = none;
  protocol_version = config.protocol_version;
  runtime_prompt = false;
  runtime_admin_port = none;
  runtime_admin_host = "127.0.0.1";
  runtime_admin_token = none;
  retry_attempts = config.retry_attempts;
  retry_base_delay_ms = config.retry_base_delay_ms;
  retry_max_delay_ms = config.retry_max_delay_ms;
  circuit_failure_threshold = config.circuit_failure_threshold;
  circuit_cooldown_ms = config.circuit_cooldown_ms;
}

unfoldable pub items_of : List String → Items
items_of [] = no_items
items_of (s ∷ more) = item (str s) (items_of more)

unfoldable pub fields_of : Dict String → Fields
unfolding insert_field
fields_of [] = end
fields_of ((k, s) ∷ more) = insert_field k (str s) (fields_of more)

-- What `save_stdio_wrapper` writes.
unfoldable pub wrapper_value : LaunchSpec → Value
unfolding items_of fields_of
wrapper_value spec = obj (
    field "name" (str spec.name) (
      field "normalized"
        (obj (
          field "args" (arr (items_of spec.args)) (
            field "command" (str spec.command)
              (field "env_template" (obj (fields_of spec.env)) end))))
        (field "schema_version" (str "1") end)))
