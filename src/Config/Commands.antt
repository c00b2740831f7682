-- ===== src/Config/Commands.antt =====
-- rust/src/config.rs: the configurations of the other commands, and the choice of the command by
-- the first argument. A path is its text.
use mcpway.Base.{
  ℕ, String, Bool, false, not, Option, none, some, List, ◌∷◌, ◌==◌, if◌then◌else◌, or_else,
  unwrap_or,
}
use mcpway.Base.Result.{Result, ok, err, ◌>>=◌, map_ok}
use mcpway.Discovery.{DiscoveredTransport, DiscoveryScope}
use mcpway.Logs.{LogsTailConfig}
use mcpway.Config.{
  ArgMatches, ConfigError, invalid_arg, LogLevel, info, ImportSource, auto, DiscoverSortBy, name,
  SortOrder, asc, non_blank, required_arg, parse_optional_bool,
}
use mcpway.Config.Run.{Config, parse_config_from}
use mcpway.Config.Connect.{ConnectConfig, parse_connect_config_from}

pub record GenerateConfig : Type 0 where
  pub definition : String
  pub server : Option String
  pub out : String
  pub artifact_name : Option String
  pub bundle_mcpway : Bool
  pub mcpway_binary : Option String
  pub compile_wrapper : Bool

pub record RegenerateConfig : Type 0 where
  pub metadata : String
  pub definition : Option String
  pub server : Option String
  pub out : Option String
  pub bundle_mcpway : Option Bool
  pub mcpway_binary : Option String
  pub compile_wrapper : Option Bool

pub record DiscoverConfig : Type 0 where
  pub from : ImportSource
  pub project_root : Option String
  pub print_json : Bool
  pub strict_conflicts : Bool
  pub search : Option String
  pub transport : Option DiscoveredTransport
  pub scope : Option DiscoveryScope
  pub enabled_only : Bool
  pub sort_by : DiscoverSortBy
  pub order : SortOrder
  pub offset : ℕ
  pub limit : Option ℕ

pub record ImportConfig : Type 0 where
  pub from : ImportSource
  pub project_root : Option String
  pub print_json : Bool
  pub strict_conflicts : Bool
  pub registry_path : Option String
  pub save_profiles_dir : Option String
  pub bundle_mcpway : Bool
  pub compile_wrapper : Bool

pub record WebConfig : Type 0 where
  pub host : String
  pub port : ℕ
  pub log_file : Option String
  pub admin_base_url : Option String
  pub admin_token : Option String
  pub auth_token : Option String
  pub theme_catalog_url : String
  pub theme_cache_ttl_seconds : ℕ
  pub theme_cache_file : Option String
  pub no_open_browser : Bool
  pub log_level : LogLevel

pub data CliCommand : Type 0 where
  run : Config → CliCommand
  generate : GenerateConfig → CliCommand
  regenerate : RegenerateConfig → CliCommand
  connect : ConnectConfig → CliCommand
  discover : DiscoverConfig → CliCommand
  import_ : ImportConfig → CliCommand
  logs : LogsTailConfig → CliCommand
  web : WebConfig → CliCommand

-- What `clap` makes of all arguments: `build_cli`, the subcommand of each other builder, and `tail`
-- below `logs`. On arguments that it refuses it ends the program.
pub record Clap : Type 0 where
  pub matches : List String → ArgMatches
  pub subcommand : String → List String → Option ArgMatches
  pub tail : List String → Option ArgMatches

unfoldable pub parse_generate_config_from : Option ArgMatches → Result ConfigError GenerateConfig
parse_generate_config_from none = err (invalid_arg "Failed to parse generate subcommand")
parse_generate_config_from (some sub) = do
  definition ← required_arg sub "definition"
  out ← required_arg sub "out"
  ok (record {
    definition = definition;
    server = sub.get_one "server";
    out = out;
    artifact_name = sub.get_one "artifact-name";
    bundle_mcpway = not (sub.get_flag "no-bundle-mcpway");
    mcpway_binary = sub.get_one "mcpway-binary";
    compile_wrapper = not (sub.get_flag "no-compile-wrapper");
  })

unfoldable pub parse_regenerate_config_from :
    Option ArgMatches → Result ConfigError RegenerateConfig
parse_regenerate_config_from none = err (invalid_arg "Failed to parse regenerate subcommand")
parse_regenerate_config_from (some sub) = do
  metadata ← required_arg sub "metadata"
  ok (record {
    metadata = metadata;
    definition = sub.get_one "definition";
    server = sub.get_one "server";
    out = sub.get_one "out";
    bundle_mcpway = parse_optional_bool sub "bundle-mcpway" "no-bundle-mcpway";
    mcpway_binary = sub.get_one "mcpway-binary";
    compile_wrapper = parse_optional_bool sub "compile-wrapper" "no-compile-wrapper";
  })

unfoldable pub parse_discover_config_from : Option ArgMatches → Result ConfigError DiscoverConfig
parse_discover_config_from none = err (invalid_arg "Failed to parse discover subcommand")
parse_discover_config_from (some sub) = ok (record {
  from = unwrap_or (sub.get_import_source "from") auto;
  project_root = sub.get_one "project-root";
  print_json = sub.get_flag "print-json";
  strict_conflicts = sub.get_flag "strict-conflicts";
  search = sub.get_one "search";
  transport = sub.get_transport "transport";
  scope = sub.get_scope "scope";
  enabled_only = sub.get_flag "enabled-only";
  sort_by = unwrap_or (sub.get_sort_by "sort") name;
  order = unwrap_or (sub.get_order "order") asc;
  offset = unwrap_or (sub.get_number "offset") 0;
  limit = sub.get_number "limit";
})

unfoldable pub parse_import_config_from : Option ArgMatches → Result ConfigError ImportConfig
parse_import_config_from none = err (invalid_arg "Failed to parse import subcommand")
parse_import_config_from (some sub) = ok (record {
  from = unwrap_or (sub.get_import_source "from") auto;
  project_root = sub.get_one "project-root";
  print_json = sub.get_flag "print-json";
  strict_conflicts = sub.get_flag "strict-conflicts";
  registry_path = sub.get_one "registry";
  save_profiles_dir = sub.get_one "save-profiles";
  bundle_mcpway = sub.get_flag "bundle-mcpway";
  compile_wrapper = sub.get_flag "compile-wrapper";
})

unfoldable pub parse_logs_config_from :
    Option ArgMatches → Option ArgMatches → Result ConfigError LogsTailConfig
parse_logs_config_from none tail = err (invalid_arg "Failed to parse logs command")
parse_logs_config_from (some sub) none =
    err (invalid_arg "logs currently supports only the 'tail' subcommand")
parse_logs_config_from (some sub) (some tail) = ok (record {
  file = tail.get_one "file";
  follow = not (tail.get_flag "no-follow");
  lines = unwrap_or (tail.get_number "lines") 200;
  level = tail.get_logs_level "level";
  transport = tail.get_logs_transport "transport";
  json = tail.get_flag "json";
})

unfoldable pub parse_web_config_from :
    (String → Option String) → Option ArgMatches → Result ConfigError WebConfig
parse_web_config_from env_var none = err (invalid_arg "Failed to parse web command")
parse_web_config_from env_var (some sub) = ok (record {
  host = unwrap_or (sub.get_one "host") "127.0.0.1";
  port = unwrap_or (sub.get_number "port") 5173;
  log_file = sub.get_one "log-file";
  admin_base_url = sub.get_one "admin-base-url";
  admin_token =
      non_blank (or_else (sub.get_one "admin-token") (env_var "MCPWAY_RUNTIME_ADMIN_TOKEN"));
  auth_token = non_blank (or_else (sub.get_one "auth-token") (env_var "MCPWAY_WEB_AUTH_TOKEN"));
  theme_catalog_url =
      unwrap_or (sub.get_one "theme-catalog-url")
        "https://api.github.com/repos/mbadolato/iTerm2-Color-Schemes/contents/schemes";
  theme_cache_ttl_seconds = unwrap_or (sub.get_number "theme-cache-ttl-seconds") 86400;
  theme_cache_file = sub.get_one "theme-cache-file";
  no_open_browser = sub.get_flag "no-open-browser";
  log_level = unwrap_or (sub.get_log_level "log-level") info;
})

abbrev pub named : Option String → String → Bool
named none word = false
named (some first) word = first == word

-- The choice of `parse_cli_command_from` at the first argument after the program's name.
unfoldable pub command_named :
    Clap → (String → Option String) → List String → Option String → Result ConfigError CliCommand
unfolding parse_generate_config_from parse_regenerate_config_from parse_connect_config_from
    parse_discover_config_from parse_import_config_from parse_logs_config_from parse_web_config_from
    parse_config_from
command_named clap env_var raw_args first =
    let sub = λ (word : String). clap.subcommand word raw_args in
    if named first "generate"
    then map_ok generate (parse_generate_config_from (sub "generate"))
    else if named first "regenerate"
    then map_ok regenerate (parse_regenerate_config_from (sub "regenerate"))
    else if named first "connect"
    then map_ok connect (parse_connect_config_from (sub "connect"))
    else if named first "discover"
    then map_ok discover (parse_discover_config_from (sub "discover"))
    else if named first "import"
    then map_ok import_ (parse_import_config_from (sub "import"))
    else if named first "logs"
    then map_ok logs (parse_logs_config_from (sub "logs") (clap.tail raw_args))
    else if named first "web"
    then map_ok web (parse_web_config_from env_var (sub "web"))
    else map_ok run (parse_config_from (clap.matches raw_args) env_var raw_args)

unfoldable pub parse_cli_command_from :
    Clap → (String → Option String) → List String → Result ConfigError CliCommand
unfolding command_named
parse_cli_command_from clap env_var (program ∷ first ∷ rest) =
    command_named clap env_var (program ∷ first ∷ rest) (some first)
parse_cli_command_from clap env_var raw_args = command_named clap env_var raw_args none
