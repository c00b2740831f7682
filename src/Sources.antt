-- ===== src/Sources.antt =====
-- rust/src/discovery/sources: what the configuration files of other tools say about servers. Claude,
-- Cursor, Windsurf, VS Code and Nodecode have the same loop over the fields of an object, with their
-- own place of the object, messages and treatment of `enabled`; these are a `Format`. That a file is
-- there and what it holds is an input, and how a URL is parsed is a parameter.
pub mod Comments
pub mod Collected
pub mod Formats
mod Tests
use mcpway.Base.{
  ℕ, zero, suc, ◌+◌, ◌-◌, ◌*◌, ◌≤◌, ◌<◌, String, Char, code, ◌≡◌, refl, sym, ap, subst, ◌∙◌, ◌≢◌,
  ◌⊎◌, inl, inr, Bool, true, false, not, ◌&&◌, ◌||◌, Option, none, some, List, [], ◌∷◌,
  ◌++◌ as append, arith, eq_iff, ltb, leb, eqb, ◌==◌, if◌then◌else◌, Bool-cases, Option-cases,
  is_some, or_else, unwrap_or, and_then, keep_if, eq-false_of_ne, length, any, select,
}
use mcpway.Base.Text.{◌++◌, is_empty, trim, contains, to_ascii_lowercase}
use mcpway.Base.Result.{Result, ok, err}
use mcpway.Discovery.{
  SourceKind, claude, cursor, windsurf, nodecode, vs_code, DiscoveryScope, DiscoveredTransport,
  stdio, sse, ws, streamable_http, DiscoveredServer, DiscoveryIssue,
}
use mcpway.Connect.{Url, same_letters, texts_of}
use mcpway.Base.Int.{ℤ, pos, negsuc, fits_i64}
use mcpway.Base.Dict.{Dict, lookup, insert, remove, insert_all, lookup-insert, lookup-remove}
use mcpway.Json.{
  Value, Fields, Items, null, bool, int, float, str, arr, obj, end, field, no_items, item, get,
  get_field, insert_field, as_str, as_object, as_array, as_i64, elems,
}

-- What one file adds: servers and issues, in their order.
pub record Found : Type 0 where
  pub servers : List DiscoveredServer
  pub issues : List DiscoveryIssue

pub record Format : Type 0 where
  pub source : SourceKind
  pub servers_of : Value → Option Fields
  pub missing : String
  -- The name of a server in messages.
  pub label : String → String
  pub skips_disabled : Bool
  pub raw_format : String

abbrev pub as_bool : Value → Option Bool
as_bool (bool b) = some b
as_bool _ = none

-- `Path`s are texts.
abbrev pub source_issue : SourceKind → String → String → DiscoveryIssue
source_issue source path message = record { source = source; origin_path = path; message = message }

unfoldable pub has_command : Option String → Bool
unfolding trim
has_command none = false
has_command (some command) = not (is_empty (trim command))

-- By the type that is written down, trimmed and in small letters.
unfoldable pub typed_transport : String → Option DiscoveredTransport
unfolding contains
typed_transport typ =
    if contains "ws" typ
    then some ws
    else if contains "sse" typ
    then some sse
    else if contains "http" typ || contains "streamable" typ
    then some streamable_http
    else none

unfoldable pub url_transport :
    (String → Result String Url) → Option String → Option DiscoveredTransport
unfolding same_letters
url_transport parse_url none = none
url_transport parse_url (some url) = elim (parse_url url) [
  | err e ↦ none
  | ok parsed ↦
      if parsed.scheme == "ws" || parsed.scheme == "wss"
      then some ws
      else if parsed.scheme == "http" || parsed.scheme == "https"
      then if any (λ segment. same_letters segment "sse") (unwrap_or parsed.path_segments [])
        then some sse
        else some streamable_http
      else none
]

-- `explicit_type.map(|v| v.trim().to_ascii_lowercase()).unwrap_or_default()`
abbrev pub type_text : Option String → String
unfolding trim to_ascii_lowercase
type_text none = ""
type_text (some typ) = to_ascii_lowercase (trim typ)

unfoldable pub infer_transport :
    (String → Result String Url)
    → Option String
    → Option String
    → Option String
    → Option DiscoveredTransport
unfolding has_command typed_transport url_transport type_text
infer_transport parse_url command url explicit_type =
    if has_command command
    then some stdio
    else or_else (typed_transport (type_text explicit_type)) (url_transport parse_url url)

-- The fields of an object that are texts.
unfoldable pub string_entries : Fields → Dict String → Dict String
unfolding insert
string_entries end out = out
string_entries (field key (str s) more) out = string_entries more (insert key s out)
string_entries (field key v more) out = string_entries more out

unfoldable pub json_string_map : Option Value → Dict String
unfolding string_entries
json_string_map value = string_entries (unwrap_or (and_then value as_object) end) []

unfoldable pub json_string_array : Option Value → List String
unfolding texts_of
json_string_array value = texts_of (unwrap_or (and_then value as_array) no_items)

abbrev pub text_field : String → Fields → Option String
unfolding get_field
text_field key server = and_then (get_field key server) as_str

abbrev pub is_disabled : Fields → Bool
unfolding get_field
is_disabled server = elim (and_then (get_field "enabled" server) as_bool) [
  | none ↦ false
  | some enabled ↦ not enabled
]

-- One server that is an object and not left out.
unfoldable pub server_entry :
    (String → Result String Url)
    → Format
    → String
    → DiscoveryScope
    → String
    → Fields
    → DiscoveredServer ⊎ DiscoveryIssue
unfolding infer_transport json_string_map json_string_array text_field
server_entry parse_url format path scope name server =
    let command = text_field "command" server in
    let url = text_field "url" server in
    elim (infer_transport parse_url command url (text_field "type" server)) [
      | none ↦ inr (
          source_issue format.source path
            (format.label name ++ " is missing transport fields (command/url/type)"))
      | some transport ↦ inl (record {
        name = name;
        source = format.source;
        scope = scope;
        origin_path = path;
        transport = transport;
        command = command;
        args = json_string_array (get_field "args" server);
        url = url;
        headers = json_string_map (get_field "headers" server);
        env = json_string_map (get_field "env" server);
        enabled = true;
        raw_format = format.raw_format;
      })
    ]

abbrev pub add : DiscoveredServer ⊎ DiscoveryIssue → Found → Found
add (inl server) found = record found { servers = append found.servers (server ∷ []) }
add (inr issue) found = record found { issues = append found.issues (issue ∷ []) }

-- One round of the loop.
unfoldable pub add_entry :
    (String → Result String Url) → Format → String → DiscoveryScope → String → Value → Found → Found
unfolding server_entry is_disabled
add_entry parse_url format path scope name value found = elim (as_object value) [
  | none ↦
      add (inr (source_issue format.source path (format.label name ++ " must be an object"))) found
  | some server ↦
      if format.skips_disabled && is_disabled server
      then found
      else add (server_entry parse_url format path scope name server) found
]

unfoldable pub add_entries :
    (String → Result String Url) → Format → String → DiscoveryScope → Fields → Found → Found
unfolding add_entry
add_entries parse_url format path scope end found = found
add_entries parse_url format path scope (field name value more) found =
    add_entries parse_url format path scope more
      (add_entry parse_url format path scope name value found)

-- `file` is `none` where there is no file, and what `load_json` makes of it otherwise.
unfoldable pub collect_from_path :
    (String → Result String Url)
    → Format
    → String
    → DiscoveryScope
    → Option (Result String Value)
    → Found
    → Found
unfolding add_entries
collect_from_path parse_url format path scope none found = found
collect_from_path parse_url format path scope (some (err e)) found =
    add (inr (source_issue format.source path e)) found
collect_from_path parse_url format path scope (some (ok root)) found =
    elim (format.servers_of root) [
      | none ↦ add (inr (source_issue format.source path format.missing)) found
      | some servers ↦ add_entries parse_url format path scope servers found
    ]

-- The file of the project and then those of the user: the `discover` of the five sources, with their
-- files given by path.
unfoldable pub discover_files :
    (String → Result String Url)
    → Format
    → List (String × DiscoveryScope × Option (Result String Value))
    → Found
    → Found
unfolding collect_from_path
discover_files parse_url format [] found = found
discover_files parse_url format ((path, scope, file) ∷ more) found =
    discover_files parse_url format more (collect_from_path parse_url format path scope file found)
