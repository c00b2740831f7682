-- ===== src/Sources/Tests.antt =====
-- rust/src/discovery/sources: a configuration of Claude with four entries, and a comment.
use mcpway.Base.{◌+◌, String, ◌≡◌, refl, true, false, none, some, [], ◌∷◌}
use mcpway.Base.Text.{
  trim, trim_matches, trim_start_matches, trim_end_matches, is_whitespace, to_ascii_lowercase,
  char_lowercase, contains, starts_with, strip_prefix,
}
use mcpway.Base.Result.{Result, ok, err}
use mcpway.Discovery.{claude, project, stdio, sse, DiscoveredServer}
use mcpway.Connect.{Url, texts_of}
use mcpway.Sources.{
  Found, source_issue, has_command, typed_transport, url_transport, type_text, infer_transport,
  is_disabled, add_entry, add_entries, server_entry, text_field, collect_from_path, json_string_map,
  string_entries, json_string_array,
}
use mcpway.Sources.Formats.{claude_format, object_at}
use mcpway.Sources.Collected.{count_found, count_skipped, skipped, count-add_entries}
use mcpway.Sources.Comments.{strip_jsonc_comments, strip_from}
use mcpway.Json.{Fields, null, bool, str, arr, obj, end, field, no_items, item, get, get_field}

abbrev no_url : String → Result String Url
no_url url = err "relative URL without a base"

abbrev entries : Fields
entries = field "broken" (str "x") (
    field "local"
      (obj (
        field "args" (arr (item (str "a") (item null no_items)))
          (field "command" (str "node") end)))
      (field "off" (obj (field "command" (str "node") (field "enabled" (bool false) end)))
        (field "remote" (obj (field "type" (str " SSE ") (field "url" (str "x") end))) end)))

abbrev nothing : Found
nothing = record { servers = []; issues = [] }

abbrev local_server : DiscoveredServer
local_server = record {
  name = "local";
  source = claude;
  scope = project;
  origin_path = ".mcp.json";
  transport = stdio;
  command = some "node";
  args = "a" ∷ [];
  url = none;
  headers = [];
  env = [];
  enabled = true;
  raw_format = "claude-mcp-json";
}

collect_from_path-entries :
    collect_from_path no_url claude_format ".mcp.json" project
      (some (ok (obj (field "mcpServers" (obj entries) end))))
      nothing
    ≡ (record {
      servers =
          local_server
          ∷ record local_server {
            name = "remote";
            transport = sse;
            command = none;
            args = [];
            url = some "x";
          }
          ∷ [];
      issues = source_issue claude ".mcp.json" "Server 'broken' must be an object" ∷ [];
    })
unfolding collect_from_path claude_format object_at get get_field add_entries add_entry is_disabled
    server_entry text_field infer_transport has_command typed_transport url_transport type_text trim
    trim_matches trim_start_matches trim_end_matches is_whitespace to_ascii_lowercase char_lowercase
    contains starts_with strip_prefix json_string_map string_entries json_string_array texts_of
collect_from_path-entries = refl

count-add_entries_example :
    count_found (add_entries no_url claude_format ".mcp.json" project entries nothing) + 1 ≡ 4
unfolding count_skipped skipped is_disabled get_field claude_format
count-add_entries_example =
    count-add_entries no_url claude_format ".mcp.json" project entries nothing

strip_jsonc_comments-comment :
    strip_jsonc_comments "{ // a \"b\"\n \"u\": \"x//y\" /* * / **/ }" ≡ "{ \n \"u\": \"x//y\"  }"
unfolding strip_jsonc_comments strip_from
strip_jsonc_comments-comment = refl
