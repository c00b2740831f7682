-- ===== src/Sources/Formats.antt =====
-- rust/src/discovery/sources: the `Format` of each of claude.rs, cursor.rs, windsurf.rs, vscode.rs and
-- nodecode.rs.
use mcpway.Discovery.{claude, cursor, windsurf, nodecode, vs_code}
use mcpway.Sources.{Format}
use mcpway.Base.Text.{◌++◌}
use mcpway.Base.{String, Option, true, false, and_then}
use mcpway.Json.{Value, Fields, get, get_field, as_object}

abbrev pub server_label : String → String
server_label name = "Server '" ++ name ++ "'"

unfoldable pub object_at : String → Value → Option Fields
unfolding get
object_at key root = and_then (get key root) as_object

unfoldable pub claude_format : Format
unfolding object_at
claude_format = record {
  source = claude;
  servers_of = object_at "mcpServers";
  missing = "Missing or invalid 'mcpServers' object";
  label = server_label;
  skips_disabled = true;
  raw_format = "claude-mcp-json";
}

abbrev pub cursor_format : Format
unfolding claude_format
cursor_format = record claude_format { source = cursor; raw_format = "cursor-mcp-json" }

abbrev pub windsurf_format : Format
unfolding claude_format
windsurf_format = record claude_format {
  source = windsurf;
  skips_disabled = false;
  raw_format = "windsurf-mcp-config";
}

abbrev pub vscode_format : Format
unfolding object_at
vscode_format = record {
  source = vs_code;
  servers_of = object_at "servers";
  missing = "Missing or invalid 'servers' object";
  label = server_label;
  skips_disabled = false;
  raw_format = "vscode-mcp-json";
}

abbrev pub nodecode_format : Format
unfolding object_at get_field
nodecode_format = record {
  source = nodecode;
  servers_of = λ root. and_then (and_then (object_at "mcp" root) (get_field "servers")) as_object;
  missing = "Missing or invalid 'mcp.servers' object";
  label = λ name. "mcp.servers." ++ name;
  skips_disabled = true;
  raw_format = "nodecode-config-json";
}
