-- ===== src/ToolApi.antt =====
-- rust/src/tool_api: calling the tools of a server by name. `Schema` is schema.rs, `Client` is
-- client.rs; `ToolCallError` is the type of error.rs.
pub mod Schema
pub mod Client
mod Tests
use mcpway.Base.{ℕ, String}

pub data ToolCallError : Type 0 where
  invalid_endpoint : String → ToolCallError
  invalid_arguments : String → ToolCallError
  -- The tool, the path and the key.
  missing_required : String → String → String → ToolCallError
  tool_not_found : String → ToolCallError
  authorization_required : ℕ → String → ToolCallError
  protocol : String → ToolCallError
  transport : String → ToolCallError
