-- ===== src/StreamableHttp/Message.antt =====
-- The JSON-RPC messages that the gateways recognise and build.
use mcpway.Base.{String, Bool, true, false, Option, none, some, ◌==◌, and_then}
use mcpway.Json.{Value, bool, str, obj, field, end, get, as_str}

-- `msg.get("method").and_then(as_str).map(|m| m == "initialize").unwrap_or(false)`
is_initialize : Option String → Bool
is_initialize none = false
is_initialize (some m) = m == "initialize"

unfoldable pub is_initialize_request : Value → Bool
unfolding is_initialize get
is_initialize_request msg = is_initialize (and_then (get "method" msg) as_str)

-- The fields in key order; `version` is what `get_version` reads.
unfoldable pub create_initialize_request : String → String → String → Value
create_initialize_request version id protocol_version = obj (
    field "id" (str id) (
      field "jsonrpc" (str "2.0") (
        field "method" (str "initialize") (
          field "params"
            (obj (
              field "capabilities"
                (obj (
                  field "roots" (obj (field "listChanged" (bool true) end))
                    (field "sampling" (obj end) end)))
                (field "clientInfo"
                  (obj (field "name" (str "mcpway") (field "version" (str version) end)))
                  (field "protocolVersion" (str protocol_version) end))))
            end))))

unfoldable pub create_initialized_notification : Value
create_initialized_notification =
    obj (field "jsonrpc" (str "2.0") (field "method" (str "notifications/initialized") end))
