-- ===== src/ToolApi/Client.antt =====
-- client.rs: the state of a tool client and its operations. The state is behind one lock, which an
-- operation holds while it talks to the server; `sent` records what was sent, the latest first.
pub mod Catalog
pub mod Handshake
pub mod Refresh
use mcpway.Base.{
  ℕ, ◌+◌, ◌-◌, ◌^◌, String, Bool, true, false, Option, none, some, List, [], ◌∷◌, ◌⊎◌, inl, inr,
  is_some, ltb, if◌then◌else◌, and_then, keep_if, map, not, unwrap_or,
}
use mcpway.Base.Text.{◌++◌, trim, is_empty}
use mcpway.Base.Dict.{Dict, lookup, insert}
use mcpway.Json.{
  Value, Items, Fields, null, bool, str, arr, obj, no_items, item, end, field, get, get_field,
  as_object, as_array, as_str,
}
use mcpway.ToolApi.{ToolCallError, tool_not_found, invalid_arguments, protocol}
use mcpway.ToolApi.Schema.{apply_defaults, validate_required}

pub record ToolMetadata : Type 0 where
  pub name : String
  pub description : Option String
  pub input_schema : Value

-- What the client uses of its surroundings: the server's answer to a request and the error of a
-- notification, after what was sent before; how numbers and values print; the package's version.
pub record Outside : Type 0 where
  pub send_request : List Value → Value → Value ⊎ ToolCallError
  pub send_notification : List Value → Value → Option ToolCallError
  pub print_number : ℕ → String
  pub print_value : Value → String
  pub version : String

pub record ClientState : Type 0 where
  pub protocol_version : String
  pub request_seq : ℕ
  pub initialized : Bool
  pub tools : List ToolMetadata
  pub tools_by_name : Dict ToolMetadata
  pub sent : List Value

-- `ToolClient::from_parts`
unfoldable pub new_client : String → ClientState
new_client protocol_version = record {
  protocol_version = protocol_version;
  request_seq = 0;
  initialized = false;
  tools = [];
  tools_by_name = [];
  sent = [];
}

-- `u64::MAX`
abbrev max_u64 : ℕ
max_u64 = 2 ^ 64 - 1

-- `next_request_id`: the number is the state's afterwards.
unfoldable pub next_request : ClientState → ClientState
next_request s =
    if ltb s.request_seq max_u64 then record s { request_seq = s.request_seq + 1 } else s

abbrev pub request_id : Outside → ClientState → String
request_id outside s = "tool-api-" ++ outside.print_number s.request_seq

-- A request's fields, in key order.
unfoldable pub request_message : String → String → Value → Value
request_message id method params = obj (
    field "id" (str id)
      (field "jsonrpc" (str "2.0") (field "method" (str method) (field "params" params end))))

abbrev pub initialize_params : Outside → ClientState → Value
initialize_params outside s = obj (
    field "capabilities"
      (obj (
        field "roots" (obj (field "listChanged" (bool true) end)) (field "sampling" (obj end) end)))
      (field "clientInfo"
        (obj (field "name" (str "mcpway-tool-api") (field "version" (str outside.version) end)))
        (field "protocolVersion" (str s.protocol_version) end)))

abbrev pub initialized_notification : Value
initialized_notification =
    obj (field "jsonrpc" (str "2.0") (field "method" (str "notifications/initialized") end))

abbrev pub logged : Value → ClientState → ClientState
logged message s = record s { sent = message ∷ s.sent }

unfoldable pub ensure_no_rpc_error : Outside → String → Value → Option ToolCallError
unfolding get
ensure_no_rpc_error outside method response = elim (get "error" response) [
  | none ↦ none
  | some error ↦
      some
        (protocol ("RPC method '" ++ method ++ "' returned error: " ++ outside.print_value error))
]

-- `send_request` with the check of the answer, as both callers do it.
unfoldable pub ask : Outside → String → Value → ClientState → ClientState × (Value ⊎ ToolCallError)
unfolding ensure_no_rpc_error
ask outside method message s = (
  logged message s,
  elim (outside.send_request s.sent message) [
    | inr error ↦ inr error
    | inl response ↦ elim (ensure_no_rpc_error outside method response) [
      | some error ↦ inr error
      | none ↦ inl response
    ]
  ],
)

-- The notification after the answer to `initialize`.
unfoldable pub announce : Outside → ClientState → ClientState × Option ToolCallError
announce outside s = elim (outside.send_notification s.sent initialized_notification) [
  | some error ↦ (logged initialized_notification s, some error)
  | none ↦ (record (logged initialized_notification s) { initialized = true }, none)
]

unfoldable pub handshake : Outside → ClientState → ClientState × Option ToolCallError
unfolding ask announce request_message
handshake outside s =
    let message =
      request_message (request_id outside s) "initialize" (initialize_params outside s) in
    let (asked, answer) = ask outside "initialize" message s in
    elim answer [ inr error ↦ (asked, some error) | inl response ↦ announce outside asked ]

unfoldable pub ensure_initialized : Outside → ClientState → ClientState × Option ToolCallError
unfolding handshake next_request
ensure_initialized outside s =
    if s.initialized then (s, none) else handshake outside (next_request s)

unfoldable pub send_jsonrpc_request :
    Outside → String → Value → ClientState → ClientState × (Value ⊎ ToolCallError)
unfolding ask next_request request_message
send_jsonrpc_request outside method params s =
    let next = next_request s in
    ask outside method (request_message (request_id outside next) method params) next

unfoldable pub resolve_tool : String → ClientState → ToolMetadata ⊎ ToolCallError
resolve_tool name s = elim (lookup name s.tools_by_name) [
  | some tool ↦ inl tool
  | none ↦ inr (tool_not_found name)
]

unfoldable pub index_tools : Dict ToolMetadata → List ToolMetadata → Dict ToolMetadata
index_tools d [] = d
index_tools d (tool ∷ tools) = index_tools (insert tool.name tool d) tools

unfoldable pub replace_tools : List ToolMetadata → ClientState → ClientState
unfolding index_tools
replace_tools tools s = record s { tools = tools; tools_by_name = index_tools [] tools }

-- The name of a listed tool: a text that is not blank, trimmed.
unfoldable pub tool_name : Fields → Option String
tool_name fs =
    keep_if (elim (and_then (get_field "name" fs) as_str) [ none ↦ none | some s ↦ some (trim s) ])
      (λ s. not (is_empty s))

unfoldable pub parse_tool : Value → ToolMetadata ⊎ ToolCallError
unfolding tool_name
parse_tool tool = elim (as_object tool) [
  | none ↦ inr (protocol "tools/list item was not an object")
  | some fs ↦ elim (tool_name fs) [
    | none ↦ inr (protocol "tool entry missing non-empty name")
    | some name ↦ inl (record {
      name = name;
      description = and_then (get_field "description" fs) as_str;
      input_schema = unwrap_or (get_field "inputSchema" fs) (obj (field "type" (str "object") end));
    })
  ]
]

unfoldable pub parse_tools : Items → List ToolMetadata ⊎ ToolCallError
unfolding parse_tool
parse_tools no_items = inl []
parse_tools (item v vs) =
    let rest = parse_tools vs in
    elim (parse_tool v) [
      | inr error ↦ inr error
      | inl tool ↦ elim rest [ inr error ↦ inr error | inl tools ↦ inl (tool ∷ tools) ]
    ]

unfoldable pub parse_tools_list_response : Value → List ToolMetadata ⊎ ToolCallError
unfolding parse_tools get
parse_tools_list_response response = elim (get "result" response) [
  | none ↦ inr (protocol "tools/list response missing result")
  | some result ↦ elim (and_then (get "tools" result) as_array) [
    | none ↦ inr (protocol "tools/list result missing tools array")
    | some tools ↦ parse_tools tools
  ]
]

unfoldable pub normalize_args_for_tool : ToolMetadata → Value → Value ⊎ ToolCallError
normalize_args_for_tool tool args = elim (as_object args) [
  | none ↦ inr (invalid_arguments ("Tool '" ++ tool.name ++ "' expects JSON object arguments"))
  | some fs ↦
      elim (validate_required tool.name tool.input_schema (apply_defaults tool.input_schema args)) [
        | some error ↦ inr error
        | none ↦ inl (apply_defaults tool.input_schema args)
      ]
]
