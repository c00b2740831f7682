-- ===== src/ToolApi/Tests.antt =====
-- The theorems on schemas and on the client at a tool with a default and a nested required key.
use mcpway.Base.{true, false, none, some, [], ◌∷◌, inl, inr, ◌≡◌, refl, arith, ◌++◌}
use mcpway.Json.{
  Value, Fields, str, arr, obj, no_items, item, end, field, get, get_field, insert_field,
}
use mcpway.ToolApi.{missing_required, transport}
use mcpway.ToolApi.Schema.{
  apply_defaults_object, first_missing, validate_required_object, apply_defaults, validate_required,
  is_object_schema,
}
use mcpway.ToolApi.Schema.Defaults.{value_at, apply_defaults-keeps}
use mcpway.ToolApi.Schema.Required.{Lacks, validate_required-exact}
use mcpway.ToolApi.Client.{
  initialize_params, request_message, send_jsonrpc_request, ensure_no_rpc_error, announce, ask,
  handshake, ensure_initialized, Outside, ClientState, ToolMetadata, new_client,
  parse_tools_list_response, normalize_args_for_tool, initialized_notification,
}
use mcpway.ToolApi.Client.Catalog.{take_listed, refresh_tools, call_tool}
use mcpway.ToolApi.Client.Handshake.{
  has_method, operate, refreshes, operate_all, announced, is_handshake, requests_follow_handshake,
}

abbrev units : Value
units = obj (field "default" (str "metric") end)

abbrev schema : Value
schema = obj (
    field "properties" (obj (field "units" units end)) (
      field "required" (arr (item (str "city") (item (str "units") no_items)))
        (field "type" (str "object") end)))

abbrev args : Fields
args = field "city" (str "Paris") end

city : value_at ("city" ∷ []) (obj args) ≡ some (str "Paris")
unfolding value_at get get_field
city = refl

schema-object : is_object_schema schema ≡ true
unfolding is_object_schema get_field
schema-object = refl

apply_defaults-keeps_example :
    value_at ("city" ∷ []) (apply_defaults schema (obj args)) ≡ some (str "Paris")
apply_defaults-keeps_example =
    apply_defaults-keeps schema (obj args) (str "Paris") ("city" ∷ []) city refl

units_lacks :
    validate_required "weather" schema (obj args) ≡ some (missing_required "weather" "$" "units")
unfolding validate_required validate_required_object is_object_schema first_missing get_field
units_lacks = refl

validate_required-exact_example :
    Lacks "weather" schema args "$" (missing_required "weather" "$" "units")
validate_required-exact_example =
    (validate_required-exact "weather" schema args schema-object).1
      (missing_required "weather" "$" "units") units_lacks

abbrev tool : ToolMetadata
tool = record { name = "weather"; description = none; input_schema = schema }

abbrev prepared : Value
prepared = obj (field "city" (str "Paris") (field "units" (str "metric") end))

prepared_args : normalize_args_for_tool tool (obj args) ≡ inl prepared
unfolding normalize_args_for_tool validate_required validate_required_object is_object_schema
    first_missing get_field apply_defaults apply_defaults_object get insert_field
prepared_args = refl

-- A server that answers everything with an empty object.
abbrev outside : Outside
outside = record {
  send_request = λ before message. inl (obj end);
  send_notification = λ before message. none;
  print_number = λ n. "1";
  print_value = λ v. "";
  version = "0";
}

abbrev broken : Outside
broken = record outside { send_request = λ before message. inr (transport "closed") }

broken_refresh : (refresh_tools broken (new_client "2024-11-05")).1 ≡ some (transport "closed")
unfolding refresh_tools ensure_initialized handshake ask new_client
broken_refresh = refl

called : (call_tool outside tool (obj args) (new_client "2024-11-05")).1 ≡ inl (obj end)
unfolding call_tool ensure_initialized handshake ask announce new_client ensure_no_rpc_error get
    get_field send_jsonrpc_request
called = ground (arith, prepared_args)

abbrev after : ClientState
after = operate_all outside (refreshes ∷ []) (new_client "2024-11-05")

abbrev asked : Value
asked = request_message "tool-api-1" "tools/list" (obj end)

abbrev greeting : Value
greeting =
    request_message "tool-api-1" "initialize" (initialize_params outside (new_client "2024-11-05"))

all_sent : after.sent ≡ [] ++ (asked ∷ initialized_notification ∷ greeting ∷ [])
unfolding operate_all operate refresh_tools ensure_initialized handshake ask announce new_client
    ensure_no_rpc_error get get_field send_jsonrpc_request take_listed parse_tools_list_response
all_sent = refl

not_handshake : is_handshake asked ≡ false
unfolding has_method get get_field request_message
not_handshake = refl

requests_follow_handshake_example : announced (initialized_notification ∷ greeting ∷ []) ≡ true
requests_follow_handshake_example =
    requests_follow_handshake outside "2024-11-05" (refreshes ∷ []) []
      (initialized_notification ∷ greeting ∷ []) asked all_sent not_handshake
