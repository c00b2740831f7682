-- ===== src/ToolApi/Client/Catalog.antt =====
-- `refresh_tools`, the look-ups that refresh, the calls, and the metadata of the catalog.
use mcpway.Base.{
  ℕ, ◌+◌, String, Option, none, some, List, ◌⊎◌, inl, inr, is_some, map, if◌then◌else◌, and_then,
  ◌==◌, min, ◌-◌, ◌^◌,
}
use mcpway.Json.{Value, Items, Fields, str, obj, no_items, item, end, field, get, as_array}
use mcpway.ToolApi.{ToolCallError, tool_not_found}
use mcpway.ToolApi.Client.{
  ToolMetadata, Outside, ClientState, ensure_initialized, send_jsonrpc_request, resolve_tool,
  replace_tools, parse_tools_list_response, normalize_args_for_tool,
}

-- The end of `refresh_tools`, at the answer to `tools/list`.
unfoldable pub take_listed :
    ClientState → Value ⊎ ToolCallError → ClientState × Option ToolCallError
unfolding parse_tools_list_response replace_tools
take_listed s (inr error) = (s, some error)
take_listed s (inl response) = elim (parse_tools_list_response response) [
  | inr error ↦ (s, some error)
  | inl tools ↦ (replace_tools tools s, none)
]

unfoldable pub refresh_tools : Outside → ClientState → ClientState × Option ToolCallError
unfolding take_listed ensure_initialized send_jsonrpc_request
refresh_tools outside s =
    let (ready, failure) = ensure_initialized outside s in
    elim failure [
      | some error ↦ (ready, some error)
      | none ↦
          (let (asked, answer) = send_jsonrpc_request outside "tools/list" (obj end) ready in
            take_listed asked answer)
    ]

-- The arm of `resolve_tool_with_refresh` at an error of the first look-up.
unfoldable pub look_again :
    Outside → String → ToolCallError → ClientState → ClientState × (ToolMetadata ⊎ ToolCallError)
unfolding refresh_tools resolve_tool
look_again outside name (tool_not_found _) s =
    let (refreshed, failure) = refresh_tools outside s in
    (refreshed, elim failure [ some error ↦ inr error | none ↦ resolve_tool name refreshed ])
look_again outside name error s = (s, inr error)

unfoldable pub resolve_tool_with_refresh :
    Outside → String → ClientState → ClientState × (ToolMetadata ⊎ ToolCallError)
unfolding look_again resolve_tool
resolve_tool_with_refresh outside name s = elim (resolve_tool name s) [
  | inl tool ↦ (s, inl tool)
  | inr error ↦ look_again outside name error s
]

unfoldable pub prepare_args :
    Outside → String → Value → ClientState → ClientState × (Value ⊎ ToolCallError)
unfolding resolve_tool_with_refresh normalize_args_for_tool
prepare_args outside name args s =
    let (found, answer) = resolve_tool_with_refresh outside name s in
    (found, elim answer [ inr error ↦ inr error | inl tool ↦ normalize_args_for_tool tool args ])

-- What is sent for a call, its fields in key order.
abbrev pub call_params : ToolMetadata → Value → Value
call_params tool args = obj (field "arguments" args (field "name" (str tool.name) end))

unfoldable pub call_tool :
    Outside → ToolMetadata → Value → ClientState → ClientState × (Value ⊎ ToolCallError)
unfolding normalize_args_for_tool ensure_initialized send_jsonrpc_request
call_tool outside tool args s = elim (normalize_args_for_tool tool args) [
  | inr error ↦ (s, inr error)
  | inl given ↦
      (let (ready, failure) = ensure_initialized outside s in
        elim failure [
          | some error ↦ (ready, inr error)
          | none ↦ send_jsonrpc_request outside "tools/call" (call_params tool given) ready
        ])
]

unfoldable pub call_by_name :
    Outside → String → Value → ClientState → ClientState × (Value ⊎ ToolCallError)
unfolding resolve_tool_with_refresh call_tool
call_by_name outside name args s =
    let (found, answer) = resolve_tool_with_refresh outside name s in
    elim answer [ inr error ↦ (found, inr error) | inl tool ↦ call_tool outside tool args found ]

-- `values.iter().filter(|value| value.is_string()).count()`
count_texts : Items → ℕ
count_texts no_items = 0
count_texts (item (str s) vs) = count_texts vs + 1
count_texts (item _ vs) = count_texts vs

-- The schema's own required keys and those of its properties, found field by field.
mutual
  pub count_required_keys : Value → ℕ
  count_required_keys (obj fs) =
      elim (and_then (get "required" (obj fs)) as_array) [ none ↦ 0 | some vs ↦ count_texts vs ]
      + required_below fs
  count_required_keys _ = 0

  required_below : Fields → ℕ
  required_below end = 0
  required_below (field k v fs) =
      let here = required_in v in
      let rest = required_below fs in if k == "properties" then here else rest

  required_in : Value → ℕ
  required_in (obj fs) = required_sum fs
  required_in _ = 0

  required_sum : Fields → ℕ
  required_sum end = 0
  required_sum (field k v fs) = count_required_keys v + required_sum fs

-- `usize::saturating_add` at 64 bits
abbrev saturating_add : ℕ → ℕ → ℕ
saturating_add a b = min (a + b) (2 ^ 64 - 1)

mutual
  pub count_defaulted_keys : Value → ℕ
  count_defaulted_keys (obj fs) = defaulted_below fs
  count_defaulted_keys _ = 0

  defaulted_below : Fields → ℕ
  defaulted_below end = 0
  defaulted_below (field k v fs) =
      let here = defaulted_in v in
      let rest = defaulted_below fs in if k == "properties" then here else rest

  defaulted_in : Value → ℕ
  defaulted_in (obj fs) = defaulted_sum 0 fs
  defaulted_in _ = 0

  defaulted_sum : ℕ → Fields → ℕ
  defaulted_sum total end = total
  defaulted_sum total (field k v fs) =
      defaulted_sum
        (saturating_add (if is_some (get "default" v) then saturating_add total 1 else total)
          (count_defaulted_keys v))
        fs

pub record ToolCatalogMetadata : Type 0 where
  pub name : String
  pub description : Option String
  pub required_keys : ℕ
  pub defaulted_keys : ℕ

describe : ToolMetadata → ToolCatalogMetadata
describe tool = record {
  name = tool.name;
  description = tool.description;
  required_keys = count_required_keys tool.input_schema;
  defaulted_keys = count_defaulted_keys tool.input_schema;
}

unfoldable pub list_with_metadata : ClientState → List ToolCatalogMetadata
unfolding describe
list_with_metadata s = map describe s.tools
