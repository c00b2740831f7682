-- ===== src/ToolApi/Client/Refresh.antt =====
-- The catalog of tools, and what a call of a tool sends.
use mcpway.Base.{
  subst, String, Option, none, some, List, [], ◌∷◌, ◌⊎◌, inl, inr, ◌≡◌, refl, arith, ◌==◌,
  Option-cases, eq_iff, if◌then◌else◌, sym, or_else,
}
use mcpway.Base.Dict.{Dict, lookup, insert, lookup-insert}
use mcpway.Json.{Value, obj, as_object, end}
use mcpway.ToolApi.{ToolCallError, tool_not_found}
use mcpway.ToolApi.Schema.{validate_required}
use mcpway.ToolApi.Schema.Defaults.{value_at, apply_defaults-keeps}
use mcpway.ToolApi.Client.{
  Outside, ClientState, ToolMetadata, next_request, request_message, request_id, ensure_initialized,
  send_jsonrpc_request, replace_tools, index_tools, resolve_tool, normalize_args_for_tool,
  handshake, announce, ask, parse_tools_list_response,
}
use mcpway.ToolApi.Client.Catalog.{refresh_tools, take_listed, call_tool, call_params}

-- The last tool of this name in the list.
abbrev pub last_named : String → List ToolMetadata → Option ToolMetadata
last_named name [] = none
last_named name (tool ∷ tools) =
    or_else (last_named name tools) (if tool.name == name then some tool else none)

index_tools-lookup :
    (name : String) (d : Dict ToolMetadata) (tools : List ToolMetadata)
    → lookup name (index_tools d tools) ≡ or_else (last_named name tools) (lookup name d)
unfolding index_tools
index_tools-lookup name d [] = refl
index_tools-lookup name d (tool ∷ tools) = ground (
  arith,
  eq_iff tool.name name,
  lookup-insert tool.name name tool d,
  index_tools-lookup name (insert tool.name tool d) tools,
)

-- Once a list of tools is taken over, a name resolves to the last tool of the list that has it, and
-- to no other; a name that is not in the list is not found, even if it was known before.
pub resolve_tool-replace_tools :
    (name : String) (tools : List ToolMetadata) (s : ClientState)
    → resolve_tool name (replace_tools tools s)
      ≡ elim (last_named name tools) [ some tool ↦ inl tool | none ↦ inr (tool_not_found name) ]
unfolding resolve_tool replace_tools lookup
resolve_tool-replace_tools name tools s =
    let none_before : lookup {V = ToolMetadata} name [] ≡ none = refl in
    ground (arith, index_tools-lookup name [] tools)

ensure_initialized-tools :
    (outside : Outside) (s : ClientState)
    → let after = (ensure_initialized outside s).0 in
      (after.tools ≡ s.tools) × (after.tools_by_name ≡ s.tools_by_name)
unfolding ensure_initialized handshake announce ask next_request
ensure_initialized-tools outside s = ground arith

send-tools :
    (outside : Outside) (method : String) (params : Value) (s : ClientState)
    → let after = (send_jsonrpc_request outside method params s).0 in
      (after.tools ≡ s.tools) × (after.tools_by_name ≡ s.tools_by_name)
unfolding send_jsonrpc_request ask next_request
send-tools outside method params s = ground arith

take_listed-ok :
    (s : ClientState) (answer : Value ⊎ ToolCallError)
    → let (after, failure) = take_listed s answer in
      failure ≡ none
      → (response : Value) × (parse_tools_list_response response ≡ inl after.tools)
        × (after.tools_by_name ≡ index_tools [] after.tools)
unfolding take_listed replace_tools
take_listed-ok s (inr error) h = absurd (ground arith)
take_listed-ok s (inl response) h = go (parse_tools_list_response response) refl
  where
    go :
        (parsed : List ToolMetadata ⊎ ToolCallError)
        → parse_tools_list_response response ≡ parsed
        → (r : Value) × (parse_tools_list_response r ≡ inl (take_listed s (inl response)).0.tools)
          × ((take_listed s (inl response)).0.tools_by_name
              ≡ index_tools [] (take_listed s (inl response)).0.tools)
    go (inr error) e = absurd (ground arith)
    go (inl tools) e = (response, ground arith, ground arith)

refresh_tools-step :
    (outside : Outside) (s : ClientState)
    → (ensure_initialized outside s).1 ≡ none
    → let (asked, answer) =
        send_jsonrpc_request outside "tools/list" (obj end) (ensure_initialized outside s).0 in
      refresh_tools outside s ≡ take_listed asked answer
unfolding refresh_tools
refresh_tools-step outside s e = ground arith

abbrev Taken : ClientState × Option ToolCallError → Type 0
Taken (after, failure) =
    failure ≡ none
    → (response : Value) × (parse_tools_list_response response ≡ inl after.tools)
      × (after.tools_by_name ≡ index_tools [] after.tools)

refreshed : (outside : Outside) (s : ClientState) → Taken (refresh_tools outside s)
unfolding refresh_tools
refreshed outside s = elim (Option-cases (ensure_initialized outside s).1) [
  | inr (error, e) ↦ λ h. absurd (ground arith)
  | inl e ↦
      (let (asked, answer) =
          send_jsonrpc_request outside "tools/list" (obj end) (ensure_initialized outside s).0 in
        subst Taken (sym (refresh_tools-step outside s e)) (take_listed-ok asked answer))
]

send-sent :
    (outside : Outside) (method : String) (params : Value) (s : ClientState)
    → let after = (send_jsonrpc_request outside method params s).0 in
      (before : List Value) × (after.sent
        ≡ request_message (request_id outside after) method params ∷ before)
unfolding send_jsonrpc_request ask
send-sent outside method params s = ((next_request s).sent, refl)

-- A refresh that fails, at whatever point, leaves the catalog as it was; one that succeeds took over
-- exactly the tools that the server's answer lists.
pub refresh_tools-catalog :
    (outside : Outside) (s : ClientState)
    → let (after, failure) = refresh_tools outside s in
      ((error : ToolCallError)
        → failure ≡ some error
        → (after.tools ≡ s.tools) × (after.tools_by_name ≡ s.tools_by_name))
      × (failure ≡ none
          → (response : Value) × (parse_tools_list_response response ≡ inl after.tools)
            × (after.tools_by_name ≡ index_tools [] after.tools))
unfolding refresh_tools take_listed replace_tools
refresh_tools-catalog outside s =
    let ready = ensure_initialized outside s in
    let sent = send_jsonrpc_request outside "tools/list" (obj end) ready.0 in
    (
      λ error h. ground (
        arith,
        ensure_initialized-tools outside s,
        send-tools outside "tools/list" (obj end) ready.0,
      ),
      refreshed outside s,
    )

-- Arguments that pass the preparation have every required key, and every value that was given and
-- is no object is still at its place.
pub normalize_args_for_tool-ok :
    (tool : ToolMetadata) (args prepared leaf : Value) (path : List String)
    → normalize_args_for_tool tool args ≡ inl prepared
    → (validate_required tool.name tool.input_schema prepared ≡ none)
      × (value_at path args ≡ some leaf
          → as_object leaf ≡ none
          → value_at path prepared ≡ some leaf)
unfolding normalize_args_for_tool
normalize_args_for_tool-ok tool args prepared leaf path h =
    ground (arith, apply_defaults-keeps tool.input_schema args leaf path)

-- A call whose arguments do not pass sends nothing and changes nothing. A call that is answered sent
-- as its last message the `tools/call` request with the tool's name and the prepared arguments.
pub call_tool-sends :
    (outside : Outside) (tool : ToolMetadata) (args : Value) (s : ClientState)
    → let (after, answer) = call_tool outside tool args s in
      ((error : ToolCallError)
        → normalize_args_for_tool tool args ≡ inr error
        → (after ≡ s) × (answer ≡ inr error))
      × ((response : Value)
          → answer ≡ inl response
          → (prepared : Value) × (before : List Value) × (normalize_args_for_tool tool args
              ≡ inl prepared)
            × (after.sent
                ≡ request_message
                    (request_id outside after)
                    "tools/call"
                    (call_params tool prepared)
                  ∷ before))
unfolding call_tool
call_tool-sends outside tool args s = (
  λ error h. ground arith,
  λ response h. answered (normalize_args_for_tool tool args) refl response h,
)
  where
    ready : ClientState
    ready = (ensure_initialized outside s).0

    answered :
        (a : Value ⊎ ToolCallError)
        → normalize_args_for_tool tool args ≡ a
        → (response : Value) → (call_tool outside tool args s).1 ≡ inl response
        → (prepared : Value) × (before : List Value) × (normalize_args_for_tool tool args
            ≡ inl prepared)
          × ((call_tool outside tool args s).0.sent
              ≡ request_message
                  (request_id outside (call_tool outside tool args s).0)
                  "tools/call"
                  (call_params tool prepared)
                ∷ before)
    answered (inr error) e response h = absurd (ground arith)
    answered (inl prepared) e response h =
        let (before, last) = send-sent outside "tools/call" (call_params tool prepared) ready in
        (prepared, before, e, ground arith)
