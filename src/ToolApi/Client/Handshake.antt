-- ===== src/ToolApi/Client/Handshake.antt =====
-- The order in which a client sends its messages.
use mcpway.Base.{
  String, Bool, true, false, Option, none, some, List, [], ◌∷◌, ◌++◌, ◌⊎◌, inl, inr, ◌≡◌, refl,
  arith, any, ◌==◌, ◌||◌, ◌&&◌, and_then,
}
use mcpway.Json.{end, obj, Value, get, get_field, as_str}
use mcpway.ToolApi.{ToolCallError}
use mcpway.ToolApi.Client.{
  logged, initialize_params, request_id, Outside, ClientState, ToolMetadata, new_client,
  next_request, request_message, initialized_notification, ensure_initialized, handshake, announce,
  ask, send_jsonrpc_request, replace_tools, resolve_tool, normalize_args_for_tool,
}
use mcpway.ToolApi.Client.Catalog.{
  refresh_tools, take_listed, look_again, resolve_tool_with_refresh, prepare_args, call_tool,
  call_by_name, call_params,
}

abbrev is_method : String → Option String → Bool
is_method name none = false
is_method name (some m) = m == name

-- The message names this method.
unfoldable pub has_method : String → Value → Bool
unfolding get
has_method name message = is_method name (and_then (get "method" message) as_str)

abbrev pub is_handshake : Value → Bool
is_handshake message =
    has_method "initialize" message || has_method "notifications/initialized" message

-- The server was told that the client is initialized.
abbrev pub announced : List Value → Bool
announced sent = any (has_method "notifications/initialized") sent

-- The latest message is the first.
abbrev ordered : List Value → Bool
ordered [] = true
ordered (m ∷ ms) = (is_handshake m || announced ms) && ordered ms

-- What the callers of a client do.
pub data Operation : Type 0 where
  refreshes : Operation
  prepares calls : String → Value → Operation
  calls_handle : ToolMetadata → Value → Operation

unfoldable pub operate : Outside → Operation → ClientState → ClientState
unfolding refresh_tools prepare_args call_by_name call_tool
operate outside refreshes s = (refresh_tools outside s).0
operate outside (prepares name args) s = (prepare_args outside name args s).0
operate outside (calls name args) s = (call_by_name outside name args s).0
operate outside (calls_handle tool args) s = (call_tool outside tool args s).0

unfoldable pub operate_all : Outside → List Operation → ClientState → ClientState
unfolding operate
operate_all outside [] s = s
operate_all outside (o ∷ os) s = operate_all outside os (operate outside o s)

abbrev Inv : ClientState → Type 0
Inv s = (ordered s.sent ≡ true) × (s.initialized ≡ true → announced s.sent ≡ true)

request-has_method :
    (id method : String) (params : Value) (name : String)
    → has_method name (request_message id method params) ≡ (method == name)
unfolding has_method get get_field request_message
request-has_method id method params name = refl

notification-has_method : has_method "notifications/initialized" initialized_notification ≡ true
unfolding has_method get get_field
notification-has_method = refl

announce-Inv :
    (outside : Outside) (s : ClientState)
    → ordered s.sent ≡ true
    → let (after, failure) = announce outside s in
      Inv after × (failure ≡ none → after.initialized ≡ true)
unfolding announce
announce-Inv outside s v = ground (arith, notification-has_method)

handshake-Inv :
    (outside : Outside) (s : ClientState)
    → ordered s.sent ≡ true
    → s.initialized ≡ false
    → let (after, failure) = handshake outside s in
      Inv after × (failure ≡ none → after.initialized ≡ true)
unfolding handshake ask
handshake-Inv outside s v e =
    let message =
      request_message (request_id outside s) "initialize" (initialize_params outside s) in
    let is_one : has_method "initialize" message ≡ true =
      request-has_method (request_id outside s) "initialize" (initialize_params outside s)
        "initialize" in
    ground (arith, is_one, announce-Inv outside (logged message s))

ensure_initialized-Inv :
    (outside : Outside) (s : ClientState)
    → Inv s
    → let (after, failure) = ensure_initialized outside s in
      Inv after × (failure ≡ none → after.initialized ≡ true)
unfolding ensure_initialized next_request
ensure_initialized-Inv outside s v = ground (arith, handshake-Inv outside (next_request s))

send-Inv :
    (outside : Outside) (method : String) (params : Value) (s : ClientState)
    → Inv s
    → s.initialized ≡ true
    → Inv (send_jsonrpc_request outside method params s).0
unfolding send_jsonrpc_request ask next_request
send-Inv outside method params s v told = ground arith

refresh_tools-Inv : (outside : Outside) (s : ClientState) → Inv s → Inv (refresh_tools outside s).0
unfolding refresh_tools take_listed replace_tools
refresh_tools-Inv outside s v =
    let (ready, failure) = ensure_initialized outside s in
    ground
      (arith, ensure_initialized-Inv outside s v, send-Inv outside "tools/list" (obj end) ready)

resolve-Inv :
    (outside : Outside) (name : String) (s : ClientState)
    → Inv s
    → Inv (resolve_tool_with_refresh outside name s).0
unfolding resolve_tool_with_refresh look_again resolve_tool
resolve-Inv outside name s v = ground (arith, refresh_tools-Inv outside s v)

call_tool-Inv :
    (outside : Outside) (tool : ToolMetadata) (args : Value) (s : ClientState)
    → Inv s
    → Inv (call_tool outside tool args s).0
unfolding call_tool
call_tool-Inv outside tool args s v = go (normalize_args_for_tool tool args) refl
  where
    go :
        (answer : Value ⊎ ToolCallError)
        → normalize_args_for_tool tool args ≡ answer
        → Inv (call_tool outside tool args s).0
    go (inr error) e = ground arith
    go (inl given) e = ground (
      arith,
      ensure_initialized-Inv outside s v,
      send-Inv outside "tools/call" (call_params tool given) (ensure_initialized outside s).0,
    )

operate-Inv :
    (outside : Outside) (o : Operation) (s : ClientState) → Inv s → Inv (operate outside o s)
unfolding operate prepare_args call_by_name
operate-Inv outside refreshes s v = refresh_tools-Inv outside s v
operate-Inv outside (prepares name args) s v = resolve-Inv outside name s v
operate-Inv outside (calls name args) s v = go (resolve_tool_with_refresh outside name s).1 refl
  where
    go :
        (answer : ToolMetadata ⊎ ToolCallError)
        → (resolve_tool_with_refresh outside name s).1 ≡ answer
        → Inv (call_by_name outside name args s).0
    go (inr error) e = ground (arith, resolve-Inv outside name s v)
    go (inl tool) e = ground (
      arith,
      call_tool-Inv outside tool args (resolve_tool_with_refresh outside name s).0
          (resolve-Inv outside name s v),
    )
operate-Inv outside (calls_handle tool args) s v = call_tool-Inv outside tool args s v

operate_all-Inv :
    (outside : Outside) (os : List Operation) (s : ClientState)
    → Inv s
    → Inv (operate_all outside os s)
unfolding operate_all
operate_all-Inv outside [] s v = v
operate_all-Inv outside (o ∷ os) s v =
    operate_all-Inv outside os (operate outside o s) (operate-Inv outside o s v)

ordered-split :
    (sent later earlier : List Value) (m : Value)
    → sent ≡ later ++ (m ∷ earlier)
    → ordered sent ≡ true
    → is_handshake m ≡ false
    → announced earlier ≡ true
ordered-split sent [] earlier m e h n = ground arith
ordered-split [] (x ∷ later) earlier m e h n = absurd (ground arith)
ordered-split (y ∷ sent) (x ∷ later) earlier m e h n =
    ordered-split sent later earlier m (ground arith) (ground arith) n

-- Whatever is done with a client, and whatever the server answers, the client sends nothing but
-- `initialize` and the notification that it is initialized before that notification: each other
-- message, so each `tools/list` and `tools/call`, comes after one.
pub requests_follow_handshake :
    (outside : Outside) (version : String) (os : List Operation) (later earlier : List Value)
    (m : Value)
    → (operate_all outside os (new_client version)).sent ≡ later ++ (m ∷ earlier)
    → is_handshake m ≡ false
    → announced earlier ≡ true
unfolding new_client
requests_follow_handshake outside version os later earlier m e n =
    ordered-split (operate_all outside os (new_client version)).sent later earlier m e
      (operate_all-Inv outside os (new_client version) (refl, λ h. absurd (ground arith))).0 n
