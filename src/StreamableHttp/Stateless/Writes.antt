-- ===== src/StreamableHttp/Stateless/Writes.antt =====
-- What the stateless handler writes to the child, and in which order.
use mcpway.Base.{
  String, Option, none, some, List, [], ◌∷◌, ◌++◌, ◌⊎◌, inl, inr, ◌≡◌, refl, sym, ◌∙◌, subst, arith,
  if◌then◌else◌, Option-cases, Bool-cases,
}
use mcpway.Json.{Value}
use mcpway.StreamableHttp.Message.{
  is_initialize_request, create_initialize_request, create_initialized_notification,
}
use mcpway.StreamableHttp.Stateless.{
  Outside, Waiting, read_lines, write_all, answers_init, printed_id, after_init, begin,
  request_with_id, handle_stateless_request,
}

-- The messages are the first of these, in this order.
abbrev pub IsPrefix : List Value → List Value → Type 0
IsPrefix xs ys = (zs : List Value) × (xs ++ zs ≡ ys)

-- Once the child is initialized, reading writes nothing more.
read_lines-quiet :
    (outside : Outside) (target : String) (lines : List (Option String)) (w : Waiting)
    → w.auto_init_id ≡ none
    → (read_lines outside target lines w).written ≡ w.written
unfolding read_lines answers_init
read_lines-quiet outside target [] w e = refl
read_lines-quiet outside target (none ∷ lines) w e = refl
read_lines-quiet outside target (some line ∷ lines) w e =
    ground (arith, read_lines-quiet outside target lines w e)

abbrev waiting : Value → Value → Option String → Waiting
waiting first payload auto = record {
  pending_original = some payload;
  auto_init_id = auto;
  written = first ∷ [];
}

write_after :
    (outside : Outside) (first payload : Value)
    → let (sent, error) = write_all outside (after_init (some payload)) (first ∷ []) in
      IsPrefix sent (first ∷ create_initialized_notification ∷ payload ∷ [])
unfolding write_all
write_after outside first payload =
    elim (Option-cases (outside.write (first ∷ []) create_initialized_notification)) [
      | inr (e, h) ↦ rw h (create_initialized_notification ∷ payload ∷ [], refl)
      | inl h ↦
          elim (Option-cases
            (outside.write (first ∷ create_initialized_notification ∷ []) payload)) [
              | inr (e, g) ↦ rw (h, g) (payload ∷ [], refl)
              | inl g ↦ rw (h, g) ([], refl)
            ]
    ]

line-written :
    (outside : Outside) (target line : String) (lines : List (Option String)) (w : Waiting)
    → let all = (read_lines outside target (some line ∷ lines) w).written in
      (all ≡ w.written)
      ⊎ (all ≡ (write_all outside (after_init w.pending_original) w.written).0)
      ⊎ (all ≡ (read_lines outside target lines w).written)
unfolding read_lines
line-written outside target line lines w =
    let sent = (write_all outside (after_init w.pending_original) w.written).0 in
    let ready : Waiting = record { pending_original = none; auto_init_id = none; written = sent } in
    ground (arith, read_lines-quiet outside target lines ready refl)

read_lines-IsPrefix :
    (outside : Outside) (target : String) (lines : List (Option String)) (first payload : Value)
    (auto : Option String)
    → IsPrefix
        (read_lines outside target lines (waiting first payload auto)).written
        (first ∷ create_initialized_notification ∷ payload ∷ [])
unfolding read_lines
read_lines-IsPrefix outside target [] first payload auto =
    (create_initialized_notification ∷ payload ∷ [], refl)
read_lines-IsPrefix outside target (none ∷ lines) first payload auto =
    (create_initialized_notification ∷ payload ∷ [], refl)
read_lines-IsPrefix outside target (some line ∷ lines) first payload auto =
    let rest = read_lines-IsPrefix outside target lines first payload auto in
    let whole = first ∷ create_initialized_notification ∷ payload ∷ [] in
    elim (line-written outside target line lines (waiting first payload auto)) [
      | inl e ↦
          subst (λ l. IsPrefix l whole) (sym e)
            (create_initialized_notification ∷ payload ∷ [], refl)
      | inr (inl e) ↦ subst (λ l. IsPrefix l whole) (sym e) (write_after outside first payload)
      | inr (inr e) ↦ subst (λ l. IsPrefix l whole) (sym e) rest
    ]

-- The messages for a request: the gateway initializes the child, unless the request does.
abbrev pub messages_for : Outside → String → String → Value → List Value
messages_for outside init_id protocol_version payload =
    if is_initialize_request payload
    then payload ∷ []
    else create_initialize_request outside.version init_id protocol_version
      ∷ create_initialized_notification
      ∷ payload
      ∷ []

begin-written :
    (outside : Outside) (target : String) (lines : List (Option String)) (first : Value)
    (pending : Option Value) (auto : Option String)
    → let w : Waiting = record {
      pending_original = pending;
      auto_init_id = auto;
      written = first ∷ [];
    } in
      let all = (begin outside target lines first pending auto).written in
      (all ≡ []) ⊎ (all ≡ (read_lines outside target lines w).written)
unfolding begin write_all
begin-written outside target lines first pending auto = ground arith

begin-request :
    (outside : Outside) (target : String) (lines : List (Option String)) (first payload : Value)
    (auto : Option String)
    → IsPrefix
        (begin outside target lines first (some payload) auto).written
        (first ∷ create_initialized_notification ∷ payload ∷ [])
begin-request outside target lines first payload auto =
    let whole = first ∷ create_initialized_notification ∷ payload ∷ [] in
    elim (begin-written outside target lines first (some payload) auto) [
      | inl e ↦ subst (λ l. IsPrefix l whole) (sym e) (whole, refl)
      | inr e ↦
          subst (λ l. IsPrefix l whole) (sym e)
            (read_lines-IsPrefix outside target lines first payload auto)
    ]

begin-initialize :
    (outside : Outside) (target : String) (lines : List (Option String)) (payload : Value)
    → IsPrefix (begin outside target lines payload none none).written (payload ∷ [])
begin-initialize outside target lines payload =
    let w : Waiting = record {
      pending_original = none;
      auto_init_id = none;
      written = payload ∷ [];
    } in
    elim (begin-written outside target lines payload none none) [
      | inl e ↦ subst (λ l. IsPrefix l (payload ∷ [])) (sym e) (payload ∷ [], refl)
      | inr e ↦
          subst (λ l. IsPrefix l (payload ∷ []))
            (sym (e ∙ read_lines-quiet outside target lines w refl)) ([], refl)
    ]

request-order :
    (outside : Outside) (init_id protocol_version target : String) (lines : List (Option String))
    (payload : Value)
    → IsPrefix
        (request_with_id outside init_id protocol_version lines payload target).written
        (messages_for outside init_id protocol_version payload)
unfolding request_with_id
request-order outside init_id protocol_version target lines payload =
    elim (Bool-cases (is_initialize_request payload)) [
      | inl e ↦ rw e (begin-initialize outside target lines payload)
      | inr e ↦ rw e (
          begin-request outside target lines
            (create_initialize_request outside.version init_id protocol_version) payload
            (some init_id))
    ]

-- What is written to a child for a request with an id that is not `initialize` is, in this order and
-- as far as it comes, an `initialize` request of the gateway, the notification that the child is
-- initialized, and the request itself; for an `initialize` request it is that request alone.
pub stateless-order :
    (outside : Outside) (init_id protocol_version target : String) (lines : List (Option String))
    (payload : Value)
    → printed_id outside payload ≡ some target
    → IsPrefix
        (handle_stateless_request outside init_id protocol_version lines payload).written
        (messages_for outside init_id protocol_version payload)
unfolding handle_stateless_request
stateless-order outside init_id protocol_version target lines payload h =
    elim (Option-cases outside.spawn) [
      | inr (e, g) ↦ (messages_for outside init_id protocol_version payload, ground arith)
      | inl g ↦
          (let (zs, e) = request-order outside init_id protocol_version target lines payload in
            (zs, ground arith))
    ]
