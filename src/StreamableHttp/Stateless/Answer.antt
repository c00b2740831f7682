-- ===== src/StreamableHttp/Stateless/Answer.antt =====
-- The answer that the stateless handler returns.
use mcpway.Base.{
  String, true, false, Option, none, some, List, [], ◌∷◌, ◌++◌, inl, inr, ◌≡◌, ◌≢◌, refl, ap, ◌∙◌,
  arith, eq_iff, Option-cases, All,
}
use mcpway.Json.{Value}
use mcpway.StreamableHttp.Message.{
  is_initialize_request, create_initialize_request, create_initialized_notification,
}
use mcpway.StreamableHttp.Stateless.{
  Outside, Waiting, read_lines, write_all, answers_init, printed_id, parsed_line, begin,
  request_with_id, handle_stateless_request,
}

-- Nothing in the line ends the wait: it is blank, no JSON, has no id or another one.
abbrev pub Skipped : Outside → String → Option String → Option String → Type 0
Skipped outside target auto none = none ≡ some target
Skipped outside target auto (some line) =
    (msg : Value) (id : String)
    → parsed_line outside line ≡ some msg
    → printed_id outside msg ≡ some id
    → (answers_init auto id ≡ false) × (id ≢ target)

-- The line is this message, with this id.
abbrev pub Says : Outside → String → Value → String → Type 0
Says outside line msg id =
    (parsed_line outside line ≡ some msg) × (printed_id outside msg ≡ some id)

skip :
    (outside : Outside) (target : String) (early lines : List (Option String)) (w : Waiting)
    → All (Skipped outside target w.auto_init_id) early
    → read_lines outside target (early ++ lines) w ≡ read_lines outside target lines w
unfolding read_lines
skip outside target [] lines w a = refl
skip outside target (none ∷ early) lines w a = absurd (ground arith)
skip outside target (some line ∷ early) lines w a =
    let rest = skip outside target early lines w a.1 in
    elim (Option-cases (parsed_line outside line)) [
      | inl e ↦ ground arith
      | inr (msg, e) ↦ elim (Option-cases (printed_id outside msg)) [
        | inl f ↦ ground arith
        | inr (id, f) ↦ (let (quiet, other) = a.0 msg id e f in ground (arith, eq_iff id target))
      ]
    ]

abbrev asked : Value → Value → Option String → Waiting
asked hello payload auto = record {
  pending_original = some payload;
  auto_init_id = auto;
  written = hello ∷ [];
}

abbrev ready : Value → Value → Waiting
ready hello payload = record {
  pending_original = none;
  auto_init_id = none;
  written = hello ∷ create_initialized_notification ∷ payload ∷ [];
}

Writes : Outside → Type 0
Writes outside = (sent : List Value) (m : Value) → outside.write sent m ≡ none

started :
    (outside : Outside) (target init_id version : String) (lines : List (Option String))
    (payload : Value)
    → Writes outside
    → outside.spawn ≡ none
    → printed_id outside payload ≡ some target
    → is_initialize_request payload ≡ false
    → handle_stateless_request outside init_id version lines payload
      ≡ read_lines outside target lines
          (asked (create_initialize_request outside.version init_id version) payload (some init_id))
unfolding handle_stateless_request request_with_id begin write_all Writes
started outside target init_id version lines payload writes up has_id request =
    ground (arith, writes [] (create_initialize_request outside.version init_id version))

initialized :
    (outside : Outside) (target init_id line id : String) (lines : List (Option String))
    (first payload msg : Value)
    → Writes outside
    → Says outside line msg id
    → answers_init (some init_id) id ≡ true
    → read_lines outside target (some line ∷ lines) (asked first payload (some init_id))
      ≡ read_lines outside target lines (ready first payload)
unfolding read_lines write_all Writes
initialized outside target init_id line id lines first payload msg writes says init = ground (
  arith,
  writes (first ∷ []) create_initialized_notification,
  writes (first ∷ create_initialized_notification ∷ []) payload,
)

answered :
    (outside : Outside) (target line : String) (lines : List (Option String)) (w : Waiting)
    (answer : Value)
    → w.auto_init_id ≡ none
    → Says outside line answer target
    → read_lines outside target (some line ∷ lines) w
      ≡ record { written = w.written; result = inl (some answer) }
unfolding read_lines answers_init
answered outside target line lines w answer none_auto says = ground (arith, eq_iff target target)

-- For a request with an id that is not `initialize`, if the child starts and writing never fails: a
-- child that answers the gateway's `initialize` and then the request, with whatever else it writes
-- before, between and after, as long as it reads well and no line before those answers them, was
-- sent all messages, and its answer to the request is returned as it is.
pub stateless-answered :
    (outside : Outside) (init_id version target auto init_line line : String)
    (payload hello answer : Value) (before between after : List (Option String))
    → outside.spawn ≡ none
    → ((sent : List Value) (m : Value) → outside.write sent m ≡ none)
    → printed_id outside payload ≡ some target
    → is_initialize_request payload ≡ false
    → All (Skipped outside target (some init_id)) before
    → Says outside init_line hello auto
    → answers_init (some init_id) auto ≡ true
    → All (Skipped outside target none) between
    → Says outside line answer target
    → let handled =
        handle_stateless_request outside init_id version
          (before ++ (some init_line ∷ (between ++ (some line ∷ after))))
          payload in
      (handled.result ≡ inl (some answer))
      × (handled.written
          ≡ create_initialize_request outside.version init_id version
            ∷ create_initialized_notification
            ∷ payload
            ∷ [])
unfolding Writes
stateless-answered outside init_id version target auto init_line line payload hello answer before
      between after up writes has_id request quiet says init still answers =
    let first = create_initialize_request outside.version init_id version in
    let last = some line ∷ after in
    let lines = before ++ (some init_line ∷ (between ++ last)) in
    let run =
      started outside target init_id version lines payload writes up has_id request
      ∙ skip outside target before (some init_line ∷ (between ++ last))
          (asked first payload (some init_id)) quiet
      ∙ initialized outside target init_id init_line auto (between ++ last) first payload hello
          writes says init
      ∙ skip outside target between last (ready first payload) still
      ∙ answered outside target line after (ready first payload) answer refl answers in
    (ap (λ h. h.result) run, ap (λ h. h.written) run)
