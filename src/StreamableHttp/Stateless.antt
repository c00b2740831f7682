-- ===== src/StreamableHttp/Stateless.antt =====
-- `handle_stateless_request`: one child per request, which the gateway initializes itself if the
-- request does not. The lines that the child writes are an input, `none` where reading fails; the
-- errors of starting it and of writing, the parser and printer of JSON are parameters. A message
-- and its line end are one write.
pub mod Writes
pub mod Answer
mod Tests
use mcpway.Base.{
  ℕ, String, Bool, true, false, Option, none, some, List, [], ◌∷◌, ◌++◌, ◌⊎◌, inl, inr, ◌==◌, eqb,
  code, Char, if◌then◌else◌, ◌&&◌, and_then, not,
}
use mcpway.Base.Text.{trim, is_empty, trim_matches}
use mcpway.Json.{Value, get}
use mcpway.StreamableHttp.Message.{
  is_initialize_request, create_initialize_request, create_initialized_notification,
}

pub record Outside : Type 0 where
  pub spawn : Option String
  -- The error of writing a message after those written before.
  pub write : List Value → Value → Option String
  pub parse : String → Option Value
  pub print : Value → String
  pub version : String

-- What was written to the child, in order, and what the handler returns.
pub record Handled : Type 0 where
  pub written : List Value
  pub result : Option Value ⊎ String

abbrev is_quote : Char → Bool
is_quote c = eqb (code c) 34

-- The variables of the loop.
pub record Waiting : Type 0 where
  pub pending_original : Option Value
  pub auto_init_id : Option String
  pub written : List Value

-- Write messages in turn, up to the first that fails.
unfoldable pub write_all : Outside → List Value → List Value → List Value × Option String
write_all outside [] written = (written, none)
write_all outside (m ∷ ms) written = elim (outside.write written m) [
  | some error ↦ (written, some error)
  | none ↦ write_all outside ms (written ++ (m ∷ []))
]

-- `msg.get("id").map(|v| v.to_string())`
unfoldable pub printed_id : Outside → Value → Option String
unfolding get
printed_id outside msg = elim (get "id" msg) [ none ↦ none | some v ↦ some (outside.print v) ]

-- The message answers the `initialize` request that the gateway sent.
unfoldable pub answers_init : Option String → String → Bool
unfolding trim_matches
answers_init none id = false
answers_init (some auto) id = trim_matches is_quote id == auto

-- What is written once the child is initialized.
abbrev pub after_init : Option Value → List Value
after_init none = create_initialized_notification ∷ []
after_init (some original) = create_initialized_notification ∷ original ∷ []

abbrev pub parsed_line : Outside → String → Option Value
parsed_line outside line = if is_empty (trim line) then none else outside.parse line

unfoldable pub read_lines : Outside → String → List (Option String) → Waiting → Handled
unfolding write_all printed_id answers_init
read_lines outside target [] w = record {
  written = w.written;
  result = inr "Child terminated before response";
}
read_lines outside target (none ∷ lines) w = record {
  written = w.written;
  result = inr "Child terminated before response";
}
read_lines outside target (some line ∷ lines) w =
    let (sent, error) = write_all outside (after_init w.pending_original) w.written in
    let ready : Waiting = record { pending_original = none; auto_init_id = none; written = sent } in
    let skipped = read_lines outside target lines w in
    let continued = read_lines outside target lines ready in
    elim (parsed_line outside line) [
      | none ↦ skipped
      | some msg ↦ elim (printed_id outside msg) [
        | none ↦ skipped
        | some id ↦
            if answers_init w.auto_init_id id
            then elim error [
              | some e ↦ record { written = sent; result = inr e }
              | none ↦ continued
            ]
            else if id == target
            then record { written = w.written; result = inl (some msg) }
            else skipped
      ]
    ]

-- The loop after a first message was written.
unfoldable pub begin :
    Outside → String → List (Option String) → Value → Option Value → Option String → Handled
unfolding read_lines write_all
begin outside target lines first pending auto =
    let (written, failure) = write_all outside (first ∷ []) [] in
    elim failure [
      | some error ↦ record { written = written; result = inr error }
      | none ↦
          read_lines outside target lines
            (record { pending_original = pending; auto_init_id = auto; written = written })
    ]

-- The request, by its printed id, where it has one.
unfoldable pub request_with_id :
    Outside → String → String → List (Option String) → Value → String → Handled
unfolding begin
request_with_id outside init_id protocol_version lines payload target =
    if is_initialize_request payload
    then begin outside target lines payload none none
    else begin outside target lines
        (create_initialize_request outside.version init_id protocol_version) (some payload)
        (some init_id)

-- The message without id: written, and the child killed.
unfoldable pub notify_child : Outside → Value → Handled
unfolding write_all
notify_child outside payload =
    let (written, failure) = write_all outside (payload ∷ []) [] in
    elim failure [
      | some error ↦ record { written = written; result = inr error }
      | none ↦ record { written = written; result = inl none }
    ]

-- `init_id` is the id made of the time and a new `Uuid`.
unfoldable pub handle_stateless_request :
    Outside → String → String → List (Option String) → Value → Handled
unfolding request_with_id notify_child printed_id
handle_stateless_request outside init_id protocol_version lines payload = elim outside.spawn [
  | some error ↦ record { written = []; result = inr error }
  | none ↦ elim (printed_id outside payload) [
    | none ↦ notify_child outside payload
    | some target ↦ request_with_id outside init_id protocol_version lines payload target
  ]
]
