-- ===== src/StreamableHttp/Stateless/Tests.antt =====
-- The theorems on the stateless handler at a child that answers `initialize` and one request.
use mcpway.Base.{
  String, true, false, Option, none, some, List, [], ◌∷◌, ◌++◌, inl, ◌≡◌, ◌≢◌, refl, arith, ◌==◌,
  if◌then◌else◌,
}
use mcpway.Base.Text.{trim, trim_matches, trim_start_matches, trim_end_matches}
use mcpway.Json.{Value, str, obj, field, end, get, get_field, as_str}
use mcpway.StreamableHttp.Message.{is_initialize_request}
use mcpway.StreamableHttp.Stateless.{
  Outside, handle_stateless_request, printed_id, answers_init, parsed_line,
}
use mcpway.StreamableHttp.Stateless.Writes.{IsPrefix, messages_for, stateless-order}
use mcpway.StreamableHttp.Stateless.Answer.{Skipped, Says, stateless-answered}

abbrev hello : Value
hello = obj (field "id" (str "init_1") end)

abbrev answer : Value
answer = obj (field "id" (str "a") end)

abbrev payload : Value
payload = obj (field "id" (str "a") (field "method" (str "ping") end))

abbrev print_text : Option String → String
print_text none = ""
print_text (some s) = s

abbrev outside : Outside
outside = record {
  spawn = none;
  write = λ sent m. none;
  parse = λ line.
      if line == "hello" then some hello else if line == "answer" then some answer else none;
  print = λ v. print_text (as_str v);
  version = "1";
}

payload_id : printed_id outside payload ≡ some "a"
unfolding printed_id get get_field
payload_id = refl

not_initialize : is_initialize_request payload ≡ false
unfolding is_initialize_request get get_field
not_initialize = refl

hello_said : Says outside "hello" hello "init_1"
unfolding printed_id get get_field trim
hello_said = (refl, refl)

answer_said : Says outside "answer" answer "a"
unfolding printed_id get get_field trim
answer_said = (refl, refl)

is_init : answers_init (some "init_1") "init_1" ≡ true
unfolding answers_init trim_matches trim_start_matches trim_end_matches
is_init = refl

abbrev no_message : Option Value
no_message = none

nothing : (msg : Value) → no_message ≢ some msg
nothing msg e = ground arith

noise : parsed_line outside "noise" ≡ no_message
unfolding trim
noise = refl

noise-Skipped : Skipped outside "a" none (some "noise")
noise-Skipped msg id e f = absurd (ground (arith, noise, nothing msg))

abbrev lines : List (Option String)
lines = [] ++ (some "hello" ∷ ((some "noise" ∷ []) ++ (some "answer" ∷ [])))

stateless-order_example :
    IsPrefix
      (handle_stateless_request outside "init_1" "v" lines payload).written
      (messages_for outside "init_1" "v" payload)
stateless-order_example = stateless-order outside "init_1" "v" "a" lines payload payload_id

stateless-answered_example :
    (handle_stateless_request outside "init_1" "v" lines payload).result ≡ inl (some answer)
stateless-answered_example =
    (stateless-answered outside "init_1" "v" "a" "init_1" "hello" "answer" payload hello answer []
      (some "noise" ∷ []) [] refl (λ sent m. refl) payload_id not_initialize tt hello_said is_init
      (noise-Skipped, tt) answer_said).0
