-- ===== src/StdioToGrpc/Tests.antt =====
-- rust/src/gateways/stdio_to_grpc.rs: the theorems at two streams and one child.
use mcpway.Base.{
  String, ◌≡◌, refl, ap, inl, inr, true, Option, none, some, List, [], ◌∷◌, arith, eq_iff, ◌==◌,
  if◌then◌else◌, Bool-cases,
}
use mcpway.Json.{Value, obj, end}
use mcpway.Base.Text.{is_empty, trim}
use mcpway.StdioToWs.Tests.{two_clients, print_other, reply_fields, notice}
use mcpway.StdioToGrpc.{AppState, authorize, child_message}
use mcpway.StdioToGrpc.Streams.{
  IsAlike, Event, drops, sends, child_writes, ws_run, grpc_run, grpc_run-IsAlike, written, opened,
}
use mcpway.StdioToGrpc.Numbers.{numbers, IsNumbered, IsFalling, child_message-IsNumbered}

abbrev two_streams : AppState
two_streams = record {
  clients = ("a1", true) ∷ ("b2", true) ∷ [];
  seq = 0;
  bearer_token = some "t";
  to_child = [];
  delivered = [];
}

-- A parser that knows one text, and a printer.
abbrev read_one : String → Option Value
read_one text = if text == "{}" then some (obj end) else none

abbrev events : List Event
events =
    sends "a1" "{}"
    ∷ sends "b2" " "
    ∷ child_writes (obj reply_fields)
    ∷ drops "a1"
    ∷ child_writes notice
    ∷ []

read_one-blank : (text : String) → is_empty (trim text) ≡ true → read_one text ≡ none
unfolding trim
read_one-blank text h = elim (Bool-cases (text == "{}")) [
  | inl e ↦ absurd (ground (arith, h, ap (λ s. is_empty (trim s)) ((eq_iff text "{}").0 e)))
  | inr e ↦ rw e refl
]

grpc_run-IsAlike_example :
    IsAlike print_other
      (ws_run read_one print_other print_other events two_clients)
      (grpc_run read_one print_other print_other (some "Bearer t") events two_streams)
unfolding IsAlike written opened authorize
grpc_run-IsAlike_example =
    grpc_run-IsAlike read_one print_other print_other (some "Bearer t") events two_clients
      two_streams read_one-blank refl (refl, refl, refl)

child_message-IsNumbered_example :
    IsNumbered "b2" (child_message print_other (obj reply_fields) two_streams)
unfolding IsNumbered numbers IsFalling
child_message-IsNumbered_example =
    child_message-IsNumbered print_other "b2" (obj reply_fields) two_streams (omega arith)
      (((refl, tt), (tt, tt)), tt)
