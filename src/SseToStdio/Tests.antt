-- ===== src/SseToStdio/Tests.antt =====
-- The theorem on the SSE gateway at a server that refuses every connection.
use mcpway.Base.{List, false, none, [], ◌∷◌, ◌==◌, if◌then◌else◌}
use mcpway.Base.Text.{trim, trim_matches, trim_start_matches, trim_end_matches, is_whitespace}
use mcpway.Json.{Value, str, obj, field, end}
use mcpway.Reliability.{err, ok, new_breaker}
use mcpway.SseToStdio.{Outside, Gateway, run_gateway, Input, stdin_line, sse_event}
use mcpway.SseToStdio.Responses.{causes, message_of, pushed, Answered, run_gateway-Answered}

abbrev ping : Value
ping = obj (field "id" (str "a") (field "method" (str "ping") end))

abbrev outside : Outside
outside = record {
  post = λ message attempt now. (err "connection refused", now);
  wake = λ now delay. now;
  endpoint_error = λ now. none;
  parse = λ line. if line == "ping" then ok ping else err "no JSON";
  print_int = λ n. "-32000";
  init_id = λ now. "init_1";
  version = "1";
  protocol_version = "2024-11-05";
  policy = record { max_retries = 1; base_delay = 5; max_delay = 10 };
}

abbrev gateway : Gateway
gateway = record {
  initialized = false;
  circuit_breaker = new_breaker (record { failure_threshold = 3; cooldown = 100 });
  now = 0;
  printed = [];
  posted = [];
}

abbrev inputs : List Input
inputs = stdin_line "ping" ∷ stdin_line "{" ∷ sse_event "message" "ping" ∷ stdin_line "ping" ∷ []

run_gateway-Answered_example :
    Answered
      (message_of ping ∷ pushed ping ∷ message_of ping ∷ [])
      []
      (run_gateway outside inputs gateway).0.printed
unfolding causes trim trim_matches trim_start_matches trim_end_matches is_whitespace
run_gateway-Answered_example = run_gateway-Answered outside inputs gateway
