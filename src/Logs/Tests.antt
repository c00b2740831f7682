-- ===== src/Logs/Tests.antt =====
-- The theorem on the recent lines at a file with three lines, where one is asked for and where none.
use mcpway.Base.{false, true, none, some, [], ◌∷◌, ◌≡◌}
use mcpway.Logs.{Outside, LogsTailConfig, warn, emit_line}
use mcpway.Logs.Window.{print_recent_lines, print_recent_lines-last}

abbrev outside : Outside
outside = record {
  parse_record = λ line. some (record {
    ts_utc = 1;
    level = "warn";
    target = "";
    message = line;
    mode = "connect";
    transport = "sse";
    fields = [];
  });
  print_number = λ n. "1";
  to_uppercase = λ s. s;
}

abbrev config : LogsTailConfig
config = record {
  file = none;
  follow = false;
  lines = 0;
  level = some warn;
  transport = none;
  json = true;
}

print_recent_lines-last_example :
    print_recent_lines outside config ("a" ∷ "b" ∷ "c" ∷ []) ≡ "c" ∷ []
unfolding emit_line
print_recent_lines-last_example = print_recent_lines-last outside config ("a" ∷ "b" ∷ "c" ∷ [])
