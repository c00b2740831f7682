-- ===== src/Logs.antt =====
-- rust/src/logs.rs: which lines of the log file `mcpway logs tail` prints first. The file's lines,
-- the parser of records and how numbers and upper case print are parameters.
pub mod Window
mod Tests
use mcpway.Base.{ℕ, String, Bool, true, Option, none, some, ◌==◌, ◌&&◌, if◌then◌else◌}
use mcpway.Base.Text.{◌++◌}
use mcpway.Base.Dict.{Dict}

-- `StoredLogRecord` of rust/src/support/log_store.rs
pub record StoredLogRecord : Type 0 where
  pub ts_utc : ℕ
  pub level : String
  pub target : String
  pub message : String
  pub mode : String
  pub transport : String
  pub fields : Dict String

pub data LogsLevel : Type 0 where
  debug info warn error : LogsLevel

pub data LogsTransport : Type 0 where
  stdio sse ws streamable_http grpc connect : LogsTransport

pub record LogsTailConfig : Type 0 where
  pub file : Option String
  pub follow : Bool
  pub lines : ℕ
  pub level : Option LogsLevel
  pub transport : Option LogsTransport
  pub json : Bool

pub record Outside : Type 0 where
  pub parse_record : String → Option StoredLogRecord
  pub print_number : ℕ → String
  pub to_uppercase : String → String

abbrev level_name : LogsLevel → String
level_name debug = "debug"
level_name info = "info"
level_name warn = "warn"
level_name error = "error"

-- `LogsTransport::as_str`
abbrev transport_name : LogsTransport → String
transport_name stdio = "stdio"
transport_name sse = "sse"
transport_name ws = "ws"
transport_name streamable_http = "streamable-http"
transport_name grpc = "grpc"
transport_name connect = "connect"

unfoldable pub matches_filters : StoredLogRecord → LogsTailConfig → Bool
matches_filters r config =
    elim config.level [ none ↦ true | some level ↦ r.level == level_name level ]
    && elim config.transport [
      | none ↦ true
      | some transport ↦ r.transport == transport_name transport
    ]

abbrev record_line : Outside → StoredLogRecord → String
record_line outside r =
    "["
    ++ outside.print_number r.ts_utc
    ++ "]["
    ++ outside.to_uppercase r.level
    ++ "]["
    ++ r.mode
    ++ ":"
    ++ r.transport
    ++ "] "
    ++ r.message

-- What is printed for a line, if anything.
unfoldable pub emit_line : Outside → LogsTailConfig → String → Option String
unfolding matches_filters
emit_line outside config line = elim (outside.parse_record line) [
  | none ↦ none
  | some r ↦
      if matches_filters r config
      then some (if config.json then line else record_line outside r)
      else none
]
