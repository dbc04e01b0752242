-- ===== src/ErrorHandler.antt =====
-- `ErrorHandler`, with the logger that it writes to.
pub mod Counters
mod Tests
use simple_snmpd.Base.{ℕ, ◌+◌, ◌-◌, ◌++◌, Bytes, length, replicate, leb, if◌then◌else◌, u32}
use simple_snmpd.Base.Text.{chars}
use simple_snmpd.Config.Decimal.{decimal}
use simple_snmpd.Logger.{Logger, LogLevel, debug, info, warning, error, rank, to_cerr, log}

pub record ErrorHandler : Type 0 where
  pub error_count : ℕ  -- uint32_t
  pub warning_count : ℕ  -- uint32_t
  pub logger : Logger

abbrev pub new_handler : Logger → ErrorHandler
new_handler logger = record { error_count = 0; warning_count = 0; logger = logger }

-- `std::setfill('0') << std::setw(6)`
abbrev padded : ℕ → Bytes
padded n = replicate (6 - length (decimal n)) b'0' ++ decimal n

abbrev place : Bytes → ℕ → Bytes → Bytes
place file line message = chars "(" ++ file ++ chars ":" ++ decimal line ++ chars ") " ++ message

-- The entry, and a second line on `cerr` at the level `debug`.
abbrev report : LogLevel → Bytes → Bytes → Logger → Logger
report level timestamp text logger =
    let logged = log level timestamp text logger in
    if leb (rank logged.level) (rank debug) then to_cerr text logged else logged

unfoldable pub handle_error : Bytes → Bytes → ℕ → Bytes → ErrorHandler → ErrorHandler
handle_error message file line timestamp h =
    let count = u32 (h.error_count + 1) in
    let text = chars "ERROR [" ++ padded count ++ chars "] " ++ place file line message in
    record h { error_count = count; logger = report error timestamp text h.logger }

unfoldable pub handle_warning : Bytes → Bytes → ℕ → Bytes → ErrorHandler → ErrorHandler
handle_warning message file line timestamp h =
    let count = u32 (h.warning_count + 1) in
    let text = chars "WARNING [" ++ padded count ++ chars "] " ++ place file line message in
    record h { warning_count = count; logger = report warning timestamp text h.logger }

unfoldable pub handle_info : Bytes → Bytes → ℕ → Bytes → ErrorHandler → ErrorHandler
handle_info message file line timestamp h = record h {
  logger = log info timestamp (chars "INFO " ++ place file line message) h.logger;
}

unfoldable pub handle_debug : Bytes → Bytes → ℕ → Bytes → ErrorHandler → ErrorHandler
handle_debug message file line timestamp h = record h {
  logger = log debug timestamp (chars "DEBUG " ++ place file line message) h.logger;
}

unfoldable pub reset_counters : ErrorHandler → ErrorHandler
reset_counters h = record h { error_count = 0; warning_count = 0 }

unfoldable pub get_summary : ErrorHandler → Bytes
get_summary h =
    chars "Error Summary: "
    ++ decimal h.error_count
    ++ chars " errors, "
    ++ decimal h.warning_count
    ++ chars " warnings"
