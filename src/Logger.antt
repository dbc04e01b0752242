-- ===== src/Logger.antt =====
-- `Logger`: the levels, the line of an entry, and the streams that it is written to. The text of the
-- time of an entry is an argument, as are the results of opening the file.
pub mod Entries
pub mod Threads
use simple_snmpd.Base.{
  ℕ, Bool, true, false, not, ◌||◌, List, [], ◌∷◌, ◌++◌, Bytes, ltb, leb, if◌then◌else◌,
}
use simple_snmpd.Base.Text.{chars}

pub data LogLevel : Type 0 where
  debug info warning error fatal : LogLevel

abbrev pub rank : LogLevel → ℕ
rank debug = 0
rank info = 1
rank warning = 2
rank error = 3
rank fatal = 4

-- `std::ofstream`: closed, open, or open and failed, where writes do nothing.
pub data LogFile : Type 0 where
  closed writable broken : LogFile

-- The lines that each stream has received, the oldest first.
pub record Logger : Type 0 where
  pub level : LogLevel
  pub initialized : Bool
  pub log_file : LogFile
  pub cout : List Bytes
  pub cerr : List Bytes
  pub file : List Bytes

abbrev pub new_logger : Logger
new_logger = record {
  level = info;
  initialized = false;
  log_file = closed;
  cout = [];
  cerr = [];
  file = [];
}

abbrev pub to_cerr : Bytes → Logger → Logger
to_cerr line s = record s { cerr = s.cerr ++ line ∷ [] }

abbrev pub to_cout : Bytes → Logger → Logger
to_cout line s = record s { cout = s.cout ++ line ∷ [] }

-- `open` on a stream that has a file fails, and leaves it with that file.
abbrev opened : LogFile → Bool → LogFile
opened closed true = writable
opened closed false = closed
opened writable found = broken
opened broken found = broken

abbrev warn : LogFile → Bytes → Logger → Logger
warn closed path s = to_cerr (chars "Warning: Could not open log file: " ++ path) s
warn writable path s = s
warn broken path s = s

abbrev open_file : Bytes → Bool → Logger → Logger
open_file [] found s = s
open_file (b ∷ bs) found s =
    let log_file = opened s.log_file found in
    warn log_file (b ∷ bs) (record s { log_file = log_file })

unfoldable pub initialize : LogLevel → Bytes → Bool → Logger → Logger
initialize level path found s =
    open_file path found (record s { level = level; initialized = true })

abbrev pub level_str : LogLevel → Bytes
level_str debug = chars "DEBUG"
level_str info = chars "INFO "
level_str warning = chars "WARN "
level_str error = chars "ERROR"
level_str fatal = chars "FATAL"

unfoldable pub formatted : LogLevel → Bytes → Bytes → Bytes
formatted level timestamp message =
    chars "[" ++ timestamp ++ chars "] [" ++ level_str level ++ chars "] " ++ message

abbrev pub write_file : LogFile → Bytes → Logger → Logger
write_file closed line s = s
write_file writable line s = record s { file = s.file ++ line ∷ [] }
write_file broken line s = s

abbrev pub write_console : LogLevel → Bytes → Logger → Logger
write_console level line s =
    if leb (rank warning) (rank level) then to_cerr line s else to_cout line s

-- The test that comes before the lock.
abbrev pub refuses : LogLevel → Logger → Bool
refuses level s = not s.initialized || ltb (rank level) (rank s.level)

unfoldable pub log : LogLevel → Bytes → Bytes → Logger → Logger
log level timestamp message s =
    if refuses level s
    then s
    else write_file s.log_file (formatted level timestamp message)
        (write_console level (formatted level timestamp message) s)

abbrev pub set_level : LogLevel → Logger → Logger
set_level level s = record s { level = level }
