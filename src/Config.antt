-- ===== src/Config.antt =====
-- `SNMPConfig`: the settings, and the reader of the configuration file. Log lines are not modelled.
pub mod Number
pub mod Decimal
pub mod Ranges
pub mod Lines
pub mod Settings
pub mod Keys
pub mod Print
pub mod Ports
mod Tests
use simple_snmpd.Base.{
  ℕ, ◌+◌, Bool, true, false, not, ◌||◌, Option, none, some, List, [], ◌∷◌, map, Bytes, take, drop,
  ltb, ◌==◌, if◌then◌else◌,
}
use simple_snmpd.Base.Text.{chars, same, find, trim, tolower}
use simple_snmpd.Config.Number.{ℤ, stoi, wrap_u16, wrap_u32}

pub record SnmpConfig : Type 0 where
  pub port : ℕ  -- uint16_t
  pub community : Bytes
  pub max_connections : ℕ  -- uint32_t
  pub timeout_seconds : ℕ  -- uint32_t
  pub log_level : Bytes
  pub enable_ipv6 : Bool
  pub enable_trap : Bool
  pub trap_port : ℕ  -- uint16_t

abbrev pub new_config : SnmpConfig
new_config = record {
  port = 161;
  community = chars "public";
  max_connections = 100;
  timeout_seconds = 30;
  log_level = chars "info";
  enable_ipv6 = true;
  enable_trap = false;
  trap_port = 162;
}

-- The setters.
abbrev pub set_port : ℕ → SnmpConfig → SnmpConfig
set_port port c = record c { port = port }

abbrev pub set_community : Bytes → SnmpConfig → SnmpConfig
set_community community c = record c { community = community }

abbrev pub set_max_connections : ℕ → SnmpConfig → SnmpConfig
set_max_connections n c = record c { max_connections = n }

abbrev pub set_timeout_seconds : ℕ → SnmpConfig → SnmpConfig
set_timeout_seconds n c = record c { timeout_seconds = n }

abbrev pub set_log_level : Bytes → SnmpConfig → SnmpConfig
set_log_level level c = record c { log_level = level }

abbrev pub set_ipv6_enabled : Bool → SnmpConfig → SnmpConfig
set_ipv6_enabled on c = record c { enable_ipv6 = on }

abbrev pub set_trap_enabled : Bool → SnmpConfig → SnmpConfig
set_trap_enabled on c = record c { enable_trap = on }

abbrev pub set_trap_port : ℕ → SnmpConfig → SnmpConfig
set_trap_port port c = record c { trap_port = port }

-- The two tests of a port, on the `uint16_t` that it is stored in, and that of a count.
abbrev bad_port : ℕ → Bool
bad_port port = ltb port 1 || ltb 65535 port

abbrev bad_count : ℕ → Bool
bad_count n = ltb n 1

-- The number is stored, and only then tested. `none` is an exception of `std::stoi`.
abbrev store_port : Option ℤ → (ℕ → SnmpConfig → SnmpConfig) → SnmpConfig → Bool × SnmpConfig
store_port none store c = (false, c)
store_port (some z) store c = (not (bad_port (wrap_u16 z)), store (wrap_u16 z) c)

abbrev store_count : Option ℤ → (ℕ → SnmpConfig → SnmpConfig) → SnmpConfig → Bool × SnmpConfig
store_count none store c = (false, c)
store_count (some z) store c = (not (bad_count (wrap_u32 z)), store (wrap_u32 z) c)

unfoldable pub is_level : Bytes → Bool
is_level level =
    same level (chars "debug")
    || same level (chars "info")
    || same level (chars "warning")
    || same level (chars "error")
    || same level (chars "fatal")

abbrev store_level : Bytes → SnmpConfig → Bool × SnmpConfig
store_level level c = if is_level level then (true, set_log_level level c) else (false, c)

unfoldable pub is_on : Bytes → Bool
is_on val = same val (chars "true") || same val (chars "1") || same val (chars "yes")

unfoldable pub parse_config_value : Bytes → Bytes → SnmpConfig → Bool × SnmpConfig
parse_config_value key value c =
    if same key (chars "port")
    then store_port (stoi value) set_port c
    else if same key (chars "community")
    then (true, set_community value c)
    else if same key (chars "max_connections")
    then store_count (stoi value) set_max_connections c
    else if same key (chars "timeout_seconds")
    then store_count (stoi value) set_timeout_seconds c
    else if same key (chars "log_level")
    then store_level (map tolower value) c
    else if same key (chars "enable_ipv6")
    then (true, set_ipv6_enabled (is_on (map tolower value)) c)
    else if same key (chars "enable_trap")
    then (true, set_trap_enabled (is_on (map tolower value)) c)
    else if same key (chars "trap_port")
    then store_port (stoi value) set_trap_port c
    else (false, c)

-- " \t\r\n" and " \t"
abbrev pub is_blank : ℕ → Bool
is_blank b = b == 32 || b == 9 || b == 13 || b == 10

abbrev pub is_space_or_tab : ℕ → Bool
is_space_or_tab b = b == 32 || b == 9

abbrev pub strip_comment : Bytes → Bytes
strip_comment line = elim (find b'#' line) [ none ↦ line | some i ↦ take i line ]

-- What is left of a line. The result of `parse_config_value` is only logged.
abbrev pub read_setting : Bytes → SnmpConfig → SnmpConfig
read_setting [] c = c
read_setting (b ∷ bs) c = elim (find b'=' (b ∷ bs)) [
  | none ↦ c
  | some i ↦
      (parse_config_value (trim is_space_or_tab (take i (b ∷ bs)))
        (trim is_space_or_tab (drop (i + 1) (b ∷ bs))) c).1
]

-- A round of the loop of `load`.
unfoldable pub read_line : Bytes → SnmpConfig → SnmpConfig
read_line line c = read_setting (trim is_blank (strip_comment line)) c

unfoldable pub read_lines : List Bytes → SnmpConfig → SnmpConfig
read_lines [] c = c
read_lines (line ∷ lines) c = read_lines lines (read_line line c)

-- `std::getline` until it fails: a newline at the end of the file starts no line.
abbrev prepend : ℕ → List Bytes → List Bytes
prepend b [] = (b ∷ []) ∷ []
prepend b (line ∷ lines) = (b ∷ line) ∷ lines

unfoldable pub getlines : Bytes → List Bytes
getlines [] = []
getlines (b ∷ bs) = let rest = getlines bs in if b == 10 then [] ∷ rest else prepend b rest

-- On the contents of the file, or `none` where it cannot be opened.
unfoldable pub load : Option Bytes → SnmpConfig → Bool × SnmpConfig
load none c = (false, c)
load (some text) c = (true, read_lines (getlines text) c)
