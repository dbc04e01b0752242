-- ===== src/Config/Tests.antt =====
-- Configuration files, and the theorems at concrete settings.
use simple_snmpd.Base.{◌%◌, ◌≡◌, refl, true, not, none, some, [], ◌∷◌, ◌++◌, Bytes, ◌==◌, arith}
use simple_snmpd.Base.Text.{chars}
use simple_snmpd.Config.Number.{pos, negsuc, stoi}
use simple_snmpd.Config.Decimal.{decimal}
use simple_snmpd.Config.{
  SnmpConfig, new_config, set_port, set_max_connections, is_level, is_on, parse_config_value,
  read_line, read_lines, getlines, load,
}
use simple_snmpd.Config.Ranges.{IsValid, load-IsValid}
use simple_snmpd.Config.Lines.{as_text}
use simple_snmpd.Config.Settings.{setting}
use simple_snmpd.Config.Keys.{is_plain, is_plain-words}
use simple_snmpd.Config.Print.{print_config, IsPrintable, load-print_config}
use simple_snmpd.Config.Ports.{load-port}

abbrev file : Bytes
file =
    chars "# agent"
    ++ 10 ∷ chars "  port = 1161  # high"
    ++ 10 ∷ []
    ++ 10 ∷ chars "nonsense"
    ++ 10 ∷ chars "log_level=WARNING"
    ++ 13 ∷ 10 ∷ chars "enable_trap = Yes"

abbrev file_config : SnmpConfig
file_config = record new_config { port = 1161; log_level = chars "warning"; enable_trap = true }

file_loaded : load (some file) new_config ≡ (true, file_config)
unfolding load getlines read_lines read_line parse_config_value is_level is_on stoi
file_loaded = refl

-- A number after blanks, with a sign, before other text; no number; one out of range.
numbers :
    (stoi (chars " +42x") ≡ some (pos 42))
    × (stoi (chars "-1") ≡ some (negsuc 0))
    × (stoi (chars "high") ≡ none)
    × (stoi (chars "2147483648") ≡ none)
unfolding stoi
numbers = (refl, refl, refl, refl)

-- A negative count wraps, and passes the test.
negative_count :
    parse_config_value (chars "max_connections") (chars "-1") new_config
    ≡ (true, set_max_connections 4294967295 new_config)
unfolding parse_config_value stoi
negative_count = refl

valid : IsValid new_config
unfolding is_level
valid = record {
  port_u16 = omega arith;
  trap_port_u16 = omega arith;
  max_connections_u32 = omega arith;
  timeout_seconds_u32 = omega arith;
  log_level_known = refl;
}

load-IsValid_example : IsValid (load (some file) new_config).1
load-IsValid_example = load-IsValid (some file) new_config valid

printable : IsPrintable new_config
unfolding is_plain
printable = record {
  in_range = valid;
  max_connections_int = omega arith;
  timeout_seconds_int = omega arith;
  community_words = is_plain-words (chars "public") refl;
}

load-print_config_example :
    load (some (as_text (print_config new_config))) file_config ≡ (true, new_config)
load-print_config_example = load-print_config new_config file_config printable

load-port_example :
    (parse_config_value (chars "port") (decimal 70000) new_config
      ≡ (not (70000 % 65536 == 0), set_port (70000 % 65536) new_config))
    × (load (some (as_text (setting (chars "port") (decimal 70000) ∷ []))) new_config
        ≡ (true, set_port (70000 % 65536) new_config))
load-port_example = load-port 70000 new_config (omega arith)
