-- ===== src/Config/Print.antt =====
-- A file that writes a configuration out, and what `load` makes of it.
use simple_snmpd.Base.{◌<◌, ◌≡◌, refl, ap, ◌∙◌, true, some, List, [], ◌∷◌, Bytes, All}
use simple_snmpd.Base.Text.{chars}
use simple_snmpd.Config.Decimal.{decimal}
use simple_snmpd.Config.{SnmpConfig, read_lines, load}
use simple_snmpd.Config.Ranges.{IsValid}
use simple_snmpd.Config.Lines.{Lacks, as_text, load-lines}
use simple_snmpd.Config.Settings.{IsWord, setting}
use simple_snmpd.Config.Keys.{
  truth, is_plain, decimal-words, level-words, truth-words, named, port_line, trap_port_line,
  max_connections_line, timeout_seconds_line, community_line, log_level_line, enable_ipv6_line,
  enable_trap_line,
}

-- The settings, a line each.
unfoldable pub print_config : SnmpConfig → List Bytes
print_config c =
    setting (chars "port") (decimal c.port)
    ∷ setting (chars "community") c.community
    ∷ setting (chars "max_connections") (decimal c.max_connections)
    ∷ setting (chars "timeout_seconds") (decimal c.timeout_seconds)
    ∷ setting (chars "log_level") c.log_level
    ∷ setting (chars "enable_ipv6") (truth c.enable_ipv6)
    ∷ setting (chars "enable_trap") (truth c.enable_trap)
    ∷ setting (chars "trap_port") (decimal c.trap_port)
    ∷ []

-- A configuration that can be written: in the ranges, the counts in the range of `int`, and the
-- community without blanks and `#`.
pub record IsPrintable (c : SnmpConfig) : Type 0 where
  pub in_range : IsValid c
  pub max_connections_int : c.max_connections < 2147483648
  pub timeout_seconds_int : c.timeout_seconds < 2147483648
  pub community_words : All IsWord c.community

print_config-lines : (c : SnmpConfig) → IsPrintable c → All (Lacks 10) (print_config c)
unfolding print_config is_plain
print_config-lines c p = (
  named (chars "port") _ refl (decimal-words c.port),
  (
    named (chars "community") _ refl p.community_words,
    (
      named (chars "max_connections") _ refl (decimal-words c.max_connections),
      (
        named (chars "timeout_seconds") _ refl (decimal-words c.timeout_seconds),
        (
          named (chars "log_level") _ refl (level-words c.log_level p.in_range.log_level_known).0,
          (
            named (chars "enable_ipv6") _ refl (truth-words c.enable_ipv6),
            (
              named (chars "enable_trap") _ refl (truth-words c.enable_trap),
              (named (chars "trap_port") _ refl (decimal-words c.trap_port), tt),
            ),
          ),
        ),
      ),
    ),
  ),
)

read_lines-print_config :
    (c before : SnmpConfig) → IsPrintable c → read_lines (print_config c) before ≡ c
unfolding read_lines print_config
read_lines-print_config c before p =
    let v = p.in_range in
    let l1 = λ (d : SnmpConfig). port_line c.port d v.port_u16 in
    let l2 = λ (d : SnmpConfig). community_line c.community d p.community_words in
    let l3 = λ (d : SnmpConfig). max_connections_line c.max_connections d p.max_connections_int in
    let l4 = λ (d : SnmpConfig). timeout_seconds_line c.timeout_seconds d p.timeout_seconds_int in
    let l5 = λ (d : SnmpConfig). log_level_line c.log_level d v.log_level_known in
    let l6 = λ (d : SnmpConfig). enable_ipv6_line c.enable_ipv6 d in
    let l7 = λ (d : SnmpConfig). enable_trap_line c.enable_trap d in
    let l8 = λ (d : SnmpConfig). trap_port_line c.trap_port d v.trap_port_u16 in
    simp (l1, l2, l3, l4, l5, l6, l7, l8)

-- `load` reads back every configuration whose numbers are in the ranges of their types, the counts
-- in that of `int`, whose log level is one of the five words and whose community has no blank and
-- no `#`: on the file with a line `key=value` for each setting it returns true with that very
-- configuration, whatever the settings were before.
pub load-print_config :
    (c before : SnmpConfig)
    → IsPrintable c
    → load (some (as_text (print_config c))) before ≡ (true, c)
load-print_config c before p =
    load-lines (print_config c) before (print_config-lines c p)
    ∙ ap (λ r. (true, r)) (read_lines-print_config c before p)
