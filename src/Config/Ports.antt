-- ===== src/Config/Ports.antt =====
-- What becomes of a port outside the range of `uint16_t`.
use simple_snmpd.Base.{ℕ, ◌%◌, ◌<◌, ◌≡◌, refl, ap, ◌∙◌, true, not, some, [], ◌∷◌, ◌==◌, arith}
use simple_snmpd.Base.Text.{chars}
use simple_snmpd.Config.Decimal.{decimal, stoi-decimal}
use simple_snmpd.Config.{
  SnmpConfig, set_port, parse_config_value, bad_port, read_lines, getlines, load,
}
use simple_snmpd.Config.Lines.{as_text, load-lines}
use simple_snmpd.Config.Settings.{setting}
use simple_snmpd.Config.Keys.{plain_line, is_plain, decimal-words, named}

bad_port_lem : (n : ℕ) → not (bad_port (n % 65536)) ≡ not (n % 65536 == 0)
bad_port_lem n = ground arith

port_stored :
    (n : ℕ) (c : SnmpConfig)
    → n < 2147483648
    → parse_config_value (chars "port") (decimal n) c
      ≡ (not (n % 65536 == 0), set_port (n % 65536) c)
unfolding parse_config_value
port_stored n c h = rw (stoi-decimal n h) (ap (λ b. (b, set_port (n % 65536) c)) (bad_port_lem n))

-- A port that is written as any decimal number in the range of `int` is stored modulo 65536, before
-- it is tested: the test refuses it only if that is 0, and never for a number above 65535, and
-- `load` on a file of that one line returns true with the stored port in either case.
pub load-port :
    (n : ℕ) (c : SnmpConfig)
    → n < 2147483648
    → (parse_config_value (chars "port") (decimal n) c
        ≡ (not (n % 65536 == 0), set_port (n % 65536) c))
      × (load (some (as_text (setting (chars "port") (decimal n) ∷ []))) c
          ≡ (true, set_port (n % 65536) c))
unfolding is_plain load getlines read_lines
load-port n c h =
    let line = setting (chars "port") (decimal n) in
    let alone = named (chars "port") (decimal n) refl (decimal-words n) in
    let read = plain_line (chars "port") (decimal n) c refl (decimal-words n) in
    (
      port_stored n c h,
      load-lines (line ∷ []) c (alone, tt)
          ∙ ap (λ d. (true, d)) (read ∙ ap (λ r. r.1) (port_stored n c h)),
    )
