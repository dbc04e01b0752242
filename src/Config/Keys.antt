-- ===== src/Config/Keys.antt =====
-- Each setting, written out as a line, is read as it was meant.
use simple_snmpd.Base.{
  ℕ, ◌%◌, ◌<◌, ◌≡◌, ◌⊎◌, inl, inr, refl, sym, subst, ◌∙◌, Bool, true, false, ◌||◌, ◌&&◌, not, [],
  ◌∷◌, map, Bytes, All, All-weaken, ◌==◌, arith,
}
use simple_snmpd.Base.Text.{chars, same, same_sound, tolower}
use simple_snmpd.Config.Decimal.{IsDigit, decimal, decimal-digits, stoi-decimal}
use simple_snmpd.Config.{
  SnmpConfig, is_level, is_on, parse_config_value, is_blank, set_port, set_community,
  set_max_connections, set_timeout_seconds, set_log_level, set_ipv6_enabled, set_trap_enabled,
  set_trap_port, read_line,
}
use simple_snmpd.Config.Lines.{Lacks}
use simple_snmpd.Config.Settings.{IsWord, setting, setting-words, read_line-setting}

abbrev pub truth : Bool → Bytes
truth true = chars "true"
truth false = chars "false"

digit-IsWord : (b : ℕ) → IsDigit b → IsWord b
digit-IsWord b h = (ground arith, ground arith)

pub decimal-words : (n : ℕ) → All IsWord (decimal n)
decimal-words n = All-weaken IsDigit digit-IsWord (decimal n) (decimal-digits n)

-- A test for fixed texts: no blank, no `#` and no `=`.
unfoldable pub is_plain : Bytes → Bool
is_plain [] = true
is_plain (b ∷ bs) = (not (is_blank b) && not (b == b'#') && not (b == b'=')) && is_plain bs

pub is_plain-words : (xs : Bytes) → is_plain xs ≡ true → All IsWord xs
unfolding is_plain
is_plain-words [] h = tt
is_plain-words (x ∷ xs) h = ((ground arith, ground arith), is_plain-words xs (ground arith))

is_plain-Lacks : (xs : Bytes) → is_plain xs ≡ true → Lacks b'=' xs
unfolding is_plain
is_plain-Lacks [] h = tt
is_plain-Lacks (x ∷ xs) h = (ground arith, is_plain-Lacks xs (ground arith))

pub plain_line :
    (key value : Bytes) (c : SnmpConfig)
    → is_plain key ≡ true
    → All IsWord value
    → read_line (setting key value) c ≡ (parse_config_value key value c).1
plain_line key value c k v =
    read_line-setting key value c (is_plain-words key k) (is_plain-Lacks key k) v

pub truth-words : (b : Bool) → All IsWord (truth b)
unfolding is_plain
truth-words true = is_plain-words (chars "true") refl
truth-words false = is_plain-words (chars "false") refl

or-cases : (a b : Bool) → (a || b) ≡ true → (a ≡ true) ⊎ (b ≡ true)
or-cases true b h = inl refl
or-cases false b h = inr h

abbrev LevelWords : Bytes → Type 0
LevelWords level = All IsWord level × (map tolower level ≡ level)

known :
    (level word : Bytes) (others : Bool)
    → (others || same level word) ≡ true
    → LevelWords word
    → (others ≡ true → LevelWords level)
    → LevelWords level
known level word others h w k = elim (or-cases others (same level word) h) [
  | inl e ↦ k e
  | inr e ↦ subst LevelWords (sym (same_sound level word e)) w
]

pub level-words : (level : Bytes) → is_level level ≡ true → LevelWords level
unfolding is_level is_plain
level-words level h =
    known level (chars "fatal") _ h (is_plain-words (chars "fatal") refl, refl)
      λ h1.
        known level (chars "error") _ h1 (is_plain-words (chars "error") refl, refl)
          λ h2.
            known level (chars "warning") _ h2 (is_plain-words (chars "warning") refl, refl)
              λ h3.
                known level (chars "info") _ h3 (is_plain-words (chars "info") refl, refl)
                  λ h4.
                    subst LevelWords (sym (same_sound level (chars "debug") h4))
                      (is_plain-words (chars "debug") refl, refl)

pub port_line :
    (n : ℕ) (c : SnmpConfig)
    → n < 65536
    → read_line (setting (chars "port") (decimal n)) c ≡ set_port n c
unfolding parse_config_value is_plain
port_line n c h =
    let low : n % 65536 ≡ n = omega arith in
    plain_line (chars "port") (decimal n) c refl (decimal-words n)
    ∙ rw (stoi-decimal n (omega arith), low)

pub trap_port_line :
    (n : ℕ) (c : SnmpConfig)
    → n < 65536
    → read_line (setting (chars "trap_port") (decimal n)) c ≡ set_trap_port n c
unfolding parse_config_value is_plain
trap_port_line n c h =
    let low : n % 65536 ≡ n = omega arith in
    plain_line (chars "trap_port") (decimal n) c refl (decimal-words n)
    ∙ rw (stoi-decimal n (omega arith), low)

pub max_connections_line :
    (n : ℕ) (c : SnmpConfig)
    → n < 2147483648
    → read_line (setting (chars "max_connections") (decimal n)) c ≡ set_max_connections n c
unfolding parse_config_value is_plain
max_connections_line n c h =
    let low : n % 4294967296 ≡ n = omega arith in
    plain_line (chars "max_connections") (decimal n) c refl (decimal-words n)
    ∙ rw (stoi-decimal n h, low)

pub timeout_seconds_line :
    (n : ℕ) (c : SnmpConfig)
    → n < 2147483648
    → read_line (setting (chars "timeout_seconds") (decimal n)) c ≡ set_timeout_seconds n c
unfolding parse_config_value is_plain
timeout_seconds_line n c h =
    let low : n % 4294967296 ≡ n = omega arith in
    plain_line (chars "timeout_seconds") (decimal n) c refl (decimal-words n)
    ∙ rw (stoi-decimal n h, low)

pub community_line :
    (community : Bytes) (c : SnmpConfig)
    → All IsWord community
    → read_line (setting (chars "community") community) c ≡ set_community community c
unfolding parse_config_value is_plain
community_line community c h = plain_line (chars "community") community c refl h

pub log_level_line :
    (level : Bytes) (c : SnmpConfig)
    → is_level level ≡ true
    → read_line (setting (chars "log_level") level) c ≡ set_log_level level c
unfolding parse_config_value is_plain
log_level_line level c h =
    let (words, lower) = level-words level h in
    plain_line (chars "log_level") level c refl words ∙ rw (lower, h)

pub enable_ipv6_line :
    (on : Bool) (c : SnmpConfig)
    → read_line (setting (chars "enable_ipv6") (truth on)) c ≡ set_ipv6_enabled on c
unfolding parse_config_value is_plain is_on
enable_ipv6_line true c = plain_line (chars "enable_ipv6") (chars "true") c refl (truth-words true)
enable_ipv6_line false c =
    plain_line (chars "enable_ipv6") (chars "false") c refl (truth-words false)

pub enable_trap_line :
    (on : Bool) (c : SnmpConfig)
    → read_line (setting (chars "enable_trap") (truth on)) c ≡ set_trap_enabled on c
unfolding parse_config_value is_plain is_on
enable_trap_line true c = plain_line (chars "enable_trap") (chars "true") c refl (truth-words true)
enable_trap_line false c =
    plain_line (chars "enable_trap") (chars "false") c refl (truth-words false)

newline-free : (line : Bytes) → All IsWord line → Lacks 10 line
newline-free line h = All-weaken IsWord (λ b w. ground arith) line h

pub named :
    (name value : Bytes) → is_plain name ≡ true → All IsWord value → Lacks 10 (setting name value)
named name value n v =
    newline-free (setting name value) (setting-words name value (is_plain-words name n) v)
