-- ===== src/Config/Settings.antt =====
-- A setting that is written out is read as it was meant.
use simple_snmpd.Base.{
  ℕ, ◌+◌, ◌≡◌, refl, ap, subst, ◌∙◌, Bool, false, some, [], ◌∷◌, ◌++◌, Bytes, All, All-append,
  All-weaken, drop-next, take, drop, length, take-append, drop-append, ◌==◌, arith,
}
use simple_snmpd.Base.Text.{find, trim, trim_front, trim_back, keep_byte}
use simple_snmpd.Config.{
  SnmpConfig, parse_config_value, is_blank, is_space_or_tab, strip_comment, read_setting, read_line,
}
use simple_snmpd.Config.Lines.{Lacks, find-Lacks, find-none}

-- No blank, and no start of a comment.
abbrev pub IsWord : ℕ → Type 0
IsWord b = (is_blank b ≡ false) × ((b == b'#') ≡ false)

trim-words : (blank : ℕ → Bool) (xs : Bytes) → All (λ b. blank b ≡ false) xs → trim blank xs ≡ xs
trim-words blank xs h = ap (trim_back blank) (front xs h) ∙ back xs h
  where
    front : (ys : Bytes) → All (λ b. blank b ≡ false) ys → trim_front blank ys ≡ ys
    front [] h = refl
    front (y ∷ ys) (h, hs) = rw h

    keep : (y : ℕ) (ys : Bytes) → blank y ≡ false → keep_byte blank y ys ≡ y ∷ ys
    keep y [] h = rw h
    keep y (z ∷ zs) h = refl

    back : (ys : Bytes) → All (λ b. blank b ≡ false) ys → trim_back blank ys ≡ ys
    back [] h = refl
    back (y ∷ ys) (h, hs) = ap (keep_byte blank y) (back ys hs) ∙ keep y ys h

read_setting-found :
    (line : Bytes) (i : ℕ) (c : SnmpConfig)
    → find b'=' line ≡ some i
    → read_setting line c
      ≡ (parse_config_value
          (trim is_space_or_tab (take i line))
          (trim is_space_or_tab (drop (i + 1) line))
          c).1
read_setting-found [] i c e = cc
read_setting-found (b ∷ bs) i c e = rw (e, read_setting)

abbrev pub setting : Bytes → Bytes → Bytes
setting key value = key ++ b'=' ∷ value

pub setting-words :
    (key value : Bytes) → All IsWord key → All IsWord value → All IsWord (setting key value)
setting-words key value k v = All-append IsWord key (b'=' ∷ value) k ((refl, refl), v)

-- A line `key=value`, without blanks or comments and with no `=` in the key, is read as the setting
-- of that key to that value.
pub read_line-setting :
    (key value : Bytes) (c : SnmpConfig)
    → All IsWord key
    → Lacks b'=' key
    → All IsWord value
    → read_line (setting key value) c ≡ (parse_config_value key value c).1
unfolding read_line
read_line-setting key value c k e v =
    let line = setting key value in
    let words = setting-words key value k v in
    let whole = find-none b'#' line (All-weaken IsWord (λ b w. w.1) line words) in
    let trimmed = trim-words is_blank line (All-weaken IsWord (λ b w. w.0) line words) in
    let found = find-Lacks b'=' key value e in
    let rest : drop (length key + 1) line ≡ value = drop-next line (length key) b'=' value (
      subst (λ n. drop n line ≡ b'=' ∷ value) (omega arith)
        (drop-append key line 0 (b'=' ∷ value) refl)) in
    let tab : (b : ℕ) → IsWord b → is_space_or_tab b ≡ false = λ b w. ground arith in
    let left = trim-words is_space_or_tab key (All-weaken IsWord tab key k) in
    let right = trim-words is_space_or_tab value (All-weaken IsWord tab value v) in
    rw (
      whole,
      strip_comment,
      trimmed,
      read_setting-found line (length key) c found,
      take-append key (b'=' ∷ value),
      rest,
      left,
      right,
    )
