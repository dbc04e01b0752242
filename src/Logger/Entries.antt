-- ===== src/Logger/Entries.antt =====
-- What a sequence of entries leaves in the streams.
use simple_snmpd.Base.{
  ℕ, ◌≡◌, refl, ap, ◌∙◌, Bool, true, false, not, ◌&&◌, List, [], ◌∷◌, ◌++◌, append_assoc,
  append-nil, Bytes, Bool-cases, inl, inr, ltb, leb, arith,
}
use simple_snmpd.Logger.{LogLevel, warning, rank, writable, Logger, formatted, log}

pub record Entry : Type 0 where
  pub level : LogLevel
  pub timestamp : Bytes
  pub message : Bytes

unfoldable pub log_all : List Entry → Logger → Logger
log_all [] s = s
log_all (e ∷ es) s = log_all es (log e.level e.timestamp e.message s)

abbrev pub line : Entry → Bytes
line e = formatted e.level e.timestamp e.message

abbrev one_if : Bool → Bytes → List Bytes
one_if true l = l ∷ []
one_if false l = []

-- The lines of the entries that pass a test, in order.
unfoldable pub lines_of : (Entry → Bool) → List Entry → List Bytes
lines_of test [] = []
lines_of test (e ∷ es) = one_if (test e) (line e) ++ lines_of test es

abbrev pub admits : LogLevel → Entry → Bool
admits level e = leb (rank level) (rank e.level)

abbrev pub severe : Entry → Bool
severe e = leb (rank warning) (rank e.level)

-- What a logger has after the entries: each entry from its level on is a line of the file, and of
-- `cerr` from `warning` on, else of `cout`.
abbrev pub with_lines : List Entry → Logger → Logger
with_lines es s = record s {
  cout = s.cout ++ lines_of (λ e. admits s.level e && not (severe e)) es;
  cerr = s.cerr ++ lines_of (λ e. admits s.level e && severe e) es;
  file = s.file ++ lines_of (admits s.level) es;
}

ltb-not : (a b : ℕ) → ltb a b ≡ not (leb b a)
ltb-not a b = ground arith

log_one :
    (e : Entry) (s : Logger)
    → s.initialized ≡ true
    → s.log_file ≡ writable
    → log e.level e.timestamp e.message s ≡ with_lines (e ∷ []) s
unfolding log lines_of
log_one e s ready usable = elim (Bool-cases (admits s.level e)) [
  | inl yes_in ↦ elim (Bool-cases (severe e)) [
    | inl bad ↦ simp (ready, usable, ltb-not, yes_in, bad, append-nil)
    | inr good ↦ simp (ready, usable, ltb-not, yes_in, good, append-nil)
  ]
  | inr out ↦ simp (ready, ltb-not, out, append-nil) (ap (λ b. record s { initialized = b }) ready)
]

with_lines-append :
    (e : Entry) (es : List Entry) (s : Logger)
    → with_lines es (with_lines (e ∷ []) s) ≡ with_lines (e ∷ es) s
unfolding lines_of
with_lines-append e es s = simp (append-nil, append_assoc)

-- On an initialized logger with a file that can be written, any sequence of entries leaves the level
-- as it is and adds, in order and each once, the lines of the entries from that level on to the
-- file, those from `warning` on of these to `cerr` and the others to `cout`.
pub log_all-with_lines :
    (es : List Entry) (s : Logger)
    → s.initialized ≡ true
    → s.log_file ≡ writable
    → log_all es s ≡ with_lines es s
unfolding log_all
log_all-with_lines [] s ready usable = unfold lines_of in simp append-nil
log_all-with_lines (e ∷ es) s ready usable =
    ap (log_all es) (log_one e s ready usable)
    ∙ log_all-with_lines es (with_lines (e ∷ []) s) ready usable
    ∙ with_lines-append e es s

-- A logger that is not initialized ignores every entry.
pub log_all-ignored : (es : List Entry) (s : Logger) → s.initialized ≡ false → log_all es s ≡ s
unfolding log_all log
log_all-ignored [] s idle = refl
log_all-ignored (e ∷ es) s idle = simp idle (log_all-ignored es s idle)
