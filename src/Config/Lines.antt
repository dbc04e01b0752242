-- ===== src/Config/Lines.antt =====
-- How a file falls into lines, and a line into a setting and a comment.
use simple_snmpd.Base.{
  ℕ, ◌≡◌, refl, ap, sym, ◌∙◌, true, false, none, some, List, [], ◌∷◌, ◌++◌, Bytes, take-append,
  length, All, ◌==◌, arith, append_assoc, append-nil,
}
use simple_snmpd.Base.Text.{find}
use simple_snmpd.Config.{SnmpConfig, strip_comment, read_line, read_lines, getlines, load}

-- The lines, each with its newline.
abbrev pub as_text : List Bytes → Bytes
as_text [] = []
as_text (line ∷ lines) = line ++ 10 ∷ as_text lines

-- Without the byte `b`.
abbrev pub Lacks : ℕ → Bytes → Type 0
Lacks b = All (λ x. (x == b) ≡ false)

pub find-Lacks : (b : ℕ) (xs ys : Bytes) → Lacks b xs → find b (xs ++ b ∷ ys) ≡ some (length xs)
find-Lacks b [] ys h = ground arith
find-Lacks b (x ∷ xs) ys (h, hs) = rw (h, find-Lacks b xs ys hs)

pub find-none : (b : ℕ) (xs : Bytes) → Lacks b xs → find b xs ≡ none
find-none b [] h = refl
find-none b (x ∷ xs) (h, hs) = rw (h, find-none b xs hs)

getlines-line :
    (line rest : Bytes) → Lacks 10 line → getlines (line ++ 10 ∷ rest) ≡ line ∷ getlines rest
unfolding getlines
getlines-line [] rest h = refl
getlines-line (b ∷ bs) rest (h, hs) = rw (h, getlines-line bs rest hs)

getlines-as_text :
    (lines : List Bytes) (rest : Bytes)
    → All (Lacks 10) lines
    → getlines (as_text lines ++ rest) ≡ lines ++ getlines rest
getlines-as_text [] rest h = refl
getlines-as_text (line ∷ lines) rest (h, hs) =
    ap getlines (append_assoc line (10 ∷ as_text lines) rest)
    ∙ getlines-line line (as_text lines ++ rest) h
    ∙ ap (◌∷◌ line) (getlines-as_text lines rest hs)

read_lines-append :
    (xs ys : List Bytes) (c : SnmpConfig)
    → read_lines (xs ++ ys) c ≡ read_lines ys (read_lines xs c)
unfolding read_lines
read_lines-append [] ys c = refl
read_lines-append (x ∷ xs) ys c = read_lines-append xs ys (read_line x c)

-- A file is read line by line, in order, each line on the settings that the lines before it left:
-- `load` on lines that are each ended by a newline, and a rest, is `load` on the rest on the
-- settings behind those lines, and it returns true.
load-as_text :
    (lines : List Bytes) (rest : Bytes) (c : SnmpConfig)
    → All (Lacks 10) lines
    → load (some (as_text lines ++ rest)) c ≡ load (some rest) (read_lines lines c)
unfolding load
load-as_text lines rest c h =
    rw (getlines-as_text lines rest h, read_lines-append lines (getlines rest) c)

pub load-lines :
    (lines : List Bytes) (c : SnmpConfig)
    → All (Lacks 10) lines
    → load (some (as_text lines)) c ≡ (true, read_lines lines c)
unfolding load
load-lines lines c h =
    let whole = getlines-as_text lines [] h in
    let kept = append-nil (as_text lines) in
    let all : getlines (as_text lines) ≡ lines =
      ap getlines (sym kept) ∙ whole ∙ unfold getlines in append-nil lines in
    ap (λ ls. (true, read_lines ls c)) all

-- A comment is no part of a line: what stands behind the first `#` of it changes nothing.
read_line-comment :
    (line comment : Bytes) (c : SnmpConfig)
    → Lacks b'#' line
    → read_line (line ++ b'#' ∷ comment) c ≡ read_line line c
unfolding read_line
read_line-comment line comment c h =
    let cut = find-Lacks b'#' line comment h in
    let whole = find-none b'#' line h in
    rw (cut, whole, take-append line (b'#' ∷ comment), strip_comment)
