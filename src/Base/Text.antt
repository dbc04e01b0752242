-- ===== src/Base/Text.antt =====
-- Texts as lists of bytes: literals, comparison, search, and the trimming of the C++ sources.
use Prim.Native.Nat.{ℕ, suc, ◌+◌}
use Prim.Native.Char.{code}
use Prim.Native.String.{String}
use mathlib.Core.Path.{◌≡◌, refl}
use mathlib.Core.Bool.{Bool, true, false, ◌&&◌}
use mathlib.Core.Option.{Option, none, some}
use mathlib.Core.List.{[], ◌∷◌}
use native.Mathlib.Omega.{arith}
use simple_snmpd.Base.Tests.{Bytes, ◌==◌, leb, if◌then◌else◌}

-- The bytes of an ASCII literal.
abbrev pub chars : String → Bytes
chars String.[] = []
chars (String.◌∷◌ c s) = code c ∷ chars s

-- `a == b` on `std::string`.
abbrev pub same : Bytes → Bytes → Bool
same [] [] = true
same [] (y ∷ ys) = false
same (x ∷ xs) [] = false
same (x ∷ xs) (y ∷ ys) = x == y && same xs ys

pub same_refl : (xs : Bytes) → same xs xs ≡ true
same_refl [] = refl
same_refl (x ∷ xs) = ground (arith, same_refl xs)

pub same_sound : (xs ys : Bytes) → same xs ys ≡ true → xs ≡ ys
same_sound [] [] h = refl
same_sound [] (y ∷ ys) h = ground arith
same_sound (x ∷ xs) [] h = ground arith
same_sound (x ∷ xs) (y ∷ ys) h = ground (arith, same_sound xs ys)

-- `find(c)`, with `none` for `npos`.
abbrev pub find : ℕ → Bytes → Option ℕ
find c [] = none
find c (x ∷ xs) =
    let rest = find c xs in
    if x == c then some 0 else elim rest [ none ↦ none | some i ↦ some (suc i) ]

-- `s.erase(0, s.find_first_not_of(set))`: with no such byte, `npos` erases all of it.
abbrev pub trim_front : (ℕ → Bool) → Bytes → Bytes
trim_front blank [] = []
trim_front blank (x ∷ xs) = let rest = trim_front blank xs in if blank x then rest else x ∷ xs

-- `s.erase(s.find_last_not_of(set) + 1)`: with no such byte, `npos + 1` is 0.
abbrev pub keep_byte : (ℕ → Bool) → ℕ → Bytes → Bytes
keep_byte blank x [] = if blank x then [] else x ∷ []
keep_byte blank x (y ∷ ys) = x ∷ y ∷ ys

abbrev pub trim_back : (ℕ → Bool) → Bytes → Bytes
trim_back blank [] = []
trim_back blank (x ∷ xs) = keep_byte blank x (trim_back blank xs)

abbrev pub trim : (ℕ → Bool) → Bytes → Bytes
trim blank s = trim_back blank (trim_front blank s)

-- `::tolower` in the C locale.
abbrev pub tolower : ℕ → ℕ
tolower c = if leb b'A' c && leb c b'Z' then c + 32 else c
