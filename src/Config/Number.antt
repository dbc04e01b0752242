-- ===== src/Config/Number.antt =====
-- `std::stoi` and the conversion of what it returns to an unsigned type.
use simple_snmpd.Base.{
  ℕ, zero, suc, ◌+◌, ◌-◌, ◌*◌, ◌%◌, Bool, ◌&&◌, ◌||◌, Option, none, some, [], ◌∷◌, Bytes, ltb, leb,
  ◌==◌, if◌then◌else◌,
}
use simple_snmpd.Base.Text.{trim_front}

pub data ℤ : Type 0 where
  pos : ℕ → ℤ
  negsuc : ℕ → ℤ

-- `isspace` in the C locale.
abbrev is_space : ℕ → Bool
is_space b = b == 32 || (leb 9 b && leb b 13)

abbrev is_digit : ℕ → Bool
is_digit b = leb b'0' b && leb b b'9'

-- The digits at the front, as far as they go.
abbrev pub magnitude : ℕ → Bytes → ℕ
magnitude n [] = n
magnitude n (b ∷ bs) =
    let rest = magnitude (n * 10 + (b - b'0')) bs in if is_digit b then rest else n

-- No digits: `std::invalid_argument`. Outside the range of `int`: `std::out_of_range`.
abbrev positive : Bytes → Option ℤ
positive [] = none
positive (b ∷ bs) =
    let n = magnitude 0 (b ∷ bs) in
    if is_digit b then (if ltb n 2147483648 then some (pos n) else none) else none

abbrev minus : ℕ → ℤ
minus zero = pos 0
minus (suc n) = negsuc n

abbrev negative : Bytes → Option ℤ
negative [] = none
negative (b ∷ bs) =
    let n = magnitude 0 (b ∷ bs) in
    if is_digit b then (if leb n 2147483648 then some (minus n) else none) else none

abbrev signed : Bytes → Option ℤ
signed [] = none
signed (b ∷ bs) =
    if b == b'-' then negative bs else if b == b'+' then positive bs else positive (b ∷ bs)

unfoldable pub stoi : Bytes → Option ℤ
stoi s = signed (trim_front is_space s)

-- The conversion to an unsigned type of range `m`: the value modulo `m`.
abbrev pub wrap : ℕ → ℤ → ℕ
wrap m (pos n) = n % m
wrap m (negsuc n) = m - 1 - n % m

abbrev pub wrap_u16 : ℤ → ℕ
wrap_u16 = wrap 65536

abbrev pub wrap_u32 : ℤ → ℕ
wrap_u32 = wrap 4294967296
