-- ===== src/Packet/Cursor/Steps.antt =====
-- What each step does where the bytes that it reads are known: the rest of the datagram from the
-- offset on is given as an equation.
use simple_snmpd.Base.{
  ℕ, suc, ◌+◌, ◌-◌, ◌*◌, ◌%◌, ◌≤◌, ◌<◌, ◌≡◌, [], ◌∷◌, ◌++◌, Bytes, length, length-append,
  get_elem?-drop, drop, drop-next, length-drop, take-append, ==_refl, IsByte, All, add_size, bit_or,
  arith, le→leb, gt→leb, ap,
}
use native.Mathlib.Nat.{add-zero}
use simple_snmpd.Base.Bits.{bit_or_byte}
use simple_snmpd.Packet.{SnmpPacket}
use simple_snmpd.Packet.Cursor.{
  Cursor, ok, next, expect, require_more, require_room, copy, read_integer,
}

abbrev pub at : ℕ → SnmpPacket → Cursor
at o p = record { offset = o; packet = p }

-- The number that the bytes spell, highest first, in an unsigned type of range `m`.
abbrev pub horner : ℕ → ℕ → Bytes → ℕ
horner m acc [] = acc
horner m acc (b ∷ bs) = horner m ((acc * 256 + b) % m) bs

-- `(acc << 8) | b` is multiplication and addition in the type.
abbrev pub ShiftsIn : ℕ → Type 0
ShiftsIn m = (acc b : ℕ) → IsByte b → bit_or (acc * 256 % m) b % m ≡ (acc * 256 + b) % m

pub shifts_u8 : ShiftsIn 256
shifts_u8 acc b h =
    let e : acc * 256 % 256 ≡ 0 * 256 = omega arith in rw (e, bit_or_byte 0 b h) (omega arith)

pub shifts_u32 : ShiftsIn 4294967296
shifts_u32 acc b h =
    let e : acc * 256 % 4294967296 ≡ acc % 16777216 * 256 = omega arith in
    rw (e, bit_or_byte (acc % 16777216) b h) (omega arith)

module _ (input : Bytes) (short : length input < 9223372036854775808) where
  -- An offset with bytes behind it is inside.
  pub inside :
      (o : ℕ) (xs rest : Bytes)
      → drop o input ≡ xs ++ rest
      → length xs + length rest ≡ length input - o
  inside o xs rest e = omega (arith, length-drop o input, ap length e, length-append xs rest)

  pub next_step :
      (o b : ℕ) (p : SnmpPacket) (rest : Bytes)
      → drop o input ≡ b ∷ rest
      → next input (at o p) ≡ ok b (at (o + 1) p)
  unfolding next
  next_step o b p rest e =
      let f : add_size o 1 ≡ o + 1 = omega (arith, inside o (b ∷ []) rest e) in
      rw (get_elem?-drop input o e, f)

  pub expect_step :
      (o limit tag : ℕ) (p : SnmpPacket) (rest : Bytes)
      → o < limit
      → drop o input ≡ tag ∷ rest
      → expect input limit tag (at o p) ≡ ok tt (at (o + 1) p)
  unfolding expect
  expect_step o limit tag p rest h e =
      let f : add_size o 1 ≡ o + 1 = omega (arith, inside o (tag ∷ []) rest e) in
      rw (gt→leb limit o h, get_elem?-drop input o e, ==_refl tag, f)

  pub require_more_step :
      (o limit : ℕ) (p : SnmpPacket) → o < limit → require_more limit (at o p) ≡ ok tt (at o p)
  unfolding require_more
  require_more_step o limit p h = rw (gt→leb limit o h)

  pub require_room_step :
      (o limit len : ℕ) (p : SnmpPacket)
      → o + len ≤ limit
      → limit ≤ length input
      → require_room limit len (at o p) ≡ ok tt (at o p)
  unfolding require_room
  require_room_step o limit len p h i = rw (le→leb (add_size o len) limit (omega arith))

  pub copy_step :
      (o : ℕ) (xs rest : Bytes) (p : SnmpPacket)
      → o ≤ length input
      → drop o input ≡ xs ++ rest
      → copy input (length xs) (at o p) ≡ ok xs (at (o + length xs) p)
  unfolding copy
  copy_step o xs rest p i e =
      let h : o + length xs ≤ length input = omega (arith, inside o xs rest e) in
      let f : add_size o (length xs) ≡ o + length xs = omega arith in
      rw (le→leb (o + length xs) (length input) h, e, take-append xs rest, f)

  pub read_integer_step :
      (xs : Bytes) (m acc o : ℕ) (p : SnmpPacket) (rest : Bytes)
      → ShiftsIn m
      → All IsByte xs
      → drop o input ≡ xs ++ rest
      → read_integer input m (length xs) acc (at o p) ≡ ok (horner m acc xs) (at (o + length xs) p)
  unfolding read_integer
  read_integer_step [] m acc o p rest shifts h e = rw add-zero
  read_integer_step (b ∷ bs) m acc o p rest shifts (hb, h) e =
      let f : (o + 1) + length bs ≡ o + suc (length bs) = omega arith in
      let here = drop-next input o b (bs ++ rest) e in
      rw (next_step o b p (bs ++ rest) e, shifts acc b hb, ← f)
        (read_integer_step bs m ((acc * 256 + b) % m) (o + 1) p rest shifts h here)
