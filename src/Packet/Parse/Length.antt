-- ===== src/Packet/Parse/Length.antt =====
-- `parse_length` against the encoding of lengths in BER: one byte below 128, or a byte 128 + k and
-- then k bytes, highest first, with k from 1 to 4.
use simple_snmpd.Base.{
  ℕ, suc, ◌+◌, ◌*◌, ◌%◌, ◌≤◌, ◌<◌, ◌≡◌, ◌⊎◌, ◌||◌, true, false, [], ◌∷◌, ◌++◌, Bytes, length, drop,
  drop-next, All, IsByte, ltb, ◌==◌, bit_and, bit_or, size_mod, arith,
}
use native.Mathlib.Nat.{add-zero}
use simple_snmpd.Base.Bits.{top_bit, low_bits, bit_or_byte}
use simple_snmpd.Packet.{SnmpPacket}
use simple_snmpd.Packet.Cursor.{ok, reject}
use simple_snmpd.Packet.Cursor.Steps.{at, next_step, require_more_step, horner}
use simple_snmpd.Packet.Parse.{length_loop, parse_length}

pub shifts_size :
    (len b : ℕ) → IsByte b → bit_or (len * 256 % size_mod) b ≡ (len * 256 + b) % size_mod
shifts_size len b h =
    let e : len * 256 % size_mod ≡ len % 72057594037927936 * 256 = omega arith in
    rw (e, bit_or_byte (len % 72057594037927936) b h) (omega arith)

module _ (input : Bytes) (short : length input < 9223372036854775808) where
  length_loop_step :
      (xs : Bytes) (len o limit : ℕ) (p : SnmpPacket) (rest : Bytes)
      → All IsByte xs
      → o + length xs ≤ limit
      → drop o input ≡ xs ++ rest
      → length_loop input limit (length xs) len (at o p)
        ≡ ok (horner size_mod len xs) (at (o + length xs) p)
  unfolding length_loop
  length_loop_step [] len o limit p rest h fits e = rw add-zero
  length_loop_step (b ∷ bs) len o limit p rest (hb, h) fits e =
      let f : (o + 1) + length bs ≡ o + suc (length bs) = omega arith in
      rw
        (
          require_more_step input short o limit p (omega arith),
          next_step input short o b p (bs ++ rest) e,
          shifts_size len b hb,
          ← f,
        )
        (length_loop_step bs ((len * 256 + b) % size_mod) (o + 1) limit p rest h (omega arith)
          (drop-next input o b (bs ++ rest) e))

  -- The short form: a byte below 128 is the length.
  pub parse_length_step :
      (o n limit : ℕ) (p : SnmpPacket) (rest : Bytes)
      → o < limit
      → n < 128
      → drop o input ≡ n ∷ rest
      → parse_length input limit (at o p) ≡ ok n (at (o + 1) p)
  unfolding parse_length
  parse_length_step o n limit p rest h small e =
      let z : bit_and n 0x80 ≡ 0 = omega (arith, top_bit n) in
      rw (require_more_step input short o limit p h, next_step input short o n p rest e, z)

  -- On the long form, a byte 128 + k and then k bytes with k from 1 to 4, `parse_length` returns
  -- the number that these bytes spell, highest first, and moves behind them.
  pub parse_length_long :
      (xs : Bytes) (o limit : ℕ) (p : SnmpPacket) (rest : Bytes)
      → All IsByte xs
      → 1 ≤ length xs
      → length xs ≤ 4
      → o + 1 + length xs ≤ limit
      → drop o input ≡ (128 + length xs) ∷ (xs ++ rest)
      → parse_length input limit (at o p) ≡ ok (horner size_mod 0 xs) (at (o + 1 + length xs) p)
  unfolding parse_length
  parse_length_long xs o limit p rest h some few fits e =
      let first = 128 + length xs in
      let top : (bit_and first 0x80 == 0) ≡ false = ground (arith, top_bit first) in
      let low : bit_and first 0x7f ≡ length xs = omega (arith, low_bits first) in
      let test : (length xs == 0 || ltb 4 (length xs)) ≡ false = ground arith in
      rw
        (
          require_more_step input short o limit p (omega arith),
          next_step input short o first p (xs ++ rest) e,
          top,
          low,
          test,
        )
        (length_loop_step xs 0 (o + 1) limit p rest h (omega arith)
          (drop-next input o first (xs ++ rest) e))

  -- The indefinite form, 128, and a long form of more than four bytes are refused.
  pub parse_length_refused :
      (first o limit : ℕ) (p : SnmpPacket) (rest : Bytes)
      → IsByte first
      → (first ≡ 128) ⊎ (132 < first)
      → o < limit
      → drop o input ≡ first ∷ rest
      → parse_length input limit (at o p) ≡ reject (at (o + 1) p)
  unfolding parse_length
  parse_length_refused first o limit p rest h bad fits e =
      let top : (bit_and first 0x80 == 0) ≡ false = ground (arith, top_bit first) in
      let low = low_bits first h in
      let test : (bit_and first 0x7f == 0 || ltb 4 (bit_and first 0x7f)) ≡ true = ground arith in
      rw (
        require_more_step input short o limit p fits,
        next_step input short o first p rest e,
        top,
        test,
      )
