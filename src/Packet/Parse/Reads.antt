-- ===== src/Packet/Parse/Reads.antt =====
-- What the helpers of `parse` have read if they return true: lengths and INTEGERs of the grammar.
pub mod Bindings
pub mod Fields
pub mod Messages
use simple_snmpd.Base.{
  ℕ, zero, suc, ◌+◌, ◌*◌, ◌%◌, ◌≤◌, ◌<◌, ◌≡◌, refl, sym, subst, [], ◌∷◌, ◌++◌, Bytes, length, All,
  IsByte, ltb, ◌==◌, ◌||◌, Bool-cases, inl, inr, size_mod, bit_and, arith,
}
use simple_snmpd.Base.Bits.{top_bit, low_bits}
use simple_snmpd.Packet.Ber.{Spells, short, long, Element, IntegerOf}
use simple_snmpd.Packet.Cursor.{Cursor, Parser, ◌>>=◌, ◌>>◌, expect, require_room}
use simple_snmpd.Packet.Cursor.Size.{
  Ensures, ensures_ok, ensures_reject, bind-Ensures, Moves-weaken,
}
use simple_snmpd.Packet.Cursor.Steps.{horner, ShiftsIn}
use simple_snmpd.Packet.Cursor.Takes.{
  Takes, same, Takes-trans, require_more-then, require_room-then, next-Takes, expect-Takes,
  read_integer-Takes, nothing,
}
use simple_snmpd.Packet.Parse.{length_loop, long_form, parse_length, parse_integer}
use simple_snmpd.Packet.Parse.Length.{shifts_size}

horner-small : (xs : Bytes) → All IsByte xs → length xs ≤ 4 → horner size_mod 0 xs < 4294967296
horner-small [] h n = omega arith
horner-small (a ∷ []) (ha, h) n = omega arith
horner-small (a ∷ b ∷ []) (ha, (hb, h)) n = omega arith
horner-small (a ∷ b ∷ c ∷ []) (ha, (hb, (hc, h))) n = omega arith
horner-small (a ∷ b ∷ c ∷ d ∷ []) (ha, (hb, (hc, (hd, h)))) n = omega arith
horner-small (a ∷ b ∷ c ∷ d ∷ e ∷ xs) h n = absurd (omega arith)

-- A tag, a length and as many bytes.
pub element :
    {n tag : ℕ} {h xs : Bytes} → Spells h n → length xs ≡ n → Element tag xs (tag ∷ (h ++ xs))
element {h = h} spelled size = record {
  header = h;
  spelled = subst (Spells h) (sym size) spelled;
  made = refl;
}

module _ (input : Bytes) (bytes : All IsByte input)
    (fits : length input < 9223372036854775808) where
  length_loop-Takes :
      (n limit len : ℕ) (c : Cursor)
      → c.offset ≤ length input
      → Ensures
          (λ v d.
            (xs : Bytes) × (length xs ≡ n) × (horner size_mod len xs ≡ v) × Takes input same xs c d)
          (length_loop input limit n len c)
  unfolding length_loop
  length_loop-Takes zero limit len c h = ensures_ok ([], refl, refl, nothing input bytes fits c h)
  length_loop-Takes (suc n) limit len c h = require_more-then _ limit c (λ _.
      bind-Ensures (next-Takes input bytes fits c) λ b d s. rw (shifts_size len b (s.octets.0)) (
        Moves-weaken
          (λ v e (xs, size, spelled, t). (b ∷ xs, omega (arith, size), spelled, Takes-trans s t))
          (length_loop-Takes n limit ((len * 256 + b) % size_mod) d s.inside)))

  abbrev Length : Cursor → ℕ → Cursor → Type 0
  Length c n d = (h : Bytes) × Spells h n × (n < 4294967296) × Takes input same h c d

  long_form-Takes :
      (limit b : ℕ) (c d : Cursor)
      → 128 ≤ b
      → Takes input same (b ∷ []) c d
      → Ensures (Length c) (long_form input limit (bit_and b 0x7f) d)
  long_form-Takes limit b c d big s =
      let k = bit_and b 0x7f in
      let low = low_bits b (s.octets.0) in
      elim (Bool-cases (k == 0 || ltb 4 k)) [
        | inl e ↦ rw e ensures_reject
        | inr e ↦ rw e (
            Moves-weaken
              (λ n g (xs, size, spelled, t).
                let some : 1 ≤ length xs = ground arith in
                let few : length xs ≤ 4 = ground arith in
                let first : b ≡ 128 + length xs = omega (arith, s.octets.0) in
                let small = horner-small xs t.octets few in
                (
                  (128 + length xs) ∷ xs,
                  long xs t.octets some few spelled,
                  subst (λ m. m < 4294967296) spelled small,
                  subst (λ a. Takes input same (a ∷ xs) c g) first (Takes-trans s t),
                ))
              (length_loop-Takes k limit 0 d s.inside))
      ]

  pub parse_length-Takes :
      (limit : ℕ) (c : Cursor) → Ensures (Length c) (parse_length input limit c)
  unfolding parse_length
  parse_length-Takes limit c = require_more-then _ limit c (λ _.
      bind-Ensures (next-Takes input bytes fits c) λ b d s.
        let top = top_bit b (s.octets.0) in
        elim (Bool-cases (bit_and b 0x80 == 0)) [
          | inl e ↦
              let low : b < 128 = ground (arith, s.octets.0) in
              rw e (ensures_ok (b ∷ [], short low, omega arith, s))
          | inr e ↦ rw e (long_form-Takes limit b c d (ground (arith, s.octets.0)) s)
        ])

  -- A tag, a length and the check that there is room for so much.
  pub header-then :
      {B : Type 0} {Q : B → Cursor → Type 0} (limit tag : ℕ) (c : Cursor) (k : ℕ → Parser B)
      → ((n : ℕ) (d : Cursor) (h : Bytes)
          → Spells h n
          → Takes input same (tag ∷ h) c d
          → d.offset + n ≤ limit
          → Ensures Q (k n d))
      → Ensures Q (
          (expect input limit tag
              >> (parse_length input limit >>= λ n. require_room limit n >> k n))
            c)
  header-then limit tag c k next =
      bind-Ensures (expect-Takes input bytes fits limit tag c) λ _ c1 s1.
        bind-Ensures (parse_length-Takes limit c1) λ n c2 (h, spelled, small, s2).
          require_room-then _ limit n c2 (omega (arith, s2.inside)) small
            λ _ room. next n c2 h spelled (Takes-trans s1 s2) room

  pub parse_integer-Takes :
      (limit m : ℕ) (c : Cursor)
      → ShiftsIn m
      → Ensures
          (λ v d. (bs : Bytes) × IntegerOf m v bs × Takes input same bs c d)
          (parse_integer input limit m c)
  unfolding parse_integer
  parse_integer-Takes limit m c shifts = header-then limit 0x02 c _ λ n d h spelled s room.
      Moves-weaken
        (λ v e (xs, size, value, t). (
          0x02 ∷ (h ++ xs),
          record { body = xs; octets = t.octets; element = element spelled size; value = value },
          Takes-trans s t,
        ))
        (read_integer-Takes input bytes fits n m 0 d shifts s.inside)
