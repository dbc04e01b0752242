-- ===== src/Packet/Parse/Oversize.antt =====
-- What becomes of a message whose length does not fit the one byte that `serialize` has for it.
use simple_snmpd.Base.{
  ℕ, ◌+◌, ◌-◌, ◌%◌, ◌≤◌, ◌<◌, ◌≡◌, ◌≢◌, inl, inr, refl, ◌∙◌, ap, not, true, false, [], ◌∷◌, ◌++◌,
  Bytes, length, length-append, drop, drop-next, All, IsByte, u8, ltb, ◌==◌, Bool-cases, size_mod,
  arith,
}
use simple_snmpd.Packet.{SnmpPacket}
use simple_snmpd.Packet.Cursor.{ok, reject}
use simple_snmpd.Packet.Cursor.Steps.{at, expect_step, horner}
use simple_snmpd.Packet.Serialize.{serialize}
use simple_snmpd.Packet.Serialize.Layout.{element, pdu_body, message_body, serialize-element}
use simple_snmpd.Packet.Parse.{parse_length, parse_version, parse}
use simple_snmpd.Packet.Ber.{Message}
use simple_snmpd.Packet.Parse.Grammar.{parse-Message}
use simple_snmpd.Packet.Parse.Length.{parse_length_step}
use simple_snmpd.Packet.Parse.Length.{parse_length_long, parse_length_refused}

module _ (input : Bytes) (short : length input < 9223372036854775808) (q : SnmpPacket) (b : ℕ)
    (content : Bytes) (whole : input ≡ 0x30 ∷ b ∷ content) where
  abbrev Refused : Type 0
  Refused = (o : ℕ) × (parse_version input (at 0 q) ≡ reject (at o q))

  at_length : drop 1 input ≡ b ∷ content
  at_length = drop-next input 0 0x30 (b ∷ content) whole

  -- A length that is not the number of the bytes behind it.
  refuse_mismatch :
      (n o : ℕ)
      → parse_length input (length input) (at 1 q) ≡ ok n (at o q)
      → o ≤ length input
      → n + o ≢ length input
      → Refused
  unfolding parse_version
  refuse_mismatch n o e i differs =
      let other : (n == (length input + size_mod - o) % size_mod) ≡ false = ground arith in
      let total = ap length whole in
      (
        o,
        rw (
          expect_step input short 0 (length input) 0x30 q (b ∷ content) (omega arith) whole,
          e,
          other,
        ),
      )

  refuse_length : (o : ℕ) → parse_length input (length input) (at 1 q) ≡ reject (at o q) → Refused
  unfolding parse_version
  refuse_length o e =
      let total = ap length whole in
      (o, rw (expect_step input short 0 (length input) 0x30 q (b ∷ content) (omega arith) whole, e))

  refuse_long :
      (xs tail : Bytes)
      → content ≡ xs ++ tail
      → All IsByte xs
      → 1 ≤ length xs
      → length xs ≤ 4
      → b ≡ 128 + length xs
      → horner size_mod 0 xs + 2 + length xs ≢ length input
      → Refused
  refuse_long xs tail split h some few first differs =
      let total = ap length whole in
      let size = ap length split ∙ length-append xs tail in
      refuse_mismatch (horner size_mod 0 xs) (1 + 1 + length xs)
        (parse_length_long input short xs 1 (length input) q tail h some few (omega arith)
          (at_length ∙ cc))
        (omega arith) (omega arith)

  refuse_content :
      (v : ℕ) (rest : Bytes)
      → content ≡ 0x02 ∷ 0x01 ∷ v ∷ 0x04 ∷ rest
      → IsByte v
      → b ≡ u8 (length content)
      → 128 ≤ length content
      → length content < 65536
      → Refused
  refuse_content v rest split h low large bounded =
      let total = ap length whole in
      elim (Bool-cases (ltb b 128)) [
        | inl e ↦
            refuse_mismatch b 2
              (parse_length_step input short 1 b (length input) q content (omega arith)
                (ground arith) at_length)
              (omega arith) (ground arith)
        | inr e ↦ elim (Bool-cases (b == 129)) [
          | inl e1 ↦
              refuse_long (0x02 ∷ []) (0x01 ∷ v ∷ 0x04 ∷ rest) split (omega arith) (omega arith)
                (omega arith) (ground arith) (omega arith)
          | inr e1 ↦ elim (Bool-cases (b == 130)) [
            | inl e2 ↦
                refuse_long (0x02 ∷ 0x01 ∷ []) (v ∷ 0x04 ∷ rest) split (omega arith) (omega arith)
                  (omega arith) (ground arith) (ground arith)
            | inr e2 ↦ elim (Bool-cases (b == 131)) [
              | inl e3 ↦
                  refuse_long (0x02 ∷ 0x01 ∷ v ∷ []) (0x04 ∷ rest) split (omega arith) (omega arith)
                    (omega arith) (ground arith) (ground arith)
              | inr e3 ↦ elim (Bool-cases (b == 132)) [
                | inl e4 ↦
                    refuse_long (0x02 ∷ 0x01 ∷ v ∷ 0x04 ∷ []) rest split (omega arith) (omega arith)
                      (omega arith) (ground arith) (ground arith)
                | inr e4 ↦ refuse_length 2 (
                    parse_length_refused input short b 1 (length input) q content (omega arith)
                      (ground arith) (omega arith) at_length)
              ]
            ]
          ]
        ]
      ]

parse-serialize_refused :
    (p q : SnmpPacket)
    → 130 ≤ length (serialize p)
    → length (serialize p) < 65536
    → (o : ℕ) × (parse (serialize p) q ≡ reject (at o q))
unfolding parse
parse-serialize_refused p q large bounded =
    let e = serialize-element p in
    let total = ap length e in
    let some : not (length (serialize p) == 0) ≡ true = ground arith in
    let tail = u8 (length p.community) ∷ (p.community ++ element (u8 p.pdu_type) (pdu_body p)) in
    let (o, refused) =
      refuse_content (serialize p) (omega arith) q (u8 (length (message_body p))) (message_body p) e
        (u8 p.version) tail refl (omega arith) refl (omega arith) (omega arith) in
    (o, rw (some, refused))

-- A packet whose encoding takes 130 bytes or more (below 64 KiB, as every datagram is) is not read
-- back: `serialize` writes only the low byte of its length, and `parse` refuses the result, at the
-- length, and leaves the packet that is parsed into as it was. What is written is no BER message, of
-- this packet or of any other.
pub parse-serialize_oversize :
    (p q r : SnmpPacket)
    → 130 ≤ length (serialize p)
    → length (serialize p) < 65536
    → ((o : ℕ) × (parse (serialize p) q ≡ reject (at o q))) × ¬ Message r (serialize p)
parse-serialize_oversize p q r large bounded =
    let (o, refused) = parse-serialize_refused p q large bounded in
    (
      (o, refused),
      λ (m : Message r (serialize p)).
          let taken = parse-Message r q (serialize p) m (omega arith) in cc,
    )
