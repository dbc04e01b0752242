-- ===== src/Packet/Parse/Reencode.antt =====
-- A parsed packet, encoded again.
use simple_snmpd.Base.{
  ◌+◌, ◌%◌, ◌-◌, ◌≤◌, ◌<◌, ◌≡◌, not, Bytes, length, All, IsByte, ◌==◌, size_mod, subst, arith,
}
use simple_snmpd.Packet.{new_packet, set_pdu_type}
use simple_snmpd.Packet.Serialize.{serialize}
use simple_snmpd.Packet.Serialize.Size.{packet_size, length-serialize}
use simple_snmpd.Packet.Cursor.{Cursor, ok}
use simple_snmpd.Packet.Cursor.Safety.{Ends, ends_ok, Valid, Within}
use simple_snmpd.Packet.Cursor.Size.{
  Ensures, ensures_ok, Ensures-ok, bind-Ensures, Moves, Moves-weaken, require-Moves,
  require_more-Moves, require_room-Moves, next-Moves, expect-Moves, copy-Moves,
}
use simple_snmpd.Packet.Parse.{parse_version, parse_community, parse_pdu, parse}
use simple_snmpd.Packet.Parse.Total.{parse-Ends}
use simple_snmpd.Packet.Parse.Size.{parse_length-Moves, parse_pdu_fields-Moves}

module _ (input : Bytes) (short : length input < 9223372036854775808) where
  parse_version-Moves : (c : Cursor) → Ensures (λ _ d. Moves 5 c d) (parse_version input c)
  unfolding parse_version
  parse_version-Moves c =
      let l = length input in
      bind-Ensures (expect-Moves input short l 0x30 c) λ _ c1 w1.
        bind-Ensures (parse_length-Moves input short l c1) λ n c2 w2.
          bind-Ensures (require-Moves (n == (l + size_mod - c2.offset) % size_mod) c2) λ _ c3 w3.
            bind-Ensures (expect-Moves input short l 0x02 c3) λ _ c4 w4.
              bind-Ensures (parse_length-Moves input short l c4) λ k c5 w5.
                bind-Ensures (require_room-Moves l k c5) λ _ c6 w6.
                  bind-Ensures (require-Moves (k == 1) c6) λ _ c7 w7.
                    bind-Ensures (next-Moves input short c7)
                      λ v c8 w8. ensures_ok (record { paid = omega arith })

  parse_community-Moves : (c : Cursor) → Ensures (λ _ d. Moves 2 c d) (parse_community input c)
  unfolding parse_community
  parse_community-Moves c =
      let l = length input in
      bind-Ensures (expect-Moves input short l 0x04 c) λ _ c1 w1.
        bind-Ensures (parse_length-Moves input short l c1) λ n c2 w2.
          bind-Ensures (require_room-Moves l n c2) λ _ c3 w3.
            bind-Ensures (copy-Moves input short n c3)
              λ name c4 w4. ensures_ok (record { paid = omega arith })

  parse_pdu-Moves : (c : Cursor) → Ensures (λ _ d. Moves 10 c d) (parse_pdu input c)
  unfolding parse_pdu
  parse_pdu-Moves c =
      let l = length input in
      bind-Ensures (require_more-Moves l c) λ _ c1 w1.
        bind-Ensures (next-Moves input short c1) λ t c2 w2.
          bind-Ensures
            (parse_length-Moves input short l (record c2 { packet = set_pdu_type t c2.packet }))
            λ n c3 w3. bind-Ensures (require_room-Moves l n c3) λ _ c4 w4.
              Moves-weaken (λ _ d w. record { paid = omega arith })
                (parse_pdu_fields-Moves input short n c4)

  parse-Moves : Ensures (λ _ d. packet_size d.packet ≤ d.offset + 6) (parse input new_packet)
  unfolding parse
  parse-Moves =
      let start : Cursor = record { offset = 0; packet = new_packet } in
      bind-Ensures
        (bind-Ensures
          (bind-Ensures (require-Moves (not (length input == 0)) start) λ _ c1 w1.
            Moves-weaken {Q' = λ _ d. Moves 5 start d} (λ _ d w. record { paid = omega arith })
              (parse_version-Moves c1))
          λ _ c2 w2.
            Moves-weaken {Q' = λ _ d. Moves 7 start d} (λ _ d w. record { paid = omega arith })
              (parse_community-Moves c2))
        λ _ c3 w3. Moves-weaken (λ _ d w. omega arith) (parse_pdu-Moves c3)

-- What holds of a step that has returned true.
Ends-ok :
    {A : Type 0} {Q : A → Cursor → Type 0} {R : Cursor → Type 0} {a : A} {c : Cursor}
    → Ends Q R (ok a c)
    → Q a c
Ends-ok (ends_ok q) = q

-- A datagram of bytes that `parse` takes, into a packet just made, is no shorter than the encoding of
-- that packet by more than six bytes: what the packet holds is bounded by what has arrived.
pub parse-serialize_le :
    (input : Bytes) (c : Cursor)
    → All IsByte input
    → length input < 9223372036854775808
    → parse input new_packet ≡ ok tt c
    → length (serialize c.packet) ≤ length input + 6
parse-serialize_le input c bytes short h =
    let inside : Within 0 (length input) c = Ends-ok (
      subst (Ends (λ _ d. Within 0 (length input) d) Valid) h
        (parse-Ends input bytes short new_packet (omega arith))) in
    let paid : packet_size c.packet ≤ c.offset + 6 =
      Ensures-ok (
        subst (Ensures (λ _ d. packet_size d.packet ≤ d.offset + 6)) h (parse-Moves input short)) in
    omega (arith, inside.upper, paid, length-serialize c.packet)
