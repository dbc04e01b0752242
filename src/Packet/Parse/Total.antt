-- ===== src/Packet/Parse/Total.antt =====
-- `parse` on any datagram: no read outside it, no loop without end, and fields in range.
use simple_snmpd.Base.{
  ℕ, ◌+◌, ◌-◌, ◌%◌, ◌≤◌, ◌<◌, ◌≡◌, refl, Bool, true, false, not, Bytes, length, All, ◌==◌, IsByte,
  add_size, size_mod, arith,
}
use simple_snmpd.Packet.{
  SnmpPacket, IsValid, set_pdu_type, set_request_id, set_error_status, set_error_index,
}
use simple_snmpd.Packet.Cursor.{Cursor, require}
use simple_snmpd.Packet.Cursor.Safety.{
  Ends, ends_ok, ends_reject, bind-Ends, weaken, loosen, Valid, Within, next-Ends, expect-Ends,
  require_more-Ends, require_room-Ends, copy-Ends,
}
use simple_snmpd.Packet.Parse.{
  parse_variable_bindings, parse_pdu_fields, parse_version, parse_community, parse_pdu, parse,
}
use simple_snmpd.Packet.Parse.Safety.{parse_length-Ends, parse_integer-Ends, bindings_loop-Ends}

require-Ends :
    (test : Bool) (c : Cursor) (lo limit : ℕ)
    → Within lo limit c
    → Ends
        (λ _ c'. Within lo limit c' × (c'.offset ≡ c.offset) × (test ≡ true))
        Valid
        (require test c)
require-Ends true c lo limit w = ends_ok (w, refl, refl)
require-Ends false c lo limit w = ends_reject w.valid

module _ (input : Bytes) (bytes : All IsByte input)
    (short : length input < 9223372036854775808) where
  parse_variable_bindings-Ends :
      (c : Cursor) (lo limit len : ℕ)
      → limit ≤ length input
      → c.offset + len ≤ limit
      → Within lo limit c
      → Ends (λ _ c'. Within lo limit c') Valid (parse_variable_bindings input len c)
  unfolding parse_variable_bindings
  parse_variable_bindings-Ends c lo limit len i fits w =
      let e : add_size c.offset len ≡ c.offset + len = omega arith in
      weaken (λ _ d wd. loosen (omega arith, omega arith) wd)
        (bindings_loop-Ends input bytes short (length input) _ c.offset (add_size c.offset len)
          (omega arith) (omega arith)
          (record { lower = omega arith; upper = omega arith; valid = ground arith }))

  parse_pdu_fields-Ends :
      (c : Cursor) (lo limit len : ℕ)
      → limit ≤ length input
      → c.offset + len ≤ limit
      → Within lo limit c
      → Ends (λ _ c'. Within lo limit c') Valid (parse_pdu_fields input len c)
  unfolding parse_pdu_fields
  parse_pdu_fields-Ends c lo top len inside fits w =
      let limit = add_size c.offset len in
      let e : limit ≡ c.offset + len = omega arith in
      let i : limit ≤ length input = omega arith in
      let w0 : Within lo limit c = record {
        lower = w.lower;
        upper = omega arith;
        valid = w.valid;
      } in
      bind-Ends (parse_integer-Ends input bytes short c _ limit 4294967296 i (omega arith) w0)
        λ id c1 (hid, w1).
          bind-Ends
            (parse_integer-Ends input bytes short
              (record c1 { packet = set_request_id id c1.packet }) (c.offset + 1) limit 256 i
              (omega arith) (record { lower = w1.lower; upper = w1.upper; valid = ground arith }))
            λ es c2 (hes, w2).
              bind-Ends
                (parse_integer-Ends input bytes short
                  (record c2 { packet = set_error_status es c2.packet }) (c1.offset + 1) limit 256 i
                  (omega arith)
                  (record { lower = w2.lower; upper = w2.upper; valid = ground arith }))
                λ ei c3 (hei, w3).
                  bind-Ends
                    (expect-Ends input bytes short
                      (record c3 { packet = set_error_index ei c3.packet }) (c2.offset + 1) limit
                      0x30 i (record { lower = w3.lower; upper = w3.upper; valid = ground arith }))
                    λ _ c4 w4.
                      bind-Ends (parse_length-Ends input bytes short c4 _ limit i w4)
                        λ n c5 (small, w5).
                          bind-Ends (require_room-Ends input bytes short c5 _ limit n i small w5)
                            λ _ c6 (w6, fits6).
                              weaken (λ _ d wd. loosen (omega arith, omega arith) wd)
                                (parse_variable_bindings-Ends c6 _ limit n i fits6 w6)

  parse_version-Ends :
      (c : Cursor)
      → Within 0 (length input) c
      → Ends (λ _ c'. Within 0 (length input) c') Valid (parse_version input c)
  unfolding parse_version
  parse_version-Ends c w =
      let l = length input in
      let i : l ≤ l = omega arith in
      bind-Ends (expect-Ends input bytes short c 0 l 0x30 i w) λ _ c1 w1.
        bind-Ends (parse_length-Ends input bytes short c1 _ l i w1) λ n c2 (small, w2).
          bind-Ends (require-Ends (n == (l + size_mod - c2.offset) % size_mod) c2 _ l w2)
            λ _ c3 (w3, same, counted).
              bind-Ends (expect-Ends input bytes short c3 _ l 0x02 i w3) λ _ c4 w4.
                bind-Ends (parse_length-Ends input bytes short c4 _ l i w4) λ k c5 (small5, w5).
                  bind-Ends (require_room-Ends input bytes short c5 _ l k i small5 w5)
                    λ _ c6 (w6, fits).
                      bind-Ends (require-Ends (k == 1) c6 _ l w6) λ _ c7 (w7, same7, one).
                        bind-Ends (next-Ends input bytes short c7 _ l i w7 (ground arith))
                          λ v c8 (hv, at, w8).
                            ends_ok (record {
                              lower = omega arith;
                              upper = w8.upper;
                              valid = ground arith;
                            })

  parse_community-Ends :
      (c : Cursor)
      → Within 0 (length input) c
      → Ends (λ _ c'. Within 0 (length input) c') Valid (parse_community input c)
  unfolding parse_community
  parse_community-Ends c w =
      let l = length input in
      let i : l ≤ l = omega arith in
      bind-Ends (expect-Ends input bytes short c 0 l 0x04 i w) λ _ c1 w1.
        bind-Ends (parse_length-Ends input bytes short c1 _ l i w1) λ n c2 (small, w2).
          bind-Ends (require_room-Ends input bytes short c2 _ l n i small w2) λ _ c3 (w3, fits).
            bind-Ends (copy-Ends input bytes short c3 _ l n i w3 fits) λ name c4 (hname, w4).
              ends_ok (record { lower = omega arith; upper = w4.upper; valid = ground arith })

  parse_pdu-Ends :
      (c : Cursor)
      → Within 0 (length input) c
      → Ends (λ _ c'. Within 0 (length input) c') Valid (parse_pdu input c)
  unfolding parse_pdu
  parse_pdu-Ends c w =
      let l = length input in
      let i : l ≤ l = omega arith in
      bind-Ends (require_more-Ends input bytes short c 0 l w) λ _ c1 (w1, more).
        bind-Ends (next-Ends input bytes short c1 _ l i w1 more) λ t c2 (ht, at, w2).
          bind-Ends
            (parse_length-Ends input bytes short (record c2 { packet = set_pdu_type t c2.packet })
              (c1.offset + 1) l i
              (record { lower = w2.lower; upper = w2.upper; valid = ground arith }))
            λ n c3 (small, w3).
              bind-Ends (require_room-Ends input bytes short c3 _ l n i small w3) λ _ c4 (w4, fits).
                weaken (λ _ d wd. loosen (omega arith, omega arith) wd)
                  (parse_pdu_fields-Ends c4 _ l n i fits w4)

  -- On every datagram of bytes, and whatever the packet held before, `parse` returns true or
  -- false: it reads no byte outside the datagram, its loops end within their fuel, and either way
  -- each field of the packet is in the range of its C++ type. If it returns true, the offset it
  -- ends at is no further than the end of the datagram.
  pub parse-Ends :
      (p : SnmpPacket) → IsValid p → Ends (λ _ c. Within 0 (length input) c) Valid (parse input p)
  unfolding parse
  parse-Ends p h =
      let start : Cursor = record { offset = 0; packet = p } in
      let w : Within 0 (length input) start = record {
        lower = omega arith;
        upper = omega arith;
        valid = h;
      } in
      bind-Ends
        (bind-Ends
          (bind-Ends (require-Ends (not (length input == 0)) start 0 (length input) w)
            λ _ c1 (w1, same, some). parse_version-Ends c1 w1)
          λ _ c2 w2. parse_community-Ends c2 w2)
        λ _ c3 w3. parse_pdu-Ends c3 w3
