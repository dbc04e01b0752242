-- ===== src/Packet/Parse/Safety.antt =====
-- `parse` on any input: no read outside the datagram, no loop without end, and fields in range.
use simple_snmpd.Base.{
  ℕ, zero, suc, ◌+◌, ◌*◌, ◌/◌, ◌%◌, ◌≤◌, ◌<◌, ◌≡◌, ◌||◌, Bytes, length, [], ◌∷◌, All, All-append,
  ltb, ◌==◌, Bool-cases, le→ltb, inl, inr, IsByte, add_size, size_mod, bit_and, bit_or, arith,
}
use simple_snmpd.Base.Bits.{bit_or_byte}
use simple_snmpd.Packet.{SnmpPacket, VariableBinding, IsValid, IsValidBinding, add_variable_binding}
use simple_snmpd.Packet.Cursor.{Cursor}
use simple_snmpd.Packet.Cursor.Safety.{
  Ends, ends_ok, ends_reject, bind-Ends, weaken, loosen, Valid, Within, next-Ends, expect-Ends,
  require_more-Ends, require_room-Ends, copy-Ends, read_integer-Ends,
}
use simple_snmpd.Packet.Parse.{
  length_loop, long_form, parse_length, parse_integer, parse_variable_binding, parse_round,
  bindings_loop,
}

-- What a length may still be before `n` more bytes, for four bytes at most.
abbrev room : ℕ → ℕ
room zero = 4294967296
room (suc n) = room n / 256

room-le : (n : ℕ) → room n ≤ 4294967296
room-le zero = omega arith
room-le (suc n) = omega (arith, room-le n)

room-pos : (n : ℕ) → n ≤ 4 → 0 < room n
room-pos zero h = omega arith
room-pos (suc zero) h = omega arith
room-pos (suc (suc zero)) h = omega arith
room-pos (suc (suc (suc zero))) h = omega arith
room-pos (suc (suc (suc (suc zero)))) h = omega arith
room-pos (suc (suc (suc (suc (suc n))))) h = absurd (omega arith)

shift-lt-room :
    (n len b : ℕ) → IsByte b → len < room (suc n) → bit_or (len * 256 % size_mod) b < room n
shift-lt-room n len b hb h =
    let e : len * 256 % size_mod ≡ len * 256 = omega (arith, room-le n) in
    rw (e, bit_or_byte len b hb) (omega arith)

module _ (input : Bytes) (bytes : All IsByte input)
    (short : length input < 9223372036854775808) where
  -- What a step that returns a length ensures.
  abbrev Length : ℕ → ℕ → ℕ → Cursor → Type 0
  Length lo limit len c = (len < 4294967296) × Within lo limit c

  length_loop-Ends :
      (n : ℕ) (c : Cursor) (limit len : ℕ)
      → limit ≤ length input
      → Within 0 limit c
      → len < room n
      → Ends (Length c.offset limit) Valid (length_loop input limit n len c)
  unfolding length_loop
  length_loop-Ends zero c limit len inside w small =
      ends_ok (omega arith, record { lower = omega arith; upper = w.upper; valid = w.valid })
  length_loop-Ends (suc n) c limit len inside w small =
      bind-Ends (require_more-Ends input bytes short c 0 limit w) λ _ c1 (w1, h1).
        bind-Ends (next-Ends input bytes short c1 c.offset limit inside w1 h1) λ b c2 (hb, at, w2).
          weaken (λ v d (q, wd). (q, loosen (omega arith, omega arith) wd))
            (length_loop-Ends n c2 limit _ inside
              (record { lower = omega arith; upper = w2.upper; valid = w2.valid })
              (shift-lt-room n len b hb small))

  long_form-Ends :
      (c : Cursor) (limit n : ℕ)
      → limit ≤ length input
      → Within 0 limit c
      → Ends (Length c.offset limit) Valid (long_form input limit n c)
  long_form-Ends c limit n inside w = elim (Bool-cases (n == 0 || ltb 4 n)) [
    | inl e ↦ rw e (ends_reject w.valid)
    | inr e ↦ rw e (length_loop-Ends n c limit 0 inside w (room-pos n (ground arith)))
  ]

  pub parse_length-Ends :
      (c : Cursor) (lo limit : ℕ)
      → limit ≤ length input
      → Within lo limit c
      → Ends
          (λ len c'. (len < 4294967296) × Within (c.offset + 1) limit c')
          Valid
          (parse_length input limit c)
  unfolding parse_length
  parse_length-Ends c lo limit inside w =
      bind-Ends (require_more-Ends input bytes short c lo limit w) λ _ c1 (w1, h1).
        bind-Ends (next-Ends input bytes short c1 c.offset limit inside w1 h1) λ b c2 (hb, at, w2).
          let w3 : Within 0 limit c2 = record {
            lower = omega arith;
            upper = w2.upper;
            valid = w2.valid;
          } in
          elim (Bool-cases (bit_and b 0x80 == 0)) [
            | inl e ↦ rw e (ends_ok (omega arith, loosen (omega arith, omega arith) w2))
            | inr e ↦ rw e (
                weaken (λ v d (q, wd). (q, loosen (omega arith, omega arith) wd))
                  (long_form-Ends c2 limit (bit_and b 0x7f) inside w3))
          ]

  pub parse_integer-Ends :
      (c : Cursor) (lo limit m : ℕ)
      → limit ≤ length input
      → 0 < m
      → Within lo limit c
      → Ends
          (λ v c'. (v < m) × Within (c.offset + 1) limit c')
          Valid
          (parse_integer input limit m c)
  unfolding parse_integer
  parse_integer-Ends c lo limit m inside some w =
      bind-Ends (expect-Ends input bytes short c lo limit 0x02 inside w) λ _ c1 w1.
        bind-Ends (parse_length-Ends c1 _ limit inside w1) λ len c2 (small, w2).
          bind-Ends (require_room-Ends input bytes short c2 _ limit len inside small w2)
            λ _ c3 (w3, fits).
              weaken (λ v d (q, wd). (q, loosen (omega arith, omega arith) wd))
                (read_integer-Ends input bytes short len c3 _ limit m 0 inside w3 fits some)

  pub parse_variable_binding-Ends :
      (c : Cursor) (lo limit len : ℕ)
      → limit ≤ length input
      → c.offset + len ≤ limit
      → Within lo limit c
      → Ends
          (λ v c'. IsValidBinding v × Within c.offset limit c')
          Valid
          (parse_variable_binding input len c)
  unfolding parse_variable_binding
  parse_variable_binding-Ends c lo top len inside fits w =
      let limit = add_size c.offset len in
      let e : limit ≡ c.offset + len = omega arith in
      let i : limit ≤ length input = omega arith in
      let w0 : Within c.offset limit c = record {
        lower = omega arith;
        upper = omega arith;
        valid = w.valid;
      } in
      bind-Ends (expect-Ends input bytes short c _ limit 0x06 i w0) λ _ c1 w1.
        bind-Ends (parse_length-Ends c1 _ limit i w1) λ n c2 (small, w2).
          bind-Ends (require_room-Ends input bytes short c2 _ limit n i small w2)
            λ _ c3 (w3, fits3).
              bind-Ends (copy-Ends input bytes short c3 _ limit n i w3 fits3) λ oid c4 (hoid, w4).
                bind-Ends (require_more-Ends input bytes short c4 _ limit w4) λ _ c5 (w5, more).
                  bind-Ends (next-Ends input bytes short c5 _ limit i w5 more) λ t c6 (ht, at, w6).
                    bind-Ends (parse_length-Ends c6 _ limit i w6) λ m c7 (small7, w7).
                      bind-Ends (require_room-Ends input bytes short c7 _ limit m i small7 w7)
                        λ _ c8 (w8, fits8).
                          bind-Ends (copy-Ends input bytes short c8 _ limit m i w8 fits8)
                            λ value c9 (hvalue, w9). ends_ok (
                              record { oid_bytes = hoid; type_byte = ht; value_bytes = hvalue },
                              record { lower = omega arith; upper = omega arith; valid = w9.valid },
                            )

  add_variable_binding-IsValid :
      (v : VariableBinding) (p : SnmpPacket)
      → IsValidBinding v
      → IsValid p
      → IsValid (add_variable_binding v p)
  add_variable_binding-IsValid v p hv h = record {
    version_byte = h.version_byte;
    pdu_type_byte = h.pdu_type_byte;
    community_bytes = h.community_bytes;
    request_id_u32 = h.request_id_u32;
    error_status_byte = h.error_status_byte;
    error_index_byte = h.error_index_byte;
    bindings_valid =
        All-append IsValidBinding p.variable_bindings (v ∷ []) h.bindings_valid (hv, tt);
  }

  pub parse_round-Ends :
      (c : Cursor) (lo limit : ℕ)
      → limit ≤ length input
      → Within lo limit c
      → Ends (λ _ c'. Within (c.offset + 1) limit c') Valid (parse_round input limit c)
  unfolding parse_round
  parse_round-Ends c lo limit i w =
      bind-Ends (expect-Ends input bytes short c lo limit 0x30 i w) λ _ c1 w1.
        bind-Ends (parse_length-Ends c1 _ limit i w1) λ n c2 (small, w2).
          bind-Ends (require_room-Ends input bytes short c2 _ limit n i small w2)
            λ _ c3 (w3, fits3).
              bind-Ends (parse_variable_binding-Ends c3 _ limit n i fits3 w3) λ v c4 (hv, w4).
                ends_ok (record {
                  lower = omega arith;
                  upper = w4.upper;
                  valid = add_variable_binding-IsValid v c4.packet hv w4.valid;
                })

  -- The loop ends before its fuel does.
  pub bindings_loop-Ends :
      (fuel : ℕ) (c : Cursor) (lo limit : ℕ)
      → limit ≤ length input
      → limit ≤ c.offset + fuel
      → Within lo limit c
      → Ends (λ _ c'. Within lo limit c') Valid (bindings_loop fuel input limit c)
  unfolding bindings_loop
  bindings_loop-Ends zero c lo limit i enough w =
      rw (le→ltb c.offset limit (omega arith)) (ends_ok w)
  bindings_loop-Ends (suc fuel) c lo limit i enough w = elim (Bool-cases (ltb c.offset limit)) [
    | inl e ↦ rw e (
        bind-Ends (parse_round-Ends c lo limit i w) λ _ c1 w1.
          bindings_loop-Ends fuel c1 lo limit i (omega arith)
            (loosen (omega arith, omega arith) w1))
    | inr e ↦ rw e (ends_ok w)
  ]
