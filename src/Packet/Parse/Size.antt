-- ===== src/Packet/Parse/Size.antt =====
-- What `parse` keeps of a datagram, measured by what `serialize` makes of it.
use simple_snmpd.Base.{
  ℕ, zero, suc, ◌+◌, ◌*◌, ◌%◌, ◌<◌, ◌≡◌, ◌||◌, Bool-cases, inl, inr, List, [], ◌∷◌, ◌++◌, Bytes,
  length, ltb, ◌==◌, add_size, size_mod, bit_and, bit_or, arith,
}
use simple_snmpd.Packet.{
  VariableBinding, set_request_id, set_error_status, set_error_index, clear_variable_bindings,
}
use simple_snmpd.Packet.Serialize.Size.{bindings_size}
use simple_snmpd.Packet.Cursor.{Cursor}
use simple_snmpd.Packet.Cursor.Size.{
  Ensures, ensures_ok, ensures_reject, ensures_stuck, bind-Ensures, Moves, Moves-weaken,
  require_more-Moves, require_room-Moves, next-Moves, expect-Moves, copy-Moves, read_integer-Moves,
}
use simple_snmpd.Packet.Parse.{
  length_loop, long_form, parse_length, parse_integer, parse_variable_binding, parse_round,
  bindings_loop, parse_variable_bindings, parse_pdu_fields,
}

bindings_size-append :
    (vs : List VariableBinding) (v : VariableBinding)
    → bindings_size (vs ++ v ∷ []) ≡ bindings_size vs + (6 + length v.oid + length v.value)
bindings_size-append [] v = omega arith
bindings_size-append (w ∷ vs) v = omega (arith, bindings_size-append vs v)

module _ (input : Bytes) (short : length input < 9223372036854775808) where
  length_loop-Moves :
      (limit n len : ℕ) (c : Cursor)
      → Ensures (λ _ d. Moves 0 c d) (length_loop input limit n len c)
  unfolding length_loop
  length_loop-Moves limit zero len c = ensures_ok (record { paid = omega arith })
  length_loop-Moves limit (suc n) len c = bind-Ensures (require_more-Moves limit c) λ _ c1 w1.
      bind-Ensures (next-Moves input short c1) λ b c2 w2.
        Moves-weaken (λ _ d w. record { paid = omega arith })
          (length_loop-Moves limit n (bit_or (len * 256 % size_mod) b) c2)

  long_form-Moves :
      (limit n : ℕ) (c : Cursor) → Ensures (λ _ d. Moves 0 c d) (long_form input limit n c)
  long_form-Moves limit n c = elim (Bool-cases (n == 0 || ltb 4 n)) [
    | inl e ↦ rw e ensures_reject
    | inr e ↦ rw e (length_loop-Moves limit n 0 c)
  ]

  pub parse_length-Moves :
      (limit : ℕ) (c : Cursor) → Ensures (λ _ d. Moves 1 c d) (parse_length input limit c)
  unfolding parse_length
  parse_length-Moves limit c = bind-Ensures (require_more-Moves limit c) λ _ c1 w1.
      bind-Ensures (next-Moves input short c1) λ b c2 w2. elim (Bool-cases (bit_and b 0x80 == 0)) [
        | inl e ↦ rw e (ensures_ok (record { paid = omega arith }))
        | inr e ↦ rw e (
            Moves-weaken (λ _ d w. record { paid = omega arith })
              (long_form-Moves limit (bit_and b 0x7f) c2))
      ]

  parse_integer-Moves :
      (limit m : ℕ) (c : Cursor) → Ensures (λ _ d. Moves 2 c d) (parse_integer input limit m c)
  unfolding parse_integer
  parse_integer-Moves limit m c = bind-Ensures (expect-Moves input short limit 0x02 c) λ _ c1 w1.
      bind-Ensures (parse_length-Moves limit c1) λ len c2 w2.
        bind-Ensures (require_room-Moves limit len c2) λ _ c3 w3.
          Moves-weaken (λ _ d w. record { paid = omega arith })
            (read_integer-Moves input short len m 0 c3)

  parse_variable_binding-Moves :
      (len : ℕ) (c : Cursor)
      → Ensures
          (λ v d. Moves (4 + length v.oid + length v.value) c d)
          (parse_variable_binding input len c)
  unfolding parse_variable_binding
  parse_variable_binding-Moves len c =
      let limit = add_size c.offset len in
      bind-Ensures (expect-Moves input short limit 0x06 c) λ _ c1 w1.
        bind-Ensures (parse_length-Moves limit c1) λ n c2 w2.
          bind-Ensures (require_room-Moves limit n c2) λ _ c3 w3.
            bind-Ensures (copy-Moves input short n c3) λ oid c4 w4.
              bind-Ensures (require_more-Moves limit c4) λ _ c5 w5.
                bind-Ensures (next-Moves input short c5) λ t c6 w6.
                  bind-Ensures (parse_length-Moves limit c6) λ k c7 w7.
                    bind-Ensures (require_room-Moves limit k c7) λ _ c8 w8.
                      bind-Ensures (copy-Moves input short k c8)
                        λ value c9 w9. ensures_ok (record { paid = omega arith })

  parse_round-Moves :
      (limit : ℕ) (c : Cursor) → Ensures (λ _ d. Moves 0 c d) (parse_round input limit c)
  unfolding parse_round
  parse_round-Moves limit c = bind-Ensures (expect-Moves input short limit 0x30 c) λ _ c1 w1.
      bind-Ensures (parse_length-Moves limit c1) λ n c2 w2.
        bind-Ensures (require_room-Moves limit n c2) λ _ c3 w3.
          bind-Ensures (parse_variable_binding-Moves n c3) λ v c4 w4.
            let grown = bindings_size-append c4.packet.variable_bindings v in
            ensures_ok (record { paid = omega (arith, grown) })

  bindings_loop-Moves :
      (limit fuel : ℕ) (c : Cursor)
      → Ensures (λ _ d. Moves 0 c d) (bindings_loop fuel input limit c)
  unfolding bindings_loop
  bindings_loop-Moves limit zero c = elim (Bool-cases (ltb c.offset limit)) [
    | inl e ↦ rw e ensures_stuck
    | inr e ↦ rw e (ensures_ok (record { paid = omega arith }))
  ]
  bindings_loop-Moves limit (suc fuel) c = elim (Bool-cases (ltb c.offset limit)) [
    | inl e ↦ rw e (
        bind-Ensures (parse_round-Moves limit c) λ _ c1 w1.
          Moves-weaken (λ _ d w. record { paid = omega arith }) (bindings_loop-Moves limit fuel c1))
    | inr e ↦ rw e (ensures_ok (record { paid = omega arith }))
  ]

  parse_variable_bindings-Moves :
      (len : ℕ) (c : Cursor) → Ensures (λ _ d. Moves 0 c d) (parse_variable_bindings input len c)
  unfolding parse_variable_bindings
  parse_variable_bindings-Moves len c =
      Moves-weaken (λ _ d w. record { paid = omega arith })
        (bindings_loop-Moves (add_size c.offset len) (length input)
          (record c { packet = clear_variable_bindings c.packet }))

  pub parse_pdu_fields-Moves :
      (len : ℕ) (c : Cursor) → Ensures (λ _ d. Moves 8 c d) (parse_pdu_fields input len c)
  unfolding parse_pdu_fields
  parse_pdu_fields-Moves len c =
      let limit = add_size c.offset len in
      bind-Ensures (parse_integer-Moves limit 4294967296 c) λ id c1 w1.
        bind-Ensures
          (parse_integer-Moves limit 256 (record c1 { packet = set_request_id id c1.packet }))
          λ es c2 w2.
            bind-Ensures
              (parse_integer-Moves limit 256 (record c2 { packet = set_error_status es c2.packet }))
              λ ei c3 w3.
                bind-Ensures
                  (expect-Moves input short limit 0x30
                    (record c3 { packet = set_error_index ei c3.packet }))
                  λ _ c4 w4. bind-Ensures (parse_length-Moves limit c4) λ n c5 w5.
                    bind-Ensures (require_room-Moves limit n c5) λ _ c6 w6.
                      Moves-weaken (λ _ d w. record { paid = omega arith })
                        (parse_variable_bindings-Moves n c6)
