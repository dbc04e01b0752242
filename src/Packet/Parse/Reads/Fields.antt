-- ===== src/Packet/Parse/Reads/Fields.antt =====
-- What `parse_pdu_fields` has read if it returns true: a loose body.
use simple_snmpd.Base.{
  ℕ, ◌+◌, ◌≤◌, ◌<◌, ◌≡◌, refl, List, ◌∷◌, ◌++◌, Bytes, length, All, IsByte, add_size, arith,
}
use simple_snmpd.Packet.{
  SnmpPacket, VariableBinding, set_request_id, set_error_status, set_error_index,
  clear_variable_bindings,
}
use simple_snmpd.Packet.Ber.Loose.{LooseBody}
use simple_snmpd.Packet.Cursor.{Cursor}
use simple_snmpd.Packet.Cursor.Size.{Ensures, bind-Ensures, Moves-weaken}
use simple_snmpd.Packet.Cursor.Steps.{shifts_u8, shifts_u32}
use simple_snmpd.Packet.Cursor.Takes.{Takes, Takes-trans, Takes-update}
use simple_snmpd.Packet.Parse.{parse_variable_bindings, parse_pdu_fields}
use simple_snmpd.Packet.Parse.Reads.{header-then, parse_integer-Takes, element}
use simple_snmpd.Packet.Parse.Reads.Bindings.{bindings_loop-Takes}

-- The packet behind the fields of its PDU.
abbrev pub fill : ℕ → ℕ → ℕ → List VariableBinding → SnmpPacket → SnmpPacket
fill id status index vs p = record p {
  request_id = id;
  error_status = status;
  error_index = index;
  variable_bindings = vs;
}

module _ (input : Bytes) (bytes : All IsByte input)
    (fits : length input < 9223372036854775808) where
  -- A body, and no more than the PDU's length has.
  abbrev pub Fields : ℕ → Cursor → Unit {0} → Cursor → Type 0
  Fields len c u d =
      (id status index : ℕ) × (vs : List VariableBinding) × (body : Bytes) × ((p : SnmpPacket)
        → LooseBody (fill id status index vs p) body)
      × Takes input (fill id status index vs) body c d
      × (d.offset ≤ c.offset + len)

  pub parse_pdu_fields-Takes :
      (len : ℕ) (c : Cursor)
      → c.offset + len ≤ length input
      → Ensures (Fields len c) (parse_pdu_fields input len c)
  unfolding parse_pdu_fields parse_variable_bindings
  parse_pdu_fields-Takes len c room =
      let limit = add_size c.offset len in
      let sum : limit ≡ c.offset + len = omega arith in
      bind-Ensures (parse_integer-Takes input bytes fits limit 4294967296 c shifts_u32)
        λ id c1 (b1, int1, s1).
          let t1 = Takes-update (set_request_id id) s1 in
          bind-Ensures (parse_integer-Takes input bytes fits limit 256 _ shifts_u8)
            λ status c2 (b2, int2, s2).
              let t2 = Takes-update (set_error_status status) s2 in
              bind-Ensures (parse_integer-Takes input bytes fits limit 256 _ shifts_u8)
                λ index c3 (b3, int3, s3).
                  let t3 = Takes-update (set_error_index index) s3 in
                  header-then input bytes fits limit 0x30 _ _ λ n c4 h spelled s4 room4.
                    let t4 = Takes-update clear_variable_bindings s4 in
                    let end : add_size c4.offset n ≡ c4.offset + n = omega arith in
                    Moves-weaken
                      (λ u d (vs, bs, of, s5, last).
                        let size : length bs ≡ n = omega (arith, s5.moved) in
                        (
                          id,
                          status,
                          index,
                          vs,
                          b1 ++ (b2 ++ (b3 ++ (0x30 ∷ (h ++ bs)))),
                          λ p. record {
                            request_id = b1;
                            error_status = b2;
                            error_index = b3;
                            bindings = bs;
                            list = 0x30 ∷ (h ++ bs);
                            request_id_of = int1;
                            error_status_of = int2;
                            error_index_of = int3;
                            bindings_of = of;
                            list_element = element spelled size;
                            made = refl;
                          },
                          Takes-trans t1 (Takes-trans t2 (Takes-trans t3 (Takes-trans t4 s5))),
                          omega arith,
                        ))
                      (bindings_loop-Takes input bytes fits (length input) (add_size c4.offset n)
                        (record c4 { packet = clear_variable_bindings c4.packet }) (omega arith)
                        (omega arith))
