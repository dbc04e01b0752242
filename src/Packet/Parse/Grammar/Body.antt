-- ===== src/Packet/Parse/Grammar/Body.antt =====
-- How the parser takes in a loose body.
use simple_snmpd.Base.{
  ℕ, ◌+◌, ◌≤◌, ◌<◌, ◌≡◌, refl, ◌∙◌, ap, List, [], ◌++◌, Bytes, length, length-append, drop,
  append_assoc, arith, add_size,
}
use simple_snmpd.Packet.{
  SnmpPacket, VariableBinding, set_request_id, set_error_status, set_error_index,
}
use simple_snmpd.Packet.Ber.Loose.{LooseBindings, LooseBody}
use simple_snmpd.Packet.Cursor.{ok}
use simple_snmpd.Packet.Cursor.Steps.{at, shifts_u8, shifts_u32}
use simple_snmpd.Packet.Parse.{parse_pdu_fields, parse_variable_bindings}
use simple_snmpd.Packet.Parse.Elements.{
  body_rest, element_rest, element_size, header_step, parse_integer_step, bindings_loop_step,
}

module _ (input : Bytes) (fits : length input < 9223372036854775808) where
  parse_variable_bindings_step :
      {vs : List VariableBinding} {bytes : Bytes} (of : LooseBindings vs bytes) (o : ℕ)
      (p : SnmpPacket) (rest : Bytes)
      → o + length bytes ≤ length input
      → drop o input ≡ bytes ++ rest
      → parse_variable_bindings input (length bytes) (at o p)
        ≡ ok tt (at (o + length bytes) (record p { variable_bindings = vs }))
  unfolding parse_variable_bindings
  parse_variable_bindings_step {bytes = bytes} of o p rest i e =
      let sum : add_size o (length bytes) ≡ o + length bytes = omega arith in
      rw sum (
        bindings_loop_step input fits of (length input) o _ (record p { variable_bindings = [] })
          rest i refl (omega arith) e)

  pub parse_pdu_fields_step :
      {p : SnmpPacket} {bytes : Bytes} (b : LooseBody p bytes) (o limit declared : ℕ)
      (q : SnmpPacket) (rest : Bytes)
      → limit ≤ length input
      → limit ≡ o + declared
      → length bytes ≤ declared
      → drop o input ≡ bytes ++ rest
      → parse_pdu_fields input declared (at o q)
        ≡ ok tt (
            at
              (o + length bytes)
              (record p { version = q.version; community = q.community; pdu_type = q.pdu_type }))
  unfolding parse_pdu_fields
  parse_pdu_fields_step {p} {bytes} b o limit declared q rest i total holds e =
      let size =
        ap length b.made
        ∙ length-append b.request_id (b.error_status ++ (b.error_index ++ b.list)) in
      let size1 = length-append b.error_status (b.error_index ++ b.list) in
      let size2 = length-append b.error_index b.list in
      let size3 = element_size input fits b.list_element in
      let sum : add_size o declared ≡ limit = omega arith in
      let q0 = set_request_id p.request_id q in
      let q1 = set_error_status p.error_status q0 in
      let q2 = set_error_index p.error_index q1 in
      let o1 = o + length b.request_id in
      let o2 = o1 + length b.error_status in
      let o3 = o2 + length b.error_index in
      let r1 = b.error_status ++ (b.error_index ++ (b.list ++ rest)) in
      let r2 = b.error_index ++ (b.list ++ rest) in
      let d0 : drop o input ≡ b.request_id ++ r1 =
        e ∙ ap (λ bs. bs ++ rest) b.made ∙ simp append_assoc in
      let d1 = element_rest input fits b.request_id_of.element o r1 d0 in
      let d2 = element_rest input fits b.error_status_of.element o1 r2 d1 in
      let d3 = element_rest input fits b.error_index_of.element o2 (b.list ++ rest) d2 in
      let o4 = o3 + 1 + length b.list_element.header in
      let last : o4 + length b.bindings ≡ o + length bytes = omega arith in
      rw
        (
          sum,
          parse_integer_step input fits b.request_id_of o limit q r1 shifts_u32 (omega arith) i d0,
          parse_integer_step input fits b.error_status_of o1 limit q0 r2 shifts_u8 (omega arith) i
              d1,
          parse_integer_step input fits b.error_index_of o2 limit q1 (b.list ++ rest) shifts_u8
              (omega arith) i d2,
        )
        (header_step input fits b.list_element o3 limit q2 rest _ (omega arith) i d3
          ∙ parse_variable_bindings_step b.bindings_of o4 q2 rest (omega arith)
              (body_rest input fits b.list_element o3 rest d3)
          ∙ rw last)
