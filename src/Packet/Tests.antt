-- ===== src/Packet/Tests.antt =====
-- The packets of src/tests/test_snmp_packet.cpp, and the theorems at concrete packets.
use simple_snmpd.Base.{ℕ, ◌+◌, ◌≤◌, ◌≡◌, refl, [], ◌∷◌, ◌++◌, Bytes, length, replicate, arith}
use simple_snmpd.Packet.{SnmpPacket, IsValid, new_packet, add_variable_binding}
use simple_snmpd.Packet.Cursor.{
  ok, reject, next, expect, require_more, require_room, copy, read_integer,
}
use simple_snmpd.Packet.Cursor.Safety.{Ends, Valid, Within}
use simple_snmpd.Packet.Cursor.Steps.{at}
use simple_snmpd.Packet.Parse.{
  length_loop, parse_length, parse_integer, parse_variable_binding, parse_round, bindings_loop,
  parse_variable_bindings, parse_pdu_fields, parse_version, parse_community, parse_pdu, parse,
}
use simple_snmpd.Packet.Parse.Reencode.{parse-serialize_le}
use simple_snmpd.Packet.Parse.Total.{parse-Ends}
use simple_snmpd.Packet.Parse.RoundTrip.{parse-serialize}
use simple_snmpd.Packet.Ber.{Message}
use simple_snmpd.Packet.Parse.Oversize.{parse-serialize_oversize}
use simple_snmpd.Packet.Serialize.{
  fill_length, serialize_binding, serialize_variable_bindings, serialize_pdu_fields, serialize,
}

-- "public"
abbrev public : Bytes
public = 0x70 ∷ 0x75 ∷ 0x62 ∷ 0x6c ∷ 0x69 ∷ 0x63 ∷ []

abbrev sys_descr : Bytes
sys_descr = 0x2b ∷ 0x06 ∷ 0x01 ∷ 0x02 ∷ 0x01 ∷ 0x01 ∷ 0x01 ∷ 0x00 ∷ []

-- The packet of `test_snmp_packet_serialization`.
abbrev sample : SnmpPacket
sample =
    add_variable_binding (record { oid = sys_descr; value_type = 0x05; value = [] })
      (record new_packet { community = public; request_id = 12345 })

abbrev sample_bytes : Bytes
sample_bytes =
    0x30
    ∷ 0x29
    ∷ 0x02
    ∷ 0x01
    ∷ 0x01
    ∷ 0x04
    ∷ 0x06
    ∷ (public
        ++ 0xa0
          ∷ 0x1c
          ∷ 0x02
          ∷ 0x04
          ∷ 0x00
          ∷ 0x00
          ∷ 0x30
          ∷ 0x39
          ∷ 0x02
          ∷ 0x01
          ∷ 0x00
          ∷ 0x02
          ∷ 0x01
          ∷ 0x00
          ∷ 0x30
          ∷ 0x0e
          ∷ 0x30
          ∷ 0x0c
          ∷ 0x06
          ∷ 0x08
          ∷ (sys_descr ++ 0x05 ∷ 0x00 ∷ []))

serialize-sample : serialize sample ≡ sample_bytes
unfolding serialize serialize_pdu_fields serialize_variable_bindings serialize_binding fill_length
serialize-sample = refl

parse-sample : parse sample_bytes new_packet ≡ ok tt (at 43 sample)
unfolding parse parse_version parse_community parse_pdu parse_pdu_fields parse_variable_bindings
    bindings_loop parse_round parse_variable_binding parse_integer parse_length length_loop next
    expect require_more require_room copy read_integer
parse-sample = refl

-- The data of `test_snmp_packet_parsing`: its first length is 26, and 31 bytes follow.
abbrev test_data : Bytes
test_data =
    0x30
    ∷ 0x1a
    ∷ 0x02
    ∷ 0x01
    ∷ 0x01
    ∷ 0x04
    ∷ 0x06
    ∷ (public
        ++ 0xa0 ∷ 0x0d ∷ 0x02 ∷ 0x04 ∷ 0x00 ∷ 0x00 ∷ 0x30 ∷ 0x39 ∷ 0x02 ∷ 0x01 ∷ 0x00 ∷ 0x02 ∷ 0x01
          ∷ 0x00 ∷ 0x30 ∷ 0x03 ∷ 0x30 ∷ 0x01 ∷ 0x06 ∷ 0x00 ∷ [])

parse-test_data : parse test_data new_packet ≡ reject (at 2 new_packet)
unfolding parse parse_version parse_length next expect require_more
parse-test_data = refl

new_packet-IsValid : IsValid new_packet
new_packet-IsValid = omega arith

sample-IsValid : IsValid sample
sample-IsValid = omega arith

parse-Ends_example : Ends (λ _ c. Within 0 (length test_data) c) Valid (parse test_data new_packet)
parse-Ends_example = parse-Ends test_data (omega arith) (omega arith) new_packet new_packet-IsValid

parse-serialize_example :
    parse (serialize sample) new_packet ≡ ok tt (at (length (serialize sample)) sample)
unfolding serialize serialize_pdu_fields serialize_variable_bindings serialize_binding fill_length
parse-serialize_example = parse-serialize sample new_packet sample-IsValid (omega arith)

-- A community of 100 bytes.
abbrev large : SnmpPacket
large = record sample { community = replicate 100 0x61 }

parse-serialize_oversize_example :
    ((o : ℕ) × (parse (serialize large) new_packet ≡ reject (at o new_packet)))
    × ¬ Message large (serialize large)
unfolding serialize serialize_pdu_fields serialize_variable_bindings serialize_binding fill_length
parse-serialize_oversize_example =
    parse-serialize_oversize large new_packet large (omega arith) (omega arith)

parse-serialize_le_example : length (serialize sample) ≤ length sample_bytes + 6
parse-serialize_le_example =
    parse-serialize_le sample_bytes (at 43 sample) (omega arith) (omega arith) parse-sample
