-- ===== src/Packet/Ber/Tests.antt =====
-- A message with lengths in the long form, longer than needed, and an INTEGER with a byte to spare.
use simple_snmpd.Base.{ℕ, ◌+◌, ◌↔◌, ◌≡◌, refl, [], ◌∷◌, ◌++◌, Bytes, length, arith}
use simple_snmpd.Packet.{SnmpPacket, VariableBinding, new_packet}
use simple_snmpd.Packet.Ber.{short, long, BindingOf, none_left, one_more, PduBody, Message}
use simple_snmpd.Packet.Ber.Loose.{LooseMessage}
use simple_snmpd.Packet.Cursor.{ok, next, expect, require_more, require_room, copy, read_integer}
use simple_snmpd.Packet.Cursor.Steps.{at}
use simple_snmpd.Packet.Parse.{
  parse, parse_version, parse_community, parse_pdu, parse_pdu_fields, parse_variable_bindings,
  bindings_loop, parse_round, parse_variable_binding, parse_integer, parse_length, length_loop,
}
use simple_snmpd.Packet.Parse.Exact.{parse-LooseMessage_iff}
use simple_snmpd.Packet.Parse.Grammar.{parse-Message}

abbrev binding : VariableBinding
binding = record { oid = 0x2b ∷ 0x06 ∷ []; value_type = 0x05; value = [] }

abbrev packet : SnmpPacket
packet = record {
  version = 1;
  pdu_type = 0xa0;
  community = b'w' ∷ [];
  request_id = 5;
  error_status = 0;
  error_index = 0;
  variable_bindings = binding ∷ [];
}

abbrev name : Bytes
name = 0x06 ∷ 0x02 ∷ 0x2b ∷ 0x06 ∷ []

abbrev value : Bytes
value = 0x05 ∷ 0x81 ∷ 0x00 ∷ []

abbrev bindings : Bytes
bindings = 0x30 ∷ 0x07 ∷ (name ++ value)

abbrev list : Bytes
list = 0x30 ∷ 0x82 ∷ 0x00 ∷ 0x09 ∷ bindings

abbrev body : Bytes
body = 0x02 ∷ 0x01 ∷ 0x05 ∷ 0x02 ∷ 0x02 ∷ 0x00 ∷ 0x00 ∷ 0x02 ∷ 0x01 ∷ 0x00 ∷ list

abbrev pdu : Bytes
pdu = 0xa0 ∷ 0x17 ∷ body

abbrev version : Bytes
version = 0x02 ∷ 0x81 ∷ 0x01 ∷ 0x01 ∷ []

abbrev community : Bytes
community = 0x04 ∷ 0x01 ∷ b'w' ∷ []

abbrev datagram : Bytes
datagram = 0x30 ∷ 0x84 ∷ 0x00 ∷ 0x00 ∷ 0x00 ∷ 0x20 ∷ (version ++ (community ++ pdu))

binding-BindingOf : BindingOf binding bindings
binding-BindingOf = record {
  name = name;
  value = value;
  name_element = record { header = 0x02 ∷ []; spelled = short (omega arith); made = refl };
  value_element = record {
    header = 0x81 ∷ 0x00 ∷ [];
    spelled = long (0x00 ∷ []) (omega arith) (omega arith) (omega arith) (omega arith);
    made = refl;
  };
  element = record { header = 0x07 ∷ []; spelled = short (omega arith); made = refl };
}

body-PduBody : PduBody packet body
body-PduBody = record {
  request_id = 0x02 ∷ 0x01 ∷ 0x05 ∷ [];
  error_status = 0x02 ∷ 0x02 ∷ 0x00 ∷ 0x00 ∷ [];
  error_index = 0x02 ∷ 0x01 ∷ 0x00 ∷ [];
  bindings = bindings;
  list = list;
  request_id_of = record {
    body = 0x05 ∷ [];
    octets = omega arith;
    element = record { header = 0x01 ∷ []; spelled = short (omega arith); made = refl };
    value = omega arith;
  };
  error_status_of = record {
    body = 0x00 ∷ 0x00 ∷ [];
    octets = omega arith;
    element = record { header = 0x02 ∷ []; spelled = short (omega arith); made = refl };
    value = omega arith;
  };
  error_index_of = record {
    body = 0x00 ∷ [];
    octets = omega arith;
    element = record { header = 0x01 ∷ []; spelled = short (omega arith); made = refl };
    value = omega arith;
  };
  bindings_of = one_more binding-BindingOf none_left refl;
  list_element = record {
    header = 0x82 ∷ 0x00 ∷ 0x09 ∷ [];
    spelled = long (0x00 ∷ 0x09 ∷ []) (omega arith) (omega arith) (omega arith) (omega arith);
    made = refl;
  };
  made = refl;
}

datagram-Message : Message packet datagram
datagram-Message = record {
  version = version;
  community = community;
  body = body;
  pdu = pdu;
  version_element = record {
    header = 0x81 ∷ 0x01 ∷ [];
    spelled = long (0x01 ∷ []) (omega arith) (omega arith) (omega arith) (omega arith);
    made = refl;
  };
  community_element = record { header = 0x01 ∷ []; spelled = short (omega arith); made = refl };
  body_of = body-PduBody;
  pdu_element = record { header = 0x17 ∷ []; spelled = short (omega arith); made = refl };
  element = record {
    header = 0x84 ∷ 0x00 ∷ 0x00 ∷ 0x00 ∷ 0x20 ∷ [];
    spelled =
        long (0x00 ∷ 0x00 ∷ 0x00 ∷ 0x20 ∷ []) (omega arith) (omega arith) (omega arith)
          (omega arith);
    made = refl;
  };
}

parse-Message_example : parse datagram new_packet ≡ ok tt (at (length datagram) packet)
parse-Message_example = parse-Message packet new_packet datagram datagram-Message (omega arith)

-- The same with a PDU that is declared a byte longer than its fields are, and that byte.
abbrev loose : Bytes
loose = 0x30 ∷ 0x21 ∷ (version ++ (community ++ (0xa0 ∷ 0x18 ∷ (body ++ 0xff ∷ []))))

loose_parsed : parse loose new_packet ≡ ok tt (at 34 packet)
unfolding parse parse_version parse_community parse_pdu parse_pdu_fields parse_variable_bindings
    bindings_loop parse_round parse_variable_binding parse_integer parse_length length_loop next
    expect require_more require_room copy read_integer
loose_parsed = refl

parse-LooseMessage_iff_example :
    (parse loose new_packet ≡ ok tt (at 34 packet))
    ↔ ((spare : ℕ) × (34 + spare ≡ length loose) × LooseMessage packet spare loose)
parse-LooseMessage_iff_example =
    parse-LooseMessage_iff loose packet new_packet 34 (omega arith) (omega arith)
