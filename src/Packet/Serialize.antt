-- ===== src/Packet/Serialize.antt =====
-- `SNMPPacket::serialize` and its helpers. A buffer is a list; `push_back` appends.
pub mod Layout
pub mod Size
use simple_snmpd.Base.{ℕ, ◌+◌, ◌-◌, ◌/◌, ◌%◌, List, [], ◌∷◌, ◌++◌, Bytes, length, set, u8, size_mod}
use simple_snmpd.Packet.{SnmpPacket, VariableBinding}

abbrev pub push_back : Bytes → ℕ → Bytes
push_back buffer b = buffer ++ b ∷ []

-- `buffer[pos] = static_cast<uint8_t>(buffer.size() - pos - 1);`
unfoldable pub fill_length : ℕ → Bytes → Bytes
fill_length pos buffer = set buffer pos (u8 ((length buffer + size_mod - pos - 1) % size_mod))

-- The tag is pushed, then a placeholder, and the position of the placeholder is kept.
unfoldable pub serialize_binding : VariableBinding → Bytes → Bytes
serialize_binding v buffer0 =
    let buffer1 = push_back buffer0 0x30 in
    let varbind_length_pos = length buffer1 in
    let buffer2 = push_back buffer1 0x00 in
    let buffer3 = push_back (push_back buffer2 0x06) (u8 (length v.oid)) ++ v.oid in
    let buffer4 = push_back (push_back buffer3 v.value_type) (u8 (length v.value)) ++ v.value in
    fill_length varbind_length_pos buffer4

unfoldable pub serialize_variable_bindings : List VariableBinding → Bytes → Bytes
serialize_variable_bindings [] buffer = buffer
serialize_variable_bindings (v ∷ vs) buffer =
    serialize_variable_bindings vs (serialize_binding v buffer)

unfoldable pub serialize_pdu_fields : SnmpPacket → Bytes → Bytes
serialize_pdu_fields p buffer0 =
    let id = p.request_id in
    let buffer1 = push_back (push_back buffer0 0x02) 0x04 in
    let buffer2 = push_back (push_back buffer1 (id / 16777216 % 256)) (id / 65536 % 256) in
    let buffer3 = push_back (push_back buffer2 (id / 256 % 256)) (id % 256) in
    let buffer4 = push_back (push_back (push_back buffer3 0x02) 0x01) (u8 p.error_status) in
    let buffer5 = push_back (push_back (push_back buffer4 0x02) 0x01) (u8 p.error_index) in
    let buffer6 = push_back buffer5 0x30 in
    let varbinds_length_pos = length buffer6 in
    let buffer7 = push_back buffer6 0x00 in
    fill_length varbinds_length_pos (serialize_variable_bindings p.variable_bindings buffer7)

-- Each helper returns true on every path, so `serialize` does too, and the buffer is all of it.
unfoldable pub serialize : SnmpPacket → Bytes
serialize p =
    let buffer1 = push_back [] 0x30 in
    let length_pos = length buffer1 in
    let buffer2 = push_back buffer1 0x00 in
    let buffer3 = push_back (push_back (push_back buffer2 0x02) 0x01) (u8 p.version) in
    let buffer4 = push_back (push_back buffer3 0x04) (u8 (length p.community)) ++ p.community in
    let buffer5 = push_back buffer4 (u8 p.pdu_type) in
    let pdu_length_pos = length buffer5 in
    let buffer6 = serialize_pdu_fields p (push_back buffer5 0x00) in
    fill_length length_pos (fill_length pdu_length_pos buffer6)
