-- ===== src/Packet/Serialize/Size.antt =====
-- How many bytes `serialize` makes of a packet.
use simple_snmpd.Base.{
  ℕ, ◌+◌, ◌≡◌, refl, sym, ap, subst, List, [], ◌∷◌, ◌++◌, Bytes, length, length-append, All,
  All-append, IsByte, u8, arith,
}
use simple_snmpd.Packet.{SnmpPacket, VariableBinding, IsValidBinding, IsValid}
use simple_snmpd.Packet.Serialize.{serialize}
use simple_snmpd.Packet.Serialize.Layout.{
  element, binding_body, encode_bindings, id_bytes, pdu_body, message_body, serialize-element,
}

-- A binding takes six bytes besides its name and its value.
abbrev pub bindings_size : List VariableBinding → ℕ
bindings_size [] = 0
bindings_size (v ∷ vs) = 6 + length v.oid + length v.value + bindings_size vs

abbrev pub packet_size : SnmpPacket → ℕ
packet_size p = 23 + length p.community + bindings_size p.variable_bindings

length-binding_body :
    (v : VariableBinding) → length (binding_body v) ≡ 4 + length v.oid + length v.value
length-binding_body v = omega (arith, length-append v.oid (element v.value_type v.value))

length-encode_bindings :
    (vs : List VariableBinding) → length (encode_bindings vs) ≡ bindings_size vs
length-encode_bindings [] = refl
length-encode_bindings (v ∷ vs) = omega (
  arith,
  length-append (binding_body v) (encode_bindings vs),
  length-binding_body v,
  length-encode_bindings vs,
)

pub length-serialize : (p : SnmpPacket) → length (serialize p) ≡ packet_size p
length-serialize p = omega (
  arith,
  ap length (serialize-element p),
  length-append p.community (element (u8 p.pdu_type) (pdu_body p)),
  length-encode_bindings p.variable_bindings,
)

element-IsByte :
    (tag : ℕ) (body : Bytes) → IsByte tag → All IsByte body → All IsByte (element tag body)
element-IsByte tag body t h = (t, (omega arith, h))

binding_body-IsByte : (v : VariableBinding) → IsValidBinding v → All IsByte (binding_body v)
binding_body-IsByte v h =
    All-append IsByte (element 0x06 v.oid) (element v.value_type v.value)
      (element-IsByte 0x06 v.oid (omega arith) h.oid_bytes)
      (element-IsByte v.value_type v.value h.type_byte h.value_bytes)

encode_bindings-IsByte :
    (vs : List VariableBinding) → All IsValidBinding vs → All IsByte (encode_bindings vs)
encode_bindings-IsByte [] h = tt
encode_bindings-IsByte (v ∷ vs) (h, hs) =
    All-append IsByte (element 0x30 (binding_body v)) (encode_bindings vs)
      (element-IsByte 0x30 (binding_body v) (omega arith) (binding_body-IsByte v h))
      (encode_bindings-IsByte vs hs)

short_element-IsByte : (b : ℕ) → All IsByte (element 0x02 (u8 b ∷ []))
short_element-IsByte b = (omega arith, (omega arith, (omega arith, tt)))

four_element-IsByte : (id : ℕ) → All IsByte (element 0x02 (id_bytes id))
four_element-IsByte id =
    element-IsByte 0x02 (id_bytes id) (omega arith)
      (omega arith, (omega arith, (omega arith, (omega arith, tt))))

pdu_body-IsByte : (p : SnmpPacket) → IsValid p → All IsByte (pdu_body p)
pdu_body-IsByte p h =
    let list : Bytes = element 0x30 (encode_bindings p.variable_bindings) in
    let index : Bytes = element 0x02 (u8 p.error_index ∷ []) in
    let status : Bytes = element 0x02 (u8 p.error_status ∷ []) in
    All-append IsByte (element 0x02 (id_bytes p.request_id)) (status ++ (index ++ list))
      (four_element-IsByte p.request_id)
      (All-append IsByte status (index ++ list) (short_element-IsByte p.error_status) (
        All-append IsByte index list (short_element-IsByte p.error_index) (
          element-IsByte 0x30 (encode_bindings p.variable_bindings) (omega arith)
            (encode_bindings-IsByte p.variable_bindings h.bindings_valid))))

message_body-IsByte : (p : SnmpPacket) → IsValid p → All IsByte (message_body p)
message_body-IsByte p h =
    let pdu : Bytes = element (u8 p.pdu_type) (pdu_body p) in
    let name : Bytes = element 0x04 p.community in
    All-append IsByte (element 0x02 (u8 p.version ∷ [])) (name ++ pdu)
      (short_element-IsByte p.version)
      (All-append IsByte name pdu (element-IsByte 0x04 p.community (omega arith) h.community_bytes)
        (element-IsByte (u8 p.pdu_type) (pdu_body p) (omega arith) (pdu_body-IsByte p h)))

-- The encoding of a packet whose fields are in the ranges of their C++ types is made of bytes: 23,
-- the community, and for each binding 6 and its name and value.
serialize-size :
    (p : SnmpPacket) → IsValid p → (length (serialize p) ≡ packet_size p) × All IsByte (serialize p)
serialize-size p h = (
  length-serialize p,
  subst (All IsByte) (sym (serialize-element p))
      (element-IsByte 0x30 (message_body p) (omega arith) (message_body-IsByte p h)),
)
