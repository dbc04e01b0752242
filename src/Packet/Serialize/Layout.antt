-- ===== src/Packet/Serialize/Layout.antt =====
-- The buffer that `serialize` leaves, as nested elements: a tag, the low byte of a length, and the
-- contents. No placeholder is left, and each length is that of what follows it.
use simple_snmpd.Base.{
  ℕ, ◌+◌, ◌-◌, ◌/◌, ◌%◌, ◌≡◌, sym, ◌∙◌, ap, List, [], ◌∷◌, ◌++◌, Bytes, length, length-append,
  set-append, append-nil, append_assoc, u8, size_mod, arith,
}
use simple_snmpd.Packet.{SnmpPacket, VariableBinding}
use simple_snmpd.Packet.Serialize.{
  push_back, fill_length, serialize_binding, serialize_variable_bindings, serialize_pdu_fields,
  serialize,
}

-- An element with a length of one byte.
abbrev pub element : ℕ → Bytes → Bytes
element tag body = tag ∷ u8 (length body) ∷ body

abbrev pub binding_body : VariableBinding → Bytes
binding_body v = element 0x06 v.oid ++ element v.value_type v.value

abbrev pub encode_bindings : List VariableBinding → Bytes
encode_bindings [] = []
encode_bindings (v ∷ vs) = element 0x30 (binding_body v) ++ encode_bindings vs

-- The four bytes of the request id, highest first.
abbrev pub id_bytes : ℕ → Bytes
id_bytes n = (n / 16777216 % 256) ∷ (n / 65536 % 256) ∷ (n / 256 % 256) ∷ (n % 256) ∷ []

abbrev pub pdu_body : SnmpPacket → Bytes
pdu_body p =
    element 0x02 (id_bytes p.request_id)
    ++ (element 0x02 (u8 p.error_status ∷ [])
        ++ (element 0x02 (u8 p.error_index ∷ [])
            ++ element 0x30 (encode_bindings p.variable_bindings)))

abbrev pub message_body : SnmpPacket → Bytes
message_body p =
    element 0x02 (u8 p.version ∷ [])
    ++ (element 0x04 p.community ++ element (u8 p.pdu_type) (pdu_body p))

-- The placeholder behind `xs` is replaced by the low byte of the length of what follows it.
fill_length-append :
    (xs ys : Bytes) → fill_length (length xs) (xs ++ 0 ∷ ys) ≡ xs ++ u8 (length ys) ∷ ys
unfolding fill_length
fill_length-append xs ys =
    let e : u8 ((length (xs ++ 0 ∷ ys) + size_mod - length xs - 1) % size_mod) ≡ u8 (length ys) =
      omega (arith, length-append xs (0 ∷ ys)) in
    rw e (set-append xs ys 0 (u8 (length ys)))

-- The same, with the tag in front of the placeholder pushed by the caller.
fill_length-element :
    (xs ys : Bytes) (tag : ℕ)
    → fill_length (length (push_back xs tag)) (xs ++ tag ∷ 0 ∷ ys) ≡ xs ++ element tag ys
fill_length-element xs ys tag =
    let e = fill_length-append (push_back xs tag) ys in simp append_assoc at e

serialize_binding-element :
    (v : VariableBinding) (buffer : Bytes)
    → serialize_binding v buffer ≡ buffer ++ element 0x30 (binding_body v)
unfolding serialize_binding
serialize_binding-element v buffer =
    simp append_assoc (fill_length-element buffer (binding_body v) 0x30)

serialize_variable_bindings-encode :
    (vs : List VariableBinding) (buffer : Bytes)
    → serialize_variable_bindings vs buffer ≡ buffer ++ encode_bindings vs
unfolding serialize_variable_bindings
serialize_variable_bindings-encode [] buffer = sym (append-nil buffer)
serialize_variable_bindings-encode (v ∷ vs) buffer =
    serialize_variable_bindings-encode vs (serialize_binding v buffer)
    ∙ simp (serialize_binding-element, append_assoc)

serialize_pdu_fields-body :
    (p : SnmpPacket) (buffer : Bytes) → serialize_pdu_fields p buffer ≡ buffer ++ pdu_body p
unfolding serialize_pdu_fields
serialize_pdu_fields-body p buffer =
    let head : Bytes =
      element 0x02 (id_bytes p.request_id)
      ++ (element 0x02 (u8 p.error_status ∷ [])
          ++ (element 0x02 (u8 p.error_index ∷ []) ++ 0x30 ∷ [])) in
    let e = fill_length-append (buffer ++ head) (encode_bindings p.variable_bindings) in
    simp (serialize_variable_bindings-encode, append_assoc) (simp append_assoc at e)

-- For every packet the buffer of `serialize` is one SEQUENCE that holds the version, the community
-- and the PDU, and the PDU holds the request id, the error fields and the bindings; each length is
-- the low byte of the size of the element that follows it.
pub serialize-element : (p : SnmpPacket) → serialize p ≡ element 0x30 (message_body p)
unfolding serialize
serialize-element p =
    let front : Bytes =
      0x30
      ∷ 0x00
      ∷ (element 0x02 (u8 p.version ∷ []) ++ (element 0x04 p.community ++ u8 p.pdu_type ∷ [])) in
    let inner = fill_length-append front (pdu_body p) in
    simp (serialize_pdu_fields-body, append_assoc)
      (ap (fill_length 1) (simp append_assoc at inner)
        ∙ fill_length-append (0x30 ∷ []) (message_body p))
