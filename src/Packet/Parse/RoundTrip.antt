-- ===== src/Packet/Parse/RoundTrip.antt =====
-- `parse` reads back what `serialize` wrote, as long as the message fits the one-byte lengths: it is
-- then a message of the grammar.
use simple_snmpd.Base.{
  ℕ, ◌≤◌, ◌<◌, ◌≡◌, refl, ap, subst, List, [], ◌∷◌, Bytes, length, length-append, IsByte, All, u8,
  arith,
}
use simple_snmpd.Packet.{SnmpPacket, VariableBinding, IsValid}
use simple_snmpd.Packet.Ber.{
  short, Element, IntegerOf, BindingOf, BindingsOf, none_left, one_more, PduBody, Message,
}
use simple_snmpd.Packet.Cursor.{ok}
use simple_snmpd.Packet.Cursor.Steps.{at, horner}
use simple_snmpd.Packet.Serialize.{serialize}
use simple_snmpd.Packet.Serialize.Layout.{
  element, binding_body, encode_bindings, id_bytes, pdu_body, message_body, serialize-element,
}
use simple_snmpd.Packet.Parse.{parse}
use simple_snmpd.Packet.Parse.Grammar.{parse-Message}

-- The four bytes spell the number.
id_bytes-horner : (n : ℕ) → n < 4294967296 → horner 4294967296 0 (id_bytes n) ≡ n
id_bytes-horner n h = omega arith

id_bytes-IsByte : (n : ℕ) → All IsByte (id_bytes n)
id_bytes-IsByte n = omega arith

u8_small : (n : ℕ) → n < 128 → u8 n ≡ n
u8_small n h = omega arith

encoded-Element : (tag : ℕ) (body : Bytes) → length body < 128 → Element tag body (element tag body)
encoded-Element tag body h = record {
  header = u8 (length body) ∷ [];
  spelled = rw (u8_small (length body) h) (short h);
  made = refl;
}

-- A field of one byte.
byte-IntegerOf : (n : ℕ) → IsByte n → IntegerOf 256 n (element 0x02 (u8 n ∷ []))
byte-IntegerOf n h = record {
  body = u8 n ∷ [];
  octets = (omega arith, tt);
  element = encoded-Element 0x02 (u8 n ∷ []) (omega arith);
  value = omega arith;
}

id-IntegerOf : (n : ℕ) → n < 4294967296 → IntegerOf 4294967296 n (element 0x02 (id_bytes n))
id-IntegerOf n h = record {
  body = id_bytes n;
  octets = id_bytes-IsByte n;
  element = encoded-Element 0x02 (id_bytes n) (omega arith);
  value = id_bytes-horner n h;
}

encoded-BindingOf :
    (v : VariableBinding)
    → length (binding_body v) < 128
    → BindingOf v (element 0x30 (binding_body v))
encoded-BindingOf v h =
    let size = length-append (element 0x06 v.oid) (element v.value_type v.value) in
    record {
      name = element 0x06 v.oid;
      value = element v.value_type v.value;
      name_element = encoded-Element 0x06 v.oid (omega arith);
      value_element = encoded-Element v.value_type v.value (omega arith);
      element = encoded-Element 0x30 (binding_body v) h;
    }

encode_bindings-BindingsOf :
    (vs : List VariableBinding)
    → length (encode_bindings vs) < 128
    → BindingsOf vs (encode_bindings vs)
encode_bindings-BindingsOf [] h = none_left
encode_bindings-BindingsOf (v ∷ vs) h =
    let size = length-append (element 0x30 (binding_body v)) (encode_bindings vs) in
    one_more (encoded-BindingOf v (omega arith)) (encode_bindings-BindingsOf vs (omega arith)) refl

encoded-PduBody : (p : SnmpPacket) → IsValid p → length (pdu_body p) < 128 → PduBody p (pdu_body p)
encoded-PduBody p v h = record {
  request_id = element 0x02 (id_bytes p.request_id);
  error_status = element 0x02 (u8 p.error_status ∷ []);
  error_index = element 0x02 (u8 p.error_index ∷ []);
  bindings = encode_bindings p.variable_bindings;
  list = element 0x30 (encode_bindings p.variable_bindings);
  request_id_of = id-IntegerOf p.request_id v.request_id_u32;
  error_status_of = byte-IntegerOf p.error_status v.error_status_byte;
  error_index_of = byte-IntegerOf p.error_index v.error_index_byte;
  bindings_of = encode_bindings-BindingsOf p.variable_bindings (omega arith);
  list_element = encoded-Element 0x30 (encode_bindings p.variable_bindings) (omega arith);
  made = refl;
}

encoded-Message :
    (p : SnmpPacket)
    → IsValid p
    → length (message_body p) < 128
    → Message p (element 0x30 (message_body p))
encoded-Message p v h =
    let size = length-append p.community (element (u8 p.pdu_type) (pdu_body p)) in
    let version : u8 p.version ≡ p.version = omega (arith, v.version_byte) in
    let tag : u8 p.pdu_type ≡ p.pdu_type = omega arith in
    record {
      version = element 0x02 (u8 p.version ∷ []);
      community = element 0x04 p.community;
      body = pdu_body p;
      pdu = element (u8 p.pdu_type) (pdu_body p);
      version_element =
          subst (λ n. Element 0x02 (n ∷ []) (element 0x02 (u8 p.version ∷ []))) version
            (encoded-Element 0x02 (u8 p.version ∷ []) (omega arith));
      community_element = encoded-Element 0x04 p.community (omega arith);
      body_of = encoded-PduBody p v (omega arith);
      pdu_element =
          subst (λ n. Element n (pdu_body p) (element (u8 p.pdu_type) (pdu_body p))) tag
            (encoded-Element (u8 p.pdu_type) (pdu_body p) (omega arith));
      element = encoded-Element 0x30 (message_body p) h;
    }

-- What `serialize` writes is a message of the packet, where one byte is enough for each length.
pub serialize-Message :
    (p : SnmpPacket) → IsValid p → length (serialize p) ≤ 129 → Message p (serialize p)
serialize-Message p v small =
    let e = serialize-element p in
    let size : length (message_body p) < 128 = omega (arith, ap length e) in
    rw e (encoded-Message p v size)

-- `parse` reads back what `serialize` wrote: for every packet whose fields are in the ranges of
-- their C++ types and whose encoding takes at most 129 bytes, parsing the encoding returns true, at
-- its end, with that very packet, whatever the packet that is parsed into held before.
pub parse-serialize :
    (p q : SnmpPacket)
    → IsValid p
    → length (serialize p) ≤ 129
    → parse (serialize p) q ≡ ok tt (at (length (serialize p)) p)
parse-serialize p q v small =
    parse-Message p q (serialize p) (serialize-Message p v small) (omega arith)
