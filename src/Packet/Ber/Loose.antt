-- ===== src/Packet/Ber/Loose.antt =====
-- What a parser takes that does not compare the end of a binding or of the PDU with the length that is
-- declared for it: the messages of Packet/Ber, and those with a declared length that is too large.
use simple_snmpd.Base.{
  ℕ, ◌+◌, ◌≤◌, ◌≡◌, refl, ap, List, [], ◌∷◌, ◌++◌, Bytes, length, length-append, append-nil, arith,
}
use simple_snmpd.Packet.{SnmpPacket, VariableBinding}
use simple_snmpd.Packet.Ber.{
  Opens, Element, IntegerOf, BindingOf, BindingsOf, none_left, one_more, PduBody, Message,
}

-- The declared length of a binding holds its contents and ends inside the list, `room` bytes behind
-- the start of the binding.
pub record LooseBinding (v : VariableBinding) (room : ℕ) (bytes : Bytes) : Type 0 where
  pub name : Bytes
  pub value : Bytes
  pub declared : ℕ
  pub name_element : Element 0x06 v.oid name
  pub value_element : Element v.value_type v.value value
  pub opens : Opens 0x30 declared (name ++ value) bytes
  pub holds : length (name ++ value) ≤ declared
  pub fits : 1 + length opens.header + declared ≤ room

pub data LooseBindings : List VariableBinding → Bytes → Type 0 where
  no_more : LooseBindings [] []
  another :
      {v : VariableBinding} {vs : List VariableBinding} {first others bytes : Bytes}
      → LooseBinding v (length bytes) first
      → LooseBindings vs others
      → bytes ≡ first ++ others
      → LooseBindings (v ∷ vs) bytes

pub record LooseBody (p : SnmpPacket) (bytes : Bytes) : Type 0 where
  pub request_id : Bytes
  pub error_status : Bytes
  pub error_index : Bytes
  pub bindings : Bytes
  pub list : Bytes
  pub request_id_of : IntegerOf 4294967296 p.request_id request_id
  pub error_status_of : IntegerOf 256 p.error_status error_status
  pub error_index_of : IntegerOf 256 p.error_index error_index
  pub bindings_of : LooseBindings p.variable_bindings bindings
  pub list_element : Element 0x30 bindings list
  pub made : bytes ≡ request_id ++ (error_status ++ (error_index ++ list))

-- `spare` bytes without a meaning follow the PDU.
pub record LooseMessage (p : SnmpPacket) (spare : ℕ) (bytes : Bytes) : Type 0 where
  pub version : Bytes
  pub community : Bytes
  pub body : Bytes
  pub extra : Bytes
  pub declared : ℕ
  pub pdu : Bytes
  pub version_element : Element 0x02 (p.version ∷ []) version
  pub community_element : Element 0x04 p.community community
  pub body_of : LooseBody p body
  pub opens : Opens p.pdu_type declared (body ++ extra) pdu
  pub holds : length body ≤ declared
  pub fits : declared ≤ length body + length extra
  pub spared : length extra ≡ spare
  pub element : Element 0x30 (version ++ (community ++ pdu)) bytes

BindingOf-Loose :
    (v : VariableBinding) (room : ℕ) (bytes : Bytes)
    → BindingOf v bytes
    → length bytes ≤ room
    → LooseBinding v room bytes
BindingOf-Loose v room bytes b h =
    let el = b.element in
    let size = length-append el.header (b.name ++ b.value) in
    record {
      name = b.name;
      value = b.value;
      declared = length (b.name ++ b.value);
      name_element = b.name_element;
      value_element = b.value_element;
      opens = el;
      holds = omega arith;
      fits = omega (arith, ap length el.made);
    }

BindingsOf-Loose :
    {vs : List VariableBinding} {bytes : Bytes} → BindingsOf vs bytes → LooseBindings vs bytes
BindingsOf-Loose none_left = no_more
BindingsOf-Loose (one_more {v} {vs} {first} {others} {bytes} b of made) =
    another
      (BindingOf-Loose v (length bytes) first b
        (omega (arith, ap length made, length-append first others)))
      (BindingsOf-Loose of) made

PduBody-Loose : (p : SnmpPacket) (bytes : Bytes) → PduBody p bytes → LooseBody p bytes
PduBody-Loose p bytes b = record {
  request_id = b.request_id;
  error_status = b.error_status;
  error_index = b.error_index;
  bindings = b.bindings;
  list = b.list;
  request_id_of = b.request_id_of;
  error_status_of = b.error_status_of;
  error_index_of = b.error_index_of;
  bindings_of = BindingsOf-Loose b.bindings_of;
  list_element = b.list_element;
  made = b.made;
}

-- A message is a loose one with nothing to spare.
pub Message-Loose : (p : SnmpPacket) (bytes : Bytes) → Message p bytes → LooseMessage p 0 bytes
Message-Loose p bytes m = record {
  version = m.version;
  community = m.community;
  body = m.body;
  extra = [];
  declared = length m.body;
  pdu = m.pdu;
  version_element = m.version_element;
  community_element = m.community_element;
  body_of = PduBody-Loose p m.body m.body_of;
  opens = rw (append-nil m.body) m.pdu_element;
  holds = omega arith;
  fits = omega arith;
  spared = refl;
  element = m.element;
}
