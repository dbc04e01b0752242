-- ===== src/Packet/Ber.antt =====
-- The messages of SNMP in BER with definite lengths, written as the standard has them and without
-- reference to the code: a length in the short form, or in the long form of one to four bytes, also
-- where fewer would do; an INTEGER of any number of bytes.
pub mod Loose
mod Tests
use simple_snmpd.Base.{
  ℕ, ◌+◌, ◌≤◌, ◌<◌, ◌≡◌, List, [], ◌∷◌, ◌++◌, Bytes, length, All, IsByte, size_mod,
}
use simple_snmpd.Packet.{SnmpPacket, VariableBinding}
use simple_snmpd.Packet.Cursor.Steps.{horner}

-- The bytes of a length.
pub data Spells : Bytes → ℕ → Type 0 where
  short : {n : ℕ} → n < 128 → Spells (n ∷ []) n
  long :
      (xs : Bytes)
      → All IsByte xs
      → 1 ≤ length xs
      → length xs ≤ 4
      → {n : ℕ} → horner size_mod 0 xs ≡ n
      → Spells ((128 + length xs) ∷ xs) n

-- A tag and a length in front of `tail`.
pub record Opens (tag declared : ℕ) (tail bytes : Bytes) : Type 0 where
  pub header : Bytes
  pub spelled : Spells header declared
  pub made : bytes ≡ tag ∷ (header ++ tail)

-- A tag, the length of the contents, and the contents.
abbrev pub Element : ℕ → Bytes → Bytes → Type 0
Element tag body bytes = Opens tag (length body) body bytes

-- An INTEGER whose bytes, highest first, are `n` in an unsigned type of range `m`.
pub record IntegerOf (m n : ℕ) (bytes : Bytes) : Type 0 where
  pub body : Bytes
  pub octets : All IsByte body
  pub element : Element 0x02 body bytes
  pub value : horner m 0 body ≡ n

-- A name and a value of any type.
pub record BindingOf (v : VariableBinding) (bytes : Bytes) : Type 0 where
  pub name : Bytes
  pub value : Bytes
  pub name_element : Element 0x06 v.oid name
  pub value_element : Element v.value_type v.value value
  pub element : Element 0x30 (name ++ value) bytes

pub data BindingsOf : List VariableBinding → Bytes → Type 0 where
  none_left : BindingsOf [] []
  one_more :
      {v : VariableBinding} {vs : List VariableBinding} {first others bytes : Bytes}
      → BindingOf v first
      → BindingsOf vs others
      → bytes ≡ first ++ others
      → BindingsOf (v ∷ vs) bytes

pub record PduBody (p : SnmpPacket) (bytes : Bytes) : Type 0 where
  pub request_id : Bytes
  pub error_status : Bytes
  pub error_index : Bytes
  pub bindings : Bytes
  pub list : Bytes
  pub request_id_of : IntegerOf 4294967296 p.request_id request_id
  pub error_status_of : IntegerOf 256 p.error_status error_status
  pub error_index_of : IntegerOf 256 p.error_index error_index
  pub bindings_of : BindingsOf p.variable_bindings bindings
  pub list_element : Element 0x30 bindings list
  pub made : bytes ≡ request_id ++ (error_status ++ (error_index ++ list))

-- The version is an INTEGER of one byte.
pub record Message (p : SnmpPacket) (bytes : Bytes) : Type 0 where
  pub version : Bytes
  pub community : Bytes
  pub body : Bytes
  pub pdu : Bytes
  pub version_element : Element 0x02 (p.version ∷ []) version
  pub community_element : Element 0x04 p.community community
  pub body_of : PduBody p body
  pub pdu_element : Element p.pdu_type body pdu
  pub element : Element 0x30 (version ++ (community ++ pdu)) bytes
