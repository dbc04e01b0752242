-- ===== src/Packet.antt =====
-- `SNMPPacket` (include/simple_snmpd/snmp_packet.hpp, src/core/snmp_packet.cpp): the data, the
-- constants, the constructor and the setters. A getter is the field of the same name. Bytes and
-- the characters of a string are numbers below 256.
pub mod Ber
pub mod Pdu
pub mod Error
pub mod Cursor
pub mod Parse
pub mod Serialize
mod Tests
use simple_snmpd.Base.{ℕ, ◌<◌, List, [], ◌∷◌, ◌++◌, Bytes, IsByte, All}

abbrev pub snmp_version_1 : ℕ
snmp_version_1 = 0

abbrev pub snmp_version_2c : ℕ
snmp_version_2c = 1

abbrev pub snmp_version_3 : ℕ
snmp_version_3 = 3

pub record VariableBinding : Type 0 where
  pub oid : Bytes
  pub value_type : ℕ
  pub value : Bytes

pub record SnmpPacket : Type 0 where
  pub version : ℕ
  pub pdu_type : ℕ
  pub community : Bytes
  pub request_id : ℕ
  pub error_status : ℕ
  pub error_index : ℕ
  pub variable_bindings : List VariableBinding

-- `SNMPPacket::SNMPPacket()`
abbrev pub new_packet : SnmpPacket
new_packet = record {
  version = snmp_version_2c;
  pdu_type = Pdu.get_request;
  community = [];
  request_id = 0;
  error_status = 0;
  error_index = 0;
  variable_bindings = [];
}

-- The setters are `abbrev`: a statement about a handler computes with them.
abbrev pub set_version : ℕ → SnmpPacket → SnmpPacket
set_version v p = record p { version = v }

abbrev pub set_pdu_type : ℕ → SnmpPacket → SnmpPacket
set_pdu_type t p = record p { pdu_type = t }

abbrev pub set_community : Bytes → SnmpPacket → SnmpPacket
set_community c p = record p { community = c }

abbrev pub set_request_id : ℕ → SnmpPacket → SnmpPacket
set_request_id n p = record p { request_id = n }

abbrev pub set_error_status : ℕ → SnmpPacket → SnmpPacket
set_error_status e p = record p { error_status = e }

abbrev pub set_error_index : ℕ → SnmpPacket → SnmpPacket
set_error_index i p = record p { error_index = i }

abbrev pub add_variable_binding : VariableBinding → SnmpPacket → SnmpPacket
add_variable_binding v p = record p { variable_bindings = p.variable_bindings ++ v ∷ [] }

abbrev pub clear_variable_bindings : SnmpPacket → SnmpPacket
clear_variable_bindings p = record p { variable_bindings = [] }

-- The ranges of the C++ types.
pub record IsValidBinding (v : VariableBinding) : Type 0 where
  pub oid_bytes : All IsByte v.oid
  pub type_byte : IsByte v.value_type
  pub value_bytes : All IsByte v.value

pub record IsValid (p : SnmpPacket) : Type 0 where
  pub version_byte : IsByte p.version
  pub pdu_type_byte : IsByte p.pdu_type
  pub community_bytes : All IsByte p.community
  pub request_id_u32 : p.request_id < 4294967296
  pub error_status_byte : IsByte p.error_status
  pub error_index_byte : IsByte p.error_index
  pub bindings_valid : All IsValidBinding p.variable_bindings
