-- ===== src/Server/Ranges.antt =====
-- The steps by which the handlers fill in a response keep its fields in range.
use simple_snmpd.Base.{
  ℕ, Bool, true, false, [], ◌∷◌, Bytes, All, All-append, IsByte, if◌then◌else◌, arith,
}
use simple_snmpd.Packet.{
  SnmpPacket, VariableBinding, IsValidBinding, IsValid, add_variable_binding, set_error_status,
  set_pdu_type,
}
use simple_snmpd.Packet.Pdu
use simple_snmpd.Mib.{MibValue}
use simple_snmpd.Server.{null_binding, value_binding, set_error}

pub null_binding-IsValidBinding : (oid : Bytes) → All IsByte oid → IsValidBinding (null_binding oid)
null_binding-IsValidBinding oid h = record {
  oid_bytes = h;
  type_byte = omega arith;
  value_bytes = tt;
}

pub value_binding-IsValidBinding :
    (oid : Bytes) (v : MibValue)
    → All IsByte oid
    → All IsByte v.octets
    → IsValidBinding (value_binding oid v)
value_binding-IsValidBinding oid v h k = record {
  oid_bytes = h;
  type_byte = omega arith;
  value_bytes = k;
}

pub add_variable_binding-IsValid :
    {v : VariableBinding} {p : SnmpPacket}
    → IsValidBinding v
    → IsValid p
    → IsValid (add_variable_binding v p)
add_variable_binding-IsValid {v} {p} w h = record {
  version_byte = h.version_byte;
  pdu_type_byte = h.pdu_type_byte;
  community_bytes = h.community_bytes;
  request_id_u32 = h.request_id_u32;
  error_status_byte = h.error_status_byte;
  error_index_byte = h.error_index_byte;
  bindings_valid = All-append IsValidBinding p.variable_bindings (v ∷ []) h.bindings_valid (w, tt);
}

pub set_error-IsValid :
    {code : ℕ} {p : SnmpPacket} (request : SnmpPacket)
    → IsByte code
    → IsValid p
    → IsValid (set_error code request p)
set_error-IsValid request c h = record {
  version_byte = h.version_byte;
  pdu_type_byte = h.pdu_type_byte;
  community_bytes = h.community_bytes;
  request_id_u32 = h.request_id_u32;
  error_status_byte = c;
  error_index_byte = omega arith;
  bindings_valid = h.bindings_valid;
}

pub set_error_status-IsValid :
    {code : ℕ} {p : SnmpPacket} → IsByte code → IsValid p → IsValid (set_error_status code p)
set_error_status-IsValid c h = record {
  version_byte = h.version_byte;
  pdu_type_byte = h.pdu_type_byte;
  community_bytes = h.community_bytes;
  request_id_u32 = h.request_id_u32;
  error_status_byte = c;
  error_index_byte = h.error_index_byte;
  bindings_valid = h.bindings_valid;
}

pub get_response-IsValid : {p : SnmpPacket} → IsValid p → IsValid (set_pdu_type Pdu.get_response p)
get_response-IsValid h = record {
  version_byte = h.version_byte;
  pdu_type_byte = omega arith;
  community_bytes = h.community_bytes;
  request_id_u32 = h.request_id_u32;
  error_status_byte = h.error_status_byte;
  error_index_byte = h.error_index_byte;
  bindings_valid = h.bindings_valid;
}

-- The same of a response with the state of the objects behind it.
pub record IsValidFirst {A : Type 0} (r : SnmpPacket × A) : Type 0 where
  pub first : IsValid r.0

abbrev pub valid_first : {A : Type 0} {p : SnmpPacket} {a : A} → IsValid p → IsValidFirst (p, a)
valid_first h = record { first = h }

pub branch_first :
    {A : Type 0} {p q : SnmpPacket × A} (b : Bool)
    → IsValidFirst p
    → IsValidFirst q
    → IsValidFirst (if b then p else q)
branch_first true h k = h
branch_first false h k = k
