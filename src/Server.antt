-- ===== src/Server.antt =====
-- `SNMPServer` (src/core/snmp_server.cpp). The objects and the access rules are the parameters
-- `mib` and `security`; what is logged is not modelled.
pub mod Read
pub mod Write
pub mod Process
pub mod Lifecycle
pub mod Threads
pub mod Ranges
mod Tests
use simple_snmpd.Base.{ℕ, [], Bytes, length, u8}
use simple_snmpd.Packet.{SnmpPacket, VariableBinding, set_error_status, set_error_index}
use simple_snmpd.Mib.{MibValue}

-- `value_type = 0x05; value.clear();`
abbrev pub null_binding : Bytes → VariableBinding
null_binding oid = record { oid = oid; value_type = 0x05; value = [] }

abbrev pub value_binding : Bytes → MibValue → VariableBinding
value_binding oid v = record { oid = oid; value_type = u8 v.type; value = v.octets }

-- `set_error_status(code); set_error_index(static_cast<uint8_t>(bindings.size()));`
abbrev pub set_error : ℕ → SnmpPacket → SnmpPacket → SnmpPacket
set_error code request response =
    set_error_index (u8 (length request.variable_bindings)) (set_error_status code response)
