-- ===== src/Server/Write.antt =====
-- `process_set_request`.
pub mod Permits
pub mod Header
use simple_snmpd.Base.{ℕ, Bool, not, none, some, List, [], ◌∷◌, if◌then◌else◌}
use simple_snmpd.Packet.{
  SnmpPacket, VariableBinding, set_pdu_type, set_error_status, add_variable_binding,
}
use simple_snmpd.Packet.Pdu
use simple_snmpd.Packet.Error
use simple_snmpd.Mib.{MibManager}
use simple_snmpd.Security.{SecurityManager}
use simple_snmpd.Server.{null_binding, set_error}

module _ (mib : MibManager) (security : SecurityManager) where
  -- A binding that is answered by NULL and an error.
  abbrev pub refuse :
      mib.State → ℕ → SnmpPacket → VariableBinding → SnmpPacket → SnmpPacket × mib.State
  refuse m code request varbind response =
      (add_variable_binding (null_binding varbind.oid) (set_error code request response), m)

  -- `set_value` on an object that exists and is no scalar.
  unfoldable pub write_one :
      SnmpPacket → VariableBinding → SnmpPacket → Bool × mib.State → SnmpPacket × mib.State
  write_one request varbind response (done, m) =
      if done
      then (add_variable_binding varbind response, m)
      else refuse m Error.wrong_value request varbind response

  -- A round of the loop of `process_set_request`.
  unfoldable pub set_one :
      security.State
      → SnmpPacket
      → VariableBinding
      → SnmpPacket × mib.State
      → SnmpPacket × mib.State
  set_one s request varbind (response, m) =
      if not (security.is_oid_allowed s request.community (mib.oid_to_string varbind.oid))
      then refuse m Error.no_access request varbind response
      else elim (mib.get_value m varbind.oid) [
        | none ↦ refuse m Error.no_such_name request varbind response
        | some _ ↦
            if mib.is_scalar m varbind.oid
            then refuse m Error.read_only request varbind response
            else write_one request varbind response (
                mib.set_value m varbind.oid
                  (record { type = varbind.value_type; octets = varbind.value }))
      ]

  unfoldable pub set_loop :
      security.State
      → SnmpPacket
      → List VariableBinding
      → SnmpPacket × mib.State
      → SnmpPacket × mib.State
  set_loop s request [] r = r
  set_loop s request (v ∷ vs) r = set_loop s request vs (set_one s request v r)

  unfoldable pub process_set_request :
      security.State → SnmpPacket → SnmpPacket × mib.State → SnmpPacket × mib.State
  process_set_request s request (response, m) =
      let response1 = set_pdu_type Pdu.get_response response in
      if not (security.is_write_allowed s request.community)
      then (set_error_status Error.no_access response1, m)
      else set_loop s request request.variable_bindings (response1, m)
