-- ===== src/Server/Read.antt =====
-- `process_get_request`, `process_get_next_request` and `process_get_bulk_request`.
pub mod Answers
pub mod Reordered
use simple_snmpd.Base.{ℕ, zero, suc, ◌+◌, none, some, List, [], ◌∷◌, length, get_elem?}
use simple_snmpd.Packet.{SnmpPacket, VariableBinding, set_pdu_type, add_variable_binding}
use simple_snmpd.Packet.Pdu
use simple_snmpd.Packet.Error
use simple_snmpd.Mib.{MibManager}
use simple_snmpd.Server.{null_binding, value_binding, set_error}

module _ (mib : MibManager) where
  -- A round of the loop of `process_get_request`.
  unfoldable pub get_one : mib.State → SnmpPacket → VariableBinding → SnmpPacket → SnmpPacket
  get_one m request varbind response = elim (mib.get_value m varbind.oid) [
    | some v ↦ add_variable_binding (value_binding varbind.oid v) response
    | none ↦
        add_variable_binding (null_binding varbind.oid)
          (set_error Error.no_such_name request response)
  ]

  unfoldable pub get_loop : mib.State → SnmpPacket → List VariableBinding → SnmpPacket → SnmpPacket
  get_loop m request [] response = response
  get_loop m request (v ∷ vs) response = get_loop m request vs (get_one m request v response)

  unfoldable pub process_get_request : mib.State → SnmpPacket → SnmpPacket → SnmpPacket
  process_get_request m request response =
      get_loop m request request.variable_bindings (set_pdu_type Pdu.get_response response)

  -- A round of the loop of `process_get_next_request`.
  unfoldable pub next_one : mib.State → VariableBinding → SnmpPacket → SnmpPacket
  next_one m varbind response = elim (mib.get_next_oid m varbind.oid) [
    | some next_oid ↦ elim (mib.get_value m next_oid) [
      | some v ↦ add_variable_binding (value_binding next_oid v) response
      | none ↦ add_variable_binding (null_binding next_oid) response
    ]
    | none ↦ add_variable_binding (null_binding varbind.oid) response
  ]

  unfoldable pub next_loop : mib.State → List VariableBinding → SnmpPacket → SnmpPacket
  next_loop m [] response = response
  next_loop m (v ∷ vs) response = next_loop m vs (next_one m v response)

  unfoldable pub process_get_next_request : mib.State → SnmpPacket → SnmpPacket → SnmpPacket
  process_get_next_request m request response =
      next_loop m request.variable_bindings (set_pdu_type Pdu.get_response response)

  -- `for (size_t i = 0; i < varbinds.size(); ++i)`: `n` rounds are left, and `i` stays in range.
  unfoldable pub bulk_loop : mib.State → List VariableBinding → ℕ → ℕ → SnmpPacket → SnmpPacket
  bulk_loop m varbinds zero i response = response
  bulk_loop m varbinds (suc n) i response =
      bulk_loop m varbinds n (i + 1)
        (elim (get_elem? varbinds i) [ some v ↦ next_one m v response | none ↦ response ])

  unfoldable pub process_get_bulk_request : mib.State → SnmpPacket → SnmpPacket → SnmpPacket
  process_get_bulk_request m request response =
      bulk_loop m request.variable_bindings (length request.variable_bindings) 0
        (set_pdu_type Pdu.get_response response)
