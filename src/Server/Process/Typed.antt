-- ===== src/Server/Process/Typed.antt =====
-- The ranges of the C++ types in the packets that the server builds.
use simple_snmpd.Base.{
  ℕ, ◌≡◌, Bool, inl, inr, Option-cases, none, some, List, [], ◌∷◌, Bytes, All, IsByte, ◌==◌, not,
  arith,
}
use simple_snmpd.Packet.{SnmpPacket, VariableBinding, IsValidBinding, IsValid, add_variable_binding}
use simple_snmpd.Packet.Pdu
use simple_snmpd.Packet.Error
use simple_snmpd.Mib.{MibManager, MibValue}
use simple_snmpd.Security.{SecurityManager}
use simple_snmpd.Server.{null_binding, value_binding}
use simple_snmpd.Server.Read.{
  get_one, get_loop, process_get_request, next_one, next_loop, process_get_next_request,
  process_get_bulk_request,
}
use simple_snmpd.Server.Read.Answers.{process_get_bulk_request-get_next}
use simple_snmpd.Server.Write.{refuse, write_one, set_one, set_loop, process_set_request}
use simple_snmpd.Server.Process.{dispatch, process_trap_v1, process_trap_v2}
use simple_snmpd.Server.Ranges.{
  null_binding-IsValidBinding, value_binding-IsValidBinding, add_variable_binding-IsValid,
  set_error-IsValid, set_error_status-IsValid, get_response-IsValid, IsValidFirst, valid_first,
  branch_first,
}

-- The manager's values and names are vectors of `uint8_t`.
pub record IsTyped (mib : MibManager) : Type 0 where
  pub value_bytes :
      (m : mib.State) (oid : Bytes) (v : MibValue)
      → mib.get_value m oid ≡ some v
      → All IsByte v.octets
  pub name_bytes :
      (m : mib.State) (oid next : Bytes) → mib.get_next_oid m oid ≡ some next → All IsByte next

module _ (mib : MibManager) (typed : IsTyped mib) where
  get_one-IsValid :
      (m : mib.State) (request : SnmpPacket) (v : VariableBinding) (response : SnmpPacket)
      → IsValidBinding v
      → IsValid response
      → IsValid (get_one mib m request v response)
  unfolding get_one
  get_one-IsValid m request v response w h = elim (Option-cases (mib.get_value m v.oid)) [
    | inl e ↦
        rw (e, get_one)
          (add_variable_binding-IsValid (null_binding-IsValidBinding v.oid w.oid_bytes)
            (set_error-IsValid request (omega arith) h))
    | inr (x, e) ↦
        rw (e, get_one)
          (add_variable_binding-IsValid
            (value_binding-IsValidBinding v.oid x w.oid_bytes (typed.value_bytes m v.oid x e)) h)
  ]

  get_loop-IsValid :
      (m : mib.State) (request : SnmpPacket) (vs : List VariableBinding) (response : SnmpPacket)
      → All IsValidBinding vs
      → IsValid response
      → IsValid (get_loop mib m request vs response)
  unfolding get_loop
  get_loop-IsValid m request [] response ws h = h
  get_loop-IsValid m request (v ∷ vs) response (w, ws) h =
      get_loop-IsValid m request vs (get_one mib m request v response) ws
        (get_one-IsValid m request v response w h)

  next_one-IsValid :
      (m : mib.State) (v : VariableBinding) (response : SnmpPacket)
      → IsValidBinding v
      → IsValid response
      → IsValid (next_one mib m v response)
  unfolding next_one
  next_one-IsValid m v response w h = elim (Option-cases (mib.get_next_oid m v.oid)) [
    | inl e ↦
        rw (e, next_one)
          (add_variable_binding-IsValid (null_binding-IsValidBinding v.oid w.oid_bytes) h)
    | inr (n, e) ↦ rw (e, next_one) (found n (typed.name_bytes m v.oid n e))
  ]
    where
      found :
          (n : Bytes)
          → All IsByte n
          → IsValid (elim (mib.get_value m n) as (λ _. SnmpPacket) [
            | some x ↦ add_variable_binding (value_binding n x) response
            | none ↦ add_variable_binding (null_binding n) response
          ])
      found n b = elim (Option-cases (mib.get_value m n)) [
        | inl e ↦ rw e (add_variable_binding-IsValid (null_binding-IsValidBinding n b) h)
        | inr (x, e) ↦ rw e (
            add_variable_binding-IsValid
              (value_binding-IsValidBinding n x b (typed.value_bytes m n x e)) h)
      ]

  next_loop-IsValid :
      (m : mib.State) (vs : List VariableBinding) (response : SnmpPacket)
      → All IsValidBinding vs
      → IsValid response
      → IsValid (next_loop mib m vs response)
  unfolding next_loop
  next_loop-IsValid m [] response ws h = h
  next_loop-IsValid m (v ∷ vs) response (w, ws) h =
      next_loop-IsValid m vs (next_one mib m v response) ws (next_one-IsValid m v response w h)

  refuse-IsValid :
      (security : SecurityManager) (m : mib.State) (code : ℕ) (request : SnmpPacket)
      (v : VariableBinding) (response : SnmpPacket)
      → IsByte code
      → IsValidBinding v
      → IsValid response
      → IsValidFirst (refuse mib security m code request v response)
  refuse-IsValid security m code request v response c w h = valid_first (
      add_variable_binding-IsValid (null_binding-IsValidBinding v.oid w.oid_bytes)
        (set_error-IsValid request c h))

  write_one-IsValid :
      (security : SecurityManager) (request : SnmpPacket) (v : VariableBinding)
      (response : SnmpPacket) (r : Bool × mib.State)
      → IsValidBinding v
      → IsValid response
      → IsValidFirst (write_one mib security request v response r)
  unfolding write_one
  write_one-IsValid security request v response (done, m) w h =
      branch_first done (valid_first (add_variable_binding-IsValid w h))
        (refuse-IsValid security m Error.wrong_value request v response (omega arith) w h)

  set_one-IsValid :
      (security : SecurityManager) (s : security.State) (request : SnmpPacket) (v : VariableBinding)
      (response : SnmpPacket) (m : mib.State)
      → IsValidBinding v
      → IsValid response
      → IsValidFirst (set_one mib security s request v (response, m))
  unfolding set_one
  set_one-IsValid security s request v response m w h =
      branch_first (not (security.is_oid_allowed s request.community (mib.oid_to_string v.oid)))
        (refuse-IsValid security m Error.no_access request v response (omega arith) w h)
        (elim (Option-cases (mib.get_value m v.oid)) [
          | inl e ↦
              rw e
                (refuse-IsValid security m Error.no_such_name request v response (omega arith) w h)
          | inr (x, e) ↦ rw e (
              branch_first (mib.is_scalar m v.oid)
                (refuse-IsValid security m Error.read_only request v response (omega arith) w h)
                (write_one-IsValid security request v response _ w h))
        ])

  set_loop-IsValid :
      (security : SecurityManager) (s : security.State) (request : SnmpPacket)
      (vs : List VariableBinding) (response : SnmpPacket) (m : mib.State)
      → All IsValidBinding vs
      → IsValid response
      → IsValidFirst (set_loop mib security s request vs (response, m))
  unfolding set_loop
  set_loop-IsValid security s request [] response m ws h = valid_first h
  set_loop-IsValid security s request (v ∷ vs) response m (w, ws) h =
      let r = set_one mib security s request v (response, m) in
      set_loop-IsValid security s request vs r.0 r.1 ws
        (set_one-IsValid security s request v response m w h).first

  process_set_request-IsValid :
      (security : SecurityManager) (s : security.State) (request response : SnmpPacket)
      (m : mib.State)
      → IsValid request
      → IsValid response
      → IsValidFirst (process_set_request mib security s request (response, m))
  unfolding process_set_request
  process_set_request-IsValid security s request response m r h =
      branch_first (not (security.is_write_allowed s request.community))
        (valid_first (set_error_status-IsValid (omega arith) (get_response-IsValid h)))
        (set_loop-IsValid security s request request.variable_bindings _ m r.bindings_valid
          (get_response-IsValid h))

  dispatch-IsValidFirst :
      (security : SecurityManager) (s : security.State) (request response : SnmpPacket)
      (m : mib.State)
      → IsValid request
      → IsValid response
      → IsValidFirst (dispatch mib security s request (response, m))
  unfolding dispatch process_trap_v1 process_trap_v2 process_get_request process_get_next_request
  dispatch-IsValidFirst security s request response m r h =
      let bindings = r.bindings_valid in
      let answer = get_response-IsValid h in
      let unsupported =
        valid_first (set_error_status-IsValid {code = Error.no_such_name} (omega arith) h) in
      let next = valid_first (next_loop-IsValid m request.variable_bindings _ bindings answer) in
      let bulk : IsValidFirst (process_get_bulk_request mib m request response, m) =
        rw (process_get_bulk_request-get_next mib m request response) next in
      branch_first (request.pdu_type == Pdu.get_request)
        (valid_first (get_loop-IsValid m request request.variable_bindings _ bindings answer))
        (branch_first (request.pdu_type == Pdu.get_next_request) next (
          branch_first (request.pdu_type == Pdu.get_bulk_request) (branch_first _ bulk unsupported)
            (branch_first (request.pdu_type == Pdu.set_request)
              (process_set_request-IsValid security s request response m r h)
              (branch_first (request.pdu_type == Pdu.trap)
                (branch_first _ (valid_first h) unsupported)
                (branch_first (request.pdu_type == Pdu.trap_v2)
                  (branch_first _ (valid_first h) unsupported) unsupported)))))

  -- Whatever the type of a request, if its fields and those of the packet that the response starts
  -- from are in the ranges of their C++ types, so are those of the response.
  pub dispatch-IsValid :
      (security : SecurityManager) (s : security.State) (request response : SnmpPacket)
      (m : mib.State)
      → IsValid request
      → IsValid response
      → IsValid (dispatch mib security s request (response, m)).0
  dispatch-IsValid security s request response m r h =
      (dispatch-IsValidFirst security s request response m r h).first
