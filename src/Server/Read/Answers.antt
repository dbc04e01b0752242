-- ===== src/Server/Read/Answers.antt =====
-- The responses to reads, described binding by binding.
use simple_snmpd.Base.{
  ℕ, ◌+◌, ◌≡◌, refl, Bool, true, false, ◌&&◌, none, some, List, [], ◌∷◌, ◌++◌, map, Bytes, length,
  drop, drop-next, get_elem?-drop, append-nil, append_assoc, if◌then◌else◌, u8, arith,
}
use simple_snmpd.Packet.{SnmpPacket, VariableBinding}
use simple_snmpd.Packet.Pdu
use simple_snmpd.Packet.Error
use simple_snmpd.Mib.{MibManager}
use simple_snmpd.Server.{null_binding, value_binding}
use simple_snmpd.Server.Read.{
  get_one, get_loop, process_get_request, next_one, next_loop, process_get_next_request, bulk_loop,
  process_get_bulk_request,
}

module _ (mib : MibManager) (m : mib.State) where
  -- What a GET answers on one object: its value, or NULL.
  abbrev pub value_or_null : Bytes → VariableBinding
  value_or_null oid = elim (mib.get_value m oid) [
    | some v ↦ value_binding oid v
    | none ↦ null_binding oid
  ]

  abbrev pub exists : Bytes → Bool
  exists oid = elim (mib.get_value m oid) [ some v ↦ true | none ↦ false ]

  abbrev pub all_exist : List VariableBinding → Bool
  all_exist [] = true
  all_exist (v ∷ vs) = exists v.oid && all_exist vs

  -- What a GET-NEXT answers: the object behind, or NULL under the same name at the end.
  abbrev pub successor : Bytes → VariableBinding
  successor oid = elim (mib.get_next_oid m oid) [
    | some next ↦ value_or_null next
    | none ↦ null_binding oid
  ]

  get_loop_lem :
      (request : SnmpPacket) (vs : List VariableBinding) (response : SnmpPacket)
      → get_loop mib m request vs response ≡ record response {
        error_status = if all_exist vs then response.error_status else Error.no_such_name;
        error_index =
            if all_exist vs then response.error_index else u8 (length request.variable_bindings);
        variable_bindings = response.variable_bindings ++ map (λ v. value_or_null v.oid) vs;
      }
  unfolding get_loop get_one
  get_loop_lem request [] response = rw append-nil
  get_loop_lem request (v ∷ vs) response = ground (
    arith,
    get_loop_lem request vs (get_one mib m request v response),
    append_assoc response.variable_bindings (value_or_null v.oid ∷ [])
        (map (λ (w : VariableBinding). value_or_null w.oid) vs),
  )

  -- For every state of the objects: the response to a GET keeps the header fields that it starts
  -- with, is a GET-RESPONSE, and has behind its bindings one for each binding of the request, in
  -- order and under the same name, with the value of the object, or NULL where there is none. If
  -- each object exists, the error fields stay; if not, the status is noSuchName and the index is the
  -- number of bindings (its low byte), whichever binding failed.
  pub process_get_request_lem :
      (request response : SnmpPacket)
      → process_get_request mib m request response ≡ record response {
        pdu_type = Pdu.get_response;
        error_status =
            if all_exist request.variable_bindings
            then response.error_status
            else Error.no_such_name;
        error_index =
            if all_exist request.variable_bindings
            then response.error_index
            else u8 (length request.variable_bindings);
        variable_bindings =
            response.variable_bindings ++ map (λ v. value_or_null v.oid) request.variable_bindings;
      }
  unfolding process_get_request
  process_get_request_lem request response =
      get_loop_lem request request.variable_bindings
        (record response { pdu_type = Pdu.get_response })

  next_loop_lem :
      (vs : List VariableBinding) (response : SnmpPacket)
      → next_loop mib m vs response ≡ record response {
        variable_bindings = response.variable_bindings ++ map (λ v. successor v.oid) vs;
      }
  unfolding next_loop next_one
  next_loop_lem [] response = rw append-nil
  next_loop_lem (v ∷ vs) response = ground (
    arith,
    next_loop_lem vs (next_one mib m v response),
    append_assoc response.variable_bindings (successor v.oid ∷ [])
        (map (λ (w : VariableBinding). successor w.oid) vs),
  )

  -- For every state of the objects: the response to a GET-NEXT has behind its bindings one for each
  -- binding of the request, in order: the next object with its value (NULL if it has none), or NULL
  -- under the requested name at the end of the objects. The error fields stay, also at the end.
  pub process_get_next_request_lem :
      (request response : SnmpPacket)
      → process_get_next_request mib m request response ≡ record response {
        pdu_type = Pdu.get_response;
        variable_bindings =
            response.variable_bindings ++ map (λ v. successor v.oid) request.variable_bindings;
      }
  unfolding process_get_next_request
  process_get_next_request_lem request response =
      next_loop_lem request.variable_bindings (record response { pdu_type = Pdu.get_response })

  bulk_loop-next_loop :
      (vs all : List VariableBinding) (i : ℕ) (response : SnmpPacket)
      → drop i all ≡ vs
      → bulk_loop mib m all (length vs) i response ≡ next_loop mib m vs response
  unfolding bulk_loop next_loop
  bulk_loop-next_loop [] all i response e = refl
  bulk_loop-next_loop (v ∷ vs) all i response e =
      rw (get_elem?-drop all i e, bulk_loop)
        (bulk_loop-next_loop vs all (i + 1) (next_one mib m v response) (drop-next all i v vs e))

  -- A GET-BULK is answered as the GET-NEXT on the same bindings: once per binding, with no
  -- repetitions.
  pub process_get_bulk_request-get_next :
      (request response : SnmpPacket)
      → process_get_bulk_request mib m request response
        ≡ process_get_next_request mib m request response
  unfolding process_get_bulk_request process_get_next_request
  process_get_bulk_request-get_next request response =
      bulk_loop-next_loop request.variable_bindings request.variable_bindings 0 _ refl
