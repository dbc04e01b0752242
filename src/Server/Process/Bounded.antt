-- ===== src/Server/Process/Bounded.antt =====
-- How much the server answers.
use simple_snmpd.Base.{
  ℕ, suc, ◌+◌, ◌≤◌, ◌≡◌, refl, Bool-cases, inl, inr, List, [], ◌∷◌, ◌++◌, map, length,
  length-append, arith,
}
use simple_snmpd.Packet.{SnmpPacket, VariableBinding}
use simple_snmpd.Packet.Pdu
use simple_snmpd.Mib.{MibManager}
use simple_snmpd.Security.{SecurityManager}
use simple_snmpd.Server.{null_binding}
use simple_snmpd.Server.Read.Answers.{
  value_or_null, successor, process_get_request_lem, process_get_next_request_lem,
  process_get_bulk_request-get_next,
}
use simple_snmpd.Server.Write.{set_one, set_loop, process_set_request}
use simple_snmpd.Server.Write.Permits.{Answered, set_one-Answered}
use simple_snmpd.Server.Process.{dispatch, process_trap_v1, process_trap_v2}

length-map : {A B : Type 0} (f : A → B) (xs : List A) → length (map f xs) ≡ length xs
length-map f [] = refl
length-map f (x ∷ xs) = omega (arith, length-map f xs)

-- How many bindings a packet has.
abbrev pub count : SnmpPacket → ℕ
count p = length p.variable_bindings

module _ (mib : MibManager) (security : SecurityManager) where
  Answered-count :
      (request : SnmpPacket) (v : VariableBinding) (response r : SnmpPacket)
      → Answered mib security request v response r
      → count r ≡ suc (count response)
  Answered-count request v response r (inl e) =
      ground (arith, length-append response.variable_bindings (v ∷ []))
  Answered-count request v response r (inr (code, nonzero, e)) =
      ground (arith, length-append response.variable_bindings (null_binding v.oid ∷ []))

  set_loop-count :
      (s : security.State) (request : SnmpPacket) (vs : List VariableBinding)
      (response : SnmpPacket) (m : mib.State)
      → count (set_loop mib security s request vs (response, m)).0 ≡ count response + length vs
  unfolding set_loop
  set_loop-count s request [] response m = omega arith
  set_loop-count s request (v ∷ vs) response m =
      let r = set_one mib security s request v (response, m) in
      omega (
        arith,
        set_loop-count s request vs r.0 r.1,
        Answered-count request v response r.0
            (set_one-Answered mib security s request v response m),
      )

  process_set_request-count :
      (s : security.State) (request response : SnmpPacket) (m : mib.State)
      → count (process_set_request mib security s request (response, m)).0
        ≤ count response + count request
  unfolding process_set_request
  process_set_request-count s request response m =
      elim (Bool-cases (security.is_write_allowed s request.community)) [
        | inl e ↦ rw e (
            omega (
              arith,
              set_loop-count s request request.variable_bindings
                  (record response { pdu_type = Pdu.get_response }) m,
            ))
        | inr e ↦ rw e (omega arith)
      ]

  appended :
      (f : VariableBinding → VariableBinding) (request response : SnmpPacket)
      → length (response.variable_bindings ++ map f request.variable_bindings)
        ≡ count response + count request
  appended f request response = omega (
    arith,
    length-append response.variable_bindings (map f request.variable_bindings),
    length-map f request.variable_bindings,
  )

  -- Whatever the type of a request, the response has behind the bindings that it starts with as many at
  -- most as the request has.
  pub dispatch-count :
      (s : security.State) (request response : SnmpPacket) (m : mib.State)
      → count (dispatch mib security s request (response, m)).0 ≤ count response + count request
  unfolding dispatch process_trap_v1 process_trap_v2
  dispatch-count s request response m = ground (
    arith,
    process_get_request_lem mib m request response,
    process_get_next_request_lem mib m request response,
    process_get_bulk_request-get_next mib m request response,
    process_set_request-count s request response m,
    appended (λ v. value_or_null mib m v.oid) request response,
    appended (λ v. successor mib m v.oid) request response,
  )
