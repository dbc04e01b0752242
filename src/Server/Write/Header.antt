-- ===== src/Server/Write/Header.antt =====
-- The header fields of the response to a SET.
use simple_snmpd.Base.{◌≡◌, refl, Bool-cases, inl, inr, List, [], ◌∷◌, arith}
use simple_snmpd.Packet.{SnmpPacket, VariableBinding}
use simple_snmpd.Packet.Pdu
use simple_snmpd.Mib.{MibManager}
use simple_snmpd.Security.{SecurityManager}
use simple_snmpd.Server.Write.{set_one, set_loop, process_set_request}
use simple_snmpd.Server.Write.Permits.{Answered, set_one-Answered}

-- The fields that no handler touches, and the PDU type.
pub record SameHeader (p q : SnmpPacket) : Type 0 where
  pub version : q.version ≡ p.version
  pub community : q.community ≡ p.community
  pub request_id : q.request_id ≡ p.request_id
  pub pdu_type : q.pdu_type ≡ p.pdu_type

module _ (mib : MibManager) (security : SecurityManager) where
  Answered-SameHeader :
      (request : SnmpPacket) (v : VariableBinding) (response r result : SnmpPacket)
      → Answered mib security request v response r
      → SameHeader r result
      → SameHeader response result
  Answered-SameHeader request v response r result (inl e) h = ground arith
  Answered-SameHeader request v response r result (inr (code, nonzero, e)) h = ground arith

  set_loop-SameHeader :
      (s : security.State) (request : SnmpPacket) (vs : List VariableBinding)
      (response : SnmpPacket) (m : mib.State)
      → SameHeader response (set_loop mib security s request vs (response, m)).0
  unfolding set_loop
  set_loop-SameHeader s request [] response m = record {
    version = refl;
    community = refl;
    request_id = refl;
    pdu_type = refl;
  }
  set_loop-SameHeader s request (v ∷ vs) response m =
      let r = set_one mib security s request v (response, m) in
      Answered-SameHeader request v response r.0 (set_loop mib security s request vs r).0
        (set_one-Answered mib security s request v response m)
        (set_loop-SameHeader s request vs r.0 r.1)

  pub process_set_request-SameHeader :
      (s : security.State) (request response : SnmpPacket) (m : mib.State)
      → SameHeader
          (record response { pdu_type = Pdu.get_response })
          (process_set_request mib security s request (response, m)).0
  unfolding process_set_request
  process_set_request-SameHeader s request response m =
      elim (Bool-cases (security.is_write_allowed s request.community)) [
        | inl e ↦ rw e (set_loop-SameHeader s request request.variable_bindings _ m)
        | inr e ↦
            rw e (record { version = refl; community = refl; request_id = refl; pdu_type = refl })
      ]
