-- ===== src/Server/Process/Header.antt =====
-- The header fields of every response.
use simple_snmpd.Base.{ℕ, ◌≡◌, Bool, true, ◌&&◌, ◌||◌, [], ◌∷◌, ◌==◌, if◌then◌else◌, arith}
use simple_snmpd.Packet.{SnmpPacket, snmp_version_2c, snmp_version_3}
use simple_snmpd.Packet.Pdu
use simple_snmpd.Packet.Serialize.{serialize}
use simple_snmpd.Mib.{MibManager}
use simple_snmpd.Security.{SecurityManager}
use simple_snmpd.Server.Read.Answers.{
  process_get_request_lem, process_get_next_request_lem, process_get_bulk_request-get_next,
}
use simple_snmpd.Server.Write.Header.{process_set_request-SameHeader}
use simple_snmpd.Server.Process.{
  Client, Managers, response_to, dispatch, respond, send_response, process_snmp_request,
  process_trap_v1, process_trap_v2,
}
use simple_snmpd.Server.Process.Gate.{admitted, process_snmp_request_lem}

-- A GET, a GET-NEXT, a SET, or a GET-BULK of version 2c or 3.
abbrev pub is_handled : SnmpPacket → Bool
is_handled p =
    p.pdu_type == Pdu.get_request
    || (p.pdu_type == Pdu.get_next_request
        || (p.pdu_type == Pdu.set_request
            || (p.pdu_type == Pdu.get_bulk_request
                && (p.version == snmp_version_2c || p.version == snmp_version_3))))

abbrev pub answer_type : SnmpPacket → ℕ → ℕ
answer_type p unchanged = if is_handled p then Pdu.get_response else unchanged

-- What the dispatch keeps, and the type that it sets.
pub record Answers (request response result : SnmpPacket) : Type 0 where
  pub version : result.version ≡ response.version
  pub community : result.community ≡ response.community
  pub request_id : result.request_id ≡ response.request_id
  pub pdu_type : result.pdu_type ≡ answer_type request response.pdu_type

module _ (mib : MibManager) (security : SecurityManager) where
  -- Every response repeats the version, the community and the request id that it starts with. Its
  -- type is GET-RESPONSE for a GET, a GET-NEXT, a SET, and a GET-BULK of version 2c or 3; for any
  -- other request it is the type that the response starts with.
  pub dispatch-Answers :
      (s : security.State) (request response : SnmpPacket) (m : mib.State)
      → Answers request response (dispatch mib security s request (response, m)).0
  unfolding dispatch process_trap_v1 process_trap_v2
  dispatch-Answers s request response m = ground (
    arith,
    process_get_request_lem mib m request response,
    process_get_next_request_lem mib m request response,
    process_get_bulk_request-get_next mib m request response,
    process_set_request-SameHeader mib security s request response m,
  )

  -- An admitted request, of whatever type, gets exactly one answer, sent to its client: a packet
  -- with the version, the community and the request id of the request. It is a GET-RESPONSE for a GET,
  -- a GET-NEXT, a SET, and a GET-BULK of version 2c or 3, and a GET-REQUEST for all others, traps among
  -- them.
  pub reply_echoes :
      (s : Managers mib security) (client : Client) (now : ℕ) (request : SnmpPacket)
      → admitted mib security s client now request ≡ true
      → (response : SnmpPacket) × ((process_snmp_request mib security s client now request).1
          ≡ record { client = client; datagram = serialize response } ∷ [])
        × (response.version ≡ request.version)
        × (response.community ≡ request.community)
        × (response.request_id ≡ request.request_id)
        × (response.pdu_type ≡ answer_type request Pdu.get_request)
  unfolding respond send_response
  reply_echoes s client now request e =
      let access = (security.check_rate_limit s.access now client.address).1 in
      let start = response_to mib security request in
      let a = dispatch-Answers access request start s.objects in
      (
        (dispatch mib security access request (start, s.objects)).0,
        rw (process_snmp_request_lem mib security s client now request, e),
        a.version,
        a.community,
        a.request_id,
        a.pdu_type,
      )
