-- ===== src/Server/Process/Gate.antt =====
-- Which requests are answered, and what they change.
use simple_snmpd.Base.{ℕ, ◌≡◌, ◌≢◌, Bool, ◌&&◌, [], if◌then◌else◌, arith}
use simple_snmpd.Packet.{SnmpPacket}
use simple_snmpd.Packet.Pdu
use simple_snmpd.Mib.{MibManager}
use simple_snmpd.Security.{SecurityManager}
use simple_snmpd.Server.Process.{
  Client, Managers, dispatch, respond, check_access, process_snmp_request,
}

module _ (mib : MibManager) (security : SecurityManager) where
  -- All three checks pass, the later two after the rate limit has counted the request.
  abbrev pub admitted : Managers mib security → Client → ℕ → SnmpPacket → Bool
  admitted s client now request =
      let (within_rate, access) = security.check_rate_limit s.access now client.address in
      within_rate
      && (security.is_ip_allowed access client.address
          && security.is_access_allowed access request.community client.address)

  -- The state behind the rate limit.
  abbrev pub counted : Managers mib security → Client → ℕ → Managers mib security
  counted s client now = record s {
    access = (security.check_rate_limit s.access now client.address).1;
  }

  check_access_lem :
      (s : Managers mib security) (client : Client) (request : SnmpPacket) (within : Bool)
      → check_access mib security s client request within ≡ (
          if within
            && (security.is_ip_allowed s.access client.address
                && security.is_access_allowed s.access request.community client.address)
          then respond mib security s client request
          else (s, []))
  unfolding check_access
  check_access_lem s client request within = ground arith

  -- A request that one of the checks turns down gets no answer, and changes nothing but what the
  -- rate limit has counted; any other is answered on the state that the rate limit left.
  pub process_snmp_request_lem :
      (s : Managers mib security) (client : Client) (now : ℕ) (request : SnmpPacket)
      → process_snmp_request mib security s client now request ≡ (
          if admitted s client now request
          then respond mib security (counted s client now) client request
          else (counted s client now, []))
  unfolding process_snmp_request
  process_snmp_request_lem s client now request =
      check_access_lem (counted s client now) client request
        (security.check_rate_limit s.access now client.address).0

  -- Only a SET changes the objects: a request of any other type leaves them as they are.
  dispatch-reads :
      (s : security.State) (request response : SnmpPacket) (m : mib.State)
      → request.pdu_type ≢ Pdu.set_request
      → (dispatch mib security s request (response, m)).1 ≡ m
  unfolding dispatch
  dispatch-reads s request response m h = ground arith
