-- ===== src/Server/Process.antt =====
-- `process_snmp_request`, `send_response` and a round of `server_loop`.
pub mod Gate
pub mod Replies
pub mod Header
pub mod Typed
pub mod Exchange
pub mod Bounded
pub mod Decided
mod Tests
use simple_snmpd.Base.{
  ℕ, ◌+◌, Bool, not, ◌||◌, Option, none, some, List, [], ◌∷◌, ◌++◌, Bytes, take, ◌==◌,
  if◌then◌else◌,
}
use simple_snmpd.Packet.{
  SnmpPacket, new_packet, snmp_version_1, snmp_version_2c, snmp_version_3, set_version,
  set_community, set_request_id, set_error_status,
}
use simple_snmpd.Packet.Pdu
use simple_snmpd.Packet.Error
use simple_snmpd.Mib.{MibManager}
use simple_snmpd.Packet.Cursor.{Outcome, ok, reject, fault, stuck}
use simple_snmpd.Packet.Parse.{parse}
use simple_snmpd.Packet.Serialize.{serialize}
use simple_snmpd.Security.{SecurityManager}
use simple_snmpd.Server.Read.{
  process_get_request, process_get_next_request, process_get_bulk_request,
}
use simple_snmpd.Server.Write.{process_set_request}

-- The handlers of traps only log.
unfoldable pub process_trap_v1 : SnmpPacket → SnmpPacket → SnmpPacket
process_trap_v1 request response = response

unfoldable pub process_trap_v2 : SnmpPacket → SnmpPacket → SnmpPacket
process_trap_v2 request response = response

-- `sockaddr_in`, with the text that `inet_ntoa` makes of the address.
pub record Client : Type 0 where
  pub address : Bytes
  pub port : ℕ

-- A datagram that is handed to `sendto`. What `sendto` returns is only logged.
pub record Sent : Type 0 where
  pub client : Client
  pub datagram : Bytes

-- `send_response`: `serialize` returns true for every packet.
unfoldable pub send_response : SnmpPacket → Client → List Sent
send_response response client = record { client = client; datagram = serialize response } ∷ []

-- What `recvfrom` returns: a negative number, 0, or a datagram, whose bytes past the 4096 of the
-- buffer are lost. A datagram comes with the time at which it is processed.
pub data Event : Type 0 where
  failed empty : Event
  received : Bytes → Client → ℕ → Event

module _ (mib : MibManager) (security : SecurityManager) where
  -- The `switch` of `process_snmp_request`.
  unfoldable pub dispatch :
      security.State → SnmpPacket → SnmpPacket × mib.State → SnmpPacket × mib.State
  dispatch s request (response, m) =
      let t = request.pdu_type in
      let v = request.version in
      let unsupported : SnmpPacket × mib.State =
        (set_error_status Error.no_such_name response, m) in
      if t == Pdu.get_request
      then (process_get_request mib m request response, m)
      else if t == Pdu.get_next_request
      then (process_get_next_request mib m request response, m)
      else if t == Pdu.get_bulk_request
      then (if v == snmp_version_2c || v == snmp_version_3
          then (process_get_bulk_request mib m request response, m)
          else unsupported)
      else if t == Pdu.set_request
      then process_set_request mib security s request (response, m)
      else if t == Pdu.trap
      then (if v == snmp_version_1 then (process_trap_v1 request response, m) else unsupported)
      else if t == Pdu.trap_v2
      then (if v == snmp_version_2c then (process_trap_v2 request response, m) else unsupported)
      else unsupported

  -- What requests read and change.
  pub record Managers : Type 0 where
    pub access : security.State
    pub objects : mib.State

  -- The packet that `process_snmp_request` starts a response from.
  abbrev pub response_to : SnmpPacket → SnmpPacket
  response_to request =
      set_request_id request.request_id
        (set_community request.community (set_version request.version new_packet))

  -- The part behind the checks.
  unfoldable pub respond : Managers → Client → SnmpPacket → Managers × List Sent
  respond s client request =
      let (response, objects) = dispatch s.access request (response_to request, s.objects) in
      (record s { objects = objects }, send_response response client)

  -- The checks behind the rate limit, which has changed the state by then.
  unfoldable pub check_access : Managers → Client → SnmpPacket → Bool → Managers × List Sent
  check_access s client request within_rate =
      if not within_rate
      then (s, [])
      else if not (security.is_ip_allowed s.access client.address)
      then (s, [])
      else if not (security.is_access_allowed s.access request.community client.address)
      then (s, [])
      else respond s client request

  unfoldable pub process_snmp_request : Managers → Client → ℕ → SnmpPacket → Managers × List Sent
  process_snmp_request s client now request =
      let (within_rate, access) = security.check_rate_limit s.access now client.address in
      check_access (record s { access = access }) client request within_rate

  -- On what `parse` made of the datagram. `none` stands for no C++ state: a read out of bounds, or
  -- a loop without end.
  unfoldable pub process_parsed :
      Managers → Client → ℕ → Outcome (Unit {0}) → Option (Managers × List Sent)
  process_parsed s client now (ok _ c) = some (process_snmp_request s client now c.packet)
  process_parsed s client now (reject c) = some (s, [])
  process_parsed s client now fault = none
  process_parsed s client now stuck = none

  -- A round of `server_loop` while `running_`.
  unfoldable pub server_round : Managers → Event → Option (Managers × List Sent)
  server_round s failed = some (s, [])
  server_round s empty = some (s, [])
  server_round s (received datagram client now) =
      process_parsed s client now (parse (take 4096 datagram) new_packet)

  -- The loop over the events until `running_` falls: what the rounds send, in order.
  unfoldable pub server_loop : Managers → List Event → Option (Managers × List Sent)
  server_loop s [] = some (s, [])
  server_loop s (e ∷ es) = elim (server_round s e) [
    | none ↦ none
    | some (s1, sent) ↦ elim (server_loop s1 es) [
      | none ↦ none
      | some (s2, more) ↦ some (s2, sent ++ more)
    ]
  ]
