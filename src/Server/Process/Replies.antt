-- ===== src/Server/Process/Replies.antt =====
-- The datagrams that the server sends, from the bytes that it receives.
use simple_snmpd.Base.{
  ℕ, ◌+◌, ◌≤◌, ◌≡◌, ◌⊎◌, refl, true, Option, some, inl, inr, List, [], ◌∷◌, ◌++◌, Bytes, length,
  length-append, take, take_all, length-take-le, All, All-take, IsByte, arith,
}
use simple_snmpd.Packet.{SnmpPacket, IsValid, new_packet, snmp_version_1, snmp_version_2c}
use simple_snmpd.Packet.Pdu
use simple_snmpd.Packet.Cursor.{Cursor, Outcome}
use simple_snmpd.Packet.Cursor.Safety.{Ends, ends_ok, ends_reject}
use simple_snmpd.Packet.Parse.Total.{parse-Ends}
use simple_snmpd.Packet.Ber.{Message}
use simple_snmpd.Packet.Parse.Grammar.{parse-Message}
use simple_snmpd.Packet.Parse.RoundTrip.{serialize-Message}
use simple_snmpd.Packet.Serialize.{serialize}
use simple_snmpd.Mib.{MibManager}
use simple_snmpd.Security.{SecurityManager}
use simple_snmpd.Server.Process.{
  Client, Sent, send_response, Event, failed, empty, received, Managers, response_to, dispatch,
  respond, process_snmp_request, process_parsed, server_round, server_loop, process_trap_v1,
  process_trap_v2,
}
use simple_snmpd.Server.Process.Gate.{admitted, process_snmp_request_lem}

pub new_packet-IsValid : IsValid new_packet
new_packet-IsValid = omega arith

-- The bytes of a datagram are bytes.
abbrev pub EventIsBytes : Event → Type 0
EventIsBytes failed = Unit
EventIsBytes empty = Unit
EventIsBytes (received datagram client now) = All IsByte datagram

-- The datagrams among the events.
abbrev pub weight : Event → ℕ
weight failed = 0
weight empty = 0
weight (received datagram client now) = 1

abbrev pub datagrams : List Event → ℕ
datagrams [] = 0
datagrams (e ∷ es) = weight e + datagrams es

module _ (mib : MibManager) (security : SecurityManager) where
  process_snmp_request-sent :
      (s : Managers mib security) (client : Client) (now : ℕ) (request : SnmpPacket)
      → length (process_snmp_request mib security s client now request).1 ≤ 1
  process_snmp_request-sent s client now request =
      rw (process_snmp_request_lem mib security s client now request)
        (unfold respond send_response in ground arith)

  -- A round that ends in a state of the program, and sends one datagram at most.
  abbrev pub Returns : ℕ → Option (Managers mib security × List Sent) → Type 0
  Returns most r =
      (s : Managers mib security) × (sent : List Sent) × (r ≡ some (s, sent)) × (length sent ≤ most)

  process_parsed-Returns :
      (s : Managers mib security) (client : Client) (now : ℕ) {Q : Unit {0} → Cursor → Type 0}
      {R : Cursor → Type 0} {o : Outcome (Unit {0})}
      → Ends Q R o
      → Returns 1 (process_parsed mib security s client now o)
  unfolding process_parsed
  process_parsed-Returns s client now (ends_ok {c = c} q) =
      let r = process_snmp_request mib security s client now c.packet in
      (r.0, r.1, refl, process_snmp_request-sent s client now c.packet)
  process_parsed-Returns s client now (ends_reject r) = (s, [], refl, omega arith)

  -- Whatever bytes arrive, a round of the server ends in a state of the program, with no read out
  -- of bounds and no loop without end. It sends at most one datagram, and only on a datagram.
  pub server_round-Returns :
      (s : Managers mib security) (e : Event)
      → EventIsBytes e
      → Returns (weight e) (server_round mib security s e)
  unfolding server_round
  server_round-Returns s failed h = (s, [], refl, omega arith)
  server_round-Returns s empty h = (s, [], refl, omega arith)
  server_round-Returns s (received datagram client now) h = process_parsed-Returns s client now (
      parse-Ends (take 4096 datagram) (All-take IsByte 4096 datagram h)
        (omega (arith, length-take-le 4096 datagram)) new_packet new_packet-IsValid)

  -- So does the whole loop, on any sequence of events: it sends no more datagrams than arrive.
  pub server_loop-Returns :
      (es : List Event) (s : Managers mib security)
      → All EventIsBytes es
      → Returns (datagrams es) (server_loop mib security s es)
  unfolding server_loop
  server_loop-Returns [] s h = (s, [], refl, omega arith)
  server_loop-Returns (e ∷ es) s (h, hs) =
      let (s1, sent, round, one) = server_round-Returns s e h in
      let (s2, more, rest, few) = server_loop-Returns es s1 hs in
      (s2, sent ++ more, rw (round, rest, server_loop), omega (arith, length-append sent more))

  -- A request that the codec of this program wrote, of at most 129 bytes, is taken in as it was
  -- meant: a round of the server on its bytes is the processing of that very packet.
  -- A round takes in every message of a packet that fits the buffer of 4096 bytes.
  pub server_round-Message :
      (s : Managers mib security) (client : Client) (now : ℕ) (p : SnmpPacket) (datagram : Bytes)
      → Message p datagram
      → length datagram ≤ 4096
      → server_round mib security s (received datagram client now)
        ≡ some (process_snmp_request mib security s client now p)
  unfolding server_round process_parsed
  server_round-Message s client now p datagram m fits =
      rw (take_all 4096 datagram fits, parse-Message p new_packet datagram m (omega arith))

  pub server_round-serialize :
      (s : Managers mib security) (client : Client) (now : ℕ) (p : SnmpPacket)
      → IsValid p
      → length (serialize p) ≤ 129
      → server_round mib security s (received (serialize p) client now)
        ≡ some (process_snmp_request mib security s client now p)
  server_round-serialize s client now p v small =
      server_round-Message s client now p (serialize p) (serialize-Message p v small) (omega arith)

  dispatch-trap :
      (s : security.State) (request response : SnmpPacket) (m : mib.State)
      → ((request.pdu_type ≡ Pdu.trap) × (request.version ≡ snmp_version_1))
        ⊎ ((request.pdu_type ≡ Pdu.trap_v2) × (request.version ≡ snmp_version_2c))
      → dispatch mib security s request (response, m) ≡ (response, m)
  unfolding dispatch process_trap_v1 process_trap_v2
  dispatch-trap s request response m (inl h) = ground arith
  dispatch-trap s request response m (inr h) = ground arith

  -- An admitted trap, of version 1 in a v1 packet or of version 2 in a v2c packet, is answered: the
  -- sender gets one datagram, a GET-REQUEST with no bindings that repeats the version, the community
  -- and the request id.
  trap_answered :
      (s : Managers mib security) (client : Client) (now : ℕ) (request : SnmpPacket)
      → ((request.pdu_type ≡ Pdu.trap) × (request.version ≡ snmp_version_1))
        ⊎ ((request.pdu_type ≡ Pdu.trap_v2) × (request.version ≡ snmp_version_2c))
      → admitted mib security s client now request ≡ true
      → (process_snmp_request mib security s client now request).1
        ≡ record {
          client = client;
          datagram = serialize (record {
            version = request.version;
            pdu_type = Pdu.get_request;
            community = request.community;
            request_id = request.request_id;
            error_status = 0;
            error_index = 0;
            variable_bindings = [];
          });
        }
          ∷ []
  unfolding respond send_response
  trap_answered s client now request h e =
      let access = (security.check_rate_limit s.access now client.address).1 in
      rw (
        process_snmp_request_lem mib security s client now request,
        e,
        dispatch-trap access request (response_to mib security request) s.objects h,
      )
