-- ===== src/Server/Process/Exchange.antt =====
-- A whole exchange: a client's encoding of a request, a round of the server, and the client's parse of the datagram that comes back.
use simple_snmpd.Base.{ℕ, ◌≤◌, ◌≡◌, refl, true, some, [], ◌∷◌, Bytes, length, arith}
use simple_snmpd.Packet.{SnmpPacket, IsValid}
use simple_snmpd.Packet.Ber.{Message}
use simple_snmpd.Packet.Cursor.{ok}
use simple_snmpd.Packet.Parse.{parse}
use simple_snmpd.Packet.Parse.RoundTrip.{parse-serialize}
use simple_snmpd.Packet.Serialize.{serialize}
use simple_snmpd.Mib.{MibManager}
use simple_snmpd.Security.{SecurityManager}
use simple_snmpd.Server.Process.{
  Client, received, Managers, response_to, dispatch, respond, send_response, server_round,
}
use simple_snmpd.Server.Process.Gate.{admitted, counted, process_snmp_request_lem}
use simple_snmpd.Server.Process.Replies.{server_round-Message}
use simple_snmpd.Server.Process.Typed.{IsTyped, dispatch-IsValid}

module _ (mib : MibManager) (security : SecurityManager) where
  response_to-IsValid : (p : SnmpPacket) → IsValid p → IsValid (response_to mib security p)
  response_to-IsValid p h = record {
    version_byte = h.version_byte;
    pdu_type_byte = omega arith;
    community_bytes = h.community_bytes;
    request_id_u32 = h.request_id_u32;
    error_status_byte = omega arith;
    error_index_byte = omega arith;
    bindings_valid = tt;
  }

  -- What the server makes of a request: the response and the objects behind it.
  abbrev pub reply : Managers mib security → Client → ℕ → SnmpPacket → SnmpPacket × mib.State
  reply s client now p =
      dispatch mib security (counted mib security s client now).access p
        (response_to mib security p, s.objects)

  -- Where the manager's values and names are bytes: a request in range that passes the three checks,
  -- in any BER encoding of at most 4096 bytes, and whose response has an encoding of at most 129 bytes,
  -- is answered by exactly one datagram, to its client, and the client's parse of it returns true, with
  -- the very response that the dispatch made of the very request that the client meant.
  pub exchange :
      (s : Managers mib security) (client : Client) (now : ℕ) (p q : SnmpPacket) (datagram : Bytes)
      → IsTyped mib
      → IsValid p
      → Message p datagram
      → length datagram ≤ 4096
      → admitted mib security s client now p ≡ true
      → length (serialize (reply s client now p).0) ≤ 129
      → (server_round mib security s (received datagram client now)
          ≡ some (
            record {
              access = (counted mib security s client now).access;
              objects = (reply s client now p).1;
            },
            record { client = client; datagram = serialize (reply s client now p).0 } ∷ [],
          ))
        × (parse (serialize (reply s client now p).0) q
            ≡ ok tt (record {
              offset = length (serialize (reply s client now p).0);
              packet = (reply s client now p).0;
            }))
  unfolding respond send_response
  exchange s client now p q datagram typed v m small e fits = (
    rw
        (
          server_round-Message mib security s client now p datagram m small,
          process_snmp_request_lem mib security s client now p,
          e,
        )
        refl,
    parse-serialize _ q
        (dispatch-IsValid mib typed security (counted mib security s client now).access p
          (response_to mib security p) s.objects v (response_to-IsValid p v))
        fits,
  )
