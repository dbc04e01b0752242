-- ===== src/Connection/Exchange.antt =====
-- What one connection sends, another receives.
use simple_snmpd.Base.{ℕ, ◌+◌, ◌*◌, ◌≤◌, ◌≡◌, ◌↔◌, true, some, Bytes, length, take_all, arith}
use simple_snmpd.Packet.{SnmpPacket, IsValid}
use simple_snmpd.Packet.Parse.RoundTrip.{parse-serialize}
use simple_snmpd.Packet.Serialize.{serialize}
use simple_snmpd.Connection.{
  Connection, send_response, bytes_sent, receive_request, bytes_received, parsed_at, is_timeout,
}

-- Of two open connections, one sends a packet in range whose encoding takes at most 129 bytes, and
-- the buffer that it hands to `send` arrives at the other: both calls return true, the other one
-- receives that very packet, and each has the time of its call as its last activity.
receive_request-send_response :
    (here there : Connection) (p q : SnmpPacket) (count sent_time received_time : ℕ)
    → here.connected ≡ true
    → there.connected ≡ true
    → IsValid p
    → length (serialize p) ≤ 129
    → (buffer : Bytes) × (send_response here p (bytes_sent count) sent_time ≡ record {
      done = true;
      connection = record here { last_activity = sent_time };
      handed = some buffer;
    })
      × (receive_request there q (bytes_received buffer) received_time
          ≡ some (record {
            done = true;
            connection = record there { last_activity = received_time };
            packet = p;
          }))
unfolding send_response receive_request parsed_at
receive_request-send_response here there p q count sent_time received_time h t v small = (
  serialize p,
  rw h,
  rw (t, take_all 4096 (serialize p) (omega arith), parse-serialize p q v small),
)

-- A connection is timed out exactly from the moment that lies the limit of whole seconds behind its
-- last activity, provided the clock has not gone back.
is_timeout_lem :
    (c : Connection) (now timeout_seconds : ℕ)
    → c.last_activity ≤ now
    → (is_timeout c now timeout_seconds ≡ true)
      ↔ (c.last_activity + timeout_seconds * 1000000000 ≤ now)
unfolding is_timeout
is_timeout_lem c now timeout_seconds h = (λ t. ground arith, λ t. ground arith)
