-- ===== src/Connection.antt =====
-- `SNMPConnection`. What the system calls return is an argument of the operation that calls them.
pub mod Lifetime
pub mod Exchange
mod Tests
use simple_snmpd.Base.{
  ℕ, ◌-◌, ◌/◌, Bool, true, false, Option, none, some, List, [], ◌∷◌, Bytes, take, leb,
  if◌then◌else◌, bit_and, bit_or,
}
use simple_snmpd.Packet.{SnmpPacket}
use simple_snmpd.Packet.Cursor.{Outcome, ok, reject, fault, stuck}
use simple_snmpd.Packet.Parse.{parse}
use simple_snmpd.Packet.Serialize.{serialize}

-- `none` is the descriptor -1. Times are the nanoseconds of the steady clock.
pub record Connection : Type 0 where
  pub socket_fd : Option ℕ
  pub client_address : Bytes
  pub client_port : ℕ
  pub connected : Bool
  pub last_activity : ℕ

unfoldable pub new_connection : Option ℕ → Bytes → ℕ → ℕ → Connection
new_connection socket_fd client_address client_port now = record {
  socket_fd = socket_fd;
  client_address = client_address;
  client_port = client_port;
  connected = true;
  last_activity = now;
}

-- What `send` returns: a negative number, or how many bytes it took. A partial send is only logged.
pub data SendResult : Type 0 where
  send_failed : SendResult
  bytes_sent : ℕ → SendResult

-- What `send_response` returns, the connection behind it, and the buffer handed to `send`, if any.
pub record Answer : Type 0 where
  pub done : Bool
  pub connection : Connection
  pub handed : Option Bytes

abbrev sent_at : Connection → ℕ → Bytes → SendResult → Answer
sent_at c now buffer send_failed = record { done = false; connection = c; handed = some buffer }
sent_at c now buffer (bytes_sent n) = record {
  done = true;
  connection = record c { last_activity = now };
  handed = some buffer;
}

unfoldable pub send_response : Connection → SnmpPacket → SendResult → ℕ → Answer
send_response c packet result now =
    if c.connected
    then sent_at c now (serialize packet) result
    else record { done = false; connection = c; handed = none }

-- What `recv` returns: a negative number, 0, or the bytes that fit the buffer of 4096.
pub data RecvResult : Type 0 where
  recv_failed peer_closed : RecvResult
  bytes_received : Bytes → RecvResult

-- What `receive_request` returns, the connection and the packet behind it.
pub record Request : Type 0 where
  pub done : Bool
  pub connection : Connection
  pub packet : SnmpPacket

-- On what `parse` made of the bytes; `none` stands for no C++ state, a fault or an endless loop.
unfoldable pub parsed_at : Connection → ℕ → Outcome (Unit {0}) → Option Request
parsed_at c now (ok _ q) =
    some (record { done = true; connection = record c { last_activity = now }; packet = q.packet })
parsed_at c now (reject q) = some (record { done = false; connection = c; packet = q.packet })
parsed_at c now fault = none
parsed_at c now stuck = none

abbrev received_at : Connection → SnmpPacket → RecvResult → ℕ → Option Request
received_at c packet recv_failed now =
    some (record { done = false; connection = c; packet = packet })
received_at c packet peer_closed now =
    some (record { done = false; connection = record c { connected = false }; packet = packet })
received_at c packet (bytes_received datagram) now =
    parsed_at c now (parse (take 4096 datagram) packet)

unfoldable pub receive_request : Connection → SnmpPacket → RecvResult → ℕ → Option Request
receive_request c packet result now =
    if c.connected
    then received_at c packet result now
    else some (record { done = false; connection = c; packet = packet })

-- Whole seconds since the last activity, against the limit.
unfoldable pub is_timeout : Connection → ℕ → ℕ → Bool
is_timeout c now timeout_seconds = leb timeout_seconds ((now - c.last_activity) / 1000000000)

abbrev as_list : Option ℕ → List ℕ
as_list none = []
as_list (some fd) = fd ∷ []

-- `close`, with the descriptors that it hands to `::close`.
unfoldable pub close : Connection → Connection × List ℕ
close c = (record c { socket_fd = none; connected = false }, as_list c.socket_fd)

-- The flags that `set_non_blocking` hands to `F_SETFL`, if it does, on what `F_GETFL` returns.
-- `O_NONBLOCK` is 0x800 on Linux.
abbrev with_flag : Bool → ℕ → ℕ
with_flag true flags = bit_or flags 0x800
with_flag false flags = flags - bit_and flags 0x800

unfoldable pub set_non_blocking : Connection → Bool → Option ℕ → Option ℕ
set_non_blocking c non_blocking flags = elim c.socket_fd [
  | none ↦ none
  | some _ ↦ elim flags [ none ↦ none | some f ↦ some (with_flag non_blocking f) ]
]

-- On what the two calls of `setsockopt` return. The second is made if the first succeeds.
unfoldable pub set_timeout : Connection → Bool → Bool → Bool
set_timeout c receive_set send_set = elim c.socket_fd [
  | none ↦ false
  | some _ ↦ if receive_set then send_set else false
]
