-- ===== src/Connection/Lifetime.antt =====
-- The life of a connection as a sequence of calls.
use simple_snmpd.Base.{
  ℕ, ◌≡◌, refl, false, Option, none, some, List, [], ◌∷◌, ◌++◌, take, length-take-le, All, All-take,
  IsByte, append_assoc, append-nil, sym, ap, ◌∙◌, arith, Bool-cases, inl, inr,
}
use simple_snmpd.Packet.{SnmpPacket, IsValid}
use simple_snmpd.Packet.Cursor.{Cursor, Outcome}
use simple_snmpd.Packet.Cursor.Safety.{Ends, ends_ok, ends_reject}
use simple_snmpd.Packet.Parse.Total.{parse-Ends}
use simple_snmpd.Connection.{
  Connection, SendResult, send_failed, bytes_sent, send_response, RecvResult, recv_failed,
  peer_closed, bytes_received, Request, parsed_at, received_at, receive_request, close, as_list,
}

-- A call of an operation that can change the connection, with what the system answers.
pub data Call : Type 0 where
  sending : SnmpPacket → SendResult → ℕ → Call
  receiving : SnmpPacket → RecvResult → ℕ → Call
  closing : Call

-- The connection behind a call, and the descriptors that the call hands to `::close`.
abbrev after_receive : Option Request → Option (Connection × List ℕ)
after_receive none = none
after_receive (some r) = some (r.connection, [])

unfoldable pub step : Connection → Call → Option (Connection × List ℕ)
step c (sending packet result now) = some ((send_response c packet result now).connection, [])
step c (receiving packet result now) = after_receive (receive_request c packet result now)
step c closing = some (close c)

abbrev ahead : List ℕ → Option (Connection × List ℕ) → Option (Connection × List ℕ)
ahead fds none = none
ahead fds (some (c, more)) = some (c, fds ++ more)

unfoldable pub run : Connection → List Call → Option (Connection × List ℕ)
run c [] = some (c, [])
run c (x ∷ xs) = elim (step c x) [ none ↦ none | some (c1, fds) ↦ ahead fds (run c1 xs) ]

-- A packet in range, and bytes that are bytes.
abbrev pub ResultIsBytes : RecvResult → Type 0
ResultIsBytes recv_failed = Unit
ResultIsBytes peer_closed = Unit
ResultIsBytes (bytes_received datagram) = All IsByte datagram

abbrev pub CallIsValid : Call → Type 0
CallIsValid (sending packet result now) = Unit
CallIsValid (receiving packet result now) = IsValid packet × ResultIsBytes result
CallIsValid closing = Unit

-- The descriptors closed so far and the open one make up the one there was.
abbrev pub Keeps : Connection → Option (Connection × List ℕ) → Type 0
Keeps c r =
    (c1 : Connection) × (fds : List ℕ) × (r ≡ some (c1, fds))
    × (as_list c.socket_fd ≡ fds ++ as_list c1.socket_fd)

parsed_at-Keeps :
    (c : Connection) (now : ℕ) {Q : Unit {0} → Cursor → Type 0} {R : Cursor → Type 0}
    {o : Outcome (Unit {0})}
    → Ends Q R o
    → Keeps c (after_receive (parsed_at c now o))
unfolding parsed_at
parsed_at-Keeps c now (ends_ok q) = (record c { last_activity = now }, [], refl, refl)
parsed_at-Keeps c now (ends_reject r) = (c, [], refl, refl)

sent_fd :
    (c : Connection) (packet : SnmpPacket) (result : SendResult) (now : ℕ)
    → as_list c.socket_fd ≡ as_list (send_response c packet result now).connection.socket_fd
unfolding send_response
sent_fd c packet send_failed now = elim (Bool-cases c.connected) [ inl e ↦ rw e | inr e ↦ rw e ]
sent_fd c packet (bytes_sent n) now = elim (Bool-cases c.connected) [ inl e ↦ rw e | inr e ↦ rw e ]

received_at-Keeps :
    (c : Connection) (packet : SnmpPacket) (result : RecvResult) (now : ℕ)
    → IsValid packet × ResultIsBytes result
    → Keeps c (after_receive (received_at c packet result now))
received_at-Keeps c packet recv_failed now h = (c, [], refl, refl)
received_at-Keeps c packet peer_closed now h = (record c { connected = false }, [], refl, refl)
received_at-Keeps c packet (bytes_received datagram) now (v, h) = parsed_at-Keeps c now (
    parse-Ends (take 4096 datagram) (All-take IsByte 4096 datagram h)
      (omega (arith, length-take-le 4096 datagram)) packet v)

received-Keeps :
    (c : Connection) (packet : SnmpPacket) (result : RecvResult) (now : ℕ)
    → IsValid packet × ResultIsBytes result
    → Keeps c (after_receive (receive_request c packet result now))
unfolding receive_request
received-Keeps c packet result now h = elim (Bool-cases c.connected) [
  | inl e ↦ simp e (received_at-Keeps c packet result now h)
  | inr e ↦ simp e (c, [], refl, refl)
]

step-Keeps : (c : Connection) (x : Call) → CallIsValid x → Keeps c (step c x)
unfolding step send_response receive_request close
step-Keeps c (sending packet result now) h = (_, _, refl, sent_fd c packet result now)
step-Keeps c (receiving packet result now) h = received-Keeps c packet result now h
step-Keeps c closing h = (_, _, refl, sym (append-nil _))

-- Whatever is called on a connection, in any order, each call returns, and the descriptors that are
-- handed to `::close` along the way, with the one that the connection still holds, are the one that
-- it held: it is closed at most once. The packets passed in are in range, and what `recv` delivers
-- are bytes.
pub run-Keeps : (xs : List Call) (c : Connection) → All CallIsValid xs → Keeps c (run c xs)
unfolding run
run-Keeps [] c h = (c, [], refl, refl)
run-Keeps (x ∷ xs) c (h, hs) =
    let (c1, fds, e, k) = step-Keeps c x h in
    let (c2, more, e2, k2) = run-Keeps xs c1 hs in
    (c2, fds ++ more, rw (e, e2, run), k ∙ ap (◌++◌ fds) k2 ∙ sym (append_assoc fds more _))

step-close : (c : Connection) (x : Call) → step (close c).0 x ≡ some ((close c).0, [])
unfolding step send_response receive_request close
step-close c (sending packet result now) = refl
step-close c (receiving packet result now) = refl
step-close c closing = refl

-- Closing is final: behind `close` every call leaves the connection as it is and closes nothing,
-- and `send_response` and `receive_request` return false, the one without a buffer for `send`, the
-- other with the packet as it was.
run-close :
    (c : Connection) (xs : List Call) (packet : SnmpPacket) (out : SendResult) (got : RecvResult)
    (now : ℕ)
    → let closed = (close c).0 in
      (run closed xs ≡ some (closed, []))
      × (send_response closed packet out now
          ≡ record { done = false; connection = closed; handed = none })
      × (receive_request closed packet got now
          ≡ some (record { done = false; connection = closed; packet = packet }))
unfolding run send_response receive_request
run-close c [] packet out got now = (refl, unfold close in refl, unfold close in refl)
run-close c (x ∷ xs) packet out got now = (
  rw (step-close c x, (run-close c xs packet out got now).0, run),
  unfold close in refl,
  unfold close in refl,
)
