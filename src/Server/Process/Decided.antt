-- ===== src/Server/Process/Decided.antt =====
-- What a round of the server makes of any datagram.
use simple_snmpd.Base.{
  ℕ, ◌<◌, ◌≡◌, ◌⊎◌, inl, inr, refl, some, [], Bytes, length, length-take-le, take, All, All-take,
  IsByte, arith,
}
use simple_snmpd.Packet.{SnmpPacket, new_packet}
use simple_snmpd.Packet.Ber.Loose.{LooseMessage}
use simple_snmpd.Packet.Cursor.{Cursor, Outcome, ok, reject}
use simple_snmpd.Packet.Cursor.Safety.{Ends, ends_ok, ends_reject}
use simple_snmpd.Packet.Parse.{parse}
use simple_snmpd.Packet.Parse.Exact.{parse-LooseMessage_iff, LooseMessage-unique}
use simple_snmpd.Packet.Parse.Grammar.{parse-LooseMessage}
use simple_snmpd.Packet.Parse.Total.{parse-Ends}
use simple_snmpd.Mib.{MibManager}
use simple_snmpd.Security.{SecurityManager}
use simple_snmpd.Server.Process.{
  Client, received, Managers, process_snmp_request, process_parsed, server_round,
}
use simple_snmpd.Server.Process.Replies.{new_packet-IsValid}

-- A packet that the bytes are a loose message of, the only one; or there is none.
abbrev pub Means : Bytes → SnmpPacket → Type 0
Means input request =
    ((spare : ℕ) × LooseMessage request spare input)
    × ((other : SnmpPacket) (spare : ℕ) → LooseMessage other spare input → other ≡ request)

abbrev pub Meaningless : Bytes → Type 0
Meaningless input = (request : SnmpPacket) (spare : ℕ) → ¬ LooseMessage request spare input

-- `parse` on the datagrams that fit the buffer.
parse-Means :
    (input : Bytes) {Q : Unit {0} → Cursor → Type 0} {R : Cursor → Type 0} {o : Outcome (Unit {0})}
    → All IsByte input
    → length input < 9223372036854775808
    → Ends Q R o
    → parse input new_packet ≡ o
    → ((c : Cursor) × (o ≡ ok tt c) × Means input c.packet)
      ⊎ ((c : Cursor) × (o ≡ reject c) × Meaningless input)
parse-Means input bytes short (ends_ok {c = c} q) e =
    let (spare, total, m) =
      (parse-LooseMessage_iff input c.packet new_packet c.offset bytes short).0 e in
    inl (
      c,
      refl,
      (
        (spare, m),
        λ other spare' m'. LooseMessage-unique input other c.packet spare' spare short m' m,
      ),
    )
parse-Means input bytes short (ends_reject {c = c} r) e = inr (
  c,
  refl,
  λ request spare m. let taken = parse-LooseMessage request new_packet spare input m short in cc,
)

module _ (mib : MibManager) (security : SecurityManager) where
  -- Whatever the bytes of a datagram are: either the first 4096 are a loose message of one packet and
  -- of no other, and the round does what `process_snmp_request` does with that packet; or they are
  -- none of any packet, and the round sends nothing and changes nothing.
  pub server_round_lem :
      (s : Managers mib security) (datagram : Bytes) (client : Client) (now : ℕ)
      → All IsByte datagram
      → ((request : SnmpPacket) × Means (take 4096 datagram) request
          × (server_round mib security s (received datagram client now)
              ≡ some (process_snmp_request mib security s client now request)))
        ⊎ (Meaningless (take 4096 datagram)
            × (server_round mib security s (received datagram client now) ≡ some (s, [])))
  unfolding server_round process_parsed
  server_round_lem s datagram client now bytes =
      let input = take 4096 datagram in
      let octets = All-take IsByte 4096 datagram bytes in
      let short : length input < 9223372036854775808 =
        omega (arith, length-take-le 4096 datagram) in
      let ends = parse-Ends input octets short new_packet new_packet-IsValid in
      elim (parse-Means input octets short ends refl) [
        | inl (c, e, m) ↦ inl (c.packet, m, rw e refl)
        | inr (c, e, none) ↦ inr (none, rw e refl)
      ]
