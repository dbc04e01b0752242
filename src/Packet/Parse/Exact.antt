-- ===== src/Packet/Parse/Exact.antt =====
-- `parse` takes the loose messages of Packet/Ber/Loose and nothing else.
use simple_snmpd.Base.{
  ℕ, ◌+◌, ◌-◌, ◌<◌, ◌≡◌, ◌↔◌, sym, ◌∙◌, ap, subst, Bytes, length, All, IsByte, arith,
}
use simple_snmpd.Packet.{SnmpPacket}
use simple_snmpd.Packet.Ber.Loose.{LooseMessage}
use simple_snmpd.Packet.Cursor.{Outcome, ok, reject, fault, stuck}
use simple_snmpd.Packet.Cursor.Size.{Ensures, Ensures-ok}
use simple_snmpd.Packet.Cursor.Steps.{at}
use simple_snmpd.Packet.Parse.{parse}
use simple_snmpd.Packet.Parse.Grammar.{parse-LooseMessage}
use simple_snmpd.Packet.Parse.Reads.Messages.{Spared, parse-Spared}

-- For every datagram of bytes, shorter than 2^63: `parse` returns true with the packet `p` and the
-- offset `k` if and only if the datagram is a loose message of `p` with the bytes from `k` on to spare,
-- whatever the packet that is parsed into held before.
pub parse-LooseMessage_iff :
    (input : Bytes) (p q : SnmpPacket) (k : ℕ)
    → All IsByte input
    → length input < 9223372036854775808
    → (parse input q ≡ ok tt (at k p))
      ↔ ((spare : ℕ) × (k + spare ≡ length input) × LooseMessage p spare input)
parse-LooseMessage_iff input p q k bytes short = (
  λ e.
      Ensures-ok
        (subst (Ensures (λ _ d. Spared input bytes short d)) e (parse-Spared input bytes short q)),
  λ (spare, total, m).
      let end : length input - spare ≡ k = omega arith in
      parse-LooseMessage p q spare input m short ∙ ap (λ n. ok tt (at n p)) end,
)

packet_of : SnmpPacket → Outcome (Unit {0}) → SnmpPacket
packet_of p (ok _ c) = c.packet
packet_of p (reject c) = p
packet_of p fault = p
packet_of p stuck = p

-- The loose grammar is unambiguous.
pub LooseMessage-unique :
    (input : Bytes) (p p' : SnmpPacket) (spare spare' : ℕ)
    → length input < 9223372036854775808
    → LooseMessage p spare input
    → LooseMessage p' spare' input
    → p ≡ p'
unfolding packet_of
LooseMessage-unique input p p' spare spare' short m m' =
    let e = parse-LooseMessage p p spare input m short in
    let e' = parse-LooseMessage p' p spare' input m' short in ap (packet_of p) (sym e ∙ e')
