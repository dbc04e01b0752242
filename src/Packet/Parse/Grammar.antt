-- ===== src/Packet/Parse/Grammar.antt =====
-- `parse` against the grammar of the messages: it takes every message, in whatever form its lengths
-- are, and the loose ones.
mod Body
use simple_snmpd.Base.{
  ℕ, ◌+◌, ◌-◌, ◌%◌, ◌<◌, ◌≡◌, refl, sym, ◌∙◌, ap, [], ◌++◌, Bytes, length, length-append, drop,
  append-nil, ◌==◌, ==_iff, not, true, arith, size_mod,
}
use simple_snmpd.Packet.{SnmpPacket, set_version, set_community, set_pdu_type}
use simple_snmpd.Packet.Ber.{Message}
use simple_snmpd.Packet.Ber.Loose.{LooseMessage, Message-Loose}
use simple_snmpd.Packet.Cursor.{ok}
use simple_snmpd.Packet.Cursor.Steps.{
  at, next_step, expect_step, require_more_step, require_room_step, copy_step,
}
use simple_snmpd.Packet.Parse.{parse_version, parse_community, parse_pdu, parse}
use simple_snmpd.Packet.Parse.Elements.{
  parse_length-Spells, element_open, header_rest, body_rest, element_rest, element_size,
  header_step,
}
use simple_snmpd.Packet.Parse.Grammar.Body.{parse_pdu_fields_step}

module _ (input : Bytes) (fits : length input < 9223372036854775808) where
  module _ {p : SnmpPacket} {spare : ℕ} (m : LooseMessage p spare input) (q : SnmpPacket) where
    abbrev start_of_version : ℕ
    start_of_version = 1 + length m.element.header

    whole : drop 0 input ≡ input ++ []
    whole = sym (append-nil input)

    content : drop start_of_version input ≡ m.version ++ (m.community ++ m.pdu)
    content = body_rest input fits m.element 0 [] whole ∙ append-nil _

    sizes : length input ≡ start_of_version + length m.version + length m.community + length m.pdu
    sizes = omega (
      arith,
      element_size input fits m.element,
      length-append m.version (m.community ++ m.pdu),
      length-append m.community m.pdu,
    )

    parse_version_step :
        parse_version input (at 0 q)
        ≡ ok tt (at (start_of_version + length m.version) (set_version p.version q))
    unfolding parse_version
    parse_version_step =
        let body = m.version ++ (m.community ++ m.pdu) in
        let rest = m.community ++ m.pdu in
        let ve = m.version_element in
        let size = element_size input fits m.element in
        let v_size = element_size input fits ve in
        let o = start_of_version + 1 + length ve.header in
        let same : (length body == (length input + size_mod - start_of_version) % size_mod) ≡ true =
          (==_iff (length body) _).1 (omega arith) in
        let last : o + 1 ≡ start_of_version + length m.version = omega arith in
        rw
          (
            expect_step input fits 0 (length input) 0x30 q (m.element.header ++ (body ++ []))
                (omega arith) (element_open input fits m.element 0 [] whole),
            parse_length-Spells input fits 1 (length input) q (body ++ []) m.element.spelled
                (omega arith) (header_rest input fits m.element 0 [] whole),
            same,
          )
          (header_step input fits ve start_of_version (length input) q rest _ (omega (arith, sizes))
              (omega arith) content
            ∙ rw (
              next_step input fits o p.version q rest
                  (body_rest input fits ve start_of_version rest content),
              last,
            ))

    parse_community_step :
        parse_community input (at (start_of_version + length m.version) q)
        ≡ ok tt (
            at
              (start_of_version + length m.version + length m.community)
              (set_community p.community q))
    unfolding parse_community
    parse_community_step =
        let ce = m.community_element in
        let size = element_size input fits ce in
        let o = start_of_version + length m.version in
        let e =
          element_rest input fits m.version_element start_of_version (m.community ++ m.pdu)
            content in
        let last : o + 1 + length ce.header + length p.community ≡ o + length m.community =
          omega arith in
        header_step input fits ce o (length input) q m.pdu _ (omega (arith, sizes)) (omega arith) e
        ∙ rw (
          copy_step input fits (o + 1 + length ce.header) p.community m.pdu q (omega (arith, sizes))
              (body_rest input fits ce o m.pdu e),
          last,
        )

    parse_pdu_step :
        parse_pdu input (at (start_of_version + length m.version + length m.community) q)
        ≡ ok tt
            (at (length input - spare) (record p { version = q.version; community = q.community }))
    unfolding parse_pdu
    parse_pdu_step =
        let pe = m.opens in
        let size = element_size input fits pe in
        let inner = length-append m.body m.extra in
        let holds = m.holds in
        let fitting = m.fits in
        let spared = m.spared in
        let o1 = start_of_version + length m.version in
        let o = o1 + length m.community in
        let o3 = o + 1 + length pe.header in
        let tail = m.body ++ m.extra in
        let e1 =
          element_rest input fits m.version_element start_of_version (m.community ++ m.pdu)
            content in
        let e : drop o input ≡ m.pdu ++ [] =
          element_rest input fits m.community_element o1 m.pdu e1 ∙ sym (append-nil m.pdu) in
        let q1 = set_pdu_type p.pdu_type q in
        let last : o3 + length m.body ≡ length input - spare = omega (arith, sizes) in
        rw
          (
            require_more_step input fits o (length input) q (omega (arith, sizes)),
            next_step input fits o p.pdu_type q (pe.header ++ (tail ++ []))
                (element_open input fits pe o [] e),
            parse_length-Spells input fits (o + 1) (length input) q1 (tail ++ []) pe.spelled
                (omega (arith, sizes)) (header_rest input fits pe o [] e),
            require_room_step input fits o3 (length input) m.declared q1 (omega (arith, sizes))
                (omega arith),
          )
          (parse_pdu_fields_step input fits m.body_of o3 (o3 + m.declared) m.declared q1 m.extra
              (omega (arith, sizes)) refl holds (body_rest input fits pe o [] e ∙ append-nil _)
            ∙ rw last)

-- Every loose message, shorter than 2^63 bytes: `parse` returns true with its packet, in front of the
-- bytes to spare.
pub parse-LooseMessage :
    (p q : SnmpPacket) (spare : ℕ) (input : Bytes)
    → LooseMessage p spare input
    → length input < 9223372036854775808
    → parse input q ≡ ok tt (at (length input - spare) p)
unfolding parse
parse-LooseMessage p q spare input m fits =
    let some : not (length input == 0) ≡ true = ground (arith, element_size input fits m.element) in
    let q1 = set_version p.version q in
    let q2 = set_community p.community q1 in
    rw (
      some,
      parse_version_step input fits m q,
      parse_community_step input fits m q1,
      parse_pdu_step input fits m q2,
    )

-- Every message of the grammar, shorter than 2^63 bytes, whatever the forms of its lengths and the
-- sizes of its INTEGERs: `parse` returns true, at its end, with the packet that it is a message of,
-- whatever the packet that is parsed into held before.
pub parse-Message :
    (p q : SnmpPacket) (input : Bytes)
    → Message p input
    → length input < 9223372036854775808
    → parse input q ≡ ok tt (at (length input) p)
parse-Message p q input m fits =
    let whole : length input - 0 ≡ length input = omega arith in
    parse-LooseMessage p q 0 input (Message-Loose p input m) fits ∙ ap (λ n. ok tt (at n p)) whole
