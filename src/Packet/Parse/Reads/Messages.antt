-- ===== src/Packet/Parse/Reads/Messages.antt =====
-- What `parse` has read if it returns true: a loose message.
use simple_snmpd.Base.{
  ℕ, ◌+◌, ◌-◌, ◌%◌, ◌≤◌, ◌<◌, ◌≡◌, refl, sym, ◌∙◌, ap, subst, List, [], ◌∷◌, ◌++◌, Bytes, length,
  length-append, length-drop, drop, append_assoc, All, IsByte, ◌==◌, ==_iff, not, size_mod, arith,
}
use simple_snmpd.Packet.{SnmpPacket, VariableBinding, set_version, set_community, set_pdu_type}
use simple_snmpd.Packet.Ber.{Spells, Element}
use simple_snmpd.Packet.Ber.Loose.{LooseBody, LooseMessage}
use simple_snmpd.Packet.Cursor.{Cursor}
use simple_snmpd.Packet.Cursor.Size.{Ensures, ensures_ok, bind-Ensures, Moves-weaken}
use simple_snmpd.Packet.Cursor.Steps.{at}
use simple_snmpd.Packet.Cursor.Takes.{
  Takes, Takes-trans, Takes-update, require-then, require_more-then, require_room-then, next-Takes,
  expect-Takes, copy-Takes,
}
use simple_snmpd.Packet.Parse.{parse_version, parse_community, parse_pdu, parse}
use simple_snmpd.Packet.Parse.Reads.{header-then, parse_length-Takes, element}
use simple_snmpd.Packet.Parse.Reads.Fields.{fill, parse_pdu_fields-Takes}

module _ (input : Bytes) (bytes : All IsByte input)
    (fits : length input < 9223372036854775808) where
  -- The message's length is that of the rest of the datagram, and the version has one byte.
  abbrev Version : Cursor → Unit {0} → Cursor → Type 0
  Version c u d =
      (version n : ℕ) × (h of : Bytes) × Spells h n
      × (c.offset + (1 + length h) + n ≡ length input)
      × Element 0x02 (version ∷ []) of
      × Takes input (set_version version) ((0x30 ∷ h) ++ of) c d

  parse_version-Takes : (c : Cursor) → Ensures (Version c) (parse_version input c)
  unfolding parse_version
  parse_version-Takes c =
      bind-Ensures (expect-Takes input bytes fits (length input) 0x30 c) λ _ c1 s1.
        bind-Ensures (parse_length-Takes input bytes fits (length input) c1)
          λ n c2 (h, spelled, small, s2).
            require-then _ (n == (length input + size_mod - c2.offset) % size_mod) c2 λ _ same_size.
              let total =
                (==_iff n ((length input + size_mod - c2.offset) % size_mod)).0 same_size in
              header-then input bytes fits (length input) 0x02 c2 _ λ k c3 hv spelled3 s3 room3.
                require-then _ (k == 1) c3 λ _ one.
                  bind-Ensures (next-Takes input bytes fits c3) λ version c4 s4. ensures_ok (
                    version,
                    n,
                    h,
                    0x02 ∷ (hv ++ version ∷ []),
                    spelled,
                    omega (arith, total, s1.moved, s2.moved, s2.inside),
                    element spelled3 (sym ((==_iff k 1).0 one)),
                    Takes-update (set_version version)
                        (Takes-trans (Takes-trans s1 s2) (Takes-trans s3 s4)),
                  )

  abbrev Community : Cursor → Unit {0} → Cursor → Type 0
  Community c u d =
      (community of : Bytes) × Element 0x04 community of
      × Takes input (set_community community) of c d

  parse_community-Takes : (c : Cursor) → Ensures (Community c) (parse_community input c)
  unfolding parse_community
  parse_community-Takes c =
      header-then input bytes fits (length input) 0x04 c _ λ n c1 h spelled s1 room.
        bind-Ensures (copy-Takes input bytes fits n c1) λ community c2 (size, s2). ensures_ok (
          community,
          0x04 ∷ (h ++ community),
          element spelled size,
          Takes-update (set_community community) (Takes-trans s1 s2),
        )

  -- The body ends before the datagram does, if the length of the PDU says so.
  abbrev Pdu : Cursor → Unit {0} → Cursor → Type 0
  Pdu c u d =
      (type n id status index : ℕ) × (vs : List VariableBinding) × (h body : Bytes) × Spells h n
      × ((p : SnmpPacket) → LooseBody (fill id status index vs p) body)
      × Takes input (λ p. fill id status index vs (set_pdu_type type p)) ((type ∷ h) ++ body) c d
      × (length body ≤ n)
      × (c.offset + (1 + length h) + n ≤ length input)

  parse_pdu-Takes : (c : Cursor) → Ensures (Pdu c) (parse_pdu input c)
  unfolding parse_pdu
  parse_pdu-Takes c = require_more-then _ (length input) c λ _.
      bind-Ensures (next-Takes input bytes fits c) λ type c1 s1.
        let t1 = Takes-update (set_pdu_type type) s1 in
        bind-Ensures (parse_length-Takes input bytes fits (length input) _)
          λ n c2 (h, spelled, small, s2).
            require_room-then _ (length input) n c2 (omega (arith, s2.inside)) small λ _ room.
              Moves-weaken
                (λ u d (id, status, index, vs, body, of, s3, last). (
                  type,
                  n,
                  id,
                  status,
                  index,
                  vs,
                  h,
                  body,
                  spelled,
                  of,
                  Takes-trans (Takes-trans t1 s2) s3,
                  omega (arith, s3.moved),
                  omega (arith, t1.moved, s2.moved),
                ))
                (parse_pdu_fields-Takes input bytes fits n c2 room)

  -- A loose message of the packet, with the bytes behind the offset to spare.
  abbrev pub Spared : Cursor → Type 0
  Spared d = (spare : ℕ) × (d.offset + spare ≡ length input) × LooseMessage d.packet spare input

  loose :
      (q : SnmpPacket) (c1 c2 d : Cursor)
      → Version (at 0 q) tt c1
      → Community c1 tt c2
      → Pdu c2 tt d
      → Spared d
  loose q c1 c2 d (version, n, h, ver, spelled, total, ver_of, s1) (community, named, named_of, s2)
        (type, k, id, status, index, vs, hp, body, spelled3, of, s3, holds, room) =
      let whole = Takes-trans s1 (Takes-trans s2 s3) in
      let base = set_pdu_type type (set_community community (set_version version q)) in
      let extra = drop d.offset input in
      let pdu = type ∷ (hp ++ (body ++ extra)) in
      let size = length-drop d.offset input in
      let split : input ≡ 0x30 ∷ (h ++ (ver ++ (named ++ pdu))) =
        s1.start
        ∙ append_assoc (0x30 ∷ h) ver (drop c1.offset input)
        ∙ ap (λ r. 0x30 ∷ (h ++ (ver ++ r)))
            (s2.start ∙ ap (λ r. named ++ r) (s3.start ∙ append_assoc (type ∷ hp) body extra)) in
      let content : length (ver ++ (named ++ pdu)) ≡ n =
        omega (arith, total, ap length split, length-append h (ver ++ (named ++ pdu))) in
      (
        length extra,
        omega (arith, size, s3.inside),
        subst (λ p. LooseMessage p (length extra) input) (sym whole.packet)
            (record {
              version = ver;
              community = named;
              body = body;
              extra = extra;
              declared = k;
              pdu = pdu;
              version_element = ver_of;
              community_element = named_of;
              body_of = of base;
              opens = record { header = hp; spelled = spelled3; made = refl };
              holds = holds;
              fits = omega (arith, size, s3.moved, s3.inside, length-append (type ∷ hp) body);
              spared = refl;
              element = record {
                header = h;
                spelled = subst (Spells h) (sym content) spelled;
                made = split;
              };
            }),
      )

  pub parse-Spared : (q : SnmpPacket) → Ensures (λ _ d. Spared d) (parse input q)
  unfolding parse
  parse-Spared q =
      bind-Ensures
        (bind-Ensures
          (require-then _ (not (length input == 0)) (at 0 q) λ _ some. parse_version-Takes (at 0 q))
          λ _ c1 v.
            Moves-weaken {Q' = λ _ c2. (c1 : Cursor) × Version (at 0 q) tt c1 × Community c1 tt c2}
              (λ _ c2 w. (c1, v, w)) (parse_community-Takes c1))
        λ _ c2 (c1, v, w). Moves-weaken (λ _ d x. loose q c1 c2 d v w x) (parse_pdu-Takes c2)
