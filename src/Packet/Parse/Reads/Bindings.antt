-- ===== src/Packet/Parse/Reads/Bindings.antt =====
-- What the loop over the bindings has read if it returns true: loose bindings that end where the list
-- does.
use simple_snmpd.Base.{
  ℕ, zero, suc, ◌+◌, ◌≤◌, ◌<◌, ◌≡◌, refl, List, [], ◌∷◌, ◌++◌, Bytes, length, append_assoc,
  append-nil, All, IsByte, ltb, Bool-cases, inl, inr, add_size, arith,
}
use simple_snmpd.Packet.{SnmpPacket, VariableBinding, add_variable_binding}
use simple_snmpd.Packet.Ber.{Element}
use simple_snmpd.Packet.Ber.Loose.{LooseBinding, LooseBindings, no_more, another}
use simple_snmpd.Packet.Cursor.{Cursor}
use simple_snmpd.Packet.Cursor.Size.{Ensures, ensures_ok, ensures_stuck, bind-Ensures, Moves-weaken}
use simple_snmpd.Packet.Cursor.Takes.{
  Takes, same, Takes-trans, Takes-update, require_more-then, require_room-then, next-Takes,
  copy-Takes, nothing,
}
use simple_snmpd.Packet.Parse.{parse_variable_binding, parse_round, bindings_loop}
use simple_snmpd.Packet.Parse.Reads.{header-then, parse_length-Takes, element}

abbrev pub add_variable_bindings : List VariableBinding → SnmpPacket → SnmpPacket
add_variable_bindings vs p = record p { variable_bindings = p.variable_bindings ++ vs }

module _ (input : Bytes) (bytes : All IsByte input)
    (fits : length input < 9223372036854775808) where
  -- The name, the value, and no more than the binding's length has.
  abbrev Binding : ℕ → Cursor → VariableBinding → Cursor → Type 0
  Binding len c v d =
      (name : Bytes) × (valued : Bytes) × Element 0x06 v.oid name
      × Element v.value_type v.value valued
      × Takes input same (name ++ valued) c d
      × (d.offset ≤ c.offset + len)

  parse_variable_binding-Takes :
      (len : ℕ) (c : Cursor)
      → c.offset + len ≤ length input
      → Ensures (Binding len c) (parse_variable_binding input len c)
  unfolding parse_variable_binding
  parse_variable_binding-Takes len c room =
      let limit = add_size c.offset len in
      let sum : limit ≡ c.offset + len = omega arith in
      header-then input bytes fits limit 0x06 c _ λ n c1 h spelled s room1.
        bind-Ensures (copy-Takes input bytes fits n c1) λ oid c2 (size, t).
          let name = 0x06 ∷ (h ++ oid) in
          let named : Takes input same name c c2 = Takes-trans s t in
          require_more-then _ limit c2 (λ _.
            bind-Ensures (next-Takes input bytes fits c2) λ type c3 s3.
              bind-Ensures (parse_length-Takes input bytes fits limit c3)
                λ k c4 (hv, spelled4, small, s4).
                  require_room-then _ limit k c4 (omega (arith, s4.inside)) small λ _ room4.
                    bind-Ensures (copy-Takes input bytes fits k c4) λ value c5 (size5, t5).
                      let valued : Takes input same (type ∷ (hv ++ value)) c2 c5 =
                        Takes-trans (Takes-trans s3 s4) t5 in
                      let ne : Element 0x06 oid name = element spelled size in
                      let ve : Element type value (type ∷ (hv ++ value)) = element spelled4 size5 in
                      ensures_ok (
                        name,
                        type ∷ (hv ++ value),
                        ne,
                        ve,
                        Takes-trans named valued,
                        omega (arith, t5.moved, size5),
                      ))

  -- A round reads a binding that ends inside the list.
  abbrev Round : ℕ → Cursor → Unit {0} → Cursor → Type 0
  Round limit c u d =
      (v : VariableBinding) × (first : Bytes) × ((room : ℕ)
        → limit ≡ c.offset + room
        → LooseBinding v room first)
      × Takes input (add_variable_binding v) first c d
      × (d.offset ≤ limit)

  parse_round-Takes :
      (limit : ℕ) (c : Cursor)
      → limit ≤ length input
      → Ensures (Round limit c) (parse_round input limit c)
  unfolding parse_round
  parse_round-Takes limit c inside =
      header-then input bytes fits limit 0x30 c _ λ n c1 h spelled s room.
        bind-Ensures (parse_variable_binding-Takes n c1 (omega arith))
          λ v c2 (name, value, ne, ve, t, last). ensures_ok (
            v,
            0x30 ∷ (h ++ (name ++ value)),
            λ m total. record {
              name = name;
              value = value;
              declared = n;
              name_element = ne;
              value_element = ve;
              opens = record { header = h; spelled = spelled; made = refl };
              holds = omega (arith, t.moved);
              fits = omega (arith, s.moved);
            },
            Takes-update (add_variable_binding v) (Takes-trans s t),
            omega arith,
          )

  -- The loop reads a list that ends where its length says.
  abbrev pub Bindings : ℕ → Cursor → Unit {0} → Cursor → Type 0
  Bindings limit c u d =
      (vs : List VariableBinding) × (list : Bytes) × LooseBindings vs list
      × Takes input (add_variable_bindings vs) list c d
      × (d.offset ≡ limit)

  nil-Bindings :
      (limit : ℕ) (c : Cursor) → c.offset ≡ limit → limit ≤ length input → Bindings limit c tt c
  nil-Bindings limit c e h =
      let none = append-nil c.packet.variable_bindings in
      let t = nothing input bytes fits c (omega arith) in
      (
        [],
        [],
        no_more,
        record {
          start = t.start;
          moved = t.moved;
          inside = t.inside;
          octets = t.octets;
          packet = rw none refl;
        },
        e,
      )

  cons-Bindings :
      (limit : ℕ) (c c1 d : Cursor)
      → Round limit c tt c1
      → Bindings limit c1 tt d
      → Bindings limit c tt d
  cons-Bindings limit c c1 d (v, first, binding, s, _) (vs, list, of, t, last) =
      let whole = Takes-trans s t in
      let added = append_assoc c.packet.variable_bindings (v ∷ []) vs in
      let room : limit ≡ c.offset + length (first ++ list) = omega (arith, whole.moved) in
      (
        v ∷ vs,
        first ++ list,
        another (binding (length (first ++ list)) room) of refl,
        record {
          start = whole.start;
          moved = whole.moved;
          inside = whole.inside;
          octets = whole.octets;
          packet = rw (← added) whole.packet;
        },
        last,
      )

  pub bindings_loop-Takes :
      (fuel limit : ℕ) (c : Cursor)
      → c.offset ≤ limit
      → limit ≤ length input
      → Ensures (Bindings limit c) (bindings_loop fuel input limit c)
  unfolding bindings_loop
  bindings_loop-Takes zero limit c h inside = elim (Bool-cases (ltb c.offset limit)) [
    | inl e ↦ rw e ensures_stuck
    | inr e ↦ rw e (ensures_ok (nil-Bindings limit c (ground arith) inside))
  ]
  bindings_loop-Takes (suc fuel) limit c h inside = elim (Bool-cases (ltb c.offset limit)) [
    | inl e ↦ rw e (
        bind-Ensures (parse_round-Takes limit c inside) λ u c1 q.
          Moves-weaken (λ w d r. cons-Bindings limit c c1 d q r)
            (bindings_loop-Takes fuel limit c1 (q.4) inside))
    | inr e ↦ rw e (ensures_ok (nil-Bindings limit c (ground arith) inside))
  ]
