-- ===== src/Packet/Parse/Elements.antt =====
-- How the parser takes in one well-formed element.
use simple_snmpd.Base.{
  ℕ, zero, suc, ◌+◌, ◌≤◌, ◌<◌, ◌≡◌, refl, ◌∙◌, ap, subst, List, [], ◌∷◌, ◌++◌, Bytes, length,
  length-append, drop, drop-next, drop-append, append_assoc, append-nil, le→ltb, lt→ltb, arith,
  add_size,
}
use simple_snmpd.Packet.{SnmpPacket, VariableBinding, add_variable_binding}
use simple_snmpd.Packet.Ber.{Spells, short, long, Opens, IntegerOf}
use simple_snmpd.Packet.Ber.Loose.{LooseBinding, LooseBindings, no_more, another}
use simple_snmpd.Packet.Cursor.{Parser, ok, ◌>>=◌, ◌>>◌, expect, require_room}
use simple_snmpd.Packet.Cursor.Steps.{
  at, next_step, expect_step, require_more_step, require_room_step, copy_step, read_integer_step,
  ShiftsIn,
}
use simple_snmpd.Packet.Parse.{
  parse_length, parse_integer, parse_variable_binding, parse_round, bindings_loop,
}
use simple_snmpd.Packet.Parse.Length.{parse_length_step, parse_length_long}

module _ (input : Bytes) (fits : length input < 9223372036854775808) where
  pub parse_length-Spells :
      {h : Bytes} {n : ℕ} (o limit : ℕ) (p : SnmpPacket) (rest : Bytes)
      → Spells h n
      → o + length h ≤ limit
      → drop o input ≡ h ++ rest
      → parse_length input limit (at o p) ≡ ok n (at (o + length h) p)
  parse_length-Spells o limit p rest (short {n} s) i e =
      parse_length_step input fits o n limit p rest (omega arith) s e
  parse_length-Spells o limit p rest (long xs b l u v) i e =
      let two : o + 1 + length xs ≡ o + suc (length xs) = omega arith in
      parse_length_long input fits xs o limit p rest b l u (omega arith) e ∙ rw (v, two)

  module _ {tag declared : ℕ} {body bytes : Bytes} (el : Opens tag declared body bytes) (o : ℕ)
      (rest : Bytes) (e : drop o input ≡ bytes ++ rest) where
    pub element_open : drop o input ≡ tag ∷ (el.header ++ (body ++ rest))
    element_open =
        e ∙ ap (λ bs. bs ++ rest) el.made ∙ ap (◌∷◌ tag) (append_assoc el.header body rest)

    pub header_rest : drop (o + 1) input ≡ el.header ++ (body ++ rest)
    header_rest = drop-next input o tag (el.header ++ (body ++ rest)) element_open

    pub body_rest : drop (o + 1 + length el.header) input ≡ body ++ rest
    body_rest = drop-append el.header input (o + 1) (body ++ rest) header_rest

    pub element_rest : drop (o + length bytes) input ≡ rest
    element_rest = drop-append bytes input o rest e

  pub element_size :
      {tag declared : ℕ} {body bytes : Bytes} (el : Opens tag declared body bytes)
      → length bytes ≡ 1 + length el.header + length body
  element_size {body} el = omega (arith, ap length el.made, length-append el.header body)

  -- A tag, a length and the check that there is room for so much: the step goes on behind the length.
  pub header_step {ℓ} :
      {B : Type ℓ} {tag declared : ℕ} {tail bytes : Bytes} (el : Opens tag declared tail bytes)
      (o limit : ℕ) (p : SnmpPacket) (rest : Bytes) (k : ℕ → Parser B)
      → o + 1 + length el.header + declared ≤ limit
      → limit ≤ length input
      → drop o input ≡ bytes ++ rest
      → (expect input limit tag >> (parse_length input limit >>= λ n. require_room limit n >> k n))
          (at o p)
        ≡ k declared (at (o + 1 + length el.header) p)
  header_step {tag} {declared} {tail} el o limit p rest k room i e = rw (
    expect_step input fits o limit tag p (el.header ++ (tail ++ rest)) (omega arith)
        (element_open el o rest e),
    parse_length-Spells (o + 1) limit p (tail ++ rest) el.spelled (omega arith)
        (header_rest el o rest e),
    require_room_step input fits (o + 1 + length el.header) limit declared p (omega arith) i,
  )

  -- An INTEGER: its value is that of its bytes in the field's type.
  pub parse_integer_step :
      {m n : ℕ} {bytes : Bytes} (int : IntegerOf m n bytes) (o limit : ℕ) (p : SnmpPacket)
      (rest : Bytes)
      → ShiftsIn m
      → o + length bytes ≤ limit
      → limit ≤ length input
      → drop o input ≡ bytes ++ rest
      → parse_integer input limit m (at o p) ≡ ok n (at (o + length bytes) p)
  unfolding parse_integer
  parse_integer_step {m} {n} {bytes} int o limit p rest shifts room i e =
      let el = int.element in
      let last : o + 1 + length el.header + length int.body ≡ o + length bytes =
        omega (arith, element_size el) in
      header_step el o limit p rest _ (omega (arith, element_size el)) i e
      ∙ read_integer_step input fits int.body m 0 (o + 1 + length el.header) p rest shifts
          int.octets (body_rest el o rest e)
      ∙ rw (int.value, last)

  parse_variable_binding_step :
      {v : VariableBinding} {room : ℕ} {bytes : Bytes} (b : LooseBinding v room bytes) (o limit : ℕ)
      (p : SnmpPacket) (rest : Bytes)
      → limit ≤ length input
      → limit ≡ o + b.declared
      → drop o input ≡ (b.name ++ b.value) ++ rest
      → parse_variable_binding input b.declared (at o p)
        ≡ ok v (at (o + length (b.name ++ b.value)) p)
  unfolding parse_variable_binding
  parse_variable_binding_step {v} b o limit p rest i total e =
      let ne = b.name_element in
      let ve = b.value_element in
      let size = length-append b.name b.value in
      let n_size = element_size ne in
      let v_size = element_size ve in
      let holds = b.holds in
      let sum : add_size o b.declared ≡ limit = omega arith in
      let e1 = e ∙ append_assoc b.name b.value rest in
      let o2 = o + 1 + length ne.header in
      let o3 = o2 + length v.oid in
      let next : o3 ≡ o + length b.name = omega arith in
      let e3 : drop o3 input ≡ b.value ++ rest =
        subst (λ k. drop k input ≡ b.value ++ rest) (omega arith)
          (element_rest ne o (b.value ++ rest) e1) in
      let o4 = o3 + 1 + length ve.header in
      let last : o4 + length v.value ≡ o + length (b.name ++ b.value) = omega arith in
      rw sum (
        header_step ne o limit p (b.value ++ rest) _ (omega arith) i e1
        ∙ rw (
          copy_step input fits o2 v.oid (b.value ++ rest) p (omega arith)
              (body_rest ne o (b.value ++ rest) e1),
          require_more_step input fits o3 limit p (omega arith),
          next_step input fits o3 v.value_type p (ve.header ++ (v.value ++ rest))
              (element_open ve o3 rest e3),
          parse_length-Spells (o3 + 1) limit p (v.value ++ rest) ve.spelled (omega arith)
              (header_rest ve o3 rest e3),
          require_room_step input fits o4 limit (length v.value) p (omega arith) i,
          copy_step input fits o4 v.value rest p (omega arith) (body_rest ve o3 rest e3),
          last,
        ))

  parse_round_step :
      {v : VariableBinding} {room : ℕ} {bytes : Bytes} (b : LooseBinding v room bytes) (o limit : ℕ)
      (p : SnmpPacket) (rest : Bytes)
      → limit ≤ length input
      → o + room ≤ limit
      → drop o input ≡ bytes ++ rest
      → parse_round input limit (at o p) ≡ ok tt (at (o + length bytes) (add_variable_binding v p))
  unfolding parse_round
  parse_round_step {bytes = bytes} b o limit p rest i room e =
      let el = b.opens in
      let fitting = b.fits in
      let o1 = o + 1 + length el.header in
      let last : o1 + length (b.name ++ b.value) ≡ o + length bytes =
        omega (arith, element_size el) in
      header_step el o limit p rest _ (omega arith) i e
      ∙ rw (
        parse_variable_binding_step b o1 (o1 + b.declared) p rest (omega arith) refl
            (body_rest el o rest e),
        last,
      )

  -- The loop reads back the bindings, behind those that the packet has.
  pub bindings_loop_step :
      {vs : List VariableBinding} {bytes : Bytes} (of : LooseBindings vs bytes) (fuel o limit : ℕ)
      (p : SnmpPacket) (rest : Bytes)
      → limit ≤ length input
      → limit ≡ o + length bytes
      → limit ≤ o + fuel
      → drop o input ≡ bytes ++ rest
      → bindings_loop fuel input limit (at o p)
        ≡ ok tt (at limit (record p { variable_bindings = p.variable_bindings ++ vs }))
  unfolding bindings_loop
  bindings_loop_step no_more zero o limit p rest i total enough e =
      let done : o ≡ limit = omega arith in
      rw (le→ltb o limit (omega arith), append-nil p.variable_bindings, done)
  bindings_loop_step no_more (suc fuel) o limit p rest i total enough e =
      let done : o ≡ limit = omega arith in
      rw (le→ltb o limit (omega arith), append-nil p.variable_bindings, done)
  bindings_loop_step (another {v} {vs} {first} {others} {bytes} b of made) zero o limit p rest i
        total enough e =
      absurd (omega (arith, element_size b.opens, ap length made, length-append first others))
  bindings_loop_step (another {v} {vs} {first} {others} {bytes} b of made) (suc fuel) o limit p rest
        i total enough e =
      let size = length-append first others in
      let all = ap length made in
      let some = element_size b.opens in
      let e1 = e ∙ ap (λ bs. bs ++ rest) made ∙ append_assoc first others rest in
      rw
        (
          lt→ltb o limit (omega arith),
          parse_round_step b o limit p (others ++ rest) i (omega arith) e1,
        )
        (bindings_loop_step of fuel (o + length first) limit (add_variable_binding v p) rest i
            (omega arith) (omega arith) (element_rest b.opens o (others ++ rest) e1)
          ∙ ap (λ bs. ok tt (at limit (record p { variable_bindings = bs })))
              (append_assoc p.variable_bindings (v ∷ []) vs))
