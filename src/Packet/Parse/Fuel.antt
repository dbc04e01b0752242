-- ===== src/Packet/Parse/Fuel.antt =====
-- The loop of `parse_variable_bindings` as the `while` of the source.
use simple_snmpd.Base.{
  ℕ, zero, suc, ◌+◌, ◌≤◌, ◌<◌, ◌≡◌, refl, ◌∙◌, Bytes, length, All, Bool-cases, inl, inr, ltb,
  le→ltb, if◌then◌else◌, IsByte, arith,
}
use simple_snmpd.Packet.Cursor.{Cursor, Outcome, ok, Parser, bind_outcome}
use simple_snmpd.Packet.Cursor.Safety.{Ends, ends_ok, ends_reject, Within}
use simple_snmpd.Packet.Parse.{parse_round, bindings_loop}
use simple_snmpd.Packet.Parse.Safety.{parse_round-Ends}

bind-same :
    {A B : Type 0} {Q : A → Cursor → Type 0} {R : Cursor → Type 0} {o : Outcome A}
    (f g : A → Parser B)
    → Ends Q R o
    → ((a : A) (c : Cursor) → Q a c → f a c ≡ g a c)
    → bind_outcome o f ≡ bind_outcome o g
bind-same f g (ends_ok q) same = same _ _ q
bind-same f g (ends_reject r) same = refl

module _ (input : Bytes) (bytes : All IsByte input)
    (short : length input < 9223372036854775808) where
  -- Fuel beyond what is left of the list changes nothing.
  fuel_enough :
      (f g : ℕ) (c : Cursor) (lo limit : ℕ)
      → limit ≤ length input
      → limit ≤ c.offset + f
      → limit ≤ c.offset + g
      → Within lo limit c
      → bindings_loop f input limit c ≡ bindings_loop g input limit c
  unfolding bindings_loop
  fuel_enough zero zero c lo limit i h k w = refl
  fuel_enough zero (suc g) c lo limit i h k w = rw (le→ltb c.offset limit (omega arith)) refl
  fuel_enough (suc f) zero c lo limit i h k w = rw (le→ltb c.offset limit (omega arith)) refl
  fuel_enough (suc f) (suc g) c lo limit i h k w = elim (Bool-cases (ltb c.offset limit)) [
    | inr e ↦ rw e refl
    | inl e ↦ rw e (
        bind-same (λ _. bindings_loop f input limit) (λ _. bindings_loop g input limit)
          (parse_round-Ends input bytes short c lo limit i w)
          (λ _ d v. fuel_enough f g d (c.offset + 1) limit i (omega arith) (omega arith) v))
  ]

  -- On a list that ends inside the datagram the loop with the fuel that `parse` gives it is the
  -- `while` of the source: as long as the offset is before the end of the list it makes one round
  -- and, if that returns true, goes on with the whole loop, and otherwise it returns true.
  pub bindings_loop-while :
      (c : Cursor) (limit : ℕ)
      → limit ≤ length input
      → Within 0 limit c
      → bindings_loop (length input) input limit c ≡ (
          if ltb c.offset limit
          then bind_outcome
              (parse_round input limit c)
              (λ _. bindings_loop (length input) input limit)
          else ok tt c)
  unfolding bindings_loop
  bindings_loop-while c limit i w =
      fuel_enough (length input) (suc (length input)) c 0 limit i (omega arith) (omega arith) w
      ∙ elim (Bool-cases (ltb c.offset limit)) [ inl e ↦ rw e refl | inr e ↦ rw e refl ]
