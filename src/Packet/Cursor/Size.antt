-- ===== src/Packet/Cursor/Size.antt =====
-- Each step of the parser moves the offset by as many bytes at least as it adds to the packet.
use simple_snmpd.Base.{
  ℕ, zero, suc, ◌+◌, ◌*◌, ◌%◌, ◌≤◌, ◌<◌, Bool, true, false, Option-cases, Bytes, length,
  length-drop, length-take, drop, get_elem?, get_elem?-lt, leb, ◌==◌, Bool-cases, inl, inr,
  add_size, bit_or, arith, leb→le,
}
use simple_snmpd.Packet.Serialize.Size.{packet_size}
use simple_snmpd.Packet.Cursor.{
  Cursor, Outcome, ok, reject, fault, stuck, Parser, bind_outcome, require, next, expect,
  require_more, require_room, copy, read_integer,
}

-- If the step returns true, `Q` holds.
pub data Ensures {A : Type 0} (Q : A → Cursor → Type 0) : Outcome A → Type 0 where
  ensures_ok : {a : A} {c : Cursor} → Q a c → Ensures Q (ok a c)
  ensures_reject : {c : Cursor} → Ensures Q (reject c)
  ensures_fault : Ensures Q fault
  ensures_stuck : Ensures Q stuck

pub Ensures-ok :
    {A : Type 0} {Q : A → Cursor → Type 0} {a : A} {c : Cursor} → Ensures Q (ok a c) → Q a c
Ensures-ok (ensures_ok q) = q

pub bind-Ensures :
    {A B : Type 0} {Q : A → Cursor → Type 0} {Q' : B → Cursor → Type 0} {o : Outcome A}
    {f : A → Parser B}
    → Ensures Q o
    → ((a : A) (c : Cursor) → Q a c → Ensures Q' (f a c))
    → Ensures Q' (bind_outcome o f)
bind-Ensures (ensures_ok q) k = k _ _ q
bind-Ensures ensures_reject k = ensures_reject
bind-Ensures ensures_fault k = ensures_fault
bind-Ensures ensures_stuck k = ensures_stuck

-- From `c` to `d` the offset has moved by what the packet has grown, and by `n` more.
pub record Moves (n : ℕ) (c d : Cursor) : Type 0 where
  pub paid : packet_size d.packet + c.offset + n ≤ packet_size c.packet + d.offset

pub Moves-weaken :
    {A : Type 0} {Q Q' : A → Cursor → Type 0} {o : Outcome A}
    → ((a : A) (c : Cursor) → Q a c → Q' a c)
    → Ensures Q o
    → Ensures Q' o
Moves-weaken k (ensures_ok q) = ensures_ok (k _ _ q)
Moves-weaken k ensures_reject = ensures_reject
Moves-weaken k ensures_fault = ensures_fault
Moves-weaken k ensures_stuck = ensures_stuck

pub require-Moves : (test : Bool) (c : Cursor) → Ensures (λ _ d. Moves 0 c d) (require test c)
require-Moves true c = ensures_ok (record { paid = omega arith })
require-Moves false c = ensures_reject

pub require_more-Moves :
    (limit : ℕ) (c : Cursor) → Ensures (λ _ d. Moves 0 c d) (require_more limit c)
unfolding require_more
require_more-Moves limit c = elim (Bool-cases (leb limit c.offset)) [
  | inl e ↦ rw e ensures_reject
  | inr e ↦ rw e (ensures_ok (record { paid = omega arith }))
]

pub require_room-Moves :
    (limit len : ℕ) (c : Cursor) → Ensures (λ _ d. Moves 0 c d) (require_room limit len c)
unfolding require_room
require_room-Moves limit len c = elim (Bool-cases (leb (add_size c.offset len) limit)) [
  | inl e ↦ rw e (ensures_ok (record { paid = omega arith }))
  | inr e ↦ rw e ensures_reject
]

module _ (input : Bytes) (short : length input < 9223372036854775808) where
  pub next-Moves : (c : Cursor) → Ensures (λ _ d. Moves 1 c d) (next input c)
  unfolding next
  next-Moves c = elim (Option-cases (get_elem? input c.offset)) [
    | inl e ↦ rw e ensures_fault
    | inr (b, e) ↦
        let inside = get_elem?-lt input c.offset e in
        rw e (ensures_ok (record { paid = omega arith }))
  ]

  pub expect-Moves :
      (limit tag : ℕ) (c : Cursor) → Ensures (λ _ d. Moves 1 c d) (expect input limit tag c)
  unfolding expect
  expect-Moves limit tag c = elim (Bool-cases (leb limit c.offset)) [
    | inl e ↦ rw e ensures_reject
    | inr e ↦ elim (Option-cases (get_elem? input c.offset)) [
      | inl g ↦ rw (e, g) ensures_fault
      | inr (b, g) ↦
          let inside = get_elem?-lt input c.offset g in
          elim (Bool-cases (b == tag)) [
            | inl t ↦ rw (e, g, t) (ensures_ok (record { paid = omega arith }))
            | inr t ↦ rw (e, g, t) ensures_reject
          ]
    ]
  ]

  pub copy-Moves :
      (len : ℕ) (c : Cursor) → Ensures (λ xs d. Moves (length xs) c d) (copy input len c)
  unfolding copy
  copy-Moves len c = elim (Bool-cases (leb (c.offset + len) (length input))) [
    | inr e ↦ rw e ensures_fault
    | inl e ↦
        let inside = leb→le (c.offset + len) (length input) e in
        let size =
          length-take len (drop c.offset input) (omega (arith, length-drop c.offset input)) in
        rw e (ensures_ok (record { paid = omega (arith, size) }))
  ]

  pub read_integer-Moves :
      (n : ℕ) (m acc : ℕ) (c : Cursor) → Ensures (λ _ d. Moves 0 c d) (read_integer input m n acc c)
  unfolding read_integer
  read_integer-Moves zero m acc c = ensures_ok (record { paid = omega arith })
  read_integer-Moves (suc n) m acc c = bind-Ensures (next-Moves c) λ b d w.
      Moves-weaken (λ _ e v. record { paid = omega arith })
        (read_integer-Moves n m (bit_or (acc * 256 % m) b % m) d)
