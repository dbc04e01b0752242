-- ===== src/Packet/Cursor/Takes.antt =====
-- What each step has read if it returns true: the bytes in front of the rest of the datagram.
use simple_snmpd.Base.{
  ℕ, zero, suc, Bool, true, false, ◌+◌, ◌*◌, ◌%◌, ◌≤◌, ◌<◌, ◌≡◌, refl, sym, ◌∙◌, ap, [], ◌∷◌, ◌++◌,
  Bytes, length, length-append, length-drop, length-take, take, drop, drop-drop, append_assoc,
  get_elem?, get_elem?-lt, Option-cases, some, All, IsByte, All-append, All-take, All-drop,
  All-get_elem?, leb, ◌==◌, ==_iff, Bool-cases, inl, inr, add_size, arith, leb→le,
}
use simple_snmpd.Packet.{SnmpPacket}
use simple_snmpd.Packet.Cursor.{
  Cursor, Parser, bind_outcome, require, next, expect, require_more, require_room, copy,
  read_integer,
}
use simple_snmpd.Packet.Cursor.Size.{
  Ensures, ensures_ok, ensures_reject, ensures_fault, bind-Ensures, Moves-weaken,
}
use simple_snmpd.Packet.Cursor.Steps.{horner, ShiftsIn}

drop-at : (xs : Bytes) (i : ℕ) {a : ℕ} → get_elem? xs i ≡ some a → drop i xs ≡ a ∷ drop (suc i) xs
drop-at [] i e = cc
drop-at (x ∷ xs) zero e = cc
drop-at (x ∷ xs) (suc i) e = drop-at xs i e

take-drop : (n : ℕ) (xs : Bytes) → xs ≡ take n xs ++ drop n xs
take-drop zero xs = refl
take-drop (suc n) [] = refl
take-drop (suc n) (x ∷ xs) = ap (◌∷◌ x) (take-drop n xs)

-- Between `c` and `d` the bytes `xs` of the input, and the packet changed by `f`.
pub record Takes (input : Bytes) (f : SnmpPacket → SnmpPacket) (xs : Bytes) (c d : Cursor)
    : Type 0 where
  pub start : drop c.offset input ≡ xs ++ drop d.offset input
  pub moved : d.offset ≡ c.offset + length xs
  pub inside : d.offset ≤ length input
  pub octets : All IsByte xs
  pub packet : d.packet ≡ f c.packet

abbrev pub same : SnmpPacket → SnmpPacket
same p = p

pub Takes-trans :
    {input xs ys : Bytes} {f g : SnmpPacket → SnmpPacket} {c d e : Cursor}
    → Takes input f xs c d
    → Takes input g ys d e
    → Takes input (λ p. g (f p)) (xs ++ ys) c e
Takes-trans {xs = xs} {ys} {f} {g} s t = record {
  start = s.start ∙ ap (λ zs. xs ++ zs) t.start ∙ sym (append_assoc xs ys _);
  moved = omega (arith, s.moved, t.moved, length-append xs ys);
  inside = t.inside;
  octets = All-append IsByte xs ys s.octets t.octets;
  packet = t.packet ∙ ap g s.packet;
}

-- The setter that follows a step.
pub Takes-update :
    {input xs : Bytes} {f : SnmpPacket → SnmpPacket} {c d : Cursor} (g : SnmpPacket → SnmpPacket)
    → Takes input f xs c d
    → Takes input (λ p. g (f p)) xs c (record d { packet = g d.packet })
Takes-update g s = record {
  start = s.start;
  moved = s.moved;
  inside = s.inside;
  octets = s.octets;
  packet = ap g s.packet;
}

-- What the guards leave unmoved.
pub require_more-then :
    {B : Type 0} {Q : B → Cursor → Type 0} (f : Unit {0} → Parser B) (limit : ℕ) (c : Cursor)
    → ((u : Unit {0}) → Ensures Q (f u c))
    → Ensures Q (bind_outcome (require_more limit c) f)
unfolding require_more
require_more-then f limit c k = elim (Bool-cases (leb limit c.offset)) [
  | inl e ↦ rw e ensures_reject
  | inr e ↦ rw e (k tt)
]

pub require-then :
    {B : Type 0} {Q : B → Cursor → Type 0} (f : Unit {0} → Parser B) (test : Bool) (c : Cursor)
    → ((u : Unit {0}) → test ≡ true → Ensures Q (f u c))
    → Ensures Q (bind_outcome (require test c) f)
require-then f true c k = k tt refl
require-then f false c k = ensures_reject

pub require_room-then :
    {B : Type 0} {Q : B → Cursor → Type 0} (f : Unit {0} → Parser B) (limit len : ℕ) (c : Cursor)
    → c.offset < 9223372036854775808
    → len < 4294967296
    → ((u : Unit {0}) → c.offset + len ≤ limit → Ensures Q (f u c))
    → Ensures Q (bind_outcome (require_room limit len c) f)
unfolding require_room
require_room-then f limit len c h small k = elim (Bool-cases (leb (add_size c.offset len) limit)) [
  | inl e ↦ rw e (k tt (omega (arith, leb→le (add_size c.offset len) limit e)))
  | inr e ↦ rw e ensures_reject
]

module _ (input : Bytes) (bytes : All IsByte input)
    (short : length input < 9223372036854775808) where
  took :
      (c : Cursor) (b : ℕ)
      → get_elem? input c.offset ≡ some b
      → Takes input same (b ∷ []) c (record c { offset = add_size c.offset 1 })
  took c b e =
      let inside = get_elem?-lt input c.offset e in
      let sum : suc c.offset ≡ add_size c.offset 1 = omega arith in
      record {
        start = drop-at input c.offset e ∙ ap (λ n. b ∷ drop n input) sum;
        moved = omega arith;
        inside = omega arith;
        octets = (All-get_elem? IsByte input c.offset b bytes e, tt);
        packet = refl;
      }

  pub next-Takes : (c : Cursor) → Ensures (λ b d. Takes input same (b ∷ []) c d) (next input c)
  unfolding next
  next-Takes c = elim (Option-cases (get_elem? input c.offset)) [
    | inl e ↦ rw e ensures_fault
    | inr (b, e) ↦ rw e (ensures_ok (took c b e))
  ]

  pub expect-Takes :
      (limit tag : ℕ) (c : Cursor)
      → Ensures (λ _ d. Takes input same (tag ∷ []) c d) (expect input limit tag c)
  unfolding expect
  expect-Takes limit tag c = elim (Bool-cases (leb limit c.offset)) [
    | inl e ↦ rw e ensures_reject
    | inr e ↦ elim (Option-cases (get_elem? input c.offset)) [
      | inl g ↦ rw (e, g) ensures_fault
      | inr (b, g) ↦ elim (Bool-cases (b == tag)) [
        | inl t ↦
            let found : get_elem? input c.offset ≡ some tag = g ∙ ap some ((==_iff b tag).0 t) in
            rw (e, g, t) (ensures_ok (took c tag found))
        | inr t ↦ rw (e, g, t) ensures_reject
      ]
    ]
  ]

  pub copy-Takes :
      (len : ℕ) (c : Cursor)
      → Ensures (λ xs d. (length xs ≡ len) × Takes input same xs c d) (copy input len c)
  unfolding copy
  copy-Takes len c = elim (Bool-cases (leb (c.offset + len) (length input))) [
    | inr e ↦ rw e ensures_fault
    | inl e ↦
        let inside = leb→le (c.offset + len) (length input) e in
        let rest = drop c.offset input in
        let size = length-take len rest (omega (arith, length-drop c.offset input)) in
        let sum : c.offset + len ≡ add_size c.offset len = omega arith in
        rw e (
          ensures_ok (
            size,
            record {
              start =
                  take-drop len rest
                  ∙ ap (λ zs. take len rest ++ zs)
                      (sym (drop-drop c.offset len input) ∙ ap (λ n. drop n input) sum);
              moved = omega (arith, size);
              inside = omega arith;
              octets = All-take IsByte len rest (All-drop IsByte c.offset input bytes);
              packet = refl;
            },
          ))
  ]

  pub nothing : (c : Cursor) → c.offset ≤ length input → Takes input same [] c c
  nothing c h = record { start = refl; moved = omega arith; inside = h; octets = tt; packet = refl }

  pub read_integer-Takes :
      (n m acc : ℕ) (c : Cursor)
      → ShiftsIn m
      → c.offset ≤ length input
      → Ensures
          (λ v d. (xs : Bytes) × (length xs ≡ n) × (horner m acc xs ≡ v) × Takes input same xs c d)
          (read_integer input m n acc c)
  unfolding read_integer
  read_integer-Takes zero m acc c shifts h = ensures_ok ([], refl, refl, nothing c h)
  read_integer-Takes (suc n) m acc c shifts h = bind-Ensures (next-Takes c) λ b d s.
      let value = shifts acc b (s.octets.0) in
      rw value (
        Moves-weaken
          (λ v e (xs, size, spelled, t). (b ∷ xs, omega (arith, size), spelled, Takes-trans s t))
          (read_integer-Takes n m ((acc * 256 + b) % m) d shifts s.inside))
