-- ===== src/Packet/Cursor/Safety.antt =====
-- Every step of the parser stays inside the datagram, and keeps the fields of the packet in the
-- ranges of their C++ types, also when it returns false.
use simple_snmpd.Base.{
  ℕ, zero, suc, ◌+◌, ◌*◌, ◌%◌, ◌≤◌, ◌<◌, ◌≡◌, Bytes, length, get_elem?-some, All, All-get_elem?,
  All-take, All-drop, leb, ◌==◌, Bool-cases, inl, inr, IsByte, add_size, bit_or, arith, leb→le,
  leb→gt, le→leb,
}
use simple_snmpd.Packet.{IsValid}
use simple_snmpd.Packet.Cursor.{
  Cursor, Outcome, ok, reject, Parser, bind_outcome, next, expect, require_more, require_room, copy,
  read_integer,
}

-- The step returns true with `Q` or false with `R`: it reads nothing out of bounds, and ends.
pub data Ends {A : Type 0} (Q : A → Cursor → Type 0) (R : Cursor → Type 0)
    : Outcome A → Type 0 where
  ends_ok : {a : A} {c : Cursor} → Q a c → Ends Q R (ok a c)
  ends_reject : {c : Cursor} → R c → Ends Q R (reject c)

pub bind-Ends :
    {A B : Type 0} {Q : A → Cursor → Type 0} {Q' : B → Cursor → Type 0} {R : Cursor → Type 0}
    {o : Outcome A} {f : A → Parser B}
    → Ends Q R o
    → ((a : A) (c : Cursor) → Q a c → Ends Q' R (f a c))
    → Ends Q' R (bind_outcome o f)
bind-Ends (ends_ok q) k = k _ _ q
bind-Ends (ends_reject r) k = ends_reject r

abbrev pub Valid : Cursor → Type 0
Valid c = IsValid c.packet

-- The offset lies between the bounds.
pub record Within (lo limit : ℕ) (c : Cursor) : Type 0 where
  pub lower : lo ≤ c.offset
  pub upper : c.offset ≤ limit
  pub valid : IsValid c.packet

pub weaken :
    {A : Type 0} {Q Q' : A → Cursor → Type 0} {R : Cursor → Type 0} {o : Outcome A}
    → ((a : A) (c : Cursor) → Q a c → Q' a c)
    → Ends Q R o
    → Ends Q' R o
weaken k (ends_ok q) = ends_ok (k _ _ q)
weaken k (ends_reject r) = ends_reject r

pub loosen :
    {lo lo' limit limit' : ℕ} {c : Cursor}
    → (lo ≤ lo') × (limit' ≤ limit)
    → Within lo' limit' c
    → Within lo limit c
loosen h w = record { lower = omega arith; upper = omega arith; valid = w.valid }

module _ (input : Bytes) (bytes : All IsByte input)
    (short : length input < 9223372036854775808) where
  pub next-Ends :
      (c : Cursor) (lo limit : ℕ)
      → limit ≤ length input
      → Within lo limit c
      → c.offset < limit
      → Ends
          (λ b c'. IsByte b × (c'.offset ≡ c.offset + 1) × Within (c.offset + 1) limit c')
          Valid
          (next input c)
  unfolding next
  next-Ends c lo limit inside w h =
      let (b, e) = get_elem?-some input c.offset (omega arith) in
      rw e (
        ends_ok (
          All-get_elem? IsByte input c.offset b bytes e,
          omega arith,
          record { lower = omega arith; upper = omega arith; valid = w.valid },
        ))

  pub expect-Ends :
      (c : Cursor) (lo limit tag : ℕ)
      → limit ≤ length input
      → Within lo limit c
      → Ends (λ _ c'. Within (c.offset + 1) limit c') Valid (expect input limit tag c)
  unfolding expect
  expect-Ends c lo limit tag inside w = elim (Bool-cases (leb limit c.offset)) [
    | inl e ↦ rw e (ends_reject w.valid)
    | inr e ↦
        let h = leb→gt limit c.offset e in
        let (b, g) = get_elem?-some input c.offset (omega arith) in
        elim (Bool-cases (b == tag)) [
          | inl t ↦
              rw (e, g, t)
                (ends_ok (record { lower = omega arith; upper = omega arith; valid = w.valid }))
          | inr t ↦ rw (e, g, t) (ends_reject w.valid)
        ]
  ]

  pub require_more-Ends :
      (c : Cursor) (lo limit : ℕ)
      → Within lo limit c
      → Ends (λ _ c'. Within c.offset limit c' × (c'.offset < limit)) Valid (require_more limit c)
  unfolding require_more
  require_more-Ends c lo limit w = elim (Bool-cases (leb limit c.offset)) [
    | inl e ↦ rw e (ends_reject w.valid)
    | inr e ↦
        let h = leb→gt limit c.offset e in
        rw e (ends_ok (record { lower = omega arith; upper = w.upper; valid = w.valid }, h))
  ]

  -- After the test the sum is the number, not its remainder.
  pub require_room-Ends :
      (c : Cursor) (lo limit len : ℕ)
      → limit ≤ length input
      → len < 4294967296
      → Within lo limit c
      → Ends
          (λ _ c'. Within c.offset limit c' × (c'.offset + len ≤ limit))
          Valid
          (require_room limit len c)
  unfolding require_room
  require_room-Ends c lo limit len inside small w =
      elim (Bool-cases (leb (add_size c.offset len) limit)) [
        | inl e ↦
            let h = leb→le (add_size c.offset len) limit e in
            rw e (
              ends_ok
                (record { lower = omega arith; upper = w.upper; valid = w.valid }, omega arith))
        | inr e ↦ rw e (ends_reject w.valid)
      ]

  pub copy-Ends :
      (c : Cursor) (lo limit len : ℕ)
      → limit ≤ length input
      → Within lo limit c
      → c.offset + len ≤ limit
      → Ends (λ xs c'. All IsByte xs × Within (c.offset + len) limit c') Valid (copy input len c)
  unfolding copy
  copy-Ends c lo limit len inside w h =
      let e = le→leb (c.offset + len) (length input) (omega arith) in
      rw e (
        ends_ok (
          All-take IsByte len _ (All-drop IsByte c.offset input bytes),
          record { lower = omega arith; upper = omega arith; valid = w.valid },
        ))

  pub read_integer-Ends :
      (n : ℕ) (c : Cursor) (lo limit m acc : ℕ)
      → limit ≤ length input
      → Within lo limit c
      → c.offset + n ≤ limit
      → acc < m
      → Ends (λ v c'. (v < m) × Within (c.offset + n) limit c') Valid (read_integer input m n acc c)
  unfolding read_integer
  read_integer-Ends zero c lo limit m acc inside w h small =
      ends_ok (small, record { lower = omega arith; upper = w.upper; valid = w.valid })
  read_integer-Ends (suc n) c lo limit m acc inside w h small =
      bind-Ends (next-Ends c lo limit inside w (omega arith)) λ b c' (hb, at, w').
        weaken (λ v d (q, w2). (q, loosen (omega arith, omega arith) w2))
          (read_integer-Ends n c' (c.offset + 1) limit m (bit_or (acc * 256 % m) b % m) inside w'
            (omega arith) (omega arith))
