-- ===== src/Config/Decimal.antt =====
-- `std::stoi` on decimal numbers.
use simple_snmpd.Base.{
  ℕ, zero, suc, ◌+◌, ◌-◌, ◌*◌, ◌/◌, ◌%◌, ◌<◌, ◌≤◌, ◌≡◌, refl, some, [], ◌∷◌, ◌++◌, Bytes, All,
  All-append, ltb, if◌then◌else◌, arith, Bool-cases, inl, inr, subst, ap, ◌∙◌,
}
use simple_snmpd.Config.Number.{pos, magnitude, stoi}

abbrev pub IsDigit : ℕ → Type 0
IsDigit b = (48 ≤ b) × (b ≤ 57)

-- The decimal digits of a number; a number of fuel more than it has is enough.
abbrev digits_of : ℕ → ℕ → Bytes
digits_of zero n = []
digits_of (suc fuel) n =
    let front = digits_of fuel (n / 10) in
    if ltb n 10 then (48 + n) ∷ [] else front ++ (48 + n % 10) ∷ []

unfoldable pub decimal : ℕ → Bytes
decimal n = digits_of (suc n) n

magnitude-append :
    (xs : Bytes) (m d : ℕ)
    → All IsDigit xs
    → IsDigit d
    → magnitude m (xs ++ d ∷ []) ≡ magnitude m xs * 10 + (d - 48)
magnitude-append [] m d h digit = ground arith
magnitude-append (x ∷ xs) m d (h, hs) digit =
    ground (arith, magnitude-append xs (m * 10 + (x - 48)) d hs digit)

-- The digits are digits, they spell the number, and there is one at least.
record Spells (n : ℕ) (text : Bytes) : Type 0 where
  all_digits : All IsDigit text
  spelled : magnitude 0 text ≡ n
  nonempty : (b : ℕ) × (bs : Bytes) × (text ≡ b ∷ bs)

snoc-nonempty : (xs : Bytes) (d : ℕ) → (b : ℕ) × (bs : Bytes) × (xs ++ d ∷ [] ≡ b ∷ bs)
snoc-nonempty [] d = (d, [], refl)
snoc-nonempty (x ∷ xs) d = (x, xs ++ d ∷ [], refl)

digits_of-Spells : (fuel n : ℕ) → n < fuel → Spells n (digits_of fuel n)
digits_of-Spells zero n h = absurd (omega arith)
digits_of-Spells (suc fuel) n h = elim (Bool-cases (ltb n 10)) [
  | inl e ↦
      rw e (record {
        all_digits = (ground arith, tt);
        spelled = ground arith;
        nonempty = (_, _, refl);
      })
  | inr e ↦
      let front = digits_of-Spells fuel (n / 10) (ground arith) in
      let last : IsDigit (48 + n % 10) = omega arith in
      rw e (record {
        all_digits = All-append IsDigit _ _ front.all_digits (last, tt);
        spelled =
            omega (arith, magnitude-append _ 0 (48 + n % 10) front.all_digits last, front.spelled);
        nonempty = snoc-nonempty _ _;
      })
]

stoi-digits :
    (b : ℕ) (bs : Bytes)
    → IsDigit b
    → magnitude 0 (b ∷ bs) < 2147483648
    → stoi (b ∷ bs) ≡ some (pos (magnitude 0 (b ∷ bs)))
unfolding stoi
stoi-digits b bs digit small = ground arith

pub decimal-digits : (n : ℕ) → All IsDigit (decimal n)
unfolding decimal
decimal-digits n = (digits_of-Spells (suc n) n (omega arith)).all_digits

-- `std::stoi` reads a decimal number in the range of `int` as that number.
pub stoi-decimal : (n : ℕ) → n < 2147483648 → stoi (decimal n) ≡ some (pos n)
unfolding decimal
stoi-decimal n h =
    let s = digits_of-Spells (suc n) n (omega arith) in
    let (b, bs, e) = s.nonempty in
    let (digit, rest) : All IsDigit (b ∷ bs) = subst (All IsDigit) e s.all_digits in
    let spelled : magnitude 0 (b ∷ bs) ≡ n = subst (λ t. magnitude 0 t ≡ n) e s.spelled in
    ap stoi e ∙ stoi-digits b bs digit (omega (arith, spelled)) ∙ ap (λ k. some (pos k)) spelled
