-- ===== src/Base/Lists.antt =====
-- Lists measured and indexed by native numbers, under the library's names.
use Prim.Native.Nat.{ℕ, zero, suc, ◌+◌, ◌-◌, ◌<◌, ◌≤◌}
use mathlib.Core.Path.{◌≡◌, refl, ap, subst}
use mathlib.Core.List.{List, [], ◌∷◌, ◌++◌}
use mathlib.Core.Option.{Option, none, some}
use native.Mathlib.Nat.{add-zero}
use native.Mathlib.Numerals.{add-one}
use native.Mathlib.Omega.{arith}

module _ {ℓ} {A : Type ℓ} where
  abbrev pub length : List A → ℕ
  length [] = 0
  length (x ∷ xs) = suc (length xs)

  abbrev pub get_elem? : List A → ℕ → Option A
  get_elem? [] i = none
  get_elem? (x ∷ xs) zero = some x
  get_elem? (x ∷ xs) (suc i) = get_elem? xs i

  -- A write out of bounds changes nothing.
  abbrev pub set : List A → ℕ → A → List A
  set [] i v = []
  set (x ∷ xs) zero v = v ∷ xs
  set (x ∷ xs) (suc i) v = x ∷ set xs i v

  abbrev pub take : ℕ → List A → List A
  take zero xs = []
  take (suc n) [] = []
  take (suc n) (x ∷ xs) = x ∷ take n xs

  abbrev pub drop : ℕ → List A → List A
  drop zero xs = xs
  drop (suc n) [] = []
  drop (suc n) (x ∷ xs) = drop n xs

  abbrev pub replicate : ℕ → A → List A
  replicate zero a = []
  replicate (suc n) a = a ∷ replicate n a

  abbrev pub All {κ} : (A → Type κ) → List A → Type κ
  All P [] = Unit {κ}
  All P (x ∷ xs) = P x × All P xs

  pub length-append : (xs ys : List A) → length (xs ++ ys) ≡ length xs + length ys
  length-append [] ys = omega arith
  length-append (x ∷ xs) ys = omega (arith, length-append xs ys)

  -- The byte behind a prefix, replaced.
  pub set-append : (xs ys : List A) (a v : A) → set (xs ++ a ∷ ys) (length xs) v ≡ xs ++ v ∷ ys
  set-append [] ys a v = refl
  set-append (x ∷ xs) ys a v = ap (◌∷◌ x) (set-append xs ys a v)

  pub get_elem?-some : (xs : List A) (i : ℕ) → i < length xs → (a : A) × (get_elem? xs i ≡ some a)
  get_elem?-some [] i h = elim h [ ]
  get_elem?-some (x ∷ xs) zero h = (x, refl)
  get_elem?-some (x ∷ xs) (suc i) h = get_elem?-some xs i (omega arith)

  pub get_elem?-lt : (xs : List A) (i : ℕ) {a : A} → get_elem? xs i ≡ some a → i < length xs
  get_elem?-lt [] i e = cc
  get_elem?-lt (x ∷ xs) zero e = omega arith
  get_elem?-lt (x ∷ xs) (suc i) e = omega (arith, get_elem?-lt xs i e)

  pub get_elem?-drop :
      (xs : List A) (i : ℕ) {a : A} {rest : List A} → drop i xs ≡ a ∷ rest → get_elem? xs i ≡ some a
  get_elem?-drop [] zero h = cc
  get_elem?-drop [] (suc i) h = cc
  get_elem?-drop (x ∷ xs) zero h = cc
  get_elem?-drop (x ∷ xs) (suc i) h = get_elem?-drop xs i h

  pub drop-suc :
      (xs : List A) (i : ℕ) (y : A) (rest : List A) → drop i xs ≡ y ∷ rest → drop (suc i) xs ≡ rest
  drop-suc [] zero y rest h = cc
  drop-suc [] (suc i) y rest h = cc
  drop-suc (x ∷ xs) zero y rest h = cc
  drop-suc (x ∷ xs) (suc i) y rest h = drop-suc xs i y rest h

  pub drop-next :
      (xs : List A) (i : ℕ) (y : A) (rest : List A) → drop i xs ≡ y ∷ rest → drop (i + 1) xs ≡ rest
  drop-next xs i y rest h = rw (add-one i) (drop-suc xs i y rest h)

  pub drop-append :
      (ys xs : List A) (i : ℕ) (rest : List A)
      → drop i xs ≡ ys ++ rest
      → drop (i + length ys) xs ≡ rest
  drop-append [] xs i rest h = rw add-zero h
  drop-append (y ∷ ys) xs i rest h =
      subst (λ k. drop k xs ≡ rest) (omega arith)
        (drop-append ys xs (suc i) rest (drop-suc xs i y (ys ++ rest) h))

  drop-nil : (n : ℕ) (xs : List A) → xs ≡ [] → xs ≡ drop n xs
  drop-nil zero xs e = refl
  drop-nil (suc n) [] e = refl
  drop-nil (suc n) (x ∷ xs) e = cc

  pub drop-drop : (i n : ℕ) (xs : List A) → drop (i + n) xs ≡ drop n (drop i xs)
  drop-drop zero n xs = let e : n ≡ 0 + n = omega arith in subst (λ k. drop k xs ≡ drop n xs) e refl
  drop-drop (suc i) n [] =
      let e : suc (i + n) ≡ suc i + n = omega arith in
      subst (λ k. drop k [] ≡ drop n []) e (drop-nil n [] refl)
  drop-drop (suc i) n (x ∷ xs) =
      let e : suc (i + n) ≡ suc i + n = omega arith in
      subst (λ k. drop k (x ∷ xs) ≡ drop n (drop i xs)) e (drop-drop i n xs)

  pub length-drop : (n : ℕ) (xs : List A) → length (drop n xs) ≡ length xs - n
  length-drop zero xs = omega arith
  length-drop (suc n) [] = omega arith
  length-drop (suc n) (x ∷ xs) = omega (arith, length-drop n xs)

  pub length-take : (n : ℕ) (xs : List A) → n ≤ length xs → length (take n xs) ≡ n
  length-take zero xs h = refl
  length-take (suc n) [] h = elim h [ ]
  length-take (suc n) (x ∷ xs) h = omega (arith, length-take n xs (omega arith))

  pub take_all : (n : ℕ) (xs : List A) → length xs ≤ n → take n xs ≡ xs
  take_all zero [] h = refl
  take_all zero (x ∷ xs) h = absurd (omega arith)
  take_all (suc n) [] h = refl
  take_all (suc n) (x ∷ xs) h = ap (◌∷◌ x) (take_all n xs (omega arith))

  pub length-take-le : (n : ℕ) (xs : List A) → length (take n xs) ≤ n
  length-take-le zero xs = omega arith
  length-take-le (suc n) [] = omega arith
  length-take-le (suc n) (x ∷ xs) = omega (arith, length-take-le n xs)

  pub take-append : (xs ys : List A) → take (length xs) (xs ++ ys) ≡ xs
  take-append [] ys = refl
  take-append (x ∷ xs) ys = ap (◌∷◌ x) (take-append xs ys)

module _ {ℓ κ} {A : Type ℓ} (P : A → Type κ) where
  pub All-append : (xs ys : List A) → All P xs → All P ys → All P (xs ++ ys)
  All-append [] ys p q = q
  All-append (x ∷ xs) ys (h, p) q = (h, All-append xs ys p q)

  pub All-take : (n : ℕ) (xs : List A) → All P xs → All P (take n xs)
  All-take zero xs p = tt
  All-take (suc n) [] p = tt
  All-take (suc n) (x ∷ xs) (h, p) = (h, All-take n xs p)

  pub All-drop : (n : ℕ) (xs : List A) → All P xs → All P (drop n xs)
  All-drop zero xs p = p
  All-drop (suc n) [] p = tt
  All-drop (suc n) (x ∷ xs) (h, p) = All-drop n xs p

  pub All-get_elem? : (xs : List A) (i : ℕ) (a : A) → All P xs → get_elem? xs i ≡ some a → P a
  All-get_elem? [] i a p e = cc
  All-get_elem? (x ∷ xs) zero a (h, p) e = subst P (cc) h
  All-get_elem? (x ∷ xs) (suc i) a (h, p) e = All-get_elem? xs i a p e

  pub All-weaken {μ} :
      {Q : A → Type μ} → ((a : A) → P a → Q a) → (xs : List A) → All P xs → All Q xs
  All-weaken k [] p = tt
  All-weaken k (x ∷ xs) (h, p) = (k x h, All-weaken k xs p)
