-- ===== src/Logger/Threads/Steps.antt =====
-- The steps that threads which share the logger have left, and that one of them can move.
use simple_snmpd.Base.{
  ℕ, zero, suc, ◌+◌, ◌*◌, ◌<◌, ◌≤◌, ◌≡◌, ◌⊎◌, refl, ap, ◌∙◌, true, Option, none, some, List, [],
  ◌∷◌, ◌++◌, length, Bool-cases, Option-cases, inl, inr, ◌==◌, ==_refl, ==_iff, arith,
}
use simple_snmpd.Logger.{Logger, refuses}
use simple_snmpd.Logger.Threads.{
  Op, entry, level, Phase, idle, waiting, locked, shown, Thread, SharedLogger, with_thread, acquire,
  advance, advance_from, turn, at_start,
}
use simple_snmpd.Logger.Threads.History.{current, inside, holds, Fits}

-- The steps that a thread has left at most: four for a call.
abbrev pub in_call : Phase → ℕ
in_call idle = 0
in_call (waiting op) = 3
in_call (locked op) = 2
in_call (shown e) = 1

abbrev pub left : Thread → ℕ
left t = in_call t.phase + 4 * length t.rest

-- Those of the first `n` threads together.
unfoldable pub total : ℕ → (ℕ → Thread) → ℕ
total zero threads = 0
total (suc n) threads = total n threads + left (threads n)

-- The calls of the first `n` programs.
unfoldable pub calls : ℕ → (ℕ → List Op) → ℕ
calls zero programs = 0
calls (suc n) programs = calls n programs + length (programs n)

abbrev pub one_if_some : Option SharedLogger → ℕ
one_if_some none = 0
one_if_some (some s) = 1

-- The turns of a schedule in which the thread moves.
unfoldable pub moves : List ℕ → SharedLogger → ℕ
moves [] s = 0
moves (i ∷ schedule) s = one_if_some (advance i s) + moves schedule (turn i s)

pub total-at_start :
    (n : ℕ) (logger : Logger) (programs : ℕ → List Op)
    → total n (at_start logger programs).threads ≡ 4 * calls n programs
unfolding total calls
total-at_start zero logger programs = refl
total-at_start (suc n) logger programs = omega (arith, total-at_start n logger programs)

total-above :
    (n i : ℕ) (threads : ℕ → Thread) (t : Thread)
    → n ≤ i
    → total n (with_thread threads i t) ≡ total n threads
unfolding total
total-above zero i threads t h = refl
total-above (suc n) i threads t h = ground (arith, total-above n i threads t)

pub total-with_thread :
    (n i : ℕ) (threads : ℕ → Thread) (t : Thread)
    → i < n
    → total n (with_thread threads i t) + left (threads i) ≡ total n threads + left t
unfolding total
total-with_thread zero i threads t h = elim h [ ]
total-with_thread (suc n) i threads t h = elim (Bool-cases (i == n)) [
  | inl e ↦
      let same : left (threads i) ≡ left (threads n) =
        ap (λ k. left (threads k)) ((==_iff i n).0 e) in
      let rest_same : total n (with_thread threads i t) ≡ total n threads =
        total-above n i threads t (omega (arith, (==_iff i n).0 e)) in
      rw e (omega (arith, same, rest_same))
  | inr ne ↦ rw ne (omega (arith, total-with_thread n i threads t (ground arith)))
]

-- A step of thread `i` changes that thread only, and leaves it fewer steps.
abbrev pub Shrinks : ℕ → SharedLogger → Thread → Option SharedLogger → Type 0
Shrinks i s t none = Unit
Shrinks i s t (some next) =
    (t' : Thread) × (next.threads ≡ with_thread s.threads i t') × (left t' < left t)

advance_from-Shrinks :
    (i : ℕ) (phase : Phase) (rest : List Op) (s : SharedLogger)
    → Shrinks i s (record { phase = phase; rest = rest }) (advance_from i phase rest s)
advance_from-Shrinks i idle [] s = tt
advance_from-Shrinks i idle (entry x ∷ rest) s = elim (Bool-cases (refuses x.level s.logger)) [
  | inl no_entry ↦ rw no_entry (_, refl, omega arith)
  | inr open_to ↦ rw open_to (_, refl, omega arith)
]
advance_from-Shrinks i idle (level l ∷ rest) s = (_, refl, omega arith)
advance_from-Shrinks i (waiting op) rest s = elim (Option-cases s.holder) [
  | inl free ↦ simp free (_, refl, omega arith)
  | inr (k, taken) ↦ simp taken tt
]
advance_from-Shrinks i (locked (entry x)) rest s = (_, refl, omega arith)
advance_from-Shrinks i (locked (level l)) rest s = (_, refl, omega arith)
advance_from-Shrinks i (shown x) rest s = (_, refl, omega arith)

pub advance-Shrinks : (i : ℕ) (s : SharedLogger) → Shrinks i s (s.threads i) (advance i s)
unfolding advance
advance-Shrinks i s = advance_from-Shrinks i (s.threads i).phase (s.threads i).rest s

abbrev pub CanMove : ℕ → SharedLogger → Type 0
CanMove i s = (next : SharedLogger) × (advance i s ≡ some next)

module _ (s : SharedLogger) where
  advance_at :
      (i : ℕ) {phase : Phase} {rest : List Op}
      → s.threads i ≡ record { phase = phase; rest = rest }
      → advance i s ≡ advance_from i phase rest s
  unfolding advance
  advance_at i e = ap (λ (t : Thread). advance_from i t.phase t.rest s) e

  inside-CanMove :
      (i : ℕ) (phase : Phase) (rest : List Op)
      → s.threads i ≡ record { phase = phase; rest = rest }
      → inside phase ≡ true
      → CanMove i s
  inside-CanMove i idle rest e h = cc
  inside-CanMove i (waiting op) rest e h = cc
  inside-CanMove i (locked op) rest e h = (_, advance_at i e)
  inside-CanMove i (shown x) rest e h = (_, advance_at i e)

  -- If a thread has steps left, some thread can move: it, or the one that it waits for.
  pub mover :
      {logger : Logger} {programs : ℕ → List Op}
      → Fits logger programs s
      → (i : ℕ) (phase : Phase) (rest : List Op)
      → s.threads i ≡ record { phase = phase; rest = rest }
      → 0 < left (record { phase = phase; rest = rest })
      → (k : ℕ) × CanMove k s
  mover f i idle [] e h = absurd (omega arith)
  mover f i idle (op ∷ rest) e h = (i, (_, advance_at i e))
  mover f i (waiting op) rest e h = elim (Option-cases s.holder) [
    | inl free ↦ (i, (_, advance_at i e ∙ ap (λ (h : Option ℕ). acquire i op rest h s) free))
    | inr (k, taken) ↦ (
      k,
      inside-CanMove k (s.threads k).phase (s.threads k).rest refl
          (f.exclusion k ∙ ap (holds k) taken ∙ ==_refl k),
    )
  ]
  mover f i (locked op) rest e h = (i, (_, advance_at i e))
  mover f i (shown x) rest e h = (i, (_, advance_at i e))

pub left-HasEnded :
    (phase : Phase) (rest : List Op)
    → left (record { phase = phase; rest = rest }) ≡ 0
    → (phase ≡ idle) × (rest ≡ [])
left-HasEnded idle [] h = (refl, refl)
left-HasEnded idle (op ∷ rest) h = absurd (omega arith)
left-HasEnded (waiting op) rest h = absurd (omega arith)
left-HasEnded (locked op) rest h = absurd (omega arith)
left-HasEnded (shown x) rest h = absurd (omega arith)

pub without_calls :
    (done : List Op) (phase : Phase) (rest : List Op)
    → done ++ (current phase ++ rest) ≡ []
    → left (record { phase = phase; rest = rest }) ≡ 0
without_calls [] idle [] h = omega arith
without_calls [] idle (op ∷ rest) h = cc
without_calls [] (waiting op) rest h = cc
without_calls [] (locked op) rest h = cc
without_calls [] (shown x) rest h = cc
without_calls (op ∷ done) phase rest h = cc

pub some_left :
    (n : ℕ) (threads : ℕ → Thread)
    → ((j : ℕ) → j < n → left (threads j) ≡ 0) ⊎ ((j : ℕ) × (0 < left (threads j)))
some_left zero threads = inl (λ j h. elim h [ ])
some_left (suc n) threads = elim (some_left n threads) [
  | inr found ↦ inr found
  | inl below ↦ elim (Bool-cases (left (threads n) == 0)) [
    | inr more ↦ inr (n, ground arith)
    | inl nothing ↦ inl (λ j h. elim (Bool-cases (j == n)) [
      | inl same ↦
          ap (λ k. left (threads k)) ((==_iff j n).0 same) ∙ (==_iff (left (threads n)) 0).0 nothing
      | inr other ↦ below j (ground arith)
    ])
  ]
]
