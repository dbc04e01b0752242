-- ===== src/Logger/Threads/Progress.antt =====
-- Threads that share the logger come to an end: no deadlock, and a bound on their steps.
use native.Mathlib.Decide.{dec_lt}
use simple_snmpd.Base.{
  ℕ, zero, suc, ◌+◌, ◌*◌, ◌<◌, ◌≤◌, ◌≡◌, refl, ap, ◌∙◌, Option, none, some, List, [], ◌∷◌, inl, inr,
  arith,
}
use simple_snmpd.Logger.{Logger}
use simple_snmpd.Logger.Threads.{
  Op, Thread, SharedLogger, advance, or_same, turn, run_schedule, at_start,
}
use simple_snmpd.Logger.Threads.History.{of_thread, Fits, HasEnded}
use simple_snmpd.Logger.Threads.Exclusion.{at_start-Fits, turn-Fits, run_schedule-Fits}
use simple_snmpd.Logger.Threads.Steps.{
  left, total, calls, one_if_some, moves, total-at_start, total-with_thread, Shrinks,
  advance-Shrinks, mover, left-HasEnded, without_calls, some_left,
}

module _ (logger : Logger) (programs : ℕ → List Op) (n : ℕ)
    (idle_above : (j : ℕ) → n ≤ j → programs j ≡ []) where
  above : (s : SharedLogger) → Fits logger programs s → (j : ℕ) → n ≤ j → left (s.threads j) ≡ 0
  above s f j h =
      without_calls (of_thread j s.history) (s.threads j).phase (s.threads j).rest
        (f.programs_kept j ∙ idle_above j h)

  shrunk :
      (i : ℕ) (s : SharedLogger) (o : Option SharedLogger)
      → Fits logger programs s
      → Shrinks i s (s.threads i) o
      → total n (or_same o s).threads + one_if_some o ≤ total n s.threads
  shrunk i s none f h = omega arith
  shrunk i s (some next) f (t, e, less) = elim (dec_lt i n) [
    | yes below ↦
        rw (ap (λ (threads : ℕ → Thread). total n threads) e)
          (omega (arith, total-with_thread n i s.threads t below))
    | no beyond ↦ absurd (omega (arith, above s f i (omega arith)))
  ]

  turn-total :
      (i : ℕ) (s : SharedLogger)
      → Fits logger programs s
      → total n (turn i s).threads + one_if_some (advance i s) ≤ total n s.threads
  turn-total i s f = shrunk i s (advance i s) f (advance-Shrinks i s)

  moves-total :
      (schedule : List ℕ) (s : SharedLogger)
      → Fits logger programs s
      → moves schedule s + total n (run_schedule schedule s).threads ≤ total n s.threads
  unfolding moves run_schedule
  moves-total [] s f = omega arith
  moves-total (i ∷ schedule) s f =
      omega
        (arith, turn-total i s f, moves-total schedule (turn i s) (turn-Fits logger programs i s f))

  all_ended :
      (s : SharedLogger)
      → Fits logger programs s
      → ((j : ℕ) → j < n → left (s.threads j) ≡ 0)
      → (j : ℕ) → HasEnded (s.threads j)
  all_ended s f below j =
      left-HasEnded (s.threads j).phase (s.threads j).rest
        (elim (dec_lt j n) [ yes h ↦ below j h | no h ↦ above s f j (omega arith) ])

  -- While a thread has steps left, some turn brings the end nearer.
  nearer :
      (s : SharedLogger)
      → Fits logger programs s
      → (j : ℕ) → 0 < left (s.threads j)
      → (k : ℕ) × (total n (turn k s).threads < total n s.threads)
  nearer s f j h =
      let (k, (next, e)) = mover s f j (s.threads j).phase (s.threads j).rest refl h in
      let one : one_if_some (advance k s) ≡ 1 = ap one_if_some e in
      (k, omega (arith, one, turn-total k s f))

  completed :
      (bound : ℕ) (s : SharedLogger)
      → Fits logger programs s
      → total n s.threads ≤ bound
      → (more : List ℕ) × ((j : ℕ) → HasEnded ((run_schedule more s).threads j))
  unfolding run_schedule
  completed zero s f h = elim (some_left n s.threads) [
    | inl below ↦ ([], all_ended s f below)
    | inr (j, more) ↦ let (k, less) = nearer s f j more in absurd (omega arith)
  ]
  completed (suc bound) s f h = elim (some_left n s.threads) [
    | inl below ↦ ([], all_ended s f below)
    | inr (j, more) ↦
        let (k, less) = nearer s f j more in
        let (rest, ended) =
          completed bound (turn k s) (turn-Fits logger programs k s f) (omega arith) in
        (k ∷ rest, ended)
  ]

  -- Where `n` threads make calls: in whatever order they move, they make at most four steps for each
  -- call, a turn at the mutex that another holds not counted; and whatever they have done can go on
  -- to where every thread has made all its calls, so that no deadlock comes about.
  pub run_completes :
      (schedule : List ℕ)
      → let s = run_schedule schedule (at_start logger programs) in
        (moves schedule (at_start logger programs) ≤ 4 * calls n programs)
        × ((more : List ℕ) × ((j : ℕ) → HasEnded ((run_schedule more s).threads j)))
  run_completes schedule =
      let first = at_start logger programs in
      let f = run_schedule-Fits logger programs schedule in
      (
        omega (
          arith,
          moves-total schedule first (at_start-Fits logger programs),
          total-at_start n logger programs,
        ),
        completed (total n (run_schedule schedule first).threads) (run_schedule schedule first) f
            (omega arith),
      )
