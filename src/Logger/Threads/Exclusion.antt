-- ===== src/Logger/Threads/Exclusion.antt =====
-- One thread at most is under the mutex, and each step keeps the account of the calls done.
use simple_snmpd.Base.{
  ℕ, ◌≡◌, refl, subst, ap, sym, ◌∙◌, Bool, true, false, Option, none, some, List, [], ◌∷◌, ◌++◌,
  append_assoc, append-nil, Bool-cases, Option-cases, inl, inr, ◌==◌, ==_refl, ==_iff, arith,
}
use simple_snmpd.Logger.{Logger, refuses, set_level}
use simple_snmpd.Logger.Threads.{
  Op, entry, level, Phase, idle, waiting, locked, shown, Thread, Effect, SharedLogger, with_thread,
  go_on, show_entry, store_entry, advance, advance_from, or_same, turn, run_schedule, at_start,
}
use simple_snmpd.Logger.Threads.History.{
  of_thread, of_thread-append, replay, replay-append, current, inside, holds, holds-some, partly,
  unfinished, Fits,
}

pub pointwise :
    (P : ℕ → Thread → Type 0) (threads : ℕ → Thread) (i : ℕ) (t : Thread)
    → P i t
    → ((j : ℕ) → (i == j) ≡ false → P j (threads j))
    → (j : ℕ) → P j (with_thread threads i t j)
pointwise P threads i t at_i elsewhere j = elim (Bool-cases (i == j)) [
  | inl e ↦ rw e (subst (λ k. P k t) ((==_iff i j).0 e) at_i)
  | inr e ↦ rw e (elsewhere j e)
]

unfinished-elsewhere :
    (i : ℕ) (h : Option ℕ) (threads : ℕ → Thread) (t : Thread) (s : Logger)
    → holds i h ≡ false
    → unfinished h (with_thread threads i t) s ≡ unfinished h threads s
unfinished-elsewhere i none threads t s e = refl
unfinished-elsewhere i (some k) threads t s e = let ne : (i == k) ≡ false = ground arith in rw ne

abbrev Accounts : (ℕ → List Op) → List Effect → ℕ → Thread → Type 0
Accounts programs history j t = of_thread j history ++ (current t.phase ++ t.rest) ≡ programs j

module _ (logger : Logger) (programs : ℕ → List Op) (i : ℕ) (s : SharedLogger) where
  module _ {phase : Phase} {rest : List Op} (f : Fits logger programs s)
      (e : s.threads i ≡ record { phase = phase; rest = rest }) where
    here : Accounts programs s.history i (record { phase = phase; rest = rest })
    here = subst (Accounts programs s.history i) e (f.programs_kept i)

    inside_here : inside phase ≡ holds i s.holder
    inside_here = subst (λ t. inside t.phase ≡ holds i s.holder) e (f.exclusion i)

    held_here : inside phase ≡ true → s.holder ≡ some i
    held_here h = holds-some i s.holder (sym inside_here ∙ h)

    outside : inside phase ≡ true → (j : ℕ) → (i == j) ≡ false → inside (s.threads j).phase ≡ false
    outside h j ne = f.exclusion j ∙ ap (holds j) (held_here h) ∙ ne

    -- A step in a call, or into one.
    moved :
        (next : Phase) (rest' : List Op)
        → current next ++ rest' ≡ current phase ++ rest
        → (j : ℕ)
        → Accounts programs s.history j
            (with_thread s.threads i (record { phase = next; rest = rest' }) j)
    moved next rest' same =
        pointwise (Accounts programs s.history) s.threads i _ (rw same here)
          (λ j ne. f.programs_kept j)

    -- The end of a call.
    done :
        (op : Op) (passed : Bool) (rest' : List Op)
        → op ∷ rest' ≡ current phase ++ rest
        → (j : ℕ)
        → Accounts programs
            (s.history ++ record { thread = i; op = op; passed = passed } ∷ [])
            j
            (with_thread s.threads i (record { phase = idle; rest = rest' }) j)
    done op passed rest' same =
        pointwise (Accounts programs _) s.threads i _
          (rw (of_thread-append, ==_refl i) (rw append_assoc (rw same here)))
          (λ j ne. rw (of_thread-append, ne) (rw append-nil (f.programs_kept j)))

    still :
        (next : Phase) (rest' : List Op)
        → inside next ≡ inside phase
        → (j : ℕ)
        → inside (with_thread s.threads i (record { phase = next; rest = rest' }) j).phase
          ≡ holds j s.holder
    still next rest' same =
        pointwise (λ j t. inside t.phase ≡ holds j s.holder) s.threads i _ (same ∙ inside_here)
          (λ j ne. f.exclusion j)

    released :
        inside phase ≡ true
        → (rest' : List Op) (j : ℕ)
        → inside (with_thread s.threads i (record { phase = idle; rest = rest' }) j).phase ≡ false
    released h rest' = pointwise (λ j t. inside t.phase ≡ false) s.threads i _ refl (outside h)

    content_here : inside phase ≡ true → s.logger ≡ partly phase (replay s.history logger)
    content_here h =
        f.content
        ∙ rw (held_here h) (ap (λ (t : Thread). partly t.phase (replay s.history logger)) e)

    content_elsewhere :
        inside phase ≡ false
        → (t : Thread)
        → s.logger ≡ unfinished s.holder (with_thread s.threads i t) (replay s.history logger)
    content_elsewhere h t =
        f.content ∙ sym (unfinished-elsewhere i s.holder s.threads t _ (sym inside_here ∙ h))

    enter_call-Fits :
        (op : Op) (rest' : List Op)
        → phase ≡ idle
        → rest ≡ op ∷ rest'
        → Fits logger programs (go_on i (waiting op) rest' s)
    enter_call-Fits op rest' p r = record {
      programs_kept = moved (waiting op) rest' (rw (p, r));
      exclusion = still (waiting op) rest' (rw p);
      content = content_elsewhere (rw p) _;
    }

  advance_from-Fits :
      (phase : Phase) (rest : List Op)
      → s.threads i ≡ record { phase = phase; rest = rest }
      → Fits logger programs s
      → Fits logger programs (or_same (advance_from i phase rest s) s)
  advance_from-Fits idle [] e f = f
  advance_from-Fits idle (entry x ∷ rest) e f = elim (Bool-cases (refuses x.level s.logger)) [
    | inl no_entry ↦ rw no_entry (record {
      programs_kept = done f e (entry x) false rest refl;
      exclusion = still f e idle rest refl;
      content =
          content_elsewhere f e refl _
          ∙ ap (unfinished s.holder _) (sym (replay-append s.history _ logger));
    })
    | inr open_to ↦ rw open_to (enter_call-Fits f e (entry x) rest refl refl)
  ]
  advance_from-Fits idle (level l ∷ rest) e f = enter_call-Fits f e (level l) rest refl refl
  advance_from-Fits (waiting op) rest e f = elim (Option-cases s.holder) [
    | inl free ↦ rw free (record {
      programs_kept = moved f e (locked op) rest refl;
      exclusion =
          pointwise (λ j t. inside t.phase ≡ (i == j)) s.threads i _ (sym (==_refl i))
            (λ j ne. f.exclusion j ∙ ap (holds j) free ∙ sym ne);
      content = f.content ∙ rw (free, ==_refl i);
    })
    | inr (k, taken) ↦ simp taken f
  ]
  advance_from-Fits (locked (entry x)) rest e f = record {
    programs_kept = moved f e (shown x) rest refl;
    exclusion = still f e (shown x) rest refl;
    content = rw (held_here f e refl, ==_refl i) (ap (show_entry x) (content_here f e refl));
  }
  advance_from-Fits (locked (level l)) rest e f = record {
    programs_kept = done f e (level l) true rest refl;
    exclusion = released f e refl rest;
    content = ap (set_level l) (content_here f e refl) ∙ sym (replay-append s.history _ logger);
  }
  advance_from-Fits (shown x) rest e f = record {
    programs_kept = done f e (entry x) true rest refl;
    exclusion = released f e refl rest;
    content = ap (store_entry x) (content_here f e refl) ∙ sym (replay-append s.history _ logger);
  }

pub turn-Fits :
    (logger : Logger) (programs : ℕ → List Op) (i : ℕ) (s : SharedLogger)
    → Fits logger programs s
    → Fits logger programs (turn i s)
unfolding advance
turn-Fits logger programs i s f =
    advance_from-Fits logger programs i s (s.threads i).phase (s.threads i).rest refl f

pub at_start-Fits :
    (logger : Logger) (programs : ℕ → List Op) → Fits logger programs (at_start logger programs)
unfolding replay of_thread
at_start-Fits logger programs = record {
  programs_kept = λ j. refl;
  exclusion = λ j. refl;
  content = refl;
}

run_from-Fits :
    (logger : Logger) (programs : ℕ → List Op) (schedule : List ℕ) (s : SharedLogger)
    → Fits logger programs s
    → Fits logger programs (run_schedule schedule s)
unfolding run_schedule
run_from-Fits logger programs [] s f = f
run_from-Fits logger programs (i ∷ schedule) s f =
    run_from-Fits logger programs schedule (turn i s) (turn-Fits logger programs i s f)

-- Whatever threads call `log` and `set_level`, and in whatever order they move, at any moment: each
-- thread has done, is in, and has yet to do the calls of its program, in order; the mutex has a
-- holder exactly if a thread is under it, and no other thread is; and the streams and the level are
-- what the calls that are done make of them, one whole call after the other, an entry written if it
-- was let through, but for the line that the holder has on the console and not yet in the file.
pub run_schedule-Fits :
    (logger : Logger) (programs : ℕ → List Op) (schedule : List ℕ)
    → Fits logger programs (run_schedule schedule (at_start logger programs))
run_schedule-Fits logger programs schedule =
    run_from-Fits logger programs schedule _ (at_start-Fits logger programs)
