-- ===== src/Logger/Threads/Admitted.antt =====
-- The entries that are let through, where the threads only log: those that a logger which nobody
-- changes would let through.
use simple_snmpd.Base.{
  ℕ, ◌≡◌, refl, ap, sym, ◌∙◌, Bool, true, false, not, List, [], ◌∷◌, ◌++◌, map, All, All-append,
  Bool-cases, Option-cases, inl, inr, arith,
}
use simple_snmpd.Logger.{Logger, LogLevel, refuses, log}
use simple_snmpd.Logger.Entries.{Entry, log_all}
use simple_snmpd.Logger.Threads.{
  Op, entry, level, Phase, idle, waiting, locked, shown, Thread, Effect, SharedLogger, with_thread,
  show_entry, store_entry, advance, advance_from, or_same, turn, run_schedule, at_start,
}
use simple_snmpd.Logger.Threads.History.{act, replay}
use simple_snmpd.Logger.Threads.Exclusion.{pointwise}

abbrev entry_of : Op → List Entry
entry_of (entry e) = e ∷ []
entry_of (level l) = []

-- The entries among the calls that are done, in order.
unfoldable pub entries_of : List Effect → List Entry
entries_of [] = []
entries_of (e ∷ es) = entry_of e.op ++ entries_of es

not-true : (b : Bool) → true ≡ not b → b ≡ false
not-true true h = cc
not-true false h = refl

not-false : (b : Bool) → false ≡ not b → b ≡ true
not-false true h = refl
not-false false h = cc

show_entry-log_file : (e : Entry) (s : Logger) → (show_entry e s).log_file ≡ s.log_file
show_entry-log_file e s = ground arith

module _ (logger : Logger) where
  -- `s` lets through the entries that `logger` does.
  abbrev pub Agrees : Logger → Type 0
  Agrees s = (s.level ≡ logger.level) × (s.initialized ≡ logger.initialized)

  abbrev pub IsEntry : Op → Type 0
  IsEntry (entry e) = Unit
  IsEntry (level l) = ⊥

  abbrev pub GoesThrough : Op → Type 0
  GoesThrough (entry e) = refuses e.level logger ≡ false
  GoesThrough (level l) = ⊥

  abbrev pub PhaseLogs : Phase → Type 0
  PhaseLogs idle = Unit
  PhaseLogs (waiting op) = GoesThrough op
  PhaseLogs (locked op) = GoesThrough op
  PhaseLogs (shown e) = GoesThrough (entry e)

  abbrev pub IsHonest : Op → Bool → Type 0
  IsHonest (entry e) passed = passed ≡ not (refuses e.level logger)
  IsHonest (level l) passed = ⊥

  abbrev pub EventLogs : Effect → Type 0
  EventLogs e = IsHonest e.op e.passed

  abbrev pub ThreadLogs : Thread → Type 0
  ThreadLogs t = PhaseLogs t.phase × All IsEntry t.rest

  pub record Logs (s : SharedLogger) : Type 0 where
    pub agrees : Agrees s.logger
    pub threads_log : (j : ℕ) → ThreadLogs (s.threads j)
    pub honest : All EventLogs s.history

  show_entry-Agrees : (e : Entry) (s : Logger) → Agrees s → Agrees (show_entry e s)
  show_entry-Agrees e s a = ground arith

  store_entry-Agrees : (e : Entry) (s : Logger) → Agrees s → Agrees (store_entry e s)
  store_entry-Agrees e s a = ground arith

  refuses-Agrees : (l : LogLevel) (s : Logger) → Agrees s → refuses l s ≡ refuses l logger
  refuses-Agrees l s (a, b) = rw (a, b)

  act-log :
      (e : Entry) (passed : Bool) (s : Logger)
      → Agrees s
      → passed ≡ not (refuses e.level logger)
      → act (entry e) passed s ≡ log e.level e.timestamp e.message s
  unfolding log
  act-log e true s a h =
      let open_to : refuses e.level s ≡ false =
        refuses-Agrees e.level s a ∙ not-true (refuses e.level logger) h in
      rw (open_to, show_entry-log_file e s)
  act-log e false s a h =
      let no_entry : refuses e.level s ≡ true =
        refuses-Agrees e.level s a ∙ not-false (refuses e.level logger) h in
      rw no_entry

  act-Agrees : (e : Entry) (passed : Bool) (s : Logger) → Agrees s → Agrees (act (entry e) passed s)
  act-Agrees e true s a = store_entry-Agrees e (show_entry e s) (show_entry-Agrees e s a)
  act-Agrees e false s a = a

  replay_step :
      (op : Op) (passed : Bool) (es : List Effect) (s : Logger)
      → Agrees s
      → IsHonest op passed
      → ((t : Logger) → Agrees t → replay es t ≡ log_all (entries_of es) t)
      → replay es (act op passed s) ≡ log_all (entry_of op ++ entries_of es) s
  unfolding log_all
  replay_step (entry e) passed es s a h ih =
      ih (act (entry e) passed s) (act-Agrees e passed s a)
      ∙ ap (log_all (entries_of es)) (act-log e passed s a h)
  replay_step (level l) passed es s a h ih = absurd h

  pub replay-log_all :
      (es : List Effect) (s : Logger)
      → Agrees s
      → All EventLogs es
      → replay es s ≡ log_all (entries_of es) s
  unfolding replay log_all entries_of
  replay-log_all [] s a h = refl
  replay-log_all (e ∷ es) s a (h, hs) =
      replay_step e.op e.passed es s a h (λ t b. replay-log_all es t b hs)

  module _ (i : ℕ) (s : SharedLogger) (f : Logs s) where
    gone_on :
        (next : Thread) → ThreadLogs next → (j : ℕ) → ThreadLogs (with_thread s.threads i next j)
    gone_on next h = pointwise (λ j t. ThreadLogs t) s.threads i next h (λ j ne. f.threads_log j)

    unlet : (x : Entry) → refuses x.level s.logger ≡ true → false ≡ not (refuses x.level logger)
    unlet x h = ap not (sym h ∙ refuses-Agrees x.level s.logger f.agrees)

    advance_from-Logs :
        (phase : Phase) (rest : List Op)
        → ThreadLogs (record { phase = phase; rest = rest })
        → Logs (or_same (advance_from i phase rest s) s)
    advance_from-Logs idle [] t = f
    advance_from-Logs idle (entry x ∷ rest) t = elim (Bool-cases (refuses x.level s.logger)) [
      | inl no_entry ↦ rw no_entry (record {
        agrees = f.agrees;
        threads_log = gone_on _ (tt, t.1.1);
        honest = All-append EventLogs s.history _ f.honest (unlet x no_entry, tt);
      })
      | inr open_to ↦ rw open_to (record {
        agrees = f.agrees;
        threads_log = gone_on _ (sym (refuses-Agrees x.level s.logger f.agrees) ∙ open_to, t.1.1);
        honest = f.honest;
      })
    ]
    advance_from-Logs idle (level l ∷ rest) t = absurd t.1.0
    advance_from-Logs (waiting op) rest t = elim (Option-cases s.holder) [
      | inl free ↦
          rw free (record { agrees = f.agrees; threads_log = gone_on _ t; honest = f.honest })
      | inr (k, taken) ↦ simp taken f
    ]
    advance_from-Logs (locked (entry x)) rest t = record {
      agrees = show_entry-Agrees x s.logger f.agrees;
      threads_log = gone_on _ t;
      honest = f.honest;
    }
    advance_from-Logs (locked (level l)) rest t = absurd t.0
    advance_from-Logs (shown x) rest t = record {
      agrees = store_entry-Agrees x s.logger f.agrees;
      threads_log = gone_on _ (tt, t.1);
      honest = All-append EventLogs s.history _ f.honest (rw t.0, tt);
    }

  pub run_schedule-Logs :
      (schedule : List ℕ) (s : SharedLogger) → Logs s → Logs (run_schedule schedule s)
  unfolding run_schedule advance
  run_schedule-Logs [] s f = f
  run_schedule-Logs (i ∷ schedule) s f =
      run_schedule-Logs schedule (turn i s)
        (advance_from-Logs i s f (s.threads i).phase (s.threads i).rest (f.threads_log i))

  program-IsEntry : (es : List Entry) → All IsEntry (map entry es)
  program-IsEntry [] = tt
  program-IsEntry (e ∷ es) = (tt, program-IsEntry es)

  pub at_start-Logs :
      (programs : ℕ → List Entry) → Logs (at_start logger (λ j. map entry (programs j)))
  at_start-Logs programs = record {
    agrees = (refl, refl);
    threads_log = λ j. (tt, program-IsEntry (programs j));
    honest = tt;
  }
