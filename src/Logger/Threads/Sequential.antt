-- ===== src/Logger/Threads/Sequential.antt =====
-- Threads that only log: what they leave is what one thread leaves that makes the same calls.
use simple_snmpd.Base.{
  ℕ, ◌≡◌, refl, ap, sym, ◌∙◌, true, false, Option, none, List, [], ◌++◌, map, append-nil,
  Option-cases, inl, inr, ==_refl,
}
use simple_snmpd.Logger.{Logger, writable}
use simple_snmpd.Logger.Entries.{Entry, log_all, with_lines, log_all-with_lines}
use simple_snmpd.Logger.Threads.{Op, entry, Thread, SharedLogger, run_schedule, at_start}
use simple_snmpd.Logger.Threads.History.{
  of_thread, replay, current, inside, holds, unfinished, Fits, HasEnded,
}
use simple_snmpd.Logger.Threads.Exclusion.{run_schedule-Fits}
use simple_snmpd.Logger.Threads.Admitted.{
  entries_of, replay-log_all, run_schedule-Logs, at_start-Logs,
}

module _ (logger : Logger) where
  -- Where all threads have ended, the mutex is free.
  ended_free :
      (programs : ℕ → List Op) (s : SharedLogger)
      → Fits logger programs s
      → ((j : ℕ) → HasEnded (s.threads j))
      → s.holder ≡ none
  ended_free programs s f ended = elim (Option-cases s.holder) [
    | inl free ↦ free
    | inr (k, taken) ↦
        let both : false ≡ true =
          ap inside (sym (ended k).0) ∙ f.exclusion k ∙ ap (holds k) taken ∙ ==_refl k in
        cc
  ]

  nothing_left : (t : Thread) → HasEnded t → current t.phase ++ t.rest ≡ []
  nothing_left t (p, r) = rw (p, r)

  -- What they leave is what `log` makes of the entries of the history, one call after the other.
  run_schedule-log_all :
      (programs : ℕ → List Entry) (schedule : List ℕ)
      → let s = run_schedule schedule (at_start logger (λ j. map entry (programs j))) in
        ((j : ℕ) → HasEnded (s.threads j))
        → ((j : ℕ) → of_thread j s.history ≡ map entry (programs j))
          × (s.logger ≡ log_all (entries_of s.history) logger)
  run_schedule-log_all programs schedule ended =
      let f = run_schedule-Fits logger (λ j. map entry (programs j)) schedule in
      let s = run_schedule schedule (at_start logger (λ j. map entry (programs j))) in
      (
        λ j.
            sym (append-nil _)
            ∙ ap (◌++◌ (of_thread j s.history)) (sym (nothing_left (s.threads j) (ended j)))
            ∙ f.programs_kept j,
        f.content
            ∙ ap (λ (h : Option ℕ). unfinished h s.threads (replay s.history logger))
                (ended_free (λ j. map entry (programs j)) s f ended)
            ∙ replay-log_all logger s.history logger (refl, refl)
                (run_schedule-Logs logger schedule _ (at_start-Logs logger programs)).honest,
      )

  -- However threads that only log are interleaved, once all have made their calls, on an initialized
  -- logger with a file that can be written: the history has the entries of each thread, each once
  -- and in the order of its program; and the logger is the one at the start with the lines of the
  -- history from the level on, whole, each once and in the order of the history on every stream, in
  -- the file and on `cerr` from `warning` on, else on `cout`.
  pub run_schedule-with_lines :
      (programs : ℕ → List Entry) (schedule : List ℕ)
      → let s = run_schedule schedule (at_start logger (λ j. map entry (programs j))) in
        ((j : ℕ) → HasEnded (s.threads j))
        → logger.initialized ≡ true
        → logger.log_file ≡ writable
        → ((j : ℕ) → of_thread j s.history ≡ map entry (programs j))
          × (s.logger ≡ with_lines (entries_of s.history) logger)
  run_schedule-with_lines programs schedule ended ready usable =
      let (order, same) = run_schedule-log_all programs schedule ended in
      let s = run_schedule schedule (at_start logger (λ j. map entry (programs j))) in
      (order, same ∙ log_all-with_lines (entries_of s.history) logger ready usable)
