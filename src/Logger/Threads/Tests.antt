-- ===== src/Logger/Threads/Tests.antt =====
-- Two threads that log, and one that changes the level between the test and the lock of another.
use simple_snmpd.Base.{ℕ, zero, suc, ◌≤◌, ◌*◌, ◌≡◌, refl, true, List, [], ◌∷◌, map, arith}
use simple_snmpd.Base.Text.{chars}
use simple_snmpd.Logger.{debug, info, error, writable, Logger, new_logger, formatted, set_level}
use simple_snmpd.Logger.Entries.{Entry, with_lines}
use simple_snmpd.Logger.Threads.{
  Op, entry, level, advance, run_schedule, at_start, show_entry, store_entry,
}
use simple_snmpd.Logger.Threads.History.{of_thread, Fits, HasEnded}
use simple_snmpd.Logger.Threads.Exclusion.{run_schedule-Fits}
use simple_snmpd.Logger.Threads.Admitted.{entries_of}
use simple_snmpd.Logger.Threads.Sequential.{run_schedule-with_lines}
use simple_snmpd.Logger.Threads.Steps.{moves, calls}
use simple_snmpd.Logger.Threads.Progress.{run_completes}

abbrev logger : Logger
logger = record new_logger { initialized = true; log_file = writable }

abbrev low : Entry
low = record { level = debug; timestamp = chars "12:00"; message = chars "a" }

abbrev middle : Entry
middle = record { level = info; timestamp = chars "12:01"; message = chars "b" }

abbrev high : Entry
high = record { level = error; timestamp = chars "12:02"; message = chars "c" }

-- Thread 0 logs three entries, thread 1 one.
abbrev two : ℕ → List Entry
two zero = low ∷ middle ∷ high ∷ []
two (suc zero) = middle ∷ []
two (suc (suc j)) = []

abbrev both : ℕ → List Op
both j = map entry (two j)

-- Thread 1 gets the mutex while thread 0 waits for it.
abbrev contended : List ℕ
contended = 0 ∷ 0 ∷ 1 ∷ 1 ∷ 0 ∷ 1 ∷ 0 ∷ 1 ∷ 0 ∷ 0 ∷ 0 ∷ 0 ∷ 0 ∷ 0 ∷ 0 ∷ []

contended_file : (run_schedule contended (at_start logger both)).logger ≡ record logger {
  cout = chars "[12:01] [INFO ] b" ∷ chars "[12:01] [INFO ] b" ∷ [];
  cerr = chars "[12:02] [ERROR] c" ∷ [];
  file = chars "[12:01] [INFO ] b" ∷ chars "[12:01] [INFO ] b" ∷ chars "[12:02] [ERROR] c" ∷ [];
}
unfolding run_schedule advance formatted
contended_file = refl

contended_ended : (j : ℕ) → HasEnded ((run_schedule contended (at_start logger both)).threads j)
unfolding run_schedule advance
contended_ended zero = (refl, refl)
contended_ended (suc zero) = (refl, refl)
contended_ended (suc (suc j)) = ground arith

run_schedule-with_lines_example :
    ((j : ℕ) → of_thread j (run_schedule contended (at_start logger both)).history ≡ both j)
    × ((run_schedule contended (at_start logger both)).logger
        ≡ with_lines (entries_of (run_schedule contended (at_start logger both)).history) logger)
run_schedule-with_lines_example =
    run_schedule-with_lines logger two contended contended_ended refl refl

run_schedule-Fits_example :
    Fits logger both (run_schedule (0 ∷ 0 ∷ 1 ∷ 1 ∷ 1 ∷ []) (at_start logger both))
run_schedule-Fits_example = run_schedule-Fits logger both (0 ∷ 0 ∷ 1 ∷ 1 ∷ 1 ∷ [])

nothing_above : (j : ℕ) → 2 ≤ j → both j ≡ []
nothing_above zero h = absurd (omega arith)
nothing_above (suc zero) h = absurd (omega arith)
nothing_above (suc (suc j)) h = refl

run_completes_example :
    (moves (0 ∷ 0 ∷ 1 ∷ []) (at_start logger both) ≤ 4 * calls 2 both)
    × ((more : List ℕ) × ((j : ℕ)
          → HasEnded (
              (run_schedule more (run_schedule (0 ∷ 0 ∷ 1 ∷ []) (at_start logger both))).threads
                j)))
run_completes_example = run_completes logger both 2 nothing_above (0 ∷ 0 ∷ 1 ∷ [])

-- Thread 0 logs an entry, thread 1 sets the level.
abbrev racing : Entry → ℕ → List Op
racing e zero = entry e ∷ []
racing e (suc zero) = level error ∷ []
racing e (suc (suc j)) = []

-- The test of the entry comes before the change of the level, and its line behind it.
late_entry :
    (run_schedule (0 ∷ 1 ∷ 1 ∷ 1 ∷ 0 ∷ 0 ∷ 0 ∷ []) (at_start logger (racing middle))).logger
    ≡ store_entry middle (show_entry middle (set_level error logger))
unfolding run_schedule advance
late_entry = refl
