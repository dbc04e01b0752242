-- ===== src/Logger/Threads.antt =====
-- The logger shared by threads. A call of `log` tests the level before it takes the mutex, writes to
-- the console and then to the file, and gives the mutex back; `set_level` writes under the mutex. The
-- threads move in the order of a schedule, a list of their numbers. The time of an entry, which the
-- code reads under the mutex, is a part of the entry; `initialize` comes before the threads.
pub mod History
pub mod Exclusion
pub mod Admitted
pub mod Sequential
pub mod Steps
pub mod Progress
mod Tests
use simple_snmpd.Base.{
  ℕ, Bool, true, false, Option, none, some, List, [], ◌∷◌, ◌++◌, ◌==◌, if◌then◌else◌,
}
use simple_snmpd.Logger.{LogLevel, Logger, refuses, write_console, write_file, set_level}
use simple_snmpd.Logger.Entries.{Entry, line}

-- A call of `log` or of `set_level`.
pub data Op : Type 0 where
  entry : Entry → Op
  level : LogLevel → Op

-- Between two calls, at the mutex, under it, or under it behind the line on the console.
pub data Phase : Type 0 where
  idle : Phase
  waiting locked : Op → Phase
  shown : Entry → Phase

pub record Thread : Type 0 where
  pub phase : Phase
  pub rest : List Op

-- A call that has had its effect, or that has passed by without one.
pub record Effect : Type 0 where
  pub thread : ℕ
  pub op : Op
  pub passed : Bool

-- The holder of the mutex, and what has been done so far, the oldest first.
pub record SharedLogger : Type 0 where
  pub logger : Logger
  pub holder : Option ℕ
  pub threads : ℕ → Thread
  pub history : List Effect

abbrev pub with_thread : (ℕ → Thread) → ℕ → Thread → ℕ → Thread
with_thread threads i t j = if i == j then t else threads j

-- Thread `i` goes on as `t`.
abbrev pub go_on : ℕ → Phase → List Op → SharedLogger → SharedLogger
go_on i phase rest s = record s {
  threads = with_thread s.threads i (record { phase = phase; rest = rest });
}

-- Thread `i` has done a call and goes on to the next.
abbrev end_call : ℕ → Op → Bool → List Op → SharedLogger → SharedLogger
end_call i op passed rest s = record s {
  threads = with_thread s.threads i (record { phase = idle; rest = rest });
  history = s.history ++ record { thread = i; op = op; passed = passed } ∷ [];
}

abbrev show_entry : Entry → Logger → Logger
show_entry e s = write_console e.level (line e) s

abbrev store_entry : Entry → Logger → Logger
store_entry e s = write_file s.log_file (line e) s

abbrev enter_call : ℕ → Op → List Op → SharedLogger → SharedLogger
enter_call i (entry e) rest s =
    if refuses e.level s.logger
    then end_call i (entry e) false rest s
    else go_on i (waiting (entry e)) rest s
enter_call i (level l) rest s = go_on i (waiting (level l)) rest s

abbrev pub acquire : ℕ → Op → List Op → Option ℕ → SharedLogger → Option SharedLogger
acquire i op rest none s = some (record (go_on i (locked op) rest s) { holder = some i })
acquire i op rest (some j) s = none

abbrev under_lock : ℕ → Op → List Op → SharedLogger → SharedLogger
under_lock i (entry e) rest s = record (go_on i (shown e) rest s) { logger = show_entry e s.logger }
under_lock i (level l) rest s = record (end_call i (level l) true rest s) {
  logger = set_level l s.logger;
  holder = none;
}

abbrev next_call : ℕ → List Op → SharedLogger → Option SharedLogger
next_call i [] s = none
next_call i (op ∷ rest) s = some (enter_call i op rest s)

-- The next step of a thread; `none` where it waits for the mutex or has nothing left to do.
abbrev pub advance_from : ℕ → Phase → List Op → SharedLogger → Option SharedLogger
advance_from i idle rest s = next_call i rest s
advance_from i (waiting op) rest s = acquire i op rest s.holder s
advance_from i (locked op) rest s = some (under_lock i op rest s)
advance_from i (shown e) rest s =
    some
      (record (end_call i (entry e) true rest s) { logger = store_entry e s.logger; holder = none })

unfoldable pub advance : ℕ → SharedLogger → Option SharedLogger
advance i s = advance_from i (s.threads i).phase (s.threads i).rest s

-- A turn of a thread that cannot move changes nothing.
abbrev pub or_same : Option SharedLogger → SharedLogger → SharedLogger
or_same none s = s
or_same (some next) s = next

abbrev pub turn : ℕ → SharedLogger → SharedLogger
turn i s = or_same (advance i s) s

unfoldable pub run_schedule : List ℕ → SharedLogger → SharedLogger
run_schedule [] s = s
run_schedule (i ∷ schedule) s = run_schedule schedule (turn i s)

-- Each thread before its first call, with the calls that it will make.
abbrev pub at_start : Logger → (ℕ → List Op) → SharedLogger
at_start logger programs = record {
  logger = logger;
  holder = none;
  threads = λ i. record { phase = idle; rest = programs i };
  history = [];
}
