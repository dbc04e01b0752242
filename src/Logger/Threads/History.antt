-- ===== src/Logger/Threads/History.antt =====
-- What threads that share the logger have done at any moment, in the order in which it took effect.
use simple_snmpd.Base.{
  ℕ, ◌≡◌, refl, Bool, true, false, Option, none, some, List, [], ◌∷◌, ◌++◌, ◌==◌, if◌then◌else◌,
  arith,
}
use simple_snmpd.Logger.{Logger, set_level}
use simple_snmpd.Logger.Threads.{
  Op, entry, level, Phase, idle, waiting, locked, shown, Thread, Effect, SharedLogger, show_entry,
  store_entry,
}

-- The calls of a thread that have been done.
unfoldable pub of_thread : ℕ → List Effect → List Op
of_thread j [] = []
of_thread j (e ∷ es) = if e.thread == j then e.op ∷ of_thread j es else of_thread j es

-- A call done with nothing in between. An entry that was let through is written.
abbrev pub act : Op → Bool → Logger → Logger
act (entry e) true s = store_entry e (show_entry e s)
act (entry e) false s = s
act (level l) passed s = set_level l s

unfoldable pub replay : List Effect → Logger → Logger
replay [] s = s
replay (e ∷ es) s = replay es (act e.op e.passed s)

-- The call that a thread is in.
abbrev pub current : Phase → List Op
current idle = []
current (waiting op) = op ∷ []
current (locked op) = op ∷ []
current (shown e) = entry e ∷ []

abbrev pub inside : Phase → Bool
inside idle = false
inside (waiting op) = false
inside (locked op) = true
inside (shown e) = true

abbrev pub holds : ℕ → Option ℕ → Bool
holds j none = false
holds j (some i) = i == j

-- What the thread under the mutex has written of its entry.
abbrev pub partly : Phase → Logger → Logger
partly idle s = s
partly (waiting op) s = s
partly (locked op) s = s
partly (shown e) s = show_entry e s

abbrev pub unfinished : Option ℕ → (ℕ → Thread) → Logger → Logger
unfinished none threads s = s
unfinished (some i) threads s = partly (threads i).phase s

module _ (logger : Logger) (programs : ℕ → List Op) where
  -- Each thread has done, is in and has left the calls of its program, in order; one thread at most
  -- is under the mutex, the holder; and the logger is what the calls done make of it, one after the
  -- other, with the line on the console of the entry that the holder writes.
  pub record Fits (s : SharedLogger) : Type 0 where
    pub programs_kept :
        (j : ℕ)
        → of_thread j s.history ++ (current (s.threads j).phase ++ (s.threads j).rest) ≡ programs j
    pub exclusion : (j : ℕ) → inside (s.threads j).phase ≡ holds j s.holder
    pub content : s.logger ≡ unfinished s.holder s.threads (replay s.history logger)

pub replay-append :
    (es : List Effect) (e : Effect) (s : Logger)
    → replay (es ++ e ∷ []) s ≡ act e.op e.passed (replay es s)
unfolding replay
replay-append [] e s = refl
replay-append (x ∷ es) e s = replay-append es e (act x.op x.passed s)

pub of_thread-append :
    (j : ℕ) (es : List Effect) (e : Effect)
    → of_thread j (es ++ e ∷ []) ≡ of_thread j es ++ (if e.thread == j then e.op ∷ [] else [])
unfolding of_thread
of_thread-append j [] e = ground arith
of_thread-append j (x ∷ es) e = ground (arith, of_thread-append j es e)

pub holds-some : (i : ℕ) (h : Option ℕ) → holds i h ≡ true → h ≡ some i
holds-some i none e = cc
holds-some i (some j) e = ground arith

-- A thread that has made all its calls.
abbrev pub HasEnded : Thread → Type 0
HasEnded t = (t.phase ≡ idle) × (t.rest ≡ [])
