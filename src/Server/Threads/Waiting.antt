-- ===== src/Server/Threads/Waiting.antt =====
-- The steps of the threads that need no return of `recvfrom` from a wait.
use simple_snmpd.Base.{ℕ, suc, ◌≡◌, refl, false, none, some, List, subst, sym, arith}
use simple_snmpd.Mib.{MibManager}
use simple_snmpd.Security.{SecurityManager}
use simple_snmpd.Server.Process.{Managers}
use simple_snmpd.Server.Threads.{
  LoopThread, at_test, at_call, in_recvfrom, at_sendto, loop_ended, WorkerThread, WorkersMove,
  LoopMove, StopMove, clear, leave, enter, call, refuse, receive, send, skip, close, no_socket,
  reset, fall, join_loop, join, clear, Step, by_loop, by_worker, by_stop, Reach, after,
}
use simple_snmpd.Server.Threads.Work.{Step-work}
use simple_snmpd.Server.Threads.Shutdown.{Threads}

-- In `recvfrom` on a descriptor, where the loop waits for the system.
abbrev pub Waits : LoopThread → Type 0
Waits at_test = ⊥
Waits at_call = ⊥
Waits (in_recvfrom none) = ⊥
Waits (in_recvfrom (some fd)) = Unit
Waits (at_sendto sent) = ⊥
Waits loop_ended = ⊥

-- Where `recvfrom` does not wait any more once `running_` is false.
abbrev pub Passed : LoopThread → Type 0
Passed at_test = Unit
Passed at_call = ⊥
Passed (in_recvfrom fd) = ⊥
Passed (at_sendto sent) = Unit
Passed loop_ended = Unit

module _ (mib : MibManager) (security : SecurityManager) where
  -- A step for which `recvfrom` need not return from a wait.
  pub data OwnStep (s t : Threads mib security) : Type 0 where
    of_loop : LoopMove mib security s t → ¬ Waits s.loop → OwnStep s t
    of_worker :
        (ws : List WorkerThread)
        → WorkersMove s.running s.workers ws
        → t ≡ record s { workers = ws }
        → OwnStep s t
    of_stop : StopMove mib security s t → OwnStep s t

  pub data OwnRuns : ℕ → Threads mib security → Threads mib security → Type 0 where
    halted : {s : Threads mib security} → OwnRuns 0 s s
    onward :
        {k : ℕ} {s t u : Threads mib security} → OwnStep s t → OwnRuns k t u → OwnRuns (suc k) s u

  pub OwnStep-Step : {s t : Threads mib security} → OwnStep s t → Step mib security s t
  OwnStep-Step (of_loop m n) = by_loop m
  OwnStep-Step {s} (of_worker ws m e) = subst (Step mib security s) (sym e) (by_worker m)
  OwnStep-Step (of_stop m) = by_stop m

  pub OwnRuns-Reach :
      {m : Managers mib security} {fd k : ℕ} {s t : Threads mib security}
      → Reach mib security m fd s
      → OwnRuns k s t
      → Reach mib security m fd t
  OwnRuns-Reach r halted = r
  OwnRuns-Reach r (onward e runs) = OwnRuns-Reach (after r (OwnStep-Step e)) runs

  -- Behind its last `recvfrom` the loop does not call it again.
  LoopMove-Passed :
      {s t : Threads mib security}
      → s.running ≡ false
      → LoopMove mib security s t
      → Passed s.loop
      → Passed t.loop
  LoopMove-Passed h (leave e r) p = tt
  LoopMove-Passed h (enter e r) p = absurd (ground arith)
  LoopMove-Passed h (call e) p = absurd (subst Passed e p)
  LoopMove-Passed h (refuse e) p = absurd (subst Passed e p)
  LoopMove-Passed h (receive x e r) p = tt
  LoopMove-Passed h (send e) p = tt

  StopMove-loop : {s t : Threads mib security} → StopMove mib security s t → t.loop ≡ s.loop
  StopMove-loop (skip e r) = refl
  StopMove-loop (fall e r) = refl
  StopMove-loop (close e f) = refl
  StopMove-loop (no_socket e f) = refl
  StopMove-loop (reset e) = refl
  StopMove-loop (join_loop e l) = refl
  StopMove-loop (join e l) = refl
  StopMove-loop (clear e l) = refl

  Step-Passed :
      {s t : Threads mib security}
      → s.running ≡ false
      → Step mib security s t
      → Passed s.loop
      → Passed t.loop
  Step-Passed h (by_loop m) p = LoopMove-Passed h m p
  Step-Passed h (by_worker m) p = p
  Step-Passed h (by_stop m) p = subst Passed (sym (StopMove-loop m)) p

  pub OwnRuns-running :
      {k : ℕ} {s t : Threads mib security} → s.running ≡ false → OwnRuns k s t → t.running ≡ false
  OwnRuns-running h halted = h
  OwnRuns-running h (onward e runs) =
      OwnRuns-running (Step-work mib security h (OwnStep-Step e)).1 runs

  pub OwnRuns-Passed :
      {k : ℕ} {s t : Threads mib security}
      → s.running ≡ false
      → OwnRuns k s t
      → Passed s.loop
      → (t.running ≡ false) × Passed t.loop
  OwnRuns-Passed h halted p = (h, p)
  OwnRuns-Passed h (onward e runs) p =
      let (less, g) = Step-work mib security h (OwnStep-Step e) in
      OwnRuns-Passed g runs (Step-Passed h (OwnStep-Step e) p)

-- What waits is not past it.
pub Waits-Passed : (l : LoopThread) → Waits l → Passed l → ⊥
Waits-Passed at_test w p = w
Waits-Passed at_call w p = w
Waits-Passed (in_recvfrom fd) w p = p
Waits-Passed (at_sendto sent) w p = w
Waits-Passed loop_ended w p = w
