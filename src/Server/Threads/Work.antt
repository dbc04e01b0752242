-- ===== src/Server/Threads/Work.antt =====
-- How many steps the threads of the server can still make once `running_` is false.
use simple_snmpd.Base.{
  ℕ, suc, ◌+◌, ◌-◌, ◌≤◌, ◌≡◌, refl, Bool, false, List, [], ◌∷◌, length, get_elem?-lt, ap, ◌∙◌,
  arith,
}
use simple_snmpd.Mib.{MibManager}
use simple_snmpd.Security.{SecurityManager}
use simple_snmpd.Server.Lifecycle.{thread_pool_size}
use simple_snmpd.Server.Process.{Managers}
use simple_snmpd.Server.Threads.{
  LoopThread, at_test, at_call, in_recvfrom, at_sendto, loop_ended, WorkerThread, checking, asleep,
  worker_ended, Caller, outside, closing, resetting, joining_loop, joining, returned, doze, wake,
  quit, WorkersMove, first, later, LoopMove, leave, enter, call, refuse, receive, send, StopMove,
  skip, fall, close, no_socket, reset, join_loop, join, clear, Step, by_loop, by_worker, by_stop,
  Runs, stay, move, Reach, start, after,
}
use simple_snmpd.Server.Threads.Shutdown.{Threads, WorkersMove-length, LoopMove-frame}

-- The steps that a thread can still make when `running_` is false.
loop_work : LoopThread → ℕ
loop_work at_test = 1
loop_work at_call = 4
loop_work (in_recvfrom fd) = 3
loop_work (at_sendto sent) = 2
loop_work loop_ended = 0

worker_work : WorkerThread → ℕ
worker_work checking = 1
worker_work asleep = 2
worker_work worker_ended = 0

workers_work : List WorkerThread → ℕ
workers_work [] = 0
workers_work (w ∷ ws) = worker_work w + workers_work ws

-- The same of the caller of `stop`, with so many workers.
caller_work : ℕ → Caller → ℕ
caller_work n outside = n + 4
caller_work n closing = n + 4
caller_work n resetting = n + 3
caller_work n joining_loop = n + 2
caller_work n (joining k) = suc (n - k)
caller_work n returned = 0

WorkersMove-work :
    {running : Bool} {ws vs : List WorkerThread}
    → running ≡ false
    → WorkersMove running ws vs
    → suc (workers_work vs) ≤ workers_work ws
unfolding workers_work worker_work
WorkersMove-work h (first (doze e)) = ground arith
WorkersMove-work h (first wake) = omega arith
WorkersMove-work h (first (quit e)) = omega arith
WorkersMove-work h (later m) = omega (arith, WorkersMove-work h m)

loop_work-le : (l : LoopThread) → loop_work l ≤ 4
unfolding loop_work
loop_work-le at_test = omega arith
loop_work-le at_call = omega arith
loop_work-le (in_recvfrom fd) = omega arith
loop_work-le (at_sendto sent) = omega arith
loop_work-le loop_ended = omega arith

caller_work-le : (n : ℕ) (c : Caller) → caller_work n c ≤ n + 4
unfolding caller_work
caller_work-le n outside = omega arith
caller_work-le n closing = omega arith
caller_work-le n resetting = omega arith
caller_work-le n joining_loop = omega arith
caller_work-le n (joining k) = omega arith
caller_work-le n returned = omega arith

-- Twice their number at most.
workers_work-le : (ws : List WorkerThread) → workers_work ws ≤ length ws + length ws
unfolding workers_work worker_work
workers_work-le [] = omega arith
workers_work-le (checking ∷ ws) = omega (arith, workers_work-le ws)
workers_work-le (asleep ∷ ws) = omega (arith, workers_work-le ws)
workers_work-le (worker_ended ∷ ws) = omega (arith, workers_work-le ws)

module _ (mib : MibManager) (security : SecurityManager) where
  pub work : Threads mib security → ℕ
  work s = loop_work s.loop + workers_work s.workers + caller_work (length s.workers) s.caller

  LoopMove-work :
      {s t : Threads mib security}
      → s.running ≡ false
      → LoopMove mib security s t
      → suc (work t) ≤ work s
  unfolding work loop_work
  LoopMove-work h (leave e r) = ground arith
  LoopMove-work h (enter e r) = ground arith
  LoopMove-work h (call e) = ground arith
  LoopMove-work h (refuse e) = ground arith
  LoopMove-work h (receive _ e r) = ground arith
  LoopMove-work h (send e) = ground arith

  StopMove-work :
      {s t : Threads mib security}
      → s.running ≡ false
      → StopMove mib security s t
      → suc (work t) ≤ work s
  unfolding work caller_work
  StopMove-work h (skip e r) = ground arith
  StopMove-work h (fall e r) = ground arith
  StopMove-work h (close e f) = ground arith
  StopMove-work h (no_socket e f) = ground arith
  StopMove-work h (reset e) = ground arith
  StopMove-work h (join_loop e l) = ground arith
  StopMove-work {s} h (join {k} e l) = ground (arith, get_elem?-lt s.workers k l)
  StopMove-work h (clear e l) = ground arith

  StopMove-running :
      {s t : Threads mib security}
      → s.running ≡ false
      → StopMove mib security s t
      → t.running ≡ false
  StopMove-running h (skip e r) = h
  StopMove-running h (fall e r) = refl
  StopMove-running h (close e f) = h
  StopMove-running h (no_socket e f) = h
  StopMove-running h (reset e) = h
  StopMove-running h (join_loop e l) = h
  StopMove-running h (join e l) = h
  StopMove-running h (clear e l) = h

  pub Step-work :
      {s t : Threads mib security}
      → s.running ≡ false
      → Step mib security s t
      → (suc (work t) ≤ work s) × (t.running ≡ false)
  unfolding work
  Step-work h (by_loop m) = (LoopMove-work h m, (LoopMove-frame mib security m).0 ∙ h)
  Step-work {s} h (by_worker m) =
      (rw (WorkersMove-length m) (omega (arith, WorkersMove-work h m)), h)
  Step-work h (by_stop m) = (StopMove-work h m, StopMove-running h m)

  pub Runs-work :
      {k : ℕ} {s t : Threads mib security}
      → s.running ≡ false
      → Runs mib security k s t
      → (t.running ≡ false) × (k + work t ≤ work s)
  Runs-work h stay = (h, omega arith)
  Runs-work h (move e r) =
      let (less, g) = Step-work h e in let (f, few) = Runs-work g r in (f, omega (arith, less, few))

  pub Runs-Reach :
      {m : Managers mib security} {fd k : ℕ} {s t : Threads mib security}
      → Reach mib security m fd s
      → Runs mib security k s t
      → Reach mib security m fd t
  Runs-Reach r stay = r
  Runs-Reach r (move e g) = Runs-Reach (after r e) g

  Step-pool :
      {s t : Threads mib security} → Step mib security s t → length t.workers ≡ length s.workers
  Step-pool (by_loop m) = ap length (LoopMove-frame mib security m).2
  Step-pool (by_worker m) = WorkersMove-length m
  Step-pool (by_stop (skip e r)) = refl
  Step-pool (by_stop (fall e r)) = refl
  Step-pool (by_stop (close e f)) = refl
  Step-pool (by_stop (no_socket e f)) = refl
  Step-pool (by_stop (reset e)) = refl
  Step-pool (by_stop (join_loop e l)) = refl
  Step-pool (by_stop (join e l)) = refl
  Step-pool (by_stop (clear e l)) = refl

  Reach-pool :
      {m : Managers mib security} {fd : ℕ} {s : Threads mib security}
      → Reach mib security m fd s
      → length s.workers ≡ thread_pool_size
  Reach-pool start = refl
  Reach-pool (after r e) = Step-pool e ∙ Reach-pool r

  pub work-bound :
      {m : Managers mib security} {fd : ℕ} {s : Threads mib security}
      → Reach mib security m fd s
      → work s ≤ 20
  unfolding work
  work-bound {s} r = omega (
    arith,
    workers_work-le s.workers,
    Reach-pool r,
    loop_work-le s.loop,
    caller_work-le (length s.workers) s.caller,
  )
