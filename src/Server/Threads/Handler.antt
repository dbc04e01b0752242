-- ===== src/Server/Threads/Handler.antt =====
-- `stop` on the thread of the loop itself: the system may run `signal_handler` of src/main.cpp on it.
use simple_snmpd.Base.{◌≡◌, ◌≢◌, true, List, subst, sym, arith}
use simple_snmpd.Mib.{MibManager}
use simple_snmpd.Security.{SecurityManager}
use simple_snmpd.Server.Threads.{
  loop_ended, WorkerThread, Caller, outside, closing, resetting, joining_loop, joining, returned,
  WorkersMove, StopMove, skip, fall, close, no_socket, reset, join_loop, join, clear,
}
use simple_snmpd.Server.Threads.Shutdown.{Threads}

module _ (mib : MibManager) (security : SecurityManager) where
  -- The steps while the loop stands still under the handler.
  pub data HandlerStep (s : Threads mib security) : Threads mib security → Type 0 where
    by_worker :
        {ws : List WorkerThread}
        → WorkersMove s.running s.workers ws
        → HandlerStep s (record s { workers = ws })
    by_stop : {t : Threads mib security} → StopMove mib security s t → HandlerStep s t

  pub data HandlerRuns : Threads mib security → Threads mib security → Type 0 where
    stay : {s : Threads mib security} → HandlerRuns s s
    move : {s t u : Threads mib security} → HandlerStep s t → HandlerRuns t u → HandlerRuns s u

  -- No further than the join of the loop, which has not ended.
  Before : Caller → Threads mib security → Type 0
  Before outside s = (s.running ≡ true) × (s.loop ≢ loop_ended)
  Before closing s = s.loop ≢ loop_ended
  Before resetting s = s.loop ≢ loop_ended
  Before joining_loop s = s.loop ≢ loop_ended
  Before (joining k) s = ⊥
  Before returned s = ⊥

  StopMove-Before :
      {s t : Threads mib security}
      → StopMove mib security s t
      → Before s.caller s
      → Before t.caller t
  unfolding Before
  StopMove-Before (skip e r) h = ground arith
  StopMove-Before (fall e r) h = ground arith
  StopMove-Before (close e f) h = ground arith
  StopMove-Before (no_socket e f) h = ground arith
  StopMove-Before (reset e) h = ground arith
  StopMove-Before (join_loop e l) h = ground arith
  StopMove-Before (join e l) h = ground arith
  StopMove-Before (clear e l) h = ground arith

  WorkersMove-Before :
      (c : Caller) (s : Threads mib security) (ws : List WorkerThread)
      → Before c s
      → Before c (record s { workers = ws })
  unfolding Before
  WorkersMove-Before outside s ws h = h
  WorkersMove-Before closing s ws h = h
  WorkersMove-Before resetting s ws h = h
  WorkersMove-Before joining_loop s ws h = h
  WorkersMove-Before (joining k) s ws h = h
  WorkersMove-Before returned s ws h = h

  Step-Before :
      {s t : Threads mib security} → HandlerStep s t → Before s.caller s → Before t.caller t
  Step-Before {s} (by_worker m) h = WorkersMove-Before s.caller s _ h
  Step-Before (by_stop m) h = StopMove-Before m h

  Before-returned : (c : Caller) (s : Threads mib security) → Before c s → c ≢ returned
  unfolding Before
  Before-returned outside s h = ground arith
  Before-returned closing s h = ground arith
  Before-returned resetting s h = ground arith
  Before-returned joining_loop s h = ground arith
  Before-returned (joining k) s h = absurd h
  Before-returned returned s h = absurd h

  Runs-Before :
      {s t : Threads mib security} → HandlerRuns s t → Before s.caller s → Before t.caller t
  Runs-Before stay h = h
  Runs-Before (move e r) h = Runs-Before r (Step-Before e h)

  -- A `stop` that is called on the thread of a loop that has not ended never returns, whatever the
  -- workers do: it would have to join the thread that it runs on.
  pub stop_on_loop :
      {s t : Threads mib security}
      → s.caller ≡ outside
      → s.running ≡ true
      → s.loop ≢ loop_ended
      → HandlerRuns s t
      → t.caller ≢ returned
  unfolding Before
  stop_on_loop {s} {t} e r l runs =
      Before-returned t.caller t (Runs-Before runs (subst (λ c. Before c s) (sym e) (r, l)))
