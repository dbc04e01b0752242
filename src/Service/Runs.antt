-- ===== src/Service/Runs.antt =====
-- What holds of every run of the service, and two runs that it should not have.
use simple_snmpd.Base.{
  ℕ, ◌≡◌, ◌≢◌, ◌⊎◌, inl, refl, Bool, true, false, Option, none, some, List, [], ◌∷◌, All, subst,
  arith,
}
use simple_snmpd.Service.{
  ServiceState, unset, running, paused, stopped, MainThread, uncalled, reporting, waiting, cleaning,
  returned, Worker, absent, starting, monitoring, checking, failed, finished, idle, Service,
  new_service, stop, shutdown, handle, Action, register_failed, create_failed, begun, reported,
  woken, cleaned, start_failed, started, event_seen, timed_out, daemon_exited, daemon_runs,
  controlled, daemon_stopped, event_set, step, run,
}

-- The states that runs of the service come through.
pub data Reachable : Service → Type 0 where
  at_first : Reachable new_service
  after : {s t : Service} (a : Action) → Reachable s → step a s ≡ some t → Reachable t

-- By where `ServiceMain` is.
abbrev MainFits : MainThread → Service → Type 0
MainFits uncalled s = (s.state ≡ unset) × (s.worker ≡ absent)
MainFits reporting s = s.worker ≢ absent
MainFits waiting s = s.worker ≢ absent
MainFits cleaning s = s.worker ≢ absent
MainFits returned s = ((s.state ≡ unset) × (s.worker ≡ absent)) ⊎ (s.state ≡ stopped)

-- By where the worker is: a daemon only where the start of one has succeeded.
abbrev WorkerFits : Worker → Service → Type 0
WorkerFits absent s = s.daemon ≡ false
WorkerFits starting s = s.daemon ≡ false
WorkerFits monitoring s = Unit
WorkerFits checking s = Unit
WorkerFits failed s = s.daemon ≡ false
WorkerFits finished s = Unit

abbrev pub IsConsistent : Service → Type 0
IsConsistent s = MainFits s.main_thread s × WorkerFits s.worker s

then_run :
    (o : Option Service) (actions : List Action) (t : Service)
    → (elim o as (λ _. Option Service) [ none ↦ none | some u ↦ run actions u ]) ≡ some t
    → (u : Service) × (o ≡ some u) × (run actions u ≡ some t)
then_run none actions t e = cc
then_run (some u) actions t e = (u, refl, e)

-- A run from a state that is come through ends in one.
pub run-Reachable :
    (actions : List Action) (s t : Service) → Reachable s → run actions s ≡ some t → Reachable t
unfolding run
run-Reachable [] s t r e = subst Reachable (ground arith) r
run-Reachable (a ∷ actions) s t r e =
    let (u, first, rest) = then_run (step a s) actions t e in
    run-Reachable actions u t (after a r first) rest

-- No control that ends the service.
abbrev pub IsQuiet : Action → Type 0
IsQuiet (controlled stop) = ⊥
IsQuiet (controlled shutdown) = ⊥
IsQuiet _ = Unit

-- Without a worker that watches the daemon, and reported as running or paused.
abbrev pub IsStuck : Service → Type 0
IsStuck s =
    (s.main_thread ≡ waiting)
    × (s.worker ≡ finished)
    × (s.stop_event ≡ false)
    × (s.handler ≡ idle)
    × ((s.state ≡ running) ⊎ (s.state ≡ paused))

step-IsStuck : (a : Action) (s t : Service) → IsQuiet a → IsStuck s → step a s ≡ some t → IsStuck t
unfolding step handle
step-IsStuck register_failed s t q h e = ground arith
step-IsStuck (create_failed code) s t q h e = ground arith
step-IsStuck begun s t q h e = ground arith
step-IsStuck reported s t q h e = ground arith
step-IsStuck woken s t q h e = ground arith
step-IsStuck cleaned s t q h e = ground arith
step-IsStuck start_failed s t q h e = ground arith
step-IsStuck started s t q h e = ground arith
step-IsStuck event_seen s t q h e = ground arith
step-IsStuck timed_out s t q h e = ground arith
step-IsStuck daemon_exited s t q h e = ground arith
step-IsStuck daemon_runs s t q h e = ground arith
step-IsStuck (controlled c) s t q h e = ground arith
step-IsStuck daemon_stopped s t q h e = ground arith
step-IsStuck event_set s t q h e = ground arith

run-IsStuck :
    (actions : List Action) (s t : Service)
    → All IsQuiet actions
    → IsStuck s
    → run actions s ≡ some t
    → IsStuck t
unfolding run
run-IsStuck [] s t q h e = let same : s ≡ t = ground arith in subst IsStuck same h
run-IsStuck (a ∷ actions) s t (q, qs) h e =
    let (u, first, rest) = then_run (step a s) actions t e in
    run-IsStuck actions u t qs (step-IsStuck a s u q h first) rest

-- A service at the wait of `ServiceMain`.
abbrev pub at_wait : Worker → ServiceState → ℕ → Bool → Bool → Service
at_wait worker state exit_code stop_event daemon = record {
  state = state;
  exit_code = exit_code;
  check_point = 0;
  wait_hint = 0;
  stop_event = stop_event;
  daemon = daemon;
  main_thread = waiting;
  worker = worker;
  handler = idle;
}

-- A service that waits with the status RUNNING, and a worker that watches the daemon: after the worker
-- finds that the daemon has exited, whatever happens but STOP and SHUTDOWN, the service waits on, is reported as RUNNING
-- or PAUSED, and no worker watches.
pub run-daemon_exited :
    (actions : List Action) (exit_code : ℕ) (t : Service)
    → All IsQuiet actions
    → run (timed_out ∷ daemon_exited ∷ actions) (at_wait monitoring running exit_code false true)
      ≡ some t
    → IsStuck t
unfolding run step
run-daemon_exited actions exit_code t q e =
    run-IsStuck actions (at_wait finished running exit_code false true) t q
      (refl, refl, refl, refl, inl refl) e

abbrev pub ended : Bool → Service
ended daemon = record {
  state = stopped;
  exit_code = 0;
  check_point = 0;
  wait_hint = 5000;
  stop_event = true;
  daemon = daemon;
  main_thread = returned;
  worker = finished;
  handler = idle;
}

-- A STOP while `ServiceMain` waits, in any state. If the worker watches the daemon, both threads
-- return, in either order, with the status STOPPED and no daemon; if it is about to start the
-- daemon, they can return with the status STOPPED and a daemon that runs on.
run-stop :
    (state : ServiceState) (exit_code : ℕ) (stop_event daemon : Bool)
    → let watched = at_wait monitoring state exit_code stop_event daemon in
      let unstarted = at_wait starting state exit_code stop_event false in
      (run
          (controlled stop ∷ daemon_stopped ∷ event_set ∷ event_seen ∷ woken ∷ cleaned ∷ [])
          watched
        ≡ some (ended false))
      × (run
            (controlled stop ∷ daemon_stopped ∷ event_set ∷ woken ∷ cleaned ∷ event_seen ∷ [])
            watched
          ≡ some (ended false))
      × (run
            (controlled stop
              ∷ daemon_stopped
              ∷ started
              ∷ event_set
              ∷ event_seen
              ∷ woken
              ∷ cleaned
              ∷ [])
            unstarted
          ≡ some (ended true))
unfolding run step handle
run-stop state exit_code stop_event daemon = (refl, refl, refl)
