-- ===== src/Service.antt =====
-- The Windows service (deployment/windows/simple-snmpd-service.cpp): its status and its two threads,
-- `ServiceMain` and `ServiceWorkerThread`, and the control handler, as a state machine. A step is what
-- one of them does up to its next wait or its next access to what the others write; the steps
-- interleave in any order. The system calls the handler for one control at a time.
pub mod Runs
pub mod Launch
mod Tests
use simple_snmpd.Base.{ℕ, Bool, true, false, not, Option, none, some, List, [], ◌∷◌}

-- `dwCurrentState`, which is 0 at first.
pub data ServiceState : Type 0 where
  unset start_pending running stop_pending paused stopped : ServiceState

-- `ServiceMain`: not yet called, between the creation of the worker and the report of RUNNING, at
-- the wait for the stop event, at the cleanup behind it, or returned.
pub data MainThread : Type 0 where
  uncalled reporting waiting cleaning returned : MainThread

-- `ServiceWorkerThread`: not created, before `StartSNMPDaemon` returns, at the wait for the stop event
-- in its loop, at the look at the daemon behind a wait that timed out, or returned, with 1 where the
-- daemon did not start and with 0 behind the loop.
pub data Worker : Type 0 where
  absent starting monitoring checking failed finished : Worker

-- `ServiceCtrlHandler`: not running, before `StopSNMPDaemon`, or before `SetEvent`.
pub data Handler : Type 0 where
  idle stopping signalling : Handler

-- The fields of `g_ServiceStatus` that change, and what the threads share. `daemon` is a non-null
-- `g_ProcessInfo.hProcess`.
pub record Service : Type 0 where
  pub state : ServiceState
  pub exit_code : ℕ
  pub check_point : ℕ
  pub wait_hint : ℕ
  pub stop_event : Bool
  pub daemon : Bool
  pub main_thread : MainThread
  pub worker : Worker
  pub handler : Handler

abbrev pub new_service : Service
new_service = record {
  state = unset;
  exit_code = 0;
  check_point = 0;
  wait_hint = 0;
  stop_event = false;
  daemon = false;
  main_thread = uncalled;
  worker = absent;
  handler = idle;
}

pub data Control : Type 0 where
  stop pause continue interrogate shutdown other : Control

-- `ServiceCtrlHandler`, up to `StopSNMPDaemon` where it calls that.
unfoldable pub handle : Control → Service → Service
handle stop s = record s {
  state = stop_pending;
  check_point = 0;
  wait_hint = 5000;
  handler = stopping;
}
handle pause s = record s { state = paused }
handle continue s = record s { state = running }
handle interrogate s = s
handle shutdown s = record s { state = stop_pending; handler = stopping }
handle other s = s

-- What happens next. The failures of `CreateEvent` and `CreateThread` carry the error code.
pub data Action : Type 0 where
  register_failed : Action
  create_failed : ℕ → Action
  begun reported woken cleaned : Action
  start_failed started event_seen timed_out daemon_exited daemon_runs : Action
  controlled : Control → Action
  daemon_stopped event_set : Action

-- `ServiceMain` up to the creation of the worker.
abbrev begin : MainThread → Service → Option Service
begin uncalled s = some (record s {
  state = start_pending;
  exit_code = 0;
  check_point = 0;
  wait_hint = 3000;
  main_thread = reporting;
  worker = starting;
})
begin reporting s = none
begin waiting s = none
begin cleaning s = none
begin returned s = none

abbrev give_up : MainThread → Service → Option Service
give_up uncalled s = some (record s { main_thread = returned })
give_up reporting s = none
give_up waiting s = none
give_up cleaning s = none
give_up returned s = none

abbrev report_running : MainThread → Service → Option Service
report_running uncalled s = none
report_running reporting s =
    some (record s { state = running; check_point = 0; wait_hint = 0; main_thread = waiting })
report_running waiting s = none
report_running cleaning s = none
report_running returned s = none

abbrev wake : MainThread → Bool → Service → Option Service
wake waiting true s = some (record s { main_thread = cleaning })
wake waiting false s = none
wake uncalled event s = none
wake reporting event s = none
wake cleaning event s = none
wake returned event s = none

-- Behind the wait for the stop event.
abbrev clean_up : MainThread → Service → Option Service
clean_up cleaning s = some (record s { state = stopped; exit_code = 0; main_thread = returned })
clean_up uncalled s = none
clean_up reporting s = none
clean_up waiting s = none
clean_up returned s = none

abbrev when_starting : Worker → Service → Option Service
when_starting starting s = some s
when_starting absent s = none
when_starting monitoring s = none
when_starting checking s = none
when_starting failed s = none
when_starting finished s = none

abbrev when_monitoring : Worker → Bool → Service → Option Service
when_monitoring monitoring true s = some s
when_monitoring monitoring false s = none
when_monitoring absent condition s = none
when_monitoring starting condition s = none
when_monitoring checking condition s = none
when_monitoring failed condition s = none
when_monitoring finished condition s = none

abbrev when_checking : Worker → Bool → Service → Option Service
when_checking checking true s = some s
when_checking checking false s = none
when_checking absent condition s = none
when_checking starting condition s = none
when_checking monitoring condition s = none
when_checking failed condition s = none
when_checking finished condition s = none

-- Controls come while `ServiceMain` is between its registration and its end.
abbrev deliver : MainThread → Handler → Control → Service → Option Service
deliver uncalled h c s = none
deliver reporting idle c s = some (handle c s)
deliver waiting idle c s = some (handle c s)
deliver cleaning idle c s = some (handle c s)
deliver returned h c s = none
deliver reporting stopping c s = none
deliver waiting stopping c s = none
deliver cleaning stopping c s = none
deliver reporting signalling c s = none
deliver waiting signalling c s = none
deliver cleaning signalling c s = none

-- `StopSNMPDaemon`, which closes the handles whether or not the process ends.
abbrev stop_daemon : Handler → Service → Option Service
stop_daemon idle s = none
stop_daemon stopping s = some (record s { daemon = false; handler = signalling })
stop_daemon signalling s = none

abbrev set_event : Handler → Service → Option Service
set_event idle s = none
set_event stopping s = none
set_event signalling s = some (record s { stop_event = true; handler = idle })

-- The step of an action where it can happen.
unfoldable pub step : Action → Service → Option Service
step register_failed s = give_up s.main_thread s
step (create_failed code) s =
    give_up s.main_thread
      (record s { state = stopped; exit_code = code; check_point = 0; wait_hint = 3000 })
step begun s = begin s.main_thread s
step reported s = report_running s.main_thread s
step woken s = wake s.main_thread s.stop_event s
step cleaned s = clean_up s.main_thread s
step start_failed s =
    when_starting s.worker (record s { state = stopped; exit_code = 1; worker = failed })
step started s = when_starting s.worker (record s { daemon = true; worker = monitoring })
step event_seen s = when_monitoring s.worker s.stop_event (record s { worker = finished })
step timed_out s = when_monitoring s.worker (not s.stop_event) (record s { worker = checking })
step daemon_exited s = when_checking s.worker s.daemon (record s { worker = finished })
step daemon_runs s = when_checking s.worker true (record s { worker = monitoring })
step (controlled c) s = deliver s.main_thread s.handler c s
step daemon_stopped s = stop_daemon s.handler s
step event_set s = set_event s.handler s

unfoldable pub run : List Action → Service → Option Service
run [] s = some s
run (a ∷ actions) s = elim (step a s) [ none ↦ none | some t ↦ run actions t ]
