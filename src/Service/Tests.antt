-- ===== src/Service/Tests.antt =====
-- Runs of the service.
use simple_snmpd.Base.{◌≡◌, refl, true, false, some, List, [], ◌∷◌}
use simple_snmpd.Service.{
  running, paused, monitoring, failed, finished, Service, new_service, pause, interrogate, handle,
  Action, begun, reported, started, start_failed, timed_out, daemon_exited, controlled, step, run,
}
use simple_snmpd.Service.Runs.{IsStuck, at_wait, run-daemon_exited}

-- The service comes up, and the daemon exits.
abbrev up : List Action
up = begun ∷ reported ∷ started ∷ []

abbrev up_service : Service
up_service = at_wait monitoring running 0 false true

-- The report of RUNNING covers the report of a start that failed.
failure_covered :
    run (begun ∷ start_failed ∷ reported ∷ []) new_service
    ≡ some (at_wait failed running 1 false false)
unfolding run step
failure_covered = refl

exit_followed :
    run (timed_out ∷ daemon_exited ∷ controlled pause ∷ controlled interrogate ∷ []) up_service
    ≡ some (record (at_wait finished running 0 false true) { state = paused })
unfolding run step handle
exit_followed = refl

run-daemon_exited_example :
    IsStuck (record (at_wait finished running 0 false true) { state = paused })
run-daemon_exited_example =
    run-daemon_exited (controlled pause ∷ controlled interrogate ∷ []) 0 _ (tt, (tt, tt))
      exit_followed
