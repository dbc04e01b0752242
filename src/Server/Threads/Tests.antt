-- ===== src/Server/Threads/Tests.antt =====
-- Runs of the threads of a server, and the theorems on them.
use simple_snmpd.Base.{ℕ, ◌+◌, ◌≤◌, ◌≡◌, ◌≢◌, ◌⊎◌, refl, true, false, none, some, [], ◌∷◌, arith}
use simple_snmpd.Packet.Serialize.{
  fill_length, serialize_binding, serialize_variable_bindings, serialize_pdu_fields, serialize,
}
use simple_snmpd.Server.Process.{received, process_snmp_request, server_round}
use simple_snmpd.Server.Process.Replies.{server_round-serialize}
use simple_snmpd.Server.Tests.{objects, rules, managers, here, three_objects}
use simple_snmpd.Server.Threads.{
  at_sendto, closing, joining_loop, returned, started, enter, call, receive, fall, close, reset,
  by_loop, by_stop, Runs, stay, move, Reach, after,
}
use simple_snmpd.Server.Threads.Shutdown.{Threads, Fits, Reach-Fits}
use simple_snmpd.Server.Threads.Termination.{IsBlocked, IsDone, Goes, stop_returns}
use simple_snmpd.Server.Threads.Waiting.{OwnRuns}
use simple_snmpd.Server.Threads.Handler.{HandlerStep, HandlerRuns, stop_on_loop}
use simple_snmpd.Server.Threads.LastRound.{due, last_round}

served :
    server_round objects rules managers (received (serialize three_objects) here 0)
    ≡ some (process_snmp_request objects rules managers here 0 three_objects)
unfolding serialize serialize_pdu_fields serialize_variable_bindings serialize_binding fill_length
served =
    server_round-serialize objects rules managers here 0 three_objects (omega arith) (omega arith)

-- A request has been answered, and the answer is at `sendto`.
abbrev answered : Threads objects rules
answered = record (started objects rules managers 5) {
  managers = (process_snmp_request objects rules managers here 0 three_objects).0;
  loop = at_sendto (process_snmp_request objects rules managers here 0 three_objects).1;
  taken = received (serialize three_objects) here 0 ∷ [];
}

answered-Reach : Reach objects rules managers 5 answered
answered-Reach =
    after (after (after Reach.start (by_loop (enter refl refl))) (by_loop (call refl)))
      (by_loop (receive (received (serialize three_objects) here 0) refl served))

-- `stop` has been called meanwhile.
abbrev stopping : Threads objects rules
stopping = record answered { running = false; caller = closing }

stopping-Reach : Reach objects rules managers 5 stopping
stopping-Reach = after answered-Reach (by_stop (fall refl refl))

-- The descriptor is closed before the answer leaves.
abbrev without : Threads objects rules
without = record stopping { caller = joining_loop; server_socket = none; is_open = false }

closed : Runs objects rules 2 stopping without
closed = move (by_stop (close refl refl)) (move (by_stop (reset refl)) stay)

Reach-Fits_example : Fits objects rules closing 5 stopping
Reach-Fits_example = Reach-Fits objects rules stopping-Reach

stop_returns_example :
    (2 ≤ 20)
    × (j : ℕ) × (u : Threads objects rules) × OwnRuns objects rules j without u
    × (IsDone objects rules u
        ⊎ (IsBlocked objects rules u × Goes objects rules (received (0x30 ∷ []) here 0) u))
stop_returns_example =
    stop_returns objects rules (received (0x30 ∷ []) here 0) (omega arith) stopping-Reach refl
      closed

last_round_example :
    (1 ≤ 1 + due stopping.loop)
    × (due stopping.loop ≤ 1)
    × ((stopping.wire ≡ stopping.wire)
        ⊎ ((fd : ℕ) × (stopping.server_socket ≡ some fd) × (stopping.is_open ≡ true)))
last_round_example = last_round objects rules refl closed

-- The handler runs on the loop at `sendto`, and gets to the join.
stop_on_loop_example : without.caller ≢ returned
stop_on_loop_example = stop_on_loop objects rules {s = answered} refl refl (ground arith) (
    HandlerRuns.move (HandlerStep.by_stop (fall refl refl)) (
      HandlerRuns.move (HandlerStep.by_stop (close refl refl))
        (HandlerRuns.move (HandlerStep.by_stop (reset refl)) HandlerRuns.stay)))
