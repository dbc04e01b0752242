-- ===== src/Server/Threads.antt =====
-- The threads of a running server: `server_loop`, `worker_thread` and the caller of `stop`, as a step
-- relation. A step is what one thread does up to its next access to `running_` or `server_socket_`,
-- its next system call or its next join; the steps of the threads interleave in any order.
pub mod Shutdown
pub mod Work
pub mod Waiting
pub mod Termination
pub mod LastRound
pub mod Handler
pub mod History
mod Tests
use simple_snmpd.Base.{
  ℕ, suc, ◌+◌, ◌≡◌, Bool, true, false, Option, none, some, List, [], ◌∷◌, ◌++◌, length, get_elem?,
  replicate,
}
use simple_snmpd.Mib.{MibManager}
use simple_snmpd.Security.{SecurityManager}
use simple_snmpd.Server.Lifecycle.{thread_pool_size}
use simple_snmpd.Server.Process.{Event, failed, Sent, Managers, server_round}

-- Where `server_loop` is: at the test of `running_`, before `recvfrom` reads the descriptor, in
-- `recvfrom` on the descriptor that it read, at `sendto` with what the round sends, or ended.
pub data LoopThread : Type 0 where
  at_test at_call : LoopThread
  in_recvfrom : Option ℕ → LoopThread
  at_sendto : List Sent → LoopThread
  loop_ended : LoopThread

pub data WorkerThread : Type 0 where
  checking asleep worker_ended : WorkerThread

-- Where the caller of `stop` is: before the call, before it closes the descriptor, before it writes -1
-- to `server_socket_`, at the join of the loop, at the join of the worker of that index, or returned.
pub data Caller : Type 0 where
  outside closing resetting joining_loop : Caller
  joining : ℕ → Caller
  returned : Caller

-- `sendto` on the descriptor -1 and on one that is closed fails, and nothing leaves.
abbrev pub through : Option ℕ → Bool → List Sent → List Sent
through none is_open sent = []
through (some fd) true sent = sent
through (some fd) false sent = []

-- One step of one worker.
pub data WorkerMove (running : Bool) : WorkerThread → WorkerThread → Type 0 where
  doze : running ≡ true → WorkerMove running checking asleep
  wake : WorkerMove running asleep checking
  quit : running ≡ false → WorkerMove running checking worker_ended

-- One of them moves.
pub data WorkersMove (running : Bool) : List WorkerThread → List WorkerThread → Type 0 where
  first :
      {w v : WorkerThread} {ws : List WorkerThread}
      → WorkerMove running w v
      → WorkersMove running (w ∷ ws) (v ∷ ws)
  later :
      {w : WorkerThread} {ws vs : List WorkerThread}
      → WorkersMove running ws vs
      → WorkersMove running (w ∷ ws) (w ∷ vs)

module _ (mib : MibManager) (security : SecurityManager) where
  -- `is_open` tells whether the descriptor of the socket has not been handed to `::close`. `taken` is
  -- what `recvfrom` has returned so far, and `wire` what has left through `sendto`.
  pub record System : Type 0 where
    pub running : Bool
    pub server_socket : Option ℕ
    pub is_open : Bool
    pub managers : Managers mib security
    pub loop : LoopThread
    pub workers : List WorkerThread
    pub caller : Caller
    pub taken : List Event
    pub wire : List Sent

  -- Behind `start`, on the descriptor that `initialize` bound.
  abbrev pub started : Managers mib security → ℕ → System
  started m fd = record {
    running = true;
    server_socket = some fd;
    is_open = true;
    managers = m;
    loop = at_test;
    workers = replicate thread_pool_size checking;
    caller = outside;
    taken = [];
    wire = [];
  }

  -- `server_loop`. `receive` may be late or never come, since `recvfrom` blocks. The read of the
  -- descriptor for `sendto` and the call are one step: the call succeeds where the descriptor is open,
  -- and then it is the one that is read. The round behind `recvfrom` touches nothing that the other threads do.
  pub data LoopMove (s : System) : System → Type 0 where
    leave : s.loop ≡ at_test → s.running ≡ false → LoopMove s (record s { loop = loop_ended })
    enter : s.loop ≡ at_test → s.running ≡ true → LoopMove s (record s { loop = at_call })
    call : s.loop ≡ at_call → LoopMove s (record s { loop = in_recvfrom s.server_socket })
    refuse :
        s.loop ≡ in_recvfrom none
        → LoopMove s (record s { loop = at_test; taken = s.taken ++ failed ∷ [] })
    receive :
        {fd : ℕ} {m : Managers mib security} {sent : List Sent} (e : Event)
        → s.loop ≡ in_recvfrom (some fd)
        → server_round mib security s.managers e ≡ some (m, sent)
        → LoopMove s (record s { loop = at_sendto sent; managers = m; taken = s.taken ++ e ∷ [] })
    send :
        {sent : List Sent}
        → s.loop ≡ at_sendto sent
        → LoopMove s
            (record s { loop = at_test; wire = s.wire ++ through s.server_socket s.is_open sent })

  -- `stop`, up to `worker_threads_.clear()`. Only `stop` writes `server_socket_`, so its test of it is
  -- one step with what follows; the threads themselves stay as they ended.
  pub data StopMove (s : System) : System → Type 0 where
    skip : s.caller ≡ outside → s.running ≡ false → StopMove s (record s { caller = returned })
    fall :
        s.caller ≡ outside
        → s.running ≡ true
        → StopMove s (record s { caller = closing; running = false })
    close :
        {fd : ℕ}
        → s.caller ≡ closing
        → s.server_socket ≡ some fd
        → StopMove s (record s { caller = resetting; is_open = false })
    no_socket :
        s.caller ≡ closing
        → s.server_socket ≡ none
        → StopMove s (record s { caller = joining_loop })
    reset :
        s.caller ≡ resetting → StopMove s (record s { caller = joining_loop; server_socket = none })
    join_loop :
        s.caller ≡ joining_loop → s.loop ≡ loop_ended → StopMove s (record s { caller = joining 0 })
    join :
        {k : ℕ}
        → s.caller ≡ joining k
        → get_elem? s.workers k ≡ some worker_ended
        → StopMove s (record s { caller = joining (suc k) })
    clear :
        {k : ℕ}
        → s.caller ≡ joining k
        → length s.workers ≡ k
        → StopMove s (record s { caller = returned })

  pub data Step (s : System) : System → Type 0 where
    by_loop : {t : System} → LoopMove s t → Step s t
    by_worker :
        {ws : List WorkerThread}
        → WorkersMove s.running s.workers ws
        → Step s (record s { workers = ws })
    by_stop : {t : System} → StopMove s t → Step s t

  -- So many steps lead from one state to another.
  pub data Runs : ℕ → System → System → Type 0 where
    stay : {s : System} → Runs 0 s s
    move : {k : ℕ} {s t u : System} → Step s t → Runs k t u → Runs (suc k) s u

  -- The states that the threads of a server come through.
  pub data Reach (m : Managers mib security) (fd : ℕ) : System → Type 0 where
    start : Reach m fd (started m fd)
    after : {s t : System} → Reach m fd s → Step s t → Reach m fd t
