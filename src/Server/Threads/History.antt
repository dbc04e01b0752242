-- ===== src/Server/Threads/History.antt =====
-- The threads of the server against `server_loop` on its own: what leaves through `sendto`, in
-- whatever order they move.
use simple_snmpd.Base.{ℕ, ◌≡◌, ◌⊎◌, Bool, true, false, some, List, [], ◌++◌}
use simple_snmpd.Mib.{MibManager}
use simple_snmpd.Security.{SecurityManager}
use simple_snmpd.Server.Process.{Sent, Managers, server_loop}
use simple_snmpd.Server.Threads.{LoopThread, at_test, at_call, in_recvfrom, at_sendto, loop_ended}
use simple_snmpd.Server.Threads.Shutdown.{Threads}

module _ (mib : MibManager) (security : SecurityManager) where
  abbrev Answer : Type 0
  Answer = Managers mib security × List Sent

  -- What the rounds have answered and has not left, by where the loop is: what the loop holds at
  -- `sendto`, and elsewhere nothing unless the descriptor is closed.
  abbrev pub Rest : LoopThread → Bool → List Sent → Type 0
  Rest at_test is_open rest = (rest ≡ []) ⊎ (is_open ≡ false)
  Rest at_call is_open rest = rest ≡ []
  Rest (in_recvfrom fd) is_open rest = rest ≡ []
  Rest (at_sendto sent) is_open rest = rest ≡ sent
  Rest loop_ended is_open rest = (rest ≡ []) ⊎ (is_open ≡ false)

  -- The threads have done what `server_loop` does on what `recvfrom` returned.
  abbrev pub Follows : Managers mib security → Threads mib security → Type 0
  Follows m s =
      (rest : List Sent) × (server_loop mib security m s.taken ≡ some (s.managers, s.wire ++ rest))
      × Rest s.loop s.is_open rest

  -- While the descriptor is open it is that of the server, and it is closed only when `running_` is
  -- false.
  abbrev Holds : ℕ → Threads mib security → Type 0
  Holds fd s =
      ((s.is_open ≡ true) × (s.server_socket ≡ some fd))
      ⊎ ((s.is_open ≡ false) × (s.running ≡ false))
