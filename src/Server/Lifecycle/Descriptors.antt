-- ===== src/Server/Lifecycle/Descriptors.antt =====
-- Any sequence of `start` and `stop` on a server.
use simple_snmpd.Base.{ℕ, ◌≡◌, refl, true, false, Option, none, some, List, [], ◌∷◌, ◌++◌}
use simple_snmpd.Config.{SnmpConfig}
use simple_snmpd.Server.Lifecycle.{
  SnmpServer, bind_failed, Result, initialize, new_server, start, stop, as_list, close_all,
}

pub data Call : Type 0 where
  starting stopping : Call

unfoldable pub call : SnmpServer → Call → Option Result
call s starting = start s
call s stopping = some (stop s)

abbrev behind : List ℕ → Option Result → Option Result
behind fds none = none
behind fds (some r) = some (record r { closed = fds ++ r.closed })

-- The calls in order; what they close, in order.
unfoldable pub calls : SnmpServer → List Call → Option Result
calls s [] = some (record { done = true; server = s; closed = [] })
calls s (x ∷ xs) = elim (call s x) [ none ↦ none | some r ↦ behind r.closed (calls r.server xs) ]

-- The descriptors that a server holds.
abbrev pub held : SnmpServer → List ℕ
held s = as_list s.server_socket ++ close_all s.connections

-- The threads are there while the server runs.
pub record IsSound (s : SnmpServer) : Type 0 where
  pub joined : s.server_thread ≡ s.running
  pub workers : s.running ≡ false → s.worker_threads ≡ 0

-- The call returns a sound server, and nothing that is held is lost or closed twice.
pub record Keeps (s : SnmpServer) (o : Option Result) : Type 0 where
  pub result : Result
  pub returned : o ≡ some result
  pub sound : IsSound result.server
  pub accounted : held s ≡ result.closed ++ held result.server

-- On a new server, an `initialize` that fails at `bind` returns false and closes its descriptor, but
-- keeps the number: a `start` with a `stop` behind it closes the same descriptor again.
initialize-stop :
    (config : SnmpConfig) (fd : ℕ)
    → let first = initialize (new_server config) (bind_failed fd) in
      (first.done ≡ false)
      × (first.closed ≡ fd ∷ [])
      × ((r : Result) × (calls first.server (starting ∷ stopping ∷ []) ≡ some r)
          × (r.closed ≡ fd ∷ []))
unfolding initialize calls call start stop close_all
initialize-stop config fd = (refl, refl, (_, refl, refl))
