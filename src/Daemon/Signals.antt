-- ===== src/Daemon/Signals.antt =====
-- The handlers of signals in src/main.cpp, `signal_handler` and `setup_signal_handlers`, and the loop
-- of `main` that waits for them.
pub mod Fate
use simple_snmpd.Base.{ℕ, Bool, true, false, if◌then◌else◌, Option, none, some, List, [], ◌∷◌, ◌++◌}
use simple_snmpd.Server.Lifecycle.{SnmpServer, stop}

-- The signals that are set up, and any other one by its number.
pub data Signal : Type 0 where
  sigint sigterm sighup sigpipe : Signal
  other : ℕ → Signal

-- The global variables.
pub record Globals : Type 0 where
  pub running : Bool
  pub server : Option SnmpServer

-- `if (g_server) g_server->stop();`, with the descriptors that it closes.
abbrev pub stop_server : Option SnmpServer → Option SnmpServer × List ℕ
stop_server none = (none, [])
stop_server (some s) = let r = stop s in (some r.server, r.closed)

abbrev pub shut_down : Globals → Globals × List ℕ
shut_down g =
    let (server, closed) = stop_server g.server in
    (record { running = false; server = server }, closed)

-- The reload of the configuration is not implemented.
unfoldable pub signal_handler : Signal → Globals → Globals × List ℕ
signal_handler sigint g = shut_down g
signal_handler sigterm g = shut_down g
signal_handler sighup g = (g, [])
signal_handler sigpipe g = (g, [])
signal_handler (other n) g = (g, [])

pub data Disposition : Type 0 where
  handled ignored : Disposition
  by_default : ℕ → Disposition

-- `setup_signal_handlers`
unfoldable pub disposition : Signal → Disposition
disposition sigint = handled
disposition sigterm = handled
disposition sighup = handled
disposition sigpipe = ignored
disposition (other n) = by_default n

-- The default action of the system ends the program, or else leaves it as it is, where the signal is
-- ignored or the program only suspended for a while: a parameter. None of the signals that are set up
-- is left to it.
abbrev pub Defaults : Type 0
Defaults = ℕ → Bool

-- What a signal does; `none` where the default action ends the program.
abbrev act : Defaults → Disposition → Signal → Globals → Option (Globals × List ℕ)
act ends handled signal g = some (signal_handler signal g)
act ends ignored signal g = some (g, [])
act ends (by_default n) signal g = if ends n then none else some (g, [])

-- The handler is taken to run on the thread of `main`, and the joins in it to return.
unfoldable pub deliver : Defaults → Signal → Globals → Option (Globals × List ℕ)
deliver ends signal g = act ends (disposition signal) signal g

-- Signals one behind the other.
unfoldable pub deliver_all : Defaults → List Signal → Globals → Option (Globals × List ℕ)
deliver_all ends [] g = some (g, [])
deliver_all ends (signal ∷ signals) g = elim (deliver ends signal g) [
  | none ↦ none
  | some (g1, closed) ↦ elim (deliver_all ends signals g1) [
    | none ↦ none
    | some (g2, more) ↦ some (g2, closed ++ more)
  ]
]

-- Where the loop of `main` has come to: behind it, still in it, or ended by a signal with the program.
pub data Waited : Type 0 where
  left still : Globals → List ℕ → Waited
  killed : Waited

-- `while (g_running)`, on the signals that come during each sleep, as far as they are known.
unfoldable pub wait_loop : Defaults → List (List Signal) → Globals → List ℕ → Waited
wait_loop ends [] g closed = if g.running then still g closed else left g closed
wait_loop ends (signals ∷ rounds) g closed =
    if g.running
    then elim (deliver_all ends signals g) [
      | none ↦ killed
      | some (g1, more) ↦ wait_loop ends rounds g1 (closed ++ more)
    ]
    else left g closed
