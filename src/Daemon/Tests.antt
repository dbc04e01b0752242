-- ===== src/Daemon/Tests.antt =====
-- Command lines and runs of the program.
use simple_snmpd.Base.{
  not, leb, ◌==◌, ◌||◌, ◌&&◌, ◌≡◌, Bool, true, false, Option, some, List, [], ◌∷◌, Bytes,
}
use simple_snmpd.Base.Text.{chars}
use simple_snmpd.Config.{new_config}
use simple_snmpd.Server.Lifecycle.{SnmpServer, new_server, bound}
use simple_snmpd.Daemon.{main}
use simple_snmpd.Daemon.Options.{Flag, config, daemon, verbose, spell_all}
use simple_snmpd.Daemon.Signals.{sigint, sigterm, sighup, other, Defaults, deliver_all}
use simple_snmpd.Daemon.Signals.Fate.{serving, stopped, deliver_all_lem}
use simple_snmpd.Daemon.Exits.{Ended, main-Ended}

abbrev bound_server : SnmpServer
bound_server = record (new_server new_config) { server_socket = some 3 }

-- As on Linux: SIGCONT, SIGCHLD, SIGURG and SIGWINCH are
-- ignored, and SIGSTOP, SIGTSTP, SIGTTIN and SIGTTOU suspend.
abbrev ends : Defaults
ends n = not (n == 28 || (n == 23 || ((leb 17 n) && (leb n 22))))

abbrev flags : List (Bool × Flag)
flags = (true, config (chars "my.conf")) ∷ (false, daemon) ∷ (true, verbose) ∷ []

abbrev files : Bytes → Option Bytes
files path = some (chars "port=1161")

main-Ended_example :
    Ended ends
      ((other 10 ∷ []) ∷ [])
      (bound 3)
      (main ends ((other 10 ∷ []) ∷ []) (spell_all flags) files (bound 3))
main-Ended_example = main-Ended ends ((other 10 ∷ []) ∷ []) (spell_all flags) files (bound 3)

-- A reload, a change of the window, and two requests to stop.
deliver_all_lem_example :
    deliver_all ends (sighup ∷ other 28 ∷ sigint ∷ sigterm ∷ []) (serving bound_server 3)
    ≡ some (stopped bound_server, 3 ∷ [])
deliver_all_lem_example =
    deliver_all_lem ends bound_server 3 (sighup ∷ other 28 ∷ sigint ∷ sigterm ∷ [])
