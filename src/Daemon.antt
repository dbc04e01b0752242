-- ===== src/Daemon.antt =====
-- `main`: the command line, and the run of the server. What is printed is not modelled.
pub mod Options
pub mod Exits
pub mod Signals
mod Tests
use simple_snmpd.Base.{
  ℕ, Bool, true, false, ◌||◌, Option, none, some, List, [], ◌∷◌, ◌++◌, Bytes, if◌then◌else◌,
}
use simple_snmpd.Base.Text.{chars, same}
use simple_snmpd.Config.{SnmpConfig, new_config, load}
use simple_snmpd.Server.Lifecycle.{
  SnmpServer, new_server, Opening, socket_failed, option_failed, bind_failed, bound, Result,
  initialize, start, stop,
}
use simple_snmpd.Daemon.Signals.{
  Signal, Defaults, Globals, stop_server, Waited, left, still, killed, wait_loop,
}

pub record Settings : Type 0 where
  pub config_file : Bytes
  pub daemon_mode : Bool
  pub test_config : Bool
  pub verbose : Bool

abbrev pub default_settings : Settings
default_settings = record {
  config_file = chars "/etc/simple-snmpd/simple-snmpd.conf";
  daemon_mode = false;
  test_config = false;
  verbose = false;
}

-- What the loop does on an argument: it takes the next one as a path, changes a setting, or returns
-- from `main` with an exit code.
pub data Action : Type 0 where
  take_path : Action
  change : (Settings → Settings) → Action
  leave : ℕ → Action

abbrev pub is_option : Bytes → Bytes → Bytes → Bool
is_option short long arg = same arg short || same arg long

unfoldable pub classify : Bytes → Action
classify arg =
    if is_option (chars "-c") (chars "--config") arg
    then take_path
    else if is_option (chars "-d") (chars "--daemon") arg
    then change (λ s. record s { daemon_mode = true })
    else if is_option (chars "-f") (chars "--foreground") arg
    then change (λ s. record s { daemon_mode = false })
    else if is_option (chars "-t") (chars "--test-config") arg
    then change (λ s. record s { test_config = true })
    else if is_option (chars "-v") (chars "--verbose") arg
    then change (λ s. record s { verbose = true })
    else if is_option (chars "-h") (chars "--help") arg
    then leave 0
    else if is_option (chars "-V") (chars "--version") arg
    then leave 0
    else leave 1

-- The settings, or the exit code.
pub data Arguments : Type 0 where
  proceed : Settings → Arguments
  exits : ℕ → Arguments

-- The loop over the arguments; `true` where a path is due.
unfoldable pub parse_arguments : Bool → List Bytes → Settings → Arguments
parse_arguments true [] s = exits 1
parse_arguments true (path ∷ args) s = parse_arguments false args (record s { config_file = path })
parse_arguments false [] s = proceed s
parse_arguments false (arg ∷ args) s = elim (classify arg) [
  | take_path ↦ parse_arguments true args s
  | change f ↦ parse_arguments false args (f s)
  | leave code ↦ exits code
]

-- How `main` returns: its exit code, the settings that the server ran with, if it ran, the descriptors
-- that `initialize` got from `socket`, and those that were handed to `close`, by the destructor of the
-- server too.
pub record ExitStatus : Type 0 where
  pub code : ℕ
  pub served : Option SnmpConfig
  pub opened : List ℕ
  pub closed : List ℕ

-- How far the program has come: `main` has returned; it waits in its loop, having closed so much; a
-- signal has ended the program; or a thread that is started over has.
pub data Run : Type 0 where
  ended : ExitStatus → Run
  waiting : Globals → List ℕ → Run
  taken_down aborted : Run

abbrev pub quits : ℕ → Run
quits code = ended (record { code = code; served = none; opened = []; closed = [] })

-- The descriptor that `socket` gave.
abbrev pub opened_by : Opening → List ℕ
opened_by socket_failed = []
opened_by (option_failed fd) = fd ∷ []
opened_by (bind_failed fd) = fd ∷ []
opened_by (bound fd) = fd ∷ []

-- Behind the loop: `main` stops the server, and then the destructor does.
abbrev finish : SnmpConfig → Opening → Waited → Run
finish config opening (still g closed) = waiting g closed
finish config opening killed = taken_down
finish config opening (left g closed) =
    let (server, stopped) = stop_server g.server in
    let (gone, destroyed) = stop_server server in
    ended (record {
      code = 0;
      served = some config;
      opened = opened_by opening;
      closed = closed ++ stopped ++ destroyed;
    })

-- `initialize` or `start` has failed.
abbrev refused : Opening → SnmpServer → List ℕ → Run
refused opening server closed = ended (record {
  code = 1;
  served = none;
  opened = opened_by opening;
  closed = closed ++ (stop server).closed;
})

abbrev behind_start :
    Defaults → List (List Signal) → SnmpConfig → Opening → List ℕ → Option Result → Run
behind_start ends rounds config opening closed none = aborted
behind_start ends rounds config opening closed (some started) =
    if started.done
    then finish config opening (
        wait_loop ends rounds (record { running = true; server = some started.server })
          (closed ++ started.closed))
    else refused opening started.server (closed ++ started.closed)

abbrev run_server : Defaults → List (List Signal) → SnmpConfig → Opening → Run
run_server ends rounds config opening =
    let opened = initialize (new_server config) opening in
    if opened.done
    then behind_start ends rounds config opening opened.closed (start opened.server)
    else refused opening opened.server opened.closed

unfoldable pub loaded : Defaults → List (List Signal) → Settings → Bool × SnmpConfig → Opening → Run
loaded ends rounds s (false, config) opening = quits 1
loaded ends rounds s (true, config) opening =
    if s.test_config then quits 0 else run_server ends rounds config opening

abbrev pub with_arguments :
    Defaults → List (List Signal) → Arguments → (Bytes → Option Bytes) → Opening → Run
with_arguments ends rounds (exits code) files opening = quits code
with_arguments ends rounds (proceed s) files opening =
    loaded ends rounds s (load (files s.config_file) new_config) opening

-- The files of the system are a function, `none` where there is none to open; `opening` is how far the
-- system calls of `initialize` get, and `rounds` are the signals that come during the sleeps of the
-- loop, as far as they are known.
unfoldable pub main :
    Defaults → List (List Signal) → List Bytes → (Bytes → Option Bytes) → Opening → Run
main ends rounds args files opening =
    with_arguments ends rounds (parse_arguments false args default_settings) files opening
