-- ===== src/Service/Launch/Tests.antt =====
-- The service in its usual place, and a splitting of command lines.
use simple_snmpd.Base.{
  ◌≡◌, refl, ap, true, false, none, some, List, [], ◌∷◌, ◌++◌, drop, Bytes, All, ◌==◌,
  if◌then◌else◌, arith,
}
use simple_snmpd.Base.Text.{chars}
use simple_snmpd.Daemon.{quits, main}
use simple_snmpd.Server.Lifecycle.{socket_failed}
use simple_snmpd.Service.Launch.{
  find_text, daemon_path, command_line, Process, start_snmp_daemon, wmain,
}
use simple_snmpd.Service.Launch.Outcome.{NotQuote, started_refuses}

abbrev wrapper : Bytes
wrapper = chars "C:\\snmp\\simple-snmpd-service.exe"

abbrev daemon : Process
daemon = record {
  path = chars "C:\\snmp\\simple-snmpd.exe";
  command = chars "\"C:\\snmp\\simple-snmpd.exe\" --service";
}

wrapper_starts : start_snmp_daemon wrapper (λ _. true) (λ _. true) ≡ some daemon
unfolding start_snmp_daemon daemon_path find_text command_line
wrapper_starts = refl

-- The console mode ends with exit code 0 also where the daemon is not found.
console_not_found :
    wmain (chars "--console" ∷ []) wrapper (λ _. false) (λ _. true) true
    ≡ record { code = 0; console = none }
unfolding wmain start_snmp_daemon
console_not_found = refl

-- A path in quotes, and the rest behind a blank as one argument.
until_quote : Bytes → Bytes × Bytes
until_quote [] = ([], [])
until_quote (c ∷ cs) =
    let (front, back) = until_quote cs in if c == b'"' then ([], cs) else (c ∷ front, back)

until_quote_lem :
    (path rest : Bytes) → All NotQuote path → until_quote (path ++ b'"' ∷ rest) ≡ (path, rest)
unfolding until_quote
until_quote_lem [] rest h = refl
until_quote_lem (c ∷ cs) rest (h, hs) = ground (arith, until_quote_lem cs rest hs)

abbrev argv : Bytes → List Bytes
argv [] = []
argv (c ∷ cs) = let (path, rest) = until_quote cs in path ∷ drop 1 rest ∷ []

argv_lem :
    (path : Bytes) → All NotQuote path → argv (command_line path) ≡ path ∷ chars "--service" ∷ []
unfolding command_line
argv_lem path h =
    ap (λ (r : Bytes × Bytes). r.0 ∷ drop 1 r.1 ∷ []) (until_quote_lem path (chars " --service") h)

started_refuses_example :
    main (λ _. true) [] (drop 1 (argv daemon.command)) (λ _. none) socket_failed ≡ quits 1
started_refuses_example =
    started_refuses argv argv_lem wrapper (λ _. true) (λ _. true) daemon wrapper_starts
      (ground arith) (λ _. true) [] (λ _. none) socket_failed
