-- ===== src/Service/Launch.antt =====
-- How the Windows service starts the daemon, and its entry point: `StartSNMPDaemon` and `wmain`. Texts
-- are lists of code units.
pub mod Outcome
mod Tests
use simple_snmpd.Base.{
  ℕ, suc, ◌+◌, Bool, true, false, Option, none, some, List, [], ◌∷◌, ◌++◌, take, drop, Bytes, ◌==◌,
  ◌&&◌, if◌then◌else◌,
}
use simple_snmpd.Base.Text.{chars, same}

abbrev pub starts_with : Bytes → Bytes → Bool
starts_with [] text = true
starts_with (c ∷ cs) [] = false
starts_with (c ∷ cs) (d ∷ ds) = c == d && starts_with cs ds

-- `text.find(part)`, with `none` for `npos`; `part` is not empty.
unfoldable pub find_text : Bytes → Bytes → Option ℕ
find_text part [] = none
find_text part (d ∷ ds) =
    let rest = find_text part ds in
    if starts_with part (d ∷ ds) then some 0 else elim rest [ none ↦ none | some i ↦ some (suc i) ]

abbrev pub wrapper_suffix : Bytes
wrapper_suffix = chars "-service.exe"

-- `daemonPath`, from the path of the wrapper.
abbrev pub daemon_path_at : Bytes → Option ℕ → Bytes
daemon_path_at path none = chars "simple-snmpd.exe"
daemon_path_at path (some i) = take i path ++ (chars ".exe" ++ drop (i + 12) path)

unfoldable pub daemon_path : Bytes → Bytes
daemon_path path = daemon_path_at path (find_text wrapper_suffix path)

-- `L"\"" + daemonPath + L"\" --service"`
unfoldable pub command_line : Bytes → Bytes
command_line path = b'"' ∷ (path ++ chars "\" --service")

-- What `CreateProcess` is given.
pub record Process : Type 0 where
  pub path : Bytes
  pub command : Bytes

-- `StartSNMPDaemon`, on the path of the wrapper, the files that exist, and whether `CreateProcess`
-- succeeds: the process that it starts.
unfoldable pub start_snmp_daemon : Bytes → (Bytes → Bool) → (Process → Bool) → Option Process
start_snmp_daemon exe_path exists create_process =
    let path = daemon_path exe_path in
    let process : Process = record { path = path; command = command_line path } in
    if exists path then (if create_process process then some process else none) else none

-- The exit code of `wmain`, with the process of the console mode.
pub record Exit : Type 0 where
  pub code : ℕ
  pub console : Option Process

abbrev pub is_console : List Bytes → Bool
is_console [] = false
is_console (arg ∷ args) = same arg (chars "--console")

-- `wmain` on the arguments behind the name of the program, and what `start_snmp_daemon` takes.
-- `dispatched` is what `StartServiceCtrlDispatcher` returns.
unfoldable pub wmain : List Bytes → Bytes → (Bytes → Bool) → (Process → Bool) → Bool → Exit
wmain args exe_path exists create_process dispatched =
    if is_console args
    then record { code = 0; console = start_snmp_daemon exe_path exists create_process }
    else record { code = if dispatched then 0 else 1; console = none }
