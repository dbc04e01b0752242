-- ===== src/Service/Launch/Outcome.antt =====
-- What becomes of the process that the Windows service starts.
use simple_snmpd.Base.{
  ℕ, suc, ◌≡◌, ◌≢◌, refl, subst, ap, ◌⊎◌, Option-cases, ◌∙◌, Bool, true, Bool-cases, inl, inr,
  Option, none, some, List, [], ◌∷◌, ◌++◌, take, drop, drop-drop, length, Bytes, All, arith,
}
use simple_snmpd.Base.Text.{chars}
use simple_snmpd.Daemon.{default_settings, quits, main}
use simple_snmpd.Daemon.Signals.{Signal, Defaults}
use simple_snmpd.Daemon.Options.{is_known, parse_arguments-unknown}
use simple_snmpd.Server.Lifecycle.{Opening}
use simple_snmpd.Service.Launch.{
  starts_with, find_text, wrapper_suffix, daemon_path, command_line, Process, start_snmp_daemon,
}

starts_with_lem :
    (part text : Bytes) → starts_with part text ≡ true → text ≡ part ++ drop (length part) text
starts_with_lem [] text h = refl
starts_with_lem (c ∷ cs) [] h = cc
starts_with_lem (c ∷ cs) (d ∷ ds) h = ground (arith, starts_with_lem cs ds)

-- `find` returns a place where the part stands.
find_text_lem :
    (part text : Bytes) (i : ℕ)
    → find_text part text ≡ some i
    → text ≡ take i text ++ (part ++ drop (length part) (drop i text))
unfolding find_text
find_text_lem part [] i h = cc
find_text_lem part (d ∷ ds) i h = elim (Bool-cases (starts_with part (d ∷ ds))) [
  | inl e ↦
      let at_front : 0 ≡ i = ground arith in
      subst (λ k. d ∷ ds ≡ take k (d ∷ ds) ++ (part ++ drop (length part) (drop k (d ∷ ds))))
        at_front (starts_with_lem part (d ∷ ds) e)
  | inr e ↦ elim (Option-cases (find_text part ds)) [
    | inl g ↦ absurd (ground arith)
    | inr (j, g) ↦
        let later : suc j ≡ i = ground arith in
        subst (λ k. d ∷ ds ≡ take k (d ∷ ds) ++ (part ++ drop (length part) (drop k (d ∷ ds))))
          later (ap (◌∷◌ d) (find_text_lem part ds j g))
  ]
]

-- The path of the daemon is that of the wrapper with a "-service.exe" in it replaced by ".exe", or
-- the name of the daemon alone where the path of the wrapper has no such part.
daemon_path_lem :
    (path : Bytes)
    → ((find_text wrapper_suffix path ≡ none) × (daemon_path path ≡ chars "simple-snmpd.exe"))
      ⊎ ((front back : Bytes) × (path ≡ front ++ (wrapper_suffix ++ back))
          × (daemon_path path ≡ front ++ (chars ".exe" ++ back)))
unfolding daemon_path
daemon_path_lem path = elim (Option-cases (find_text wrapper_suffix path)) [
  | inl e ↦ inl (e, rw e refl)
  | inr (i, e) ↦ inr (
    take i path,
    drop 12 (drop i path),
    find_text_lem wrapper_suffix path i e,
    rw e (ap (λ back. take i path ++ (chars ".exe" ++ back)) (drop-drop i 12 path)),
  )
]

abbrev pub NotQuote : ℕ → Type 0
NotQuote c = c ≢ b'"'

started_lem :
    (exe_path : Bytes) (exists : Bytes → Bool) (create_process : Process → Bool) (p : Process)
    → start_snmp_daemon exe_path exists create_process ≡ some p
    → p.command ≡ command_line p.path
unfolding start_snmp_daemon
started_lem exe_path exists create_process p h = ground arith

-- Whatever the service starts as its daemon, the daemon does not serve: given the arguments of the
-- command line that the service makes, `main` ends with exit code 1, whatever the files, the system
-- calls and the signals. `argv` is how the system splits a command line; a path in quotes is its first part.
pub started_refuses :
    (argv : Bytes → List Bytes)
    → ((path : Bytes)
        → All NotQuote path
        → argv (command_line path) ≡ path ∷ chars "--service" ∷ [])
    → (exe_path : Bytes) (exists : Bytes → Bool) (create_process : Process → Bool) (p : Process)
    → start_snmp_daemon exe_path exists create_process ≡ some p
    → All NotQuote p.path
    → (ends : Defaults) (rounds : List (List Signal)) (files : Bytes → Option Bytes)
      (opening : Opening)
    → main ends rounds (drop 1 (argv p.command)) files opening ≡ quits 1
unfolding main is_known
started_refuses argv documented exe_path exists create_process p h name ends rounds files opening =
    let args : drop 1 (argv p.command) ≡ chars "--service" ∷ [] =
      ap (λ c. drop 1 (argv c)) (started_lem exe_path exists create_process p h)
      ∙ ap (drop 1) (documented p.path name) in
    rw (args, parse_arguments-unknown [] (chars "--service") [] default_settings refl) refl
