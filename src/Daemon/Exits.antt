-- ===== src/Daemon/Exits.antt =====
-- How a run of the program ends.
use simple_snmpd.Base.{
  ℕ, ◌≤◌, ◌≡◌, ◌⊎◌, refl, inl, inr, Bool, true, false, Bool-cases, Option, none, some, List, [],
  ◌∷◌, Bytes, if◌then◌else◌, ap, subst, sym, arith,
}
use simple_snmpd.Base.Text.{chars}
use simple_snmpd.Config.{SnmpConfig, new_config, load}
use simple_snmpd.Server.Lifecycle.{
  SnmpServer, new_server, Opening, socket_failed, option_failed, bind_failed, bound,
  thread_pool_size, initialize, start, stop,
}
use simple_snmpd.Daemon.{
  Settings, default_settings, is_option, Arguments, proceed, exits, parse_arguments, Action,
  take_path, change, leave, classify, with_arguments, Run, ended, waiting, taken_down, aborted,
  opened_by, finish, run_server, loaded, main,
}
use simple_snmpd.Daemon.Signals.{Signal, Defaults}
use simple_snmpd.Daemon.Signals.Fate.{Fate, goes_on, stops, dies, fate, come_to, wait_loop_lem}

module _ (ends : Defaults) (rounds : List (List Signal)) where
  -- By how far the program has come. A return before the loop has closed what `initialize` opened, and
  -- one behind it too, once; there it takes a sleep in which a SIGINT or a SIGTERM came.
  abbrev pub Ended : Opening → Run → Type 0
  Ended opening (ended e) =
      ((e.code ≤ 1)
        × (e.served ≡ none)
        × (e.closed ≡ e.opened)
        × ((e.opened ≡ []) ⊎ (e.opened ≡ opened_by opening)))
      ⊎ ((e.code ≡ 0)
          × ((config : SnmpConfig) × (e.served ≡ some config))
          × (e.closed ≡ e.opened)
          × (e.opened ≡ opened_by opening)
          × (fate ends rounds ≡ stops))
  Ended opening (waiting g closed) =
      (closed ≡ [])
      × (g.running ≡ true)
      × ((fd : ℕ) × (opening ≡ bound fd))
      × (fate ends rounds ≡ goes_on)
  Ended opening taken_down = ((fd : ℕ) × (opening ≡ bound fd)) × (fate ends rounds ≡ dies)
  Ended opening aborted = ⊥

  come_to-Ended :
      (config : SnmpConfig) (s : SnmpServer) (fd : ℕ) (f : Fate)
      → fate ends rounds ≡ f
      → Ended (bound fd) (finish config (bound fd) (come_to s fd f))
  unfolding stop
  come_to-Ended config s fd goes_on e = (refl, refl, (fd, refl), e)
  come_to-Ended config s fd stops e = inr (refl, (config, refl), refl, refl, e)
  come_to-Ended config s fd dies e = ((fd, refl), e)

  -- The server behind `start`.
  abbrev up : SnmpConfig → SnmpServer
  up config = record (new_server config) { server_thread = true; worker_threads = thread_pool_size }

  run_server-bound :
      (config : SnmpConfig) (fd : ℕ)
      → run_server ends rounds config (bound fd)
        ≡ finish config (bound fd) (come_to (up config) fd (fate ends rounds))
  unfolding initialize start
  run_server-bound config fd =
      ap (finish config (bound fd)) (wait_loop_lem ends rounds (up config) fd)

  run_server-Ended :
      (config : SnmpConfig) (opening : Opening)
      → Ended opening (run_server ends rounds config opening)
  unfolding initialize stop
  run_server-Ended config socket_failed = inl (omega arith, refl, refl, inr refl)
  run_server-Ended config (option_failed fd) = inl (omega arith, refl, refl, inr refl)
  run_server-Ended config (bind_failed fd) = inl (omega arith, refl, refl, inr refl)
  run_server-Ended config (bound fd) =
      subst (Ended (bound fd)) (sym (run_server-bound config fd))
        (come_to-Ended config (up config) fd (fate ends rounds) refl)

  loaded-Ended :
      (s : Settings) (r : Bool × SnmpConfig) (opening : Opening)
      → Ended opening (loaded ends rounds s r opening)
  unfolding loaded
  loaded-Ended s (false, config) opening = inl (omega arith, refl, refl, inl refl)
  loaded-Ended s (true, config) opening = elim (Bool-cases s.test_config) [
    | inl t ↦ rw t (inl (omega arith, refl, refl, inl refl))
    | inr t ↦ rw t (run_server-Ended config opening)
  ]

-- The exit codes of the command line.
data ActionExits : Action → Type 0 where
  continues_path : ActionExits take_path
  continues : {f : Settings → Settings} → ActionExits (change f)
  leaves : {code : ℕ} → code ≤ 1 → ActionExits (leave code)

abbrev ArgumentsExit : Arguments → Type 0
ArgumentsExit (proceed s) = Unit
ArgumentsExit (exits code) = code ≤ 1

branch :
    (b : Bool) {x y : Action} → ActionExits x → ActionExits y → ActionExits (if b then x else y)
branch true p q = p
branch false p q = q

classify-ActionExits : (arg : Bytes) → ActionExits (classify arg)
unfolding classify
classify-ActionExits arg = branch (is_option (chars "-c") (chars "--config") arg) continues_path (
    branch (is_option (chars "-d") (chars "--daemon") arg) continues (
      branch (is_option (chars "-f") (chars "--foreground") arg) continues (
        branch (is_option (chars "-t") (chars "--test-config") arg) continues (
          branch (is_option (chars "-v") (chars "--verbose") arg) continues (
            branch (is_option (chars "-h") (chars "--help") arg) (leaves (omega arith)) (
              branch (is_option (chars "-V") (chars "--version") arg) (leaves (omega arith))
                (leaves (omega arith))))))))

after_action :
    {a : Action} (args : List Bytes) (s : Settings)
    → ActionExits a
    → ((due : Bool) (t : Settings) → ArgumentsExit (parse_arguments due args t))
    → ArgumentsExit (elim a [
      | take_path ↦ parse_arguments true args s
      | change f ↦ parse_arguments false args (f s)
      | leave code ↦ exits code
    ])
after_action args s continues_path rest = rest true s
after_action args s (continues {f = f}) rest = rest false (f s)
after_action args s (leaves h) rest = h

parse_arguments-ArgumentsExit :
    (args : List Bytes) (due : Bool) (s : Settings) → ArgumentsExit (parse_arguments due args s)
unfolding parse_arguments
parse_arguments-ArgumentsExit [] true s = omega arith
parse_arguments-ArgumentsExit [] false s = tt
parse_arguments-ArgumentsExit (path ∷ args) true s = parse_arguments-ArgumentsExit args false _
parse_arguments-ArgumentsExit (arg ∷ args) false s =
    after_action args s (classify-ActionExits arg) (parse_arguments-ArgumentsExit args)

module _ (ends : Defaults) (rounds : List (List Signal)) where
  with_arguments-Ended :
      (args : Arguments) (files : Bytes → Option Bytes) (opening : Opening)
      → ArgumentsExit args
      → Ended ends rounds opening (with_arguments ends rounds args files opening)
  with_arguments-Ended (exits code) files opening h = inl (h, refl, refl, inl refl)
  with_arguments-Ended (proceed s) files opening h =
      loaded-Ended ends rounds s (load (files s.config_file) new_config) opening

  -- Whatever the command line, the files, the system calls of `initialize`, and the signals that come
  -- during the sleeps of the loop, where the handler runs on the thread of `main` and the joins return:
  -- no thread is started over; and either `main` has returned before the loop with exit code 0 or 1, or
  -- it has returned behind the loop with 0, for a SIGINT or a SIGTERM, and in both cases has closed
  -- exactly what was opened, once; or it waits in the loop with nothing closed, as no signal that ends
  -- the waiting or the program came; or the default action of a signal has ended the program.
  pub main-Ended :
      (args : List Bytes) (files : Bytes → Option Bytes) (opening : Opening)
      → Ended ends rounds opening (main ends rounds args files opening)
  unfolding main
  main-Ended args files opening =
      with_arguments-Ended (parse_arguments false args default_settings) files opening
        (parse_arguments-ArgumentsExit args false default_settings)
