-- ===== src/Daemon/Signals/Fate.antt =====
-- What becomes of a server that runs, by the signals that arrive.
use simple_snmpd.Base.{
  ℕ, ◌≡◌, refl, ◌∙◌, ap, Bool, true, false, Bool-cases, inl, inr, ◌||◌, Option, none, some, List,
  [], ◌∷◌, if◌then◌else◌,
}
use simple_snmpd.Server.Lifecycle.{SnmpServer, stop, close_all}
use simple_snmpd.Daemon.Signals.{
  Signal, sigint, sigterm, sighup, sigpipe, other, Defaults, Globals, signal_handler, disposition,
  deliver, deliver_all, Waited, left, still, killed, wait_loop,
}

abbrev pub is_stop : Signal → Bool
is_stop sigint = true
is_stop sigterm = true
is_stop sighup = false
is_stop sigpipe = false
is_stop (other n) = false

abbrev pub any_stop : List Signal → Bool
any_stop [] = false
any_stop (signal ∷ signals) = is_stop signal || any_stop signals

-- Not set up, and by default the end of the program.
abbrev pub is_fatal : Defaults → Signal → Bool
is_fatal ends sigint = false
is_fatal ends sigterm = false
is_fatal ends sighup = false
is_fatal ends sigpipe = false
is_fatal ends (other n) = ends n

abbrev pub any_fatal : Defaults → List Signal → Bool
any_fatal ends [] = false
any_fatal ends (signal ∷ signals) = is_fatal ends signal || any_fatal ends signals

-- A server that runs on a descriptor, without connections, and what `stop` makes of it.
abbrev pub serving : SnmpServer → ℕ → Globals
serving s fd = record {
  running = true;
  server = some (record s { server_socket = some fd; running = true; connections = [] });
}

abbrev pub stopped : SnmpServer → Globals
stopped s = record {
  running = false;
  server = some (record s {
    server_socket = none;
    running = false;
    server_thread = false;
    worker_threads = 0;
    connections = [];
  });
}

-- What the program has come to, and the descriptors that it closed, with or without such a signal.
abbrev pub outcome : SnmpServer → ℕ → Bool → Globals × List ℕ
outcome s fd true = (stopped s, fd ∷ [])
outcome s fd false = (serving s fd, [])

abbrev pub unless : Bool → Globals × List ℕ → Option (Globals × List ℕ)
unless true r = none
unless false r = some r

module _ (ends : Defaults) (s : SnmpServer) where
  deliver-stopped :
      (signal : Signal)
      → deliver ends signal (stopped s) ≡ unless (is_fatal ends signal) (stopped s, [])
  unfolding deliver disposition signal_handler stop
  deliver-stopped sigint = refl
  deliver-stopped sigterm = refl
  deliver-stopped sighup = refl
  deliver-stopped sigpipe = refl
  deliver-stopped (other n) = elim (Bool-cases (ends n)) [ inl e ↦ rw e refl | inr e ↦ rw e refl ]

  deliver-serving :
      (fd : ℕ) (signal : Signal)
      → deliver ends signal (serving s fd)
        ≡ unless (is_fatal ends signal) (outcome s fd (is_stop signal))
  unfolding deliver disposition signal_handler stop close_all
  deliver-serving fd sigint = refl
  deliver-serving fd sigterm = refl
  deliver-serving fd sighup = refl
  deliver-serving fd sigpipe = refl
  deliver-serving fd (other n) = elim (Bool-cases (ends n)) [
    | inl e ↦ rw e refl
    | inr e ↦ rw e refl
  ]

  deliver_all-stopped :
      (signals : List Signal)
      → deliver_all ends signals (stopped s) ≡ unless (any_fatal ends signals) (stopped s, [])
  unfolding deliver_all
  deliver_all-stopped [] = refl
  deliver_all-stopped (signal ∷ signals) = elim (Bool-cases (is_fatal ends signal)) [
    | inl e ↦ rw (deliver-stopped signal, e, deliver_all) refl
    | inr e ↦ elim (Bool-cases (any_fatal ends signals)) [
      | inl g ↦ rw (deliver-stopped signal, e, deliver_all-stopped signals, g, deliver_all) refl
      | inr g ↦ rw (deliver-stopped signal, e, deliver_all-stopped signals, g, deliver_all) refl
    ]
  ]

  -- Whatever signals arrive at a server that runs, in whatever number and order, where `signal_handler`
  -- runs on the thread of `main` and its joins return: if there is one among them that the program does
  -- not set up and whose default action ends it, the program is taken down; if not, and there is a
  -- SIGINT or a SIGTERM, the waiting ends and the server is stopped, with its descriptor closed exactly
  -- once; and if there is none of these, nothing changes.
  pub deliver_all_lem :
      (fd : ℕ) (signals : List Signal)
      → deliver_all ends signals (serving s fd)
        ≡ unless (any_fatal ends signals) (outcome s fd (any_stop signals))
  unfolding deliver_all
  deliver_all_lem fd [] = refl
  deliver_all_lem fd (signal ∷ signals) =
      let first = deliver-serving fd signal in
      let dead = deliver_all-stopped signals in
      let rest = deliver_all_lem fd signals in
      elim (Bool-cases (is_fatal ends signal)) [
        | inl e ↦ rw (first, e, deliver_all) refl
        | inr e ↦ elim (Bool-cases (is_stop signal)) [
          | inl k ↦
              let here = first ∙ ap (λ b. unless (is_fatal ends signal) (outcome s fd b)) k in
              elim (Bool-cases (any_fatal ends signals)) [
                | inl g ↦ rw (here, e, k, dead, g, deliver_all) refl
                | inr g ↦ rw (here, e, k, dead, g, deliver_all) refl
              ]
          | inr k ↦
              let here = first ∙ ap (λ b. unless (is_fatal ends signal) (outcome s fd b)) k in
              elim (Bool-cases (any_fatal ends signals)) [
                | inl g ↦ rw (here, e, k, rest, g, deliver_all) refl
                | inr g ↦ elim (Bool-cases (any_stop signals)) [
                  | inl h ↦ rw (here, e, k, rest, g, h, deliver_all) refl
                  | inr h ↦ rw (here, e, k, rest, g, h, deliver_all) refl
                ]
              ]
        ]
      ]

-- What the signals of the sleeps come to: the first sleep with one that counts decides.
pub data Fate : Type 0 where
  goes_on stops dies : Fate

unfoldable pub fate : Defaults → List (List Signal) → Fate
fate ends [] = goes_on
fate ends (signals ∷ rounds) =
    if any_fatal ends signals then dies else if any_stop signals then stops else fate ends rounds

abbrev pub come_to : SnmpServer → ℕ → Fate → Waited
come_to s fd goes_on = still (serving s fd) []
come_to s fd stops = left (stopped s) (fd ∷ [])
come_to s fd dies = killed

stopped_leaves :
    (ends : Defaults) (rounds : List (List Signal)) (s : SnmpServer) (closed : List ℕ)
    → wait_loop ends rounds (stopped s) closed ≡ left (stopped s) closed
unfolding wait_loop
stopped_leaves ends [] s closed = refl
stopped_leaves ends (signals ∷ rounds) s closed = refl

pub wait_loop_lem :
    (ends : Defaults) (rounds : List (List Signal)) (s : SnmpServer) (fd : ℕ)
    → wait_loop ends rounds (serving s fd) [] ≡ come_to s fd (fate ends rounds)
unfolding wait_loop fate
wait_loop_lem ends [] s fd = refl
wait_loop_lem ends (signals ∷ rounds) s fd =
    let here = deliver_all_lem ends s fd signals in
    elim (Bool-cases (any_fatal ends signals)) [
      | inl e ↦ rw (here, e, wait_loop, fate) refl
      | inr e ↦ elim (Bool-cases (any_stop signals)) [
        | inl k ↦ rw (here, e, k, wait_loop, fate) (stopped_leaves ends rounds s (fd ∷ []))
        | inr k ↦ rw (here, e, k, wait_loop, fate) (wait_loop_lem ends rounds s fd)
      ]
    ]
