-- ===== src/Server/Threads/LastRound.antt =====
-- What the loop of the server still takes and sends once `running_` is false.
use simple_snmpd.Base.{
  ℕ, ◌+◌, ◌≤◌, ◌≡◌, refl, Bool-cases, List, true, false, none, some, Option-cases, ◌⊎◌, inl, inr,
  [], ◌∷◌, append-nil, length, length-append, ◌∙◌, arith,
}
use simple_snmpd.Mib.{MibManager}
use simple_snmpd.Security.{SecurityManager}
use simple_snmpd.Server.Process.{failed, Sent}
use simple_snmpd.Server.Threads.{
  LoopThread, at_test, at_call, in_recvfrom, at_sendto, loop_ended, through, LoopMove, leave, enter,
  call, refuse, receive, send, StopMove, skip, fall, close, no_socket, reset, join_loop, join,
  clear, Step, by_loop, by_worker, by_stop, Runs, stay, move,
}
use simple_snmpd.Server.Threads.Shutdown.{Threads}
use simple_snmpd.Server.Threads.Work.{Step-work}

-- 1 behind the test of `running_` and before the return of `recvfrom`.
abbrev pub due : LoopThread → ℕ
due at_test = 0
due at_call = 1
due (in_recvfrom fd) = 1
due (at_sendto sent) = 0
due loop_ended = 0

module _ (mib : MibManager) (security : SecurityManager) where
  LoopMove-due :
      {s t : Threads mib security}
      → s.running ≡ false
      → LoopMove mib security s t
      → length t.taken + due t.loop ≤ length s.taken + due s.loop
  LoopMove-due h (leave e r) = ground arith
  LoopMove-due h (enter e r) = ground arith
  LoopMove-due h (call e) = ground arith
  LoopMove-due {s} h (refuse e) = ground (arith, length-append s.taken (failed ∷ []))
  LoopMove-due {s} h (receive x e r) = ground (arith, length-append s.taken (x ∷ []))
  LoopMove-due h (send e) = ground arith

  StopMove-due :
      {s t : Threads mib security}
      → StopMove mib security s t
      → length t.taken + due t.loop ≤ length s.taken + due s.loop
  StopMove-due (skip e r) = omega arith
  StopMove-due (fall e r) = omega arith
  StopMove-due (close e f) = omega arith
  StopMove-due (no_socket e f) = omega arith
  StopMove-due (reset e) = omega arith
  StopMove-due (join_loop e l) = omega arith
  StopMove-due (join e l) = omega arith
  StopMove-due (clear e l) = omega arith

  Step-due :
      {s t : Threads mib security}
      → s.running ≡ false
      → Step mib security s t
      → length t.taken + due t.loop ≤ length s.taken + due s.loop
  Step-due h (by_loop m) = LoopMove-due h m
  Step-due h (by_worker m) = omega arith
  Step-due h (by_stop m) = StopMove-due m

  -- Nothing is sent without a descriptor, or on one that is closed.
  abbrev Silent : Threads mib security → Type 0
  Silent s = (s.server_socket ≡ none) ⊎ (s.is_open ≡ false)

  through-Silent :
      (s : Threads mib security) (sent : List Sent)
      → Silent s
      → through s.server_socket s.is_open sent ≡ []
  through-Silent s sent (inl n) = rw n refl
  through-Silent s sent (inr o) = elim (Option-cases s.server_socket) [
    | inl n ↦ rw n refl
    | inr (fd, e) ↦ rw (e, o) refl
  ]

  -- It stays so.
  Step-Silent :
      {s t : Threads mib security} → Silent s → Step mib security s t → Silent t × (t.wire ≡ s.wire)
  Step-Silent n (by_loop (leave e r)) = (n, refl)
  Step-Silent n (by_loop (enter e r)) = (n, refl)
  Step-Silent n (by_loop (call e)) = (n, refl)
  Step-Silent n (by_loop (refuse e)) = (n, refl)
  Step-Silent n (by_loop (receive x e r)) = (n, refl)
  Step-Silent {s} n (by_loop (send {sent} e)) =
      (n, rw (through-Silent s sent n) (append-nil s.wire))
  Step-Silent n (by_worker m) = (n, refl)
  Step-Silent n (by_stop (skip e r)) = (n, refl)
  Step-Silent n (by_stop (fall e r)) = (n, refl)
  Step-Silent n (by_stop (close e f)) = (inr refl, refl)
  Step-Silent n (by_stop (no_socket e f)) = (n, refl)
  Step-Silent n (by_stop (reset e)) = (inl refl, refl)
  Step-Silent n (by_stop (join_loop e l)) = (n, refl)
  Step-Silent n (by_stop (join e l)) = (n, refl)
  Step-Silent n (by_stop (clear e l)) = (n, refl)

  Runs-due :
      {k : ℕ} {s t : Threads mib security}
      → s.running ≡ false
      → Runs mib security k s t
      → length t.taken + due t.loop ≤ length s.taken + due s.loop
  Runs-due h stay = omega arith
  Runs-due h (move e r) = omega (arith, Step-due h e, Runs-due (Step-work mib security h e).1 r)

  Runs-Silent :
      {k : ℕ} {s t : Threads mib security} → Silent s → Runs mib security k s t → t.wire ≡ s.wire
  Runs-Silent n stay = refl
  Runs-Silent n (move e r) = let (f, same) = Step-Silent n e in Runs-Silent f r ∙ same

  due-le : (l : LoopThread) → due l ≤ 1
  due-le at_test = omega arith
  due-le at_call = omega arith
  due-le (in_recvfrom fd) = omega arith
  due-le (at_sendto sent) = omega arith
  due-le loop_ended = omega arith

  -- Once `running_` is false, `recvfrom` returns to the loop once more at most, and not at all if the
  -- loop is at its test, at `sendto` or ended; and unless there still is a descriptor that is
  -- open, nothing leaves any more.
  pub last_round :
      {k : ℕ} {s t : Threads mib security}
      → s.running ≡ false
      → Runs mib security k s t
      → (length t.taken ≤ length s.taken + due s.loop)
        × (due s.loop ≤ 1)
        × ((t.wire ≡ s.wire) ⊎ ((fd : ℕ) × (s.server_socket ≡ some fd) × (s.is_open ≡ true)))
  last_round {s} {t} h runs = (omega (arith, Runs-due h runs), due-le s.loop, silence)
    where
      silence : (t.wire ≡ s.wire) ⊎ ((fd : ℕ) × (s.server_socket ≡ some fd) × (s.is_open ≡ true))
      silence = elim (Option-cases s.server_socket) [
        | inl gone ↦ inl (Runs-Silent (inl gone) runs)
        | inr (fd, held) ↦ elim (Bool-cases s.is_open) [
          | inl yet ↦ inr (fd, held, yet)
          | inr closed ↦ inl (Runs-Silent (inr closed) runs)
        ]
      ]
