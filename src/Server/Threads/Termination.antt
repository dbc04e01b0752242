-- ===== src/Server/Threads/Termination.antt =====
-- Once `running_` is false, the threads of the server end, and `stop` returns.
use simple_snmpd.Base.{
  ℕ, zero, suc, ◌≤◌, ◌≡◌, ◌⊎◌, inl, inr, refl, Bool, false, none, some, List, [], ◌∷◌, ◌++◌, length,
  get_elem?, get_elem?-some, Bool-cases, subst, sym, ap, ◌∙◌, All, arith,
}
use native.Mathlib.Decide.{dec_lt}
use simple_snmpd.Mib.{MibManager}
use simple_snmpd.Security.{SecurityManager}
use simple_snmpd.Server.Process.{Event, Managers}
use simple_snmpd.Server.Threads.{
  LoopThread, at_test, at_call, in_recvfrom, at_sendto, loop_ended, WorkerThread, checking, asleep,
  worker_ended, Caller, outside, closing, resetting, joining_loop, joining, returned, WorkerMove,
  wake, quit, WorkersMove, first, later, LoopMove, leave, enter, call, refuse, receive, send, skip,
  close, reset, join_loop, join, clear, by_loop, Runs, Reach, after,
}
use simple_snmpd.Server.Process.Replies.{EventIsBytes, server_round-Returns}
use simple_snmpd.Server.Threads.Waiting.{
  Waits, Passed, OwnStep, OwnRuns, OwnStep-Step, OwnRuns-Reach, OwnRuns-Passed, OwnRuns-running,
  Waits-Passed,
}
use simple_snmpd.Server.Threads.Work.{work, Step-work, Runs-work, Runs-Reach, work-bound}
use simple_snmpd.Server.Threads.Shutdown.{Threads, Fits, IsEnded, Reach-Fits}

-- The worker of an index makes a step that it has.
at_index :
    {running : Bool} {w v : WorkerThread} (ws : List WorkerThread) (k : ℕ)
    → get_elem? ws k ≡ some w
    → WorkerMove running w v
    → (vs : List WorkerThread) × WorkersMove running ws vs
at_index [] k e m = absurd (cc)
at_index {running} {v} (x ∷ ws) zero e m =
    (v ∷ ws, first (subst (λ x. WorkerMove running x v) (cc) m))
at_index (x ∷ ws) (suc k) e m = let (vs, n) = at_index ws k e m in (x ∷ vs, later n)

worker_moves :
    (ws : List WorkerThread) (k : ℕ) (w : WorkerThread)
    → get_elem? ws k ≡ some w
    → (w ≡ worker_ended) ⊎ ((vs : List WorkerThread) × WorkersMove false ws vs)
worker_moves ws k checking e = inr (at_index ws k e (quit refl))
worker_moves ws k asleep e = inr (at_index ws k e wake)
worker_moves ws k worker_ended e = inl refl

module _ (mib : MibManager) (security : SecurityManager) where
  -- A loop that neither waits nor has ended can make a step.
  loop_moves :
      (l : LoopThread) (s : Threads mib security)
      → s.loop ≡ l
      → (l ≡ loop_ended)
        ⊎ (Waits l ⊎ (¬ Waits l × ((t : Threads mib security) × LoopMove mib security s t)))
  loop_moves at_test s e = elim (Bool-cases s.running) [
    | inl h ↦ inr (inr ((λ w. w), (_, enter e h)))
    | inr h ↦ inr (inr ((λ w. w), (_, leave e h)))
  ]
  loop_moves at_call s e = inr (inr ((λ w. w), (_, call e)))
  loop_moves (in_recvfrom none) s e = inr (inr ((λ w. w), (_, refuse e)))
  loop_moves (in_recvfrom (some fd)) s e = inr (inl tt)
  loop_moves (at_sendto sent) s e = inr (inr ((λ w. w), (_, send e)))
  loop_moves loop_ended s e = inl refl

  abbrev CanStep : Threads mib security → Type 0
  CanStep s = (t : Threads mib security) × OwnStep mib security s t

  -- The loop waits in `recvfrom`, and `stop` for the loop.
  abbrev pub IsBlocked : Threads mib security → Type 0
  IsBlocked s = Waits s.loop × (s.caller ≡ joining_loop)

  -- At the join of a worker.
  join_step :
      (k : ℕ) (s : Threads mib security)
      → s.running ≡ false
      → s.caller ≡ joining k
      → k ≤ length s.workers
      → CanStep s
  join_step k s h e b = elim (dec_lt k (length s.workers)) [
    | no full ↦ (_, OwnStep.of_stop (clear e (omega arith)))
    | yes lt ↦
        let (w, at) = get_elem?-some s.workers k lt in
        elim (worker_moves s.workers k w at) [
          | inl ended ↦ (_, OwnStep.of_stop (join e (at ∙ ap some ended)))
          | inr (vs, m) ↦
              (_, OwnStep.of_worker vs (subst (λ r. WorkersMove r s.workers vs) (sym h) m) refl)
        ]
  ]

  next_step :
      (c : Caller) (fd : ℕ) (s : Threads mib security)
      → s.running ≡ false
      → s.caller ≡ c
      → Fits mib security c fd s
      → ((c ≡ returned) ⊎ IsBlocked s) ⊎ CanStep s
  next_step outside fd s h e f = inr (_, OwnStep.of_stop (skip e h))
  next_step closing fd s h e f = inr (_, OwnStep.of_stop (close e f.1))
  next_step resetting fd s h e f = inr (_, OwnStep.of_stop (reset e))
  next_step joining_loop fd s h e f = elim (loop_moves s.loop s refl) [
    | inl ended ↦ inr (_, OwnStep.of_stop (join_loop e ended))
    | inr (inl waits) ↦ inl (inr (waits, e))
    | inr (inr (n, (t, m))) ↦ inr (t, OwnStep.of_loop m n)
  ]
  next_step (joining k) fd s h e (_, _, _, _, b, _) = inr (join_step k s h e b)
  next_step returned fd s h e f = inl (inl refl)

  -- A run to the return of `stop`, or to the wait for `recvfrom`.
  abbrev Halts : Threads mib security → Type 0
  Halts s =
      (j : ℕ) × (u : Threads mib security) × OwnRuns mib security j s u
      × ((u.caller ≡ returned) ⊎ IsBlocked u)

  run_on :
      {m : Managers mib security} {fd : ℕ} (fuel : ℕ) (s : Threads mib security)
      → Reach mib security m fd s
      → s.running ≡ false
      → work mib security s ≤ fuel
      → Halts s
  run_on {fd} zero s r h b = elim (next_step s.caller fd s h refl (Reach-Fits mib security r)) [
    | inl done ↦ (0, s, OwnRuns.halted, done)
    | inr (t, e) ↦
        absurd (omega (arith, (Step-work mib security h (OwnStep-Step mib security e)).0))
  ]
  run_on {fd} (suc fuel) s r h b =
      elim (next_step s.caller fd s h refl (Reach-Fits mib security r)) [
        | inl done ↦ (0, s, OwnRuns.halted, done)
        | inr (t, e) ↦
            let (less, g) = Step-work mib security h (OwnStep-Step mib security e) in
            let (j, u, runs, done) =
              run_on fuel t (after r (OwnStep-Step mib security e)) g (omega (arith, less)) in
            (suc j, u, OwnRuns.onward e runs, done)
      ]

  -- `stop` has returned, and the threads have ended.
  abbrev pub IsDone : Threads mib security → Type 0
  IsDone s = (s.caller ≡ returned) × (s.loop ≡ loop_ended) × All IsEnded s.workers

  Reach-IsDone :
      {m : Managers mib security} {fd : ℕ} {s : Threads mib security}
      → Reach mib security m fd s
      → s.caller ≡ returned
      → IsDone s
  Reach-IsDone {fd = fd} {s} r done =
      let fits = subst (λ c. Fits mib security c fd s) done (Reach-Fits mib security r) in
      (done, fits.2, fits.3)

  received :
      (l : LoopThread) (s : Threads mib security) (e : Event)
      → EventIsBytes e
      → s.loop ≡ l
      → Waits l
      → (v : Threads mib security) × LoopMove mib security s v
        × Passed v.loop
        × (v.taken ≡ s.taken ++ e ∷ [])
  received at_test s e h same w = absurd w
  received at_call s e h same w = absurd w
  received (in_recvfrom none) s e h same w = absurd w
  received (in_recvfrom (some fd)) s e h same w =
      let (n, sent, round, few) = server_round-Returns mib security s.managers e h in
      (_, receive e same round, tt, refl)
  received (at_sendto sent) s e h same w = absurd w
  received loop_ended s e h same w = absurd w

  -- From a wait, if `recvfrom` returns with `e`: the rest of the way.
  abbrev pub Goes : Event → Threads mib security → Type 0
  Goes e u =
      (v : Threads mib security) × LoopMove mib security u v
      × (v.taken ≡ u.taken ++ e ∷ [])
      × (i : ℕ) × (w : Threads mib security) × OwnRuns mib security i v w
      × IsDone w

  wait-Goes :
      {m : Managers mib security} {fd : ℕ} {u : Threads mib security} (e : Event)
      → EventIsBytes e
      → Reach mib security m fd u
      → u.running ≡ false
      → Waits u.loop
      → Goes e u
  wait-Goes {u = u} e h r f waits =
      let (v, step, past, one) = received u.loop u e h refl waits in
      let r1 = after r (by_loop step) in
      let (less, g) = Step-work mib security f (by_loop step) in
      let (i, w, runs, halt) = run_on (work mib security v) v r1 g (omega arith) in
      elim halt [
        | inl done ↦
            (v, step, one, i, w, runs, Reach-IsDone (OwnRuns-Reach mib security r1 runs) done)
        | inr (stuck, at) ↦
            absurd (Waits-Passed w.loop stuck (OwnRuns-Passed mib security g runs past).1)
      ]

  -- Once `running_` is false, in whatever order the threads move and whatever `recvfrom` returns, they
  -- make at most 20 steps. What they have done by any moment goes on, without any return of `recvfrom`
  -- from a wait, to where `stop` has returned and the loop and every worker have ended, or to where the
  -- loop waits in `recvfrom` and `stop` for the loop; and from there, if `recvfrom` returns once more,
  -- with whatever event, it goes on without a further wait to where all is done.
  pub stop_returns :
      {m : Managers mib security} {fd k : ℕ} {s t : Threads mib security} (e : Event)
      → EventIsBytes e
      → Reach mib security m fd s
      → s.running ≡ false
      → Runs mib security k s t
      → (k ≤ 20)
        × (j : ℕ) × (u : Threads mib security) × OwnRuns mib security j t u
        × (IsDone u ⊎ (IsBlocked u × Goes e u))
  stop_returns {k = k} {t = t} e h r f runs =
      let (g, few) = Runs-work mib security f runs in
      let rt = Runs-Reach mib security r runs in
      let (j, u, more, halt) = run_on (work mib security t) t rt g (omega arith) in
      let ru = OwnRuns-Reach mib security rt more in
      let bound : k ≤ 20 = omega (arith, few, work-bound mib security r) in
      elim halt [
        | inl done ↦ (bound, j, u, more, inl (Reach-IsDone ru done))
        | inr (waits, at) ↦
            let down = OwnRuns-running mib security g more in
            (bound, j, u, more, inr ((waits, at), wait-Goes e h ru down waits))
      ]
