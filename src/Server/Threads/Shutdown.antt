-- ===== src/Server/Threads/Shutdown.antt =====
-- What `stop` promises of the threads of the server, and what each of them does once `running_` is
-- false.
use simple_snmpd.Base.{
  ℕ, zero, suc, ◌≤◌, ◌≡◌, ◌≢◌, refl, Bool, true, false, none, some, List, [], ◌∷◌, length,
  get_elem?, take, take_all, All, subst, sym, arith,
}
use simple_snmpd.Mib.{MibManager}
use simple_snmpd.Security.{SecurityManager}
use simple_snmpd.Server.Process.{Managers}
use simple_snmpd.Server.Threads.{
  loop_ended, WorkerThread, worker_ended, Caller, outside, closing, resetting, joining_loop,
  joining, returned, doze, wake, quit, WorkersMove, first, later, System, LoopMove, leave, enter,
  call, refuse, receive, send, StopMove, skip, fall, close, no_socket, reset, join_loop, join,
  clear, Step, by_loop, by_worker, by_stop, Reach, start, after,
}

abbrev pub IsEnded : WorkerThread → Type 0
IsEnded w = w ≡ worker_ended

pub WorkersMove-length :
    {running : Bool} {ws vs : List WorkerThread} → WorkersMove running ws vs → length vs ≡ length ws
WorkersMove-length (first m) = refl
WorkersMove-length (later m) = omega (arith, WorkersMove-length m)

-- A worker that has ended stays so.
WorkersMove-IsEnded :
    {running : Bool} {ws vs : List WorkerThread}
    → WorkersMove running ws vs
    → (k : ℕ) → All IsEnded (take k ws)
    → All IsEnded (take k vs)
WorkersMove-IsEnded m zero h = tt
WorkersMove-IsEnded (first (doze e)) (suc k) (h, hs) = ground arith
WorkersMove-IsEnded (first wake) (suc k) (h, hs) = ground arith
WorkersMove-IsEnded (first (quit e)) (suc k) (h, hs) = (refl, hs)
WorkersMove-IsEnded (later m) (suc k) (h, hs) = (h, WorkersMove-IsEnded m k hs)

WorkersMove-All :
    {running : Bool} {ws vs : List WorkerThread}
    → WorkersMove running ws vs
    → All IsEnded ws
    → All IsEnded vs
WorkersMove-All (first (doze e)) (h, hs) = ground arith
WorkersMove-All (first wake) (h, hs) = ground arith
WorkersMove-All (first (quit e)) (h, hs) = (refl, hs)
WorkersMove-All (later m) (h, hs) = (h, WorkersMove-All m hs)

take-IsEnded :
    (k : ℕ) (ws : List WorkerThread)
    → get_elem? ws k ≡ some worker_ended
    → All IsEnded (take k ws)
    → All IsEnded (take (suc k) ws) × (suc k ≤ length ws)
take-IsEnded k [] e h = ground arith
take-IsEnded zero (w ∷ ws) e h = ground arith
take-IsEnded (suc k) (w ∷ ws) e (h, hs) =
    let (g, b) = take-IsEnded k ws e hs in ((h, g), omega arith)

module _ (mib : MibManager) (security : SecurityManager) where
  abbrev pub Threads : Type 0
  Threads = System mib security

  -- By where the caller of `stop` is.
  abbrev pub Fits : Caller → ℕ → Threads → Type 0
  Fits outside fd s = (s.running ≡ true) × (s.server_socket ≡ some fd) × (s.is_open ≡ true)
  Fits closing fd s = (s.running ≡ false) × (s.server_socket ≡ some fd) × (s.is_open ≡ true)
  Fits resetting fd s = (s.running ≡ false) × (s.server_socket ≡ some fd) × (s.is_open ≡ false)
  Fits joining_loop fd s = (s.running ≡ false) × (s.server_socket ≡ none) × (s.is_open ≡ false)
  Fits (joining k) fd s =
      (s.running ≡ false)
      × (s.server_socket ≡ none)
      × (s.loop ≡ loop_ended)
      × All IsEnded (take k s.workers)
      × (k ≤ length s.workers)
      × (s.is_open ≡ false)
  Fits returned fd s =
      (s.running ≡ false)
      × (s.server_socket ≡ none)
      × (s.loop ≡ loop_ended)
      × All IsEnded s.workers
      × (s.is_open ≡ false)

  -- What a step of the loop leaves alone; and a loop that has ended makes none.
  pub LoopMove-frame :
      {s t : Threads}
      → LoopMove mib security s t
      → (t.running ≡ s.running)
        × (t.server_socket ≡ s.server_socket)
        × (t.workers ≡ s.workers)
        × (t.caller ≡ s.caller)
        × (s.loop ≢ loop_ended)
        × (t.is_open ≡ s.is_open)
  LoopMove-frame (leave e r) = ground arith
  LoopMove-frame (enter e r) = ground arith
  LoopMove-frame (call e) = ground arith
  LoopMove-frame (refuse e) = ground arith
  LoopMove-frame (receive _ e r) = ground arith
  LoopMove-frame (send e) = ground arith

  LoopMove-Fits :
      (c : Caller) (fd : ℕ) (s t : Threads)
      → (t.running ≡ s.running)
        × (t.server_socket ≡ s.server_socket)
        × (t.workers ≡ s.workers)
        × (t.caller ≡ s.caller)
        × (s.loop ≢ loop_ended)
        × (t.is_open ≡ s.is_open)
      → Fits c fd s
      → Fits c fd t
  LoopMove-Fits outside fd s t (r, f, w, c, l, o) h = ground arith
  LoopMove-Fits closing fd s t (r, f, w, c, l, o) h = ground arith
  LoopMove-Fits resetting fd s t (r, f, w, c, l, o) h = ground arith
  LoopMove-Fits joining_loop fd s t (r, f, w, c, l, o) h = ground arith
  LoopMove-Fits (joining k) fd s t (r, f, w, c, l, o) h = ground arith
  LoopMove-Fits returned fd s t (r, f, w, c, l, o) h = ground arith

  WorkersMove-Fits :
      (c : Caller) (fd : ℕ) (s : Threads) {vs : List WorkerThread}
      → WorkersMove s.running s.workers vs
      → Fits c fd s
      → Fits c fd (record s { workers = vs })
  WorkersMove-Fits outside fd s m h = h
  WorkersMove-Fits closing fd s m h = h
  WorkersMove-Fits resetting fd s m h = h
  WorkersMove-Fits joining_loop fd s m h = h
  WorkersMove-Fits (joining k) fd s m (r, f, l, w, b, o) =
      (r, f, l, WorkersMove-IsEnded m k w, omega (arith, WorkersMove-length m), o)
  WorkersMove-Fits returned fd s m (r, f, l, w, o) = (r, f, l, WorkersMove-All m w, o)

  StopMove-Fits :
      (fd : ℕ) {s t : Threads} → StopMove mib security s t → Fits s.caller fd s → Fits t.caller fd t
  StopMove-Fits fd (skip e r) h = ground arith
  StopMove-Fits fd (fall e r) h = ground arith
  StopMove-Fits fd (close e f) h = ground arith
  StopMove-Fits fd (no_socket e f) h = ground arith
  StopMove-Fits fd (reset e) h = ground arith
  StopMove-Fits fd (join_loop e l) h = ground arith
  StopMove-Fits fd {s} (join {k} e l) h =
      let (r, f, d, w, b, o) = subst (λ c. Fits c fd s) e h in
      let (w1, b1) = take-IsEnded k s.workers l w in (r, f, d, w1, b1, o)
  StopMove-Fits fd {s} (clear {k} e l) h =
      let (r, f, d, w, b, o) = subst (λ c. Fits c fd s) e h in
      (r, f, d, subst (All IsEnded) (take_all k s.workers (omega arith)) w, o)

  Step-Fits :
      (fd : ℕ) {s t : Threads} → Step mib security s t → Fits s.caller fd s → Fits t.caller fd t
  Step-Fits fd {s} {t} (by_loop m) h =
      let frame = LoopMove-frame m in
      subst (λ c. Fits c fd t) (sym frame.3) (LoopMove-Fits s.caller fd s t frame h)
  Step-Fits fd {s} (by_worker m) h = WorkersMove-Fits s.caller fd s m h
  Step-Fits fd (by_stop m) h = StopMove-Fits fd m h

  -- In every state that the threads of a server come through: while `stop` has not been called,
  -- `running_` is true and the descriptor is the one that was bound, and open; when `stop` is at the
  -- joins, `running_` is false and the descriptor is closed and -1; when it joins the workers
  -- the loop has ended, and with it the workers that it has joined; and when `stop` has returned,
  -- `running_` is false, the descriptor is -1, and the loop and every worker have ended.
  pub Reach-Fits :
      {m : Managers mib security} {fd : ℕ} {s : Threads}
      → Reach mib security m fd s
      → Fits s.caller fd s
  Reach-Fits start = (refl, refl, refl)
  Reach-Fits {fd} (after r e) = Step-Fits fd e (Reach-Fits r)
