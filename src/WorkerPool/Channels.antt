-- ===== src/WorkerPool/Channels.antt =====
-- internal/workerpool/workerpool.go: the bounds of the two channels, and who may still send.
use jira_connector.Base.{
  ℕ, ◌≤◌, ◌≡◌, ◌≢◌, refl, Bool, true, false, List, [], ◌∷◌, length, All, arith, length-append, ap,
}
use jira_connector.WorkerPool.{
  Task, TaskResult, Worker, idle, busy, sending, exited, Pool, running_pool, Swap, here, there,
  HasExited, Step, submit, hand_over, stop, take_task, process, send, deliver, drained, cancel,
  quit_idle, quit_sending, close_results, receive, Reach, initial, next,
}

module _ {P A : Type 0} where
  -- Where all workers have exited, none can be replaced but an exited one.
  pub Swap-exited :
      {w w' : Worker P A} {ws ws' : List (Worker P A)}
      → Swap w w' ws ws'
      → All HasExited ws
      → w ≡ exited
  Swap-exited (here ws) a = a.0
  Swap-exited (there x s) a = Swap-exited s a.1

  pub idle-active : ◌≢◌ {A = Worker P A} idle exited
  idle-active e = cc

  pub busy-active : (t : Task P) → ◌≢◌ {A = Worker P A} (busy t) exited
  busy-active t e = cc

  pub sending-active : (r : TaskResult A) → ◌≢◌ {A = Worker P A} (sending r) exited
  sending-active r e = cc

  -- The channels stay within their capacity, and the results are closed only when nobody sends.
  pub record IsBounded (s : Pool P A) : Type 0 where
    pub tasks : length s.tasks ≤ s.queue_size
    pub results : length s.results ≤ s.queue_size
    pub quiet : s.results_open ≡ false → All HasExited s.workers

  still_quiet :
      {w w' : Worker P A} {ws ws' : List (Worker P A)} {b : Bool}
      → w ≢ exited
      → Swap w w' ws ws'
      → (b ≡ false → All HasExited ws)
      → b ≡ false
      → All HasExited ws'
  still_quiet active sw quiet e = absurd (active (Swap-exited sw (quiet e)))

  running_pool-IsBounded : (n q : ℕ) → IsBounded (running_pool n q)
  unfolding running_pool
  running_pool-IsBounded n q = record {
    tasks = omega arith;
    results = omega arith;
    quiet = λ e. cc;
  }

  pub Step-IsBounded : {s t : Pool P A} → Step s t → IsBounded s → IsBounded t
  Step-IsBounded (submit t s opened room) h = record {
    tasks = omega (arith, length-append s.tasks (t ∷ []));
    results = h.results;
    quiet = h.quiet;
  }
  Step-IsBounded (hand_over t ws s opened e sw) h = record {
    tasks = h.tasks;
    results = h.results;
    quiet = still_quiet idle-active sw h.quiet;
  }
  Step-IsBounded (stop s) h = record { tasks = h.tasks; results = h.results; quiet = h.quiet }
  Step-IsBounded (take_task t ts ws s e sw) h = record {
    tasks = omega (arith, h.tasks, ap length e);
    results = h.results;
    quiet = still_quiet idle-active sw h.quiet;
  }
  Step-IsBounded (process t o ws s sw) h = record {
    tasks = h.tasks;
    results = h.results;
    quiet = still_quiet (busy-active t) sw h.quiet;
  }
  Step-IsBounded (send r ws s room sw) h = record {
    tasks = h.tasks;
    results = omega (arith, length-append s.results (r ∷ []));
    quiet = still_quiet (sending-active r) sw h.quiet;
  }
  Step-IsBounded (deliver r ws s e sw) h = record {
    tasks = h.tasks;
    results = h.results;
    quiet = still_quiet (sending-active r) sw h.quiet;
  }
  Step-IsBounded (drained ws s e c sw) h = record {
    tasks = h.tasks;
    results = h.results;
    quiet = still_quiet idle-active sw h.quiet;
  }
  Step-IsBounded (cancel s) h = record { tasks = h.tasks; results = h.results; quiet = h.quiet }
  Step-IsBounded (quit_idle ws s c sw) h = record {
    tasks = h.tasks;
    results = h.results;
    quiet = still_quiet idle-active sw h.quiet;
  }
  Step-IsBounded (quit_sending r ws s c sw) h = record {
    tasks = h.tasks;
    results = h.results;
    quiet = still_quiet (sending-active r) sw h.quiet;
  }
  Step-IsBounded (close_results s opened a) h = record {
    tasks = h.tasks;
    results = h.results;
    quiet = λ e. a;
  }
  Step-IsBounded (receive r rs s e) h = record {
    tasks = h.tasks;
    results = omega (arith, h.results, ap length e);
    quiet = h.quiet;
  }

  pub Reach-IsBounded : {n q : ℕ} {s : Pool P A} → Reach n q s → IsBounded s
  Reach-IsBounded initial = running_pool-IsBounded _ _
  Reach-IsBounded (next r st) = Step-IsBounded st (Reach-IsBounded r)

  open_while :
      {r : TaskResult A} {w' : Worker P A} {ws ws' : List (Worker P A)} (b : Bool)
      → Swap (sending r) w' ws ws'
      → (b ≡ false → All HasExited ws)
      → b ≡ true
  open_while true sw quiet = refl
  open_while {r} false sw quiet = absurd (sending-active r (Swap-exited sw (quiet refl)))

  -- In every reachable state of the pool, as long as some worker still has a result to send, the
  -- channel of results is open: no worker ever sends on a closed channel.
  pub never_sends_on_closed :
      {n q : ℕ} {s : Pool P A}
      → Reach n q s
      → (r : TaskResult A) (w' : Worker P A) (ws : List (Worker P A))
      → Swap (sending r) w' s.workers ws
      → s.results_open ≡ true
  never_sends_on_closed {s} reach r w' ws sw =
      open_while s.results_open sw (Reach-IsBounded reach).quiet
