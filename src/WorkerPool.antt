-- ===== src/WorkerPool.antt =====
-- internal/workerpool/workerpool.go: the pool of workers between two channels, buffered or not. The
-- goroutines that submit, stop, work, close and receive take steps in any order; `Process` is a
-- parameter, of which a step takes any outcome. Logging is left out.
pub mod Delivery
pub mod Completion
pub mod Progress
pub mod Channels
mod Examples
use jira_connector.Base.{
  ℕ, zero, suc, ◌+◌, ◌^◌, ◌%◌, ◌<◌, ◌≡◌, String, Bool, true, false, Option, some, none, List, [],
  ◌∷◌, ◌++◌, length, All, if◌then◌else◌,
}
use jira_connector.GoError.{
  GoError, sentinel, wrap, err_pool_stopped, err_submit_panic, Result, ok, err,
}

pub record Task (P : Type 0) : Type 0 where
  pub id : String
  pub payload : P

-- The pair of the fields Result and Err is `outcome`.
pub record TaskResult (A : Type 0) : Type 0 where
  pub task_id : String
  pub outcome : Result A

-- Where a worker is in its loop.
pub data Worker (P A : Type 0) : Type 0 where
  idle : Worker P A
  busy : Task P → Worker P A
  sending : TaskResult A → Worker P A
  exited : Worker P A

-- The atomic.Uint64 counters.
pub record PoolStats : Type 0 where
  pub processed : ℕ
  pub failed : ℕ

-- The pool, with the lists of what was submitted, received and dropped so far, and whether the
-- context is cancelled.
pub record Pool (P A : Type 0) : Type 0 where
  pub queue_size : ℕ
  pub tasks : List (Task P)
  pub tasks_open : Bool
  pub results : List (TaskResult A)
  pub results_open : Bool
  pub workers : List (Worker P A)
  pub stopped : Bool
  pub stats : PoolStats
  pub cancelled : Bool
  pub submitted : List String
  pub received : List (TaskResult A)
  pub dropped : List String

-- wp.stats after an outcome.
abbrev pub count_outcome : {A : Type 0} → Result A → PoolStats → PoolStats
count_outcome (ok a) st = record st { processed = (st.processed + 1) % 2 ^ 64 }
count_outcome (err e) st = record st { failed = (st.failed + 1) % 2 ^ 64 }

abbrev pub idle_workers : {P A : Type 0} → ℕ → List (Worker P A)
idle_workers zero = []
idle_workers (suc n) = idle ∷ idle_workers n

-- New, and the workers that Run starts.
unfoldable pub running_pool : {P A : Type 0} → ℕ → ℕ → Pool P A
running_pool worker_count queue_size = record {
  queue_size = queue_size;
  tasks = [];
  tasks_open = true;
  results = [];
  results_open = true;
  workers = idle_workers worker_count;
  stopped = false;
  stats = record { processed = 0; failed = 0 };
  cancelled = false;
  submitted = [];
  received = [];
  dropped = [];
}

-- One worker of the list is replaced.
pub data Swap {P A : Type 0} (w w' : Worker P A)
    : List (Worker P A) → List (Worker P A) → Type 0 where
  here : (ws : List (Worker P A)) → Swap w w' (w ∷ ws) (w' ∷ ws)
  there :
      (x : Worker P A) {ws ws' : List (Worker P A)}
      → Swap w w' ws ws'
      → Swap w w' (x ∷ ws) (x ∷ ws')

abbrev pub HasExited : {P A : Type 0} → Worker P A → Type 0
HasExited w = w ≡ exited

module _ {P A : Type 0} where
  abbrev pub submit_task : Task P → Pool P A → Pool P A
  submit_task t s = record s { tasks = s.tasks ++ t ∷ []; submitted = t.id ∷ s.submitted }

  -- A send waits for room in its channel or for a receiver that waits at the empty channel, which is
  -- the only way where queue_size is 0; a receive waits for an item, a sender or the closing; and every
  -- `select` can take the cancelled context instead. A Submit after Stop changes nothing, whether it sees
  -- `stopped` or recovers from the closed channel.
  pub data Step : Pool P A → Pool P A → Type 0 where
    submit :
        (t : Task P) (s : Pool P A)
        → s.tasks_open ≡ true
        → length s.tasks < s.queue_size
        → Step s (submit_task t s)
    hand_over :
        (t : Task P) (ws : List (Worker P A)) (s : Pool P A)
        → s.tasks_open ≡ true
        → s.tasks ≡ []
        → Swap idle (busy t) s.workers ws
        → Step s (record s { workers = ws; submitted = t.id ∷ s.submitted })
    stop : (s : Pool P A) → Step s (record s { tasks_open = false; stopped = true })
    take_task :
        (t : Task P) (ts : List (Task P)) (ws : List (Worker P A)) (s : Pool P A)
        → s.tasks ≡ t ∷ ts
        → Swap idle (busy t) s.workers ws
        → Step s (record s { tasks = ts; workers = ws })
    process :
        (t : Task P) (outcome : Result A) (ws : List (Worker P A)) (s : Pool P A)
        → Swap (busy t) (sending (record { task_id = t.id; outcome = outcome })) s.workers ws
        → Step s (record s { workers = ws; stats = count_outcome outcome s.stats })
    send :
        (r : TaskResult A) (ws : List (Worker P A)) (s : Pool P A)
        → length s.results < s.queue_size
        → Swap (sending r) idle s.workers ws
        → Step s (record s { workers = ws; results = s.results ++ r ∷ [] })
    deliver :
        (r : TaskResult A) (ws : List (Worker P A)) (s : Pool P A)
        → s.results ≡ []
        → Swap (sending r) idle s.workers ws
        → Step s (record s { workers = ws; received = r ∷ s.received })
    drained :
        (ws : List (Worker P A)) (s : Pool P A)
        → s.tasks ≡ []
        → s.tasks_open ≡ false
        → Swap idle exited s.workers ws
        → Step s (record s { workers = ws })
    cancel : (s : Pool P A) → Step s (record s { cancelled = true })
    quit_idle :
        (ws : List (Worker P A)) (s : Pool P A)
        → s.cancelled ≡ true
        → Swap idle exited s.workers ws
        → Step s (record s { workers = ws })
    quit_sending :
        (r : TaskResult A) (ws : List (Worker P A)) (s : Pool P A)
        → s.cancelled ≡ true
        → Swap (sending r) exited s.workers ws
        → Step s (record s { workers = ws; dropped = r.task_id ∷ s.dropped })
    close_results :
        (s : Pool P A)
        → s.results_open ≡ true
        → All HasExited s.workers
        → Step s (record s { results_open = false; stopped = true })
    receive :
        (r : TaskResult A) (rs : List (TaskResult A)) (s : Pool P A)
        → s.results ≡ r ∷ rs
        → Step s (record s { results = rs; received = r ∷ s.received })

  pub data Reach (worker_count queue_size : ℕ) : Pool P A → Type 0 where
    initial : Reach worker_count queue_size (running_pool worker_count queue_size)
    next :
        {s t : Pool P A}
        → Reach worker_count queue_size s
        → Step s t
        → Reach worker_count queue_size t
