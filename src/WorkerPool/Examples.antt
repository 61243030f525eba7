-- ===== src/WorkerPool/Examples.antt =====
-- A pool with one worker and queues of one item, which answers one task, is stopped, and closes.
use jira_connector.Base.{ℕ, ◌≡◌, ◌≤◌, ◌⊎◌, String, true, false, [], ◌∷◌, refl, arith}
use jira_connector.GoError.{ok}
use jira_connector.WorkerPool.{
  Task, TaskResult, idle, busy, sending, exited, Pool, running_pool, here, submit, stop, take_task,
  process, send, drained, close_results, receive, Reach, initial, next,
}
use jira_connector.WorkerPool.Channels.{never_sends_on_closed}
use jira_connector.WorkerPool.Delivery.{weigh_ids, weigh_results}
use jira_connector.WorkerPool.Completion.{every_task_answered}
use jira_connector.WorkerPool.Progress.{work_left, IsDone, CanWork, rest, work, stopped_pool_ends}

abbrev task : Task String
task = record { id = "AB-1"; payload = "p" }

abbrev answer : TaskResult ℕ
answer = record { task_id = "AB-1"; outcome = ok 7 }

abbrev initial_pool : Pool String ℕ
initial_pool = record {
  queue_size = 1;
  tasks = [];
  tasks_open = true;
  results = [];
  results_open = true;
  workers = idle ∷ [];
  stopped = false;
  stats = record { processed = 0; failed = 0 };
  cancelled = false;
  submitted = [];
  received = [];
  dropped = [];
}

-- The worker has the result of the task.
abbrev answering : Pool String ℕ
answering = record initial_pool {
  workers = sending answer ∷ [];
  stats = record { processed = 1; failed = 0 };
  submitted = "AB-1" ∷ [];
}

answering-Reach : Reach 1 1 answering
unfolding running_pool
answering-Reach =
    next
      (next (next initial (submit task initial_pool refl (omega arith))) (
        take_task task [] (busy task ∷ [])
          (record initial_pool { tasks = task ∷ []; submitted = "AB-1" ∷ [] }) refl (here [])))
      (process task (ok 7) (sending answer ∷ [])
        (record initial_pool { workers = busy task ∷ []; submitted = "AB-1" ∷ [] }) (here []))

never_sends_on_closed_example : answering.results_open ≡ true
never_sends_on_closed_example =
    never_sends_on_closed answering-Reach answer idle (idle ∷ []) (here [])

-- The result has been received.
abbrev answered : Pool String ℕ
answered = record answering { workers = idle ∷ []; received = answer ∷ [] }

answered-Reach : Reach 1 1 answered
answered-Reach =
    next (next answering-Reach (send answer (idle ∷ []) answering (omega arith) (here [])))
      (receive answer [] (record answering { workers = idle ∷ []; results = answer ∷ [] }) refl)

abbrev finished : Pool String ℕ
finished = record answered {
  tasks_open = false;
  results_open = false;
  workers = exited ∷ [];
  stopped = true;
}

finished-Reach : Reach 1 1 finished
finished-Reach =
    next
      (next (next answered-Reach (stop answered)) (
        drained (exited ∷ []) (record answered { tasks_open = false; stopped = true }) refl refl
          (here [])))
      (close_results (record answered { tasks_open = false; stopped = true; workers = exited ∷ [] })
        refl (refl, tt))

every_task_answered_example :
    weigh_ids (λ i. 3) finished.submitted ≡ weigh_results (λ i. 3) finished.received
every_task_answered_example =
    every_task_answered (λ i. 3) finished-Reach (omega arith) refl refl refl

-- The pool is stopped while the worker has the result of the task, and then takes one step.
abbrev stopping : Pool String ℕ
stopping = record answering { tasks_open = false; stopped = true }

abbrev sent : Pool String ℕ
sent = record stopping { workers = idle ∷ []; results = answer ∷ [] }

stopped_pool_ends_example : (1 ≤ work_left stopping) × (IsDone sent ⊎ CanWork sent)
stopped_pool_ends_example =
    stopped_pool_ends refl (work rest (send answer (idle ∷ []) stopping (omega arith) (here [])) tt)
