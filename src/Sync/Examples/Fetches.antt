-- ===== src/Sync/Examples/Fetches.antt =====
-- A page of one issue whose fetch fails.
use jira_connector.Base.{ℕ, ◌+◌, ◌≡◌, String, none, true, false, [], ◌∷◌, List, refl, arith}
use jira_connector.Base.Int.{pos}
use jira_connector.GoError.{ok, err, external}
use jira_connector.Jira.{Issue}
use jira_connector.Mapper.{Codec}
use jira_connector.Manager.{new_manager}
use jira_connector.WorkerPool.{
  Task, TaskResult, idle, busy, sending, exited, Pool, running_pool, here, submit, stop, take_task,
  process, send, drained, close_results, receive, Reach, initial, next,
}
use jira_connector.WorkerPool.Delivery.{weigh_ids}
use jira_connector.Sync.{Service}
use jira_connector.Sync.Authors.{ProcessedIssue}
use jira_connector.Sync.Fetching.{IssueTaskPayload, RunPool, page_tasks}
use jira_connector.Sync.Fetching.Accounts.{weigh_keys, fetched_ids, failed_ids, page_accounted}

abbrev page : List Issue
page = record { key = "AB-1"; self = ""; id = "1"; fields = "{}"; changelog = none } ∷ []

abbrev task : Task IssueTaskPayload
task = record { id = "AB-1"; payload = record { issue_key = "AB-1"; project_id = pos 7 } }

abbrev lost : TaskResult ProcessedIssue
lost = record { task_id = "AB-1"; outcome = err (external "gone") }

abbrev initial_pool : Pool IssueTaskPayload ProcessedIssue
initial_pool = record {
  queue_size = 1;
  tasks = [];
  tasks_open = true;
  results = [];
  results_open = true;
  workers = idle ∷ [];
  stopped = false;
  stats = record { processed = 0; failed = 0 };
  cancelled = false;
  submitted = [];
  received = [];
  dropped = [];
}

abbrev after_fetch : Pool IssueTaskPayload ProcessedIssue
after_fetch = record initial_pool {
  workers = sending lost ∷ [];
  stats = record { processed = 0; failed = 1 };
  submitted = "AB-1" ∷ [];
}

after_fetch-Reach : Reach 1 1 after_fetch
unfolding running_pool
after_fetch-Reach =
    next
      (next (next initial (submit task initial_pool refl (omega arith))) (
        take_task task [] (busy task ∷ [])
          (record initial_pool { tasks = task ∷ []; submitted = "AB-1" ∷ [] }) refl (here [])))
      (process task (err (external "gone")) (sending lost ∷ [])
        (record initial_pool { workers = busy task ∷ []; submitted = "AB-1" ∷ [] }) (here []))

abbrev answered : Pool IssueTaskPayload ProcessedIssue
answered = record after_fetch { workers = idle ∷ []; received = lost ∷ [] }

answered-Reach : Reach 1 1 answered
answered-Reach =
    next (next after_fetch-Reach (send lost (idle ∷ []) after_fetch (omega arith) (here [])))
      (receive lost [] (record after_fetch { workers = idle ∷ []; results = lost ∷ [] }) refl)

abbrev finished : Pool IssueTaskPayload ProcessedIssue
finished = record answered {
  tasks_open = false;
  results_open = false;
  workers = exited ∷ [];
  stopped = true;
}

finished-Reach : Reach 1 1 finished
finished-Reach =
    next
      (next (next answered-Reach (stop answered)) (
        drained (exited ∷ []) (record answered { tasks_open = false; stopped = true }) refl refl
          (here [])))
      (close_results (record answered { tasks_open = false; stopped = true; workers = exited ∷ [] })
        refl (refl, tt))

page_accounted_example :
    weigh_keys (λ i. 3) page
    ≡ weigh_ids (λ i. 3) (fetched_ids finished.received)
      + weigh_ids (λ i. 3) (failed_ids finished.received)
unfolding page_tasks
page_accounted_example =
    page_accounted (λ i. 3) (pos 7) page finished-Reach (omega arith) refl refl refl refl

abbrev plain : Codec
plain = record { Time = String; parse = λ layout s. ok s; unmarshal_fields = λ s f. ok f }

abbrev run : RunPool ℕ
run tasks w = (record { refused = none; results = lost ∷ [] }, w)

abbrev service : Service
service = record { manager = new_manager; mtr = none }
