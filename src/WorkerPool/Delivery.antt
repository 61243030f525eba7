-- ===== src/WorkerPool/Delivery.antt =====
-- internal/workerpool/workerpool.go: the tasks under way. A list of ids is measured by an arbitrary
-- weight of ids: two lists that agree in every weight hold the same ids equally often.
use jira_connector.Base.{ℕ, zero, suc, ◌+◌, ◌≡◌, refl, ap, String, List, [], ◌∷◌, ◌++◌, All, arith}
use jira_connector.WorkerPool.{
  Task, TaskResult, Worker, idle, busy, sending, exited, Pool, running_pool, idle_workers, Swap,
  here, there, HasExited, Step, submit, hand_over, stop, take_task, process, send, deliver, drained,
  cancel, quit_idle, quit_sending, close_results, receive, Reach, initial, next,
}

module _ (weight : String → ℕ) where
  abbrev pub weigh_ids : List String → ℕ
  weigh_ids [] = 0
  weigh_ids (i ∷ is') = weight i + weigh_ids is'

  abbrev pub weigh_tasks : {P : Type 0} → List (Task P) → ℕ
  weigh_tasks [] = 0
  weigh_tasks (t ∷ ts) = weight t.id + weigh_tasks ts

  abbrev pub weigh_results : {A : Type 0} → List (TaskResult A) → ℕ
  weigh_results [] = 0
  weigh_results (r ∷ rs) = weight r.task_id + weigh_results rs

  -- What a worker holds.
  abbrev pub held : {P A : Type 0} → Worker P A → ℕ
  held idle = 0
  held (busy t) = weight t.id
  held (sending r) = weight r.task_id
  held exited = 0

  abbrev pub weigh_workers : {P A : Type 0} → List (Worker P A) → ℕ
  weigh_workers [] = 0
  weigh_workers (w ∷ ws) = held w + weigh_workers ws

  weigh_tasks-append :
      {P : Type 0} (ts us : List (Task P))
      → weigh_tasks (ts ++ us) ≡ weigh_tasks ts + weigh_tasks us
  weigh_tasks-append [] us = omega arith
  weigh_tasks-append (t ∷ ts) us = omega (arith, weigh_tasks-append ts us)

  weigh_results-append :
      {A : Type 0} (rs us : List (TaskResult A))
      → weigh_results (rs ++ us) ≡ weigh_results rs + weigh_results us
  weigh_results-append [] us = omega arith
  weigh_results-append (r ∷ rs) us = omega (arith, weigh_results-append rs us)

  idle_weigh : (P A : Type 0) (n : ℕ) → weigh_workers (idle_workers {P = P} {A = A} n) ≡ 0
  idle_weigh P A zero = refl
  idle_weigh P A (suc n) = omega (arith, idle_weigh P A n)

  module _ {P A : Type 0} where
    weigh-Swap :
        {w w' : Worker P A} {ws ws' : List (Worker P A)}
        → Swap w w' ws ws'
        → held w + weigh_workers ws' ≡ held w' + weigh_workers ws
    weigh-Swap {w} {w'} (here ws) = omega arith
    weigh-Swap {w} {w'} (there x s) = omega (arith, weigh-Swap s)

    pub weigh-exited : (ws : List (Worker P A)) → All HasExited ws → weigh_workers ws ≡ 0
    weigh-exited [] a = refl
    weigh-exited (w ∷ ws) a = omega (arith, ap held a.0, weigh-exited ws a.1)

    -- What was submitted is queued, held by a worker, waiting, received or dropped.
    abbrev pub IsConserved : Pool P A → Type 0
    IsConserved s =
        weigh_ids s.submitted
        ≡ weigh_tasks s.tasks
          + weigh_workers s.workers
          + weigh_results s.results
          + weigh_results s.received
          + weigh_ids s.dropped

    Step-IsConserved : {s t : Pool P A} → Step s t → IsConserved s → IsConserved t
    Step-IsConserved (submit t s opened room) h =
        omega (arith, h, weigh_tasks-append s.tasks (t ∷ []))
    Step-IsConserved (hand_over t ws s opened e sw) h = omega (arith, h, weigh-Swap sw)
    Step-IsConserved (stop s) h = h
    Step-IsConserved (take_task t ts ws s e sw) h =
        omega (arith, h, ap weigh_tasks e, weigh-Swap sw)
    Step-IsConserved (process t o ws s sw) h = omega (arith, h, weigh-Swap sw)
    Step-IsConserved (send r ws s room sw) h =
        omega (arith, h, weigh-Swap sw, weigh_results-append s.results (r ∷ []))
    Step-IsConserved (deliver r ws s e sw) h = omega (arith, h, weigh-Swap sw)
    Step-IsConserved (drained ws s e c sw) h = omega (arith, h, weigh-Swap sw)
    Step-IsConserved (cancel s) h = h
    Step-IsConserved (quit_idle ws s c sw) h = omega (arith, h, weigh-Swap sw)
    Step-IsConserved (quit_sending r ws s c sw) h = omega (arith, h, weigh-Swap sw)
    Step-IsConserved (close_results s opened a) h = h
    Step-IsConserved (receive r rs s e) h = omega (arith, h, ap weigh_results e)

    -- At every reachable moment, whatever was cancelled, the submitted tasks are exactly those that
    -- wait in the channel of tasks, that a worker holds, whose results wait or were received, or
    -- that a worker dropped when the context was cancelled, each equally often.
    pub tasks-IsConserved : {n q : ℕ} {s : Pool P A} → Reach n q s → IsConserved s
    unfolding running_pool
    tasks-IsConserved {n} initial = omega (arith, idle_weigh P A n)
    tasks-IsConserved (next r st) = Step-IsConserved st (tasks-IsConserved r)
