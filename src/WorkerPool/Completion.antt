-- ===== src/WorkerPool/Completion.antt =====
-- internal/workerpool/workerpool.go: pools that come to their end without a cancellation.
use jira_connector.Base.{
  ℕ, zero, suc, ◌≡◌, ◌≢◌, refl, ap, String, false, List, [], ◌∷◌, length, All, arith, ◌⊎◌, inl, inr,
  ◌<◌,
}
use jira_connector.WorkerPool.{
  Task, Worker, exited, Pool, running_pool, idle_workers, Swap, here, there, HasExited, Step,
  submit, hand_over, stop, take_task, process, send, deliver, drained, cancel, quit_idle,
  quit_sending, close_results, receive, Reach, initial, next,
}
use jira_connector.WorkerPool.Delivery.{
  weigh_ids, weigh_tasks, weigh_results, weigh-exited, tasks-IsConserved,
}
use jira_connector.WorkerPool.Channels.{Reach-IsBounded, idle-active, busy-active, sending-active}

cons_nil : {P : Type 0} {t : Task P} {ts us : List (Task P)} → us ≡ t ∷ ts → us ≡ [] → ⊥
cons_nil e f = cc

module _ {P A : Type 0} where
  -- Some worker has exited.
  abbrev pub SomeExited : List (Worker P A) → Type 0
  SomeExited [] = ⊥
  SomeExited (w ∷ ws) = HasExited w ⊎ SomeExited ws

  SomeExited-Swap :
      {w w' : Worker P A} {ws ws' : List (Worker P A)}
      → w' ≢ exited
      → Swap w w' ws ws'
      → SomeExited ws'
      → SomeExited ws
  SomeExited-Swap active (here ws) (inl e) = absurd (active e)
  SomeExited-Swap active (here ws) (inr h) = inr h
  SomeExited-Swap active (there x s) (inl e) = inl e
  SomeExited-Swap active (there x s) (inr h) = inr (SomeExited-Swap active s h)

  -- Unless the context is cancelled, nothing is dropped, and a worker exits only where the tasks are
  -- closed and done.
  pub record IsCalm (s : Pool P A) : Type 0 where
    pub nothing_dropped : s.dropped ≡ []
    pub done : SomeExited s.workers → (s.tasks ≡ []) × (s.tasks_open ≡ false)

  gone_on :
      {w w' : Worker P A} {ws ws' : List (Worker P A)} {B : Type 0}
      → w' ≢ exited
      → Swap w w' ws ws'
      → (SomeExited ws → B)
      → SomeExited ws'
      → B
  gone_on active sw h e = h (SomeExited-Swap active sw e)

  Step-IsCalm : {s t : Pool P A} → Step s t → t.cancelled ≡ false → IsCalm s → IsCalm t
  Step-IsCalm (submit t s opened room) calm h = record {
    nothing_dropped = h.nothing_dropped;
    done = λ e. cc ((h.done e).1, opened);
  }
  Step-IsCalm (hand_over t ws s opened e sw) calm h = record {
    nothing_dropped = h.nothing_dropped;
    done = λ x. cc ((gone_on (busy-active t) sw h.done x).1, opened);
  }
  Step-IsCalm (stop s) calm h = record {
    nothing_dropped = h.nothing_dropped;
    done = λ e. ((h.done e).0, refl);
  }
  Step-IsCalm (take_task t ts ws s e sw) calm h = record {
    nothing_dropped = h.nothing_dropped;
    done = λ x. absurd (cons_nil e (gone_on (busy-active t) sw h.done x).0);
  }
  Step-IsCalm (process t o ws s sw) calm h = record {
    nothing_dropped = h.nothing_dropped;
    done = gone_on (sending-active _) sw h.done;
  }
  Step-IsCalm (send r ws s room sw) calm h = record {
    nothing_dropped = h.nothing_dropped;
    done = gone_on idle-active sw h.done;
  }
  Step-IsCalm (deliver r ws s e sw) calm h = record {
    nothing_dropped = h.nothing_dropped;
    done = gone_on idle-active sw h.done;
  }
  Step-IsCalm (drained ws s e c sw) calm h = record {
    nothing_dropped = h.nothing_dropped;
    done = λ x. (e, c);
  }
  Step-IsCalm (cancel s) calm h = absurd (ground (arith, calm))
  Step-IsCalm (quit_idle ws s c sw) calm h = absurd (ground (arith, calm, c))
  Step-IsCalm (quit_sending r ws s c sw) calm h = absurd (ground (arith, calm, c))
  Step-IsCalm (close_results s opened a) calm h = record {
    nothing_dropped = h.nothing_dropped;
    done = h.done;
  }
  Step-IsCalm (receive r rs s e) calm h = record {
    nothing_dropped = h.nothing_dropped;
    done = h.done;
  }

  Step-calm : {s t : Pool P A} → Step s t → t.cancelled ≡ false → s.cancelled ≡ false
  Step-calm (submit t s opened room) e = e
  Step-calm (hand_over t ws s opened p sw) e = e
  Step-calm (stop s) e = e
  Step-calm (take_task t ts ws s p sw) e = e
  Step-calm (process t o ws s sw) e = e
  Step-calm (send r ws s room sw) e = e
  Step-calm (deliver r ws s p sw) e = e
  Step-calm (drained ws s p c sw) e = e
  Step-calm (cancel s) e = absurd (ground (arith, e))
  Step-calm (quit_idle ws s c sw) e = e
  Step-calm (quit_sending r ws s c sw) e = e
  Step-calm (close_results s opened a) e = e
  Step-calm (receive r rs s p) e = e

module _ (P A : Type 0) where
  idle_none_exited : (n : ℕ) → SomeExited (idle_workers {P = P} {A = A} n) → ⊥
  idle_none_exited zero h = h
  idle_none_exited (suc n) (inl e) = idle-active e
  idle_none_exited (suc n) (inr h) = idle_none_exited n h

  idle-length : (n : ℕ) → length (idle_workers {P = P} {A = A} n) ≡ n
  idle-length zero = refl
  idle-length (suc n) = ap suc (idle-length n)

module _ {P A : Type 0} where
  Reach-IsCalm : {n q : ℕ} {s : Pool P A} → Reach n q s → s.cancelled ≡ false → IsCalm s
  unfolding running_pool
  Reach-IsCalm {n} initial e = record {
    nothing_dropped = refl;
    done = λ x. absurd (idle_none_exited P A n x);
  }
  Reach-IsCalm (next r st) e = Step-IsCalm st e (Reach-IsCalm r (Step-calm st e))

  Swap-length :
      {w w' : Worker P A} {ws ws' : List (Worker P A)} → Swap w w' ws ws' → length ws' ≡ length ws
  Swap-length (here ws) = refl
  Swap-length (there x s) = ap suc (Swap-length s)

  Step-length : {s t : Pool P A} → Step s t → length t.workers ≡ length s.workers
  Step-length (submit t s opened room) = refl
  Step-length (hand_over t ws s opened p sw) = Swap-length sw
  Step-length (stop s) = refl
  Step-length (take_task t ts ws s p sw) = Swap-length sw
  Step-length (process t o ws s sw) = Swap-length sw
  Step-length (send r ws s room sw) = Swap-length sw
  Step-length (deliver r ws s p sw) = Swap-length sw
  Step-length (drained ws s p c sw) = Swap-length sw
  Step-length (cancel s) = refl
  Step-length (quit_idle ws s c sw) = Swap-length sw
  Step-length (quit_sending r ws s c sw) = Swap-length sw
  Step-length (close_results s opened a) = refl
  Step-length (receive r rs s p) = refl

  Reach-length : {n q : ℕ} {s : Pool P A} → Reach n q s → length s.workers ≡ n
  unfolding running_pool
  Reach-length {n} initial = idle-length P A n
  Reach-length (next r st) = omega (arith, Step-length st, Reach-length r)

  some_of_All : (ws : List (Worker P A)) → 0 < length ws → All HasExited ws → SomeExited ws
  some_of_All [] p a = absurd (omega arith)
  some_of_All (w ∷ ws) p a = inl a.0

-- Unless the context is cancelled, a pool with at least one worker whose channel of results is closed
-- and drained has given back exactly one result for each submitted task, under its id: in every
-- weight of ids the received results agree with the submitted tasks.
pub every_task_answered :
    {P A : Type 0} {n q : ℕ} {s : Pool P A} (weight : String → ℕ)
    → Reach n q s
    → 0 < n
    → s.cancelled ≡ false
    → s.results_open ≡ false
    → s.results ≡ []
    → weigh_ids weight s.submitted ≡ weigh_results weight s.received
every_task_answered {s} weight r some_workers calm closed empty =
    let quiet = (Reach-IsBounded r).quiet closed in
    let c = Reach-IsCalm r calm in
    let gone = c.done (some_of_All s.workers (omega (arith, some_workers, Reach-length r)) quiet) in
    omega (
      arith,
      tasks-IsConserved weight r,
      ap (weigh_tasks weight) gone.0,
      weigh-exited weight s.workers quiet,
      ap (weigh_results weight) empty,
      ap (weigh_ids weight) c.nothing_dropped,
    )
