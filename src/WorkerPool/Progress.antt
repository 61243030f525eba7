-- ===== src/WorkerPool/Progress.antt =====
-- internal/workerpool/workerpool.go: pools that are stopped, with a receiver that drains.
use jira_connector.Base.{
  ℕ, suc, ◌+◌, ◌*◌, ◌≤◌, ◌<◌, ◌≡◌, refl, ◌∙◌, ap, Bool, true, false, List, [], ◌∷◌, length, All,
  arith, ◌⊎◌, inl, inr, length-append, Bool-cases,
}
use jira_connector.GoError.{external, err}
use jira_connector.WorkerPool.{
  Task, TaskResult, Worker, idle, busy, sending, exited, Pool, Swap, here, there, HasExited, Step,
  submit, hand_over, stop, take_task, process, send, deliver, drained, cancel, quit_idle,
  quit_sending, close_results, receive,
}

abbrev pub one_if : Bool → ℕ
one_if true = 1
one_if false = 0

module _ {P A : Type 0} where
  -- How many steps of work a worker stands for, and how many a pool can still take.
  abbrev pub effort : Worker P A → ℕ
  effort idle = 1
  effort (busy t) = 4
  effort (sending r) = 3
  effort exited = 0

  abbrev pub efforts : List (Worker P A) → ℕ
  efforts [] = 0
  efforts (w ∷ ws) = effort w + efforts ws

  abbrev pub work_left : Pool P A → ℕ
  work_left s = 4 * length s.tasks + efforts s.workers + length s.results + one_if s.results_open

  -- The steps that are neither a Submit nor a Stop nor a cancellation.
  abbrev pub IsWork : {s t : Pool P A} → Step s t → Type 0
  IsWork (submit t s opened room) = ⊥
  IsWork (hand_over t ws s opened e sw) = ⊥
  IsWork (stop s) = ⊥
  IsWork (take_task t ts ws s e sw) = Unit
  IsWork (process t o ws s sw) = Unit
  IsWork (send r ws s room sw) = Unit
  IsWork (deliver r ws s e sw) = Unit
  IsWork (drained ws s e c sw) = Unit
  IsWork (cancel s) = ⊥
  IsWork (quit_idle ws s c sw) = Unit
  IsWork (quit_sending r ws s c sw) = Unit
  IsWork (close_results s opened a) = Unit
  IsWork (receive r rs s e) = Unit

  efforts-Swap :
      {w w' : Worker P A} {ws ws' : List (Worker P A)}
      → Swap w w' ws ws'
      → effort w + efforts ws' ≡ effort w' + efforts ws
  efforts-Swap {w} {w'} (here ws) = omega arith
  efforts-Swap {w} {w'} (there x s) = omega (arith, efforts-Swap s)

  work_left-lt : {s t : Pool P A} (st : Step s t) → IsWork st → work_left t < work_left s
  work_left-lt (submit t s opened room) w = absurd w
  work_left-lt (hand_over t ws s opened e sw) w = absurd w
  work_left-lt (stop s) w = absurd w
  work_left-lt (take_task t ts ws s e sw) w = omega (arith, efforts-Swap sw, ap length e)
  work_left-lt (process t o ws s sw) w = omega (arith, efforts-Swap sw)
  work_left-lt (send r ws s room sw) w =
      omega (arith, efforts-Swap sw, length-append s.results (r ∷ []))
  work_left-lt (deliver r ws s e sw) w = omega (arith, efforts-Swap sw)
  work_left-lt (drained ws s e c sw) w = omega (arith, efforts-Swap sw)
  work_left-lt (cancel s) w = absurd w
  work_left-lt (quit_idle ws s c sw) w = omega (arith, efforts-Swap sw)
  work_left-lt (quit_sending r ws s c sw) w = omega (arith, efforts-Swap sw)
  work_left-lt (close_results s opened a) w = rw opened (omega arith)
  work_left-lt (receive r rs s e) w = omega (arith, ap length e)

  work-keeps : {s t : Pool P A} (st : Step s t) → IsWork st → t.tasks_open ≡ s.tasks_open
  work-keeps (submit t s opened room) w = absurd w
  work-keeps (hand_over t ws s opened e sw) w = absurd w
  work-keeps (stop s) w = absurd w
  work-keeps (take_task t ts ws s e sw) w = refl
  work-keeps (process t o ws s sw) w = refl
  work-keeps (send r ws s room sw) w = refl
  work-keeps (deliver r ws s e sw) w = refl
  work-keeps (drained ws s e c sw) w = refl
  work-keeps (cancel s) w = absurd w
  work-keeps (quit_idle ws s c sw) w = refl
  work-keeps (quit_sending r ws s c sw) w = refl
  work-keeps (close_results s opened a) w = refl
  work-keeps (receive r rs s e) w = refl

  -- The channel of results is closed and drained.
  abbrev pub IsDone : Pool P A → Type 0
  IsDone s = (s.results_open ≡ false) × (s.results ≡ [])

  abbrev pub CanWork : Pool P A → Type 0
  CanWork s = (t : Pool P A) × (st : Step s t) × IsWork st

  -- A worker that has not exited, and a way to replace it by any other.
  abbrev Replaceable : List (Worker P A) → Worker P A → Type 0
  Replaceable ws w = (w' : Worker P A) → (ws' : List (Worker P A)) × Swap w w' ws ws'

  data Found (ws : List (Worker P A)) : Type 0 where
    nobody : All HasExited ws → Found ws
    at_idle : Replaceable ws idle → Found ws
    at_busy : (t : Task P) → Replaceable ws (busy t) → Found ws
    at_sending : (r : TaskResult A) → Replaceable ws (sending r) → Found ws

  later :
      (x : Worker P A) {ws : List (Worker P A)} (w : Worker P A)
      → Replaceable ws w
      → Replaceable (x ∷ ws) w
  later x w r w' = (x ∷ (r w').0, there x (r w').1)

  found_later : {ws : List (Worker P A)} → Found ws → Found (exited ∷ ws)
  found_later (nobody a) = nobody (refl, a)
  found_later (at_idle r) = at_idle (later exited idle r)
  found_later (at_busy t r) = at_busy t (later exited (busy t) r)
  found_later (at_sending a r) = at_sending a (later exited (sending a) r)

  find_active : (ws : List (Worker P A)) → Found ws
  find_active [] = nobody tt
  find_active (idle ∷ ws) = at_idle (λ w'. (w' ∷ ws, here ws))
  find_active (busy t ∷ ws) = at_busy t (λ w'. (w' ∷ ws, here ws))
  find_active (sending r ∷ ws) = at_sending r (λ w'. (w' ∷ ws, here ws))
  find_active (exited ∷ ws) = found_later (find_active ws)

  idle_works :
      (s : Pool P A) (tasks : List (Task P))
      → s.tasks ≡ tasks
      → s.tasks_open ≡ false
      → Replaceable s.workers idle
      → CanWork s
  idle_works s [] e shut r = (_, drained (r exited).0 s e shut (r exited).1, tt)
  idle_works s (t ∷ ts) e shut r = (_, take_task t ts (r (busy t)).0 s e (r (busy t)).1, tt)

  someone_works :
      (s : Pool P A)
      → s.results ≡ []
      → s.tasks_open ≡ false
      → s.results_open ≡ true
      → Found s.workers
      → CanWork s
  someone_works s e shut opened (nobody a) = (_, close_results s opened a, tt)
  someone_works s e shut opened (at_idle r) = idle_works s s.tasks refl shut r
  someone_works s e shut opened (at_busy t r) =
      (_, process t (err (external "")) (r _).0 s (r _).1, tt)
  someone_works s e shut opened (at_sending a r) = (_, deliver a (r idle).0 s e (r idle).1, tt)

  goes_on :
      (s : Pool P A) (results : List (TaskResult A))
      → s.results ≡ results
      → s.tasks_open ≡ false
      → IsDone s ⊎ CanWork s
  goes_on s (r ∷ rs) e shut = inr (_, receive r rs s e, tt)
  goes_on s [] e shut = elim (Bool-cases s.results_open) [
    | inr c ↦ inl (c, e)
    | inl o ↦ inr (someone_works s e shut o (find_active s.workers))
  ]

  -- A run of work, with the number of its steps.
  pub data Works (s : Pool P A) : ℕ → Pool P A → Type 0 where
    rest : Works s 0 s
    work : {k : ℕ} {t u : Pool P A} → Works s k t → (st : Step t u) → IsWork st → Works s (suc k) u

  Works-keeps :
      {s : Pool P A} {k : ℕ} {t : Pool P A}
      → Works s k t
      → (k + work_left t ≤ work_left s) × (t.tasks_open ≡ s.tasks_open)
  Works-keeps rest = (omega arith, refl)
  Works-keeps (work r st w) =
      let (few, opened) = Works-keeps r in
      (omega (arith, work_left-lt st w, few), work-keeps st w ∙ opened)

  -- Once a pool is stopped, whether or not its context is cancelled or its queues have room, every run
  -- of its workers, its closing goroutine and a receiver takes at most as many steps as the work that
  -- is left, and at any moment either the channel of results is closed and drained or one of them can
  -- take a step: they never wait for one another, and come to the end.
  pub stopped_pool_ends :
      {s : Pool P A} {k : ℕ} {t : Pool P A}
      → s.tasks_open ≡ false
      → Works s k t
      → (k ≤ work_left s) × (IsDone t ⊎ CanWork t)
  stopped_pool_ends {t} shut r =
      let (few, opened) = Works-keeps r in
      (omega (arith, few), goes_on t t.results refl (opened ∙ shut))
