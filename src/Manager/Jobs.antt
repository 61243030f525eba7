-- ===== src/Manager/Jobs.antt =====
-- The registry under concurrent callers: every method holds the mutex, so an execution is a sequence
-- of method calls in any order. `SyncProject` launches one goroutine for each started job, which
-- reports progress and ends with one call of `Complete` or `Fail` (sync.go, `SyncProject`).
use jira_connector.Base.{
  ℕ, ◌+◌, ◌-◌, ◌<◌, ◌≤◌, ◌&&◌, if◌then◌else◌, ◌≡◌, ◌≢◌, ◌↔◌, ◌⊎◌, String, true, false, Option, none,
  some, arith, refl, Option-cases, inl, inr,
}
use jira_connector.Base.Text.{eq_iff, str_eq}
use jira_connector.Manager.{
  Manager, Job, StartResult, new_manager, job_state_running, start, set_total, incr_processed,
  complete, fail, modify, finish,
}
use jira_connector.Manager.Invariant.{
  IsRunningFor, IsConsistent, IsFresh, IsUnfinished, new_manager-IsConsistent, start-IsConsistent,
  modify-IsConsistent, finish-IsConsistent, IsQuiet, IsFinal, set_total-IsQuiet, incr-IsQuiet,
  complete-IsFinal, fail-IsFinal,
}

-- The registry, and how many goroutines are at work for the job of an id on a project.
pub record System : Type 0 where
  pub manager : Manager
  pub active : String → String → ℕ

-- One goroutine more, and one less, for this job and project.
abbrev pub more_of : String → String → (String → String → ℕ) → String → String → ℕ
more_of id key f i k = if str_eq id i && str_eq key k then f i k + 1 else f i k

abbrev pub less_of : String → String → (String → String → ℕ) → String → String → ℕ
less_of id key f i k = if str_eq id i && str_eq key k then f i k - 1 else f i k

abbrev pub launch : String → System → Manager × StartResult → System
launch key s (m, r) = record {
  manager = m;
  active = elim r.started [ true ↦ more_of r.sync_id key s.active | false ↦ s.active ];
}

unfoldable pub request : ℕ → String → String → System → System
request now uuid key s = launch key s (start now uuid key s.manager)

abbrev pub leave : String → String → Manager → System → System
leave id key m s = record { manager = m; active = less_of id key s.active }

pub data Step : System → System → Type 0 where
  call_start :
      (now : ℕ) (uuid key : String) (s : System)
      → IsFresh uuid s.manager
      → Step s (request now uuid key s)
  report_total :
      (id key : String) (total : ℕ) (s : System)
      → 0 < s.active id key
      → Step s (record s { manager = set_total id total s.manager })
  report_progress :
      (id key : String) (s : System)
      → 0 < s.active id key
      → Step s (record s { manager = incr_processed id s.manager })
  succeed :
      (now : ℕ) (id key : String) (s : System)
      → 0 < s.active id key
      → Step s (leave id key (complete now id s.manager) s)
  abort :
      (now : ℕ) (id key msg : String) (s : System)
      → 0 < s.active id key
      → Step s (leave id key (fail now id msg s.manager) s)

abbrev pub idle : System
idle = record { manager = new_manager; active = λ i k. 0 }

pub data Reach : System → Type 0 where
  here : Reach idle
  next : {s t : System} → Reach s → Step s t → Reach t

-- Every goroutine works for a running job on its project, alone, and every running job has its
-- goroutine.
pub record IsSound (s : System) : Type 0 where
  pub consistent : IsConsistent s.manager
  pub served : (i k : String) → 0 < s.active i k → IsRunningFor k (s.manager.by_id i)
  pub alone : (i k : String) → s.active i k ≤ 1
  pub working :
      (i : String) (j : Job)
      → s.manager.by_id i ≡ some j
      → j.state ≡ job_state_running
      → 0 < s.active i j.project_key

request-IsSound :
    (now : ℕ) (uuid key : String) (s : System)
    → IsFresh uuid s.manager
    → IsSound s
    → IsSound (request now uuid key s)
unfolding request start
request-IsSound now uuid key s f h = record {
  consistent = start-IsConsistent now uuid key s.manager f h.consistent;
  served = λ i k e. ground (arith, h.served i k, eq_iff uuid i, eq_iff key k);
  alone = λ i k. ground (arith, h.alone i k, h.served i k, eq_iff uuid i, eq_iff key k);
  working = λ i j e r. ground (arith, h.working i j, eq_iff uuid i, eq_iff key j.project_key);
}

unfinished :
    (s : System) (i k : String) → IsSound s → 0 < s.active i k → IsUnfinished (s.manager.by_id i)
unfinished s i k h e = ground (arith, h.served i k e)

modify-IsSound :
    (id : String) (f : Job → Job) (s : System) (o : Option Job)
    → s.manager.by_id id ≡ o
    → IsQuiet f
    → IsSound s
    → IsSound (record s { manager = modify id f s.manager o })
modify-IsSound id f s none e q h = h
modify-IsSound id f s (some o) e q h = record {
  consistent = modify-IsConsistent id f s.manager (some o) e q h.consistent;
  served = λ i k p. ground (arith, h.served i k, q.project_key o, q.state o, eq_iff id i);
  alone = h.alone;
  working = λ i j p r.
      ground (arith, h.working i j, h.working id o, q.project_key o, q.state o, eq_iff id i);
}

leave-IsSound :
    (id k : String) (f : Job → Job) (s : System) (o : Option Job)
    → s.manager.by_id id ≡ o
    → 0 < s.active id k
    → IsFinal f
    → IsSound s
    → IsSound (leave id k (finish id f s.manager o) s)
leave-IsSound id k f s none e a q h = absurd (ground (arith, h.served id k a))
leave-IsSound id k f s (some o) e a q h = record {
  consistent =
      finish-IsConsistent id f s.manager (some o) e (ground (arith, h.served id k a)) q
        h.consistent;
  served =
      λ i l p. ground (arith, h.served i l, h.served id k a, h.alone i l, eq_iff id i, eq_iff k l);
  alone = λ i l. ground (arith, h.alone i l);
  working = λ i j p r. ground (arith, h.working i j, q.state o, eq_iff id i);
}

idle-IsSound : IsSound idle
idle-IsSound = record {
  consistent = new_manager-IsConsistent;
  served = λ i k e. absurd (omega (arith, e));
  alone = λ i k. omega arith;
  working = λ i j e r. cc;
}

pub Step-IsSound : {s t : System} → Step s t → IsSound s → IsSound t
unfolding set_total incr_processed complete fail
Step-IsSound (call_start now uuid key s f) h = request-IsSound now uuid key s f h
Step-IsSound (report_total id key total s a) h =
    modify-IsSound id _ s (s.manager.by_id id) refl (set_total-IsQuiet total) h
Step-IsSound (report_progress id key s a) h =
    modify-IsSound id _ s (s.manager.by_id id) refl incr-IsQuiet h
Step-IsSound (succeed now id key s a) h =
    leave-IsSound id key _ s (s.manager.by_id id) refl a (complete-IsFinal now) h
Step-IsSound (abort now id key msg s a) h =
    leave-IsSound id key _ s (s.manager.by_id id) refl a (fail-IsFinal now msg) h

pub Reach-IsSound : {s : System} → Reach s → IsSound s
Reach-IsSound here = idle-IsSound
Reach-IsSound (next r st) = Step-IsSound st (Reach-IsSound r)

registered :
    (s : System) (i k : String) → IsSound s → 0 < s.active i k → s.manager.by_key k ≡ some i
registered s i k h a = elim (Option-cases (s.manager.by_id i)) [
  | inl e ↦ absurd (ground (arith, h.served i k a))
  | inr (j, e) ↦ ground (arith, h.served i k a, h.consistent.indexed i j)
]

-- At every reachable moment at most one goroutine is at work on a project: any two that are belong to
-- one job, and the goroutines of that job on that project are one.
pub one_sync_per_project :
    {s : System}
    → Reach s
    → (i j k : String) → 0 < s.active i k
    → 0 < s.active j k
    → (i ≡ j) × (s.active i k ≡ 1)
one_sync_per_project {s} r i j k a b =
    let h = Reach-IsSound r in
    (cc (registered s i k h a, registered s j k h b), omega (arith, a, h.alone i k))

at_work : (s : System) (i k : String) → IsSound s → s.manager.by_key k ≡ some i → 0 < s.active i k
at_work s i k h e = elim (Option-cases (s.manager.by_id i)) [
  | inl n ↦ absurd (ground (arith, h.consistent.running k i e))
  | inr (j, p) ↦ ground (arith, h.consistent.running k i e, h.working i j)
]

-- At every reachable moment the index by key names, for each project, exactly the job whose goroutine
-- is at work on it.
pub by_key-iff-active :
    {s : System} → Reach s → (k i : String) → (s.manager.by_key k ≡ some i) ↔ (0 < s.active i k)
by_key-iff-active {s} r k i = (at_work s i k (Reach-IsSound r), registered s i k (Reach-IsSound r))

-- While a goroutine is at work on a project, a call of Start for that project returns its id with
-- Started = false, and SyncProject launches nothing: for every job and project as many goroutines are
-- at work afterwards as before.
pub start_deduplicates :
    {s : System}
    → Reach s
    → (now : ℕ) (uuid i k : String) → 0 < s.active i k
    → ((start now uuid k s.manager).1 ≡ record { sync_id = i; started = false })
      × ((request now uuid k s).active ≡ s.active)
unfolding start request
start_deduplicates {s} r now uuid i k a =
    let e = registered s i k (Reach-IsSound r) a in (rw e refl, rw e refl)

not_at_work :
    (s : System) (id k i : String) (j : Job)
    → IsSound s
    → 0 < s.active id k
    → s.manager.by_id i ≡ some j
    → j.state ≢ job_state_running
    → id ≢ i
not_at_work s id k i j h a e f q = ground (arith, h.served id k a)

-- A job that has finished at some reachable moment is not changed by any further step of any
-- goroutine or caller: its record stays as it is, or a Start evicts it.
pub finished_is_final :
    {s t : System}
    → Reach s
    → (i : String) (j : Job) → s.manager.by_id i ≡ some j
    → j.state ≢ job_state_running
    → Step s t
    → (t.manager.by_id i ≡ some j) ⊎ (t.manager.by_id i ≡ none)
unfolding request start set_total incr_processed complete fail
finished_is_final r i j e f (call_start now uuid key s fresh) = ground (arith, eq_iff uuid i)
finished_is_final r i j e f (report_total id key total s a) =
    ground (arith, eq_iff id i, not_at_work s id key i j (Reach-IsSound r) a e f)
finished_is_final r i j e f (report_progress id key s a) =
    ground (arith, eq_iff id i, not_at_work s id key i j (Reach-IsSound r) a e f)
finished_is_final r i j e f (succeed now id key s a) =
    ground (arith, eq_iff id i, not_at_work s id key i j (Reach-IsSound r) a e f)
finished_is_final r i j e f (abort now id key msg s a) =
    ground (arith, eq_iff id i, not_at_work s id key i j (Reach-IsSound r) a e f)
