-- ===== src/Sync/Job/Refinement.antt =====
-- internal/service/sync/sync.go: the service against the abstract registry of Manager.Jobs, in which
-- a goroutine only reports progress on its own job and then ends it.
use jira_connector.Base.Text.{eq_refl, append}
use jira_connector.Base.{
  ◌<◌, ℕ, zero, suc, ◌≡◌, refl, subst, String, Bool, true, false, Option, none, some, List, [], ◌∷◌,
  arith, Option-cases, inl, inr, Bool-cases, length,
}
use jira_connector.Base.Int.{ℤ, uint64, leb_ℤ, int64, ◌+ℤ◌, pos}
use jira_connector.GoError.{GoError, error_text, Result, ok, err}
use jira_connector.Jira.{Issue, SearchResponse}
use jira_connector.Manager.{
  Manager, Job, JobSnapshot, job_state_completed, job_state_failed, complete, fail, status,
  snapshot,
}
use jira_connector.Manager.Jobs.{
  System, Reach, next, report_total, report_progress, succeed, abort, leave, Reach-IsSound,
}
use jira_connector.Sync.{Service, default_page_size}
use jira_connector.Sync.Paging
use jira_connector.Sync.Paging.{
  Calls, Progress, Round, finished, more, Answer, advance, process_some, answered, polled, follow,
  pages, run_sync,
}
use jira_connector.Sync.Projects.{finish_job}
use jira_connector.Sync.Job.Reports.{Reports, still, total, progress, Reports-trans}
use jira_connector.Sync.Job.{run_job}

-- A processing of pages that only reports.
abbrev pub OnlyReports : {W : Type 0} → String → Calls W → Type 0
OnlyReports {W} id calls =
    (page : List Issue) (s : Service) (w : W)
    → Reports id s.manager (calls.process_page page s w).1.manager

module _ {W : Type 0} (calls : Calls W) (id jql : String) (reports : OnlyReports id calls) where
  abbrev RoundReports : Manager → Round W → Type 0
  RoundReports m (finished e p) = Reports id m p.service.manager
  RoundReports m (more a p) = Reports id m p.service.manager

  process_some-Reports :
      (page : List Issue) (s : Service) (w : W)
      → Reports id s.manager (process_some calls id jql page s w).1.manager
  process_some-Reports [] s w = still
  process_some-Reports (i ∷ is') s w = reports (i ∷ is') s w

  report_total-Reports :
      (set : Bool) (n : ℤ) (s : Service)
      → Reports id s.manager (Paging.report_total calls id jql set n s).manager
  report_total-Reports true n s = still
  report_total-Reports false n s = total (uint64 n) still

  advance-Reports :
      (m : Manager) (a n : ℤ) (count : ℕ) (r : Option GoError × Service × W)
      → Reports id m r.1.manager
      → RoundReports m (advance calls id jql a n count r)
  advance-Reports m a n count (some e, s, w) h = h
  advance-Reports m a n count (none, s, w) h =
      elim (Bool-cases (leb_ℤ n (int64 (a +ℤ pos count)))) [ inl e ↦ rw e h | inr e ↦ rw e h ]

  answered-Reports :
      (a : ℤ) (set : Bool) (s : Service) (r : Result SearchResponse × W)
      → RoundReports s.manager (answered calls id jql a set s r)
  answered-Reports a set s (err e, w) = still
  answered-Reports a set s (ok resp, w) =
      advance-Reports s.manager a resp.total (length resp.issues) _ (
        Reports-trans (report_total-Reports set resp.total s)
          (process_some-Reports resp.issues _ w))

  polled-Reports :
      (a : ℤ) (set : Bool) (s : Service) (w : W) (o : Option GoError)
      → RoundReports s.manager (polled calls id jql a set s w o)
  polled-Reports a set s w (some e) = still
  polled-Reports a set s w none =
      answered-Reports a set s (calls.search jql a (pos default_page_size) w)

  abbrev AnswerReports : Manager → Answer W → Type 0
  AnswerReports m none = Unit
  AnswerReports m (some (e, p)) = Reports id m p.service.manager

  AnswerReports-trans :
      (m m' : Manager) (r : Answer W) → Reports id m m' → AnswerReports m' r → AnswerReports m r
  AnswerReports-trans m m' none h k = tt
  AnswerReports-trans m m' (some (e, p)) h k = Reports-trans h k

  follow-Reports :
      (m : Manager) (go : ℤ → Progress W → Answer W) (r : Round W)
      → RoundReports m r
      → ((a : ℤ) (p : Progress W) → AnswerReports p.service.manager (go a p))
      → AnswerReports m (follow calls id jql go r)
  follow-Reports m go (finished e p) h k = h
  follow-Reports m go (more a p) h k = AnswerReports-trans m _ _ h (k a p)

  pages-Reports :
      (fuel : ℕ) (a : ℤ) (set : Bool) (p : Progress W)
      → AnswerReports p.service.manager (pages calls id jql fuel a set p)
  unfolding pages Paging.round
  pages-Reports zero a set p = tt
  pages-Reports (suc fuel) a set p =
      follow-Reports p.service.manager _ _ (polled-Reports a set p.service p.world _)
        (λ b p'. pages-Reports fuel b true p')

-- The reports of a job are steps of the abstract registry.
Reports-Reach :
    (id key : String) {s : System} {m : Manager}
    → Reach s
    → 0 < s.active id key
    → Reports id s.manager m
    → Reach (record s { manager = m })
Reports-Reach id key r a still = r
Reports-Reach id key r a (total n h) = next (Reports-Reach id key r a h) (report_total id key n _ a)
Reports-Reach id key r a (progress h) =
    next (Reports-Reach id key r a h) (report_progress id key _ a)

finish_job-Reach :
    {s : System} (now : ℕ) (id key : String) (e : Option GoError) (v : Service)
    → Reach s
    → 0 < s.active id key
    → v.manager ≡ s.manager
    → Reach (leave id key (finish_job now id e v).manager s)
unfolding finish_job
finish_job-Reach {s} now id key none v r a same = rw same (next r (succeed now id key s a))
finish_job-Reach {s} now id key (some x) v r a same =
    rw same (next r (abort now id key (error_text x) s a))

-- How a job whose runSync returned `e` is reported.
abbrev pub Ended : Option GoError → JobSnapshot → Type 0
Ended none snap = snap.state ≡ job_state_completed
Ended (some e) snap = (snap.state ≡ job_state_failed) × (snap.err_msg ≡ error_text e)

finish_job-Ended :
    (now : ℕ) (id : String) (e : Option GoError) (v : Service) (j : Job)
    → v.manager.by_id id ≡ some j
    → (snap : JobSnapshot) × (status id (finish_job now id e v).manager ≡ some snap) × Ended e snap
unfolding finish_job status complete fail
finish_job-Ended now id none v j found = (
  snapshot (record j { state = job_state_completed; finished_at = now }),
  rw (found, eq_refl) refl,
  refl,
)
finish_job-Ended now id (some x) v j found = (
  snapshot (record j { state = job_state_failed; err_msg = error_text x; finished_at = now }),
  rw (found, eq_refl) refl,
  (refl, refl),
)

active_job :
    (s : System) (id key : String)
    → Reach s
    → 0 < s.active id key
    → (j : Job) × (s.manager.by_id id ≡ some j)
active_job s id key r a = elim (Option-cases (s.manager.by_id id)) [
  | inl e ↦ absurd (ground (arith, (Reach-IsSound r).served id key a))
  | inr (j, e) ↦ (j, e)
]

-- The goroutine of an active job, from a reachable state of the registry and on processing of pages
-- that only reports, does to the registry what the steps of Manager.Jobs do: if runSync returns, the
-- goroutine ends in a reachable state in which it is no longer active, and Status reports its job as
-- Completed if runSync returned no error, and else as Failed with the text of that error.
pub run_job-refines :
    {W : Type 0} (calls : Calls W) (id key : String) {sys : System}
    → OnlyReports id calls
    → Reach sys
    → 0 < sys.active id key
    → (fuel now : ℕ) (p p' : Progress W) (e : Option GoError) → p.service.manager ≡ sys.manager
    → run_sync calls fuel id key p ≡ some (e, p')
    → (q : Progress W) × (run_job calls fuel now id key p ≡ some q)
      × (q.world ≡ p'.world)
      × Reach (leave id key q.service.manager sys)
      × (snap : JobSnapshot) × (status id q.service.manager ≡ some snap)
      × Ended e snap
unfolding run_job run_sync
run_job-refines calls id key {sys} only r a fuel now p p' e same ran =
    let m = p'.service.manager in
    let told : Reports id sys.manager m =
      subst (λ x. Reports id x m) same
        (subst (λ x. AnswerReports calls id (append "project=" key) only p.service.manager x) ran
          (pages-Reports calls id (append "project=" key) only fuel (pos 0) false p)) in
    let r' = Reports-Reach id key r a told in
    let (j, found) = active_job (record sys { manager = m }) id key r' a in
    let (snap, shown, verdict) = finish_job-Ended now id e p'.service j found in
    (
      record p' { service = finish_job now id e p'.service },
      rw ran refl,
      refl,
      finish_job-Reach now id key e p'.service r' a refl,
      snap,
      shown,
      verdict,
    )
