-- ===== src/Sync/Storage/Jobs.antt =====
-- internal/service/sync/sync.go: a whole job, from the searches of its pages to the tables.
use mathlib.Core.List.{Perm, map-append}
use mathlib.Core.List.Perm
use jira_connector.Base.{
  ℕ, suc, ◌^◌, ◌<◌, ◌≡◌, refl, sym, ap, subst, ◌∙◌, String, Option, none, some, List, [], ◌∷◌, ◌++◌,
  map, All, length, take, drop,
}
use jira_connector.Base.Int.{ℤ, pos}
use jira_connector.GoError.{GoError, Result, ok}
use jira_connector.Jira.{Issue, SearchResponse}
use jira_connector.Manager.{JobSnapshot, job_state_completed, status}
use jira_connector.Manager.Jobs.{System, Reach, leave}
use jira_connector.Mapper.{Codec}
use jira_connector.Repo.{db}
use jira_connector.Repo.Postgres.{Tables, Server, postgres}
use jira_connector.Sync.{Service}
use jira_connector.Sync.Authors.{ProcessedIssue}
use jira_connector.Sync.Fetching.{
  PoolRun, RunPool, page_tasks, collect, fetch_page_issues, waited, commit_fetched, process_page,
  sync_calls,
}
use jira_connector.Sync.Paging.{Calls, Progress}
use jira_connector.Sync.Paging.Coverage.{IsHonest}
use jira_connector.Sync.Job.{run_job}
use jira_connector.Sync.Job.Reports.{process_page-Reports}
use jira_connector.Sync.Job.Refinement.{OnlyReports}
use jira_connector.Sync.Job.Completion.{run_job-completes}
use jira_connector.Sync.Storage.{store, store_all, IsStorable}
use jira_connector.Sync.Storage.Pages.{commit_page-stores}

module _ (codec : Codec) where
  open codec use {Time}

  store_all-append :
      (l m : List ProcessedIssue) (t : Tables Time)
      → store_all codec (l ++ m) t ≡ store_all codec m (store_all codec l t)
  store_all-append [] m t = refl
  store_all-append (i ∷ l) m t = store_all-append l m (store codec i t)

  store_all-project :
      (l : List ProcessedIssue) (t : Tables Time) → (store_all codec l t).project ≡ t.project
  store_all-project [] t = refl
  store_all-project (i ∷ l) t = store_all-project l (store codec i t)

-- A server of Jira that holds `items` throughout and answers each search with at least one more of
-- them and with their number, and a pool that takes the tasks of any part of them and returns, in any
-- order, what fetching each of its issues gives, which can be stored in tables like `t`.
pub record IsServing (codec : Codec) {W : Type 0} (ctx_err : W → Option GoError)
    (search : String → ℤ → ℤ → W → Result SearchResponse × W) (run : RunPool W) (project_id : ℤ)
    (fetched : Issue → ProcessedIssue) (items : List Issue) (t : Tables codec.Time) : Type 0 where
  pub uncancelled : (w : W) → ctx_err w ≡ none
  pub page_size : ℕ → W → ℕ
  pub page_size-pos : (a : ℕ) (w : W) → 0 < page_size a w
  pub reply : ℕ → W → SearchResponse
  pub reply_issues : (a : ℕ) (w : W) → (reply a w).issues ≡ take (page_size a w) (drop a items)
  pub reply_total : (a : ℕ) (w : W) → (reply a w).total ≡ pos (length items)
  pub answers : (jql : String) (a : ℕ) (w : W) → (search jql (pos a) (pos 50) w).0 ≡ ok (reply a w)
  pub takes :
      (n a : ℕ) (w : W) → (run (page_tasks project_id (take n (drop a items))) w).0.refused ≡ none
  pub fetches :
      (n a : ℕ) (w : W)
      → Perm
          (collect (run (page_tasks project_id (take n (drop a items))) w).0.results)
          (map fetched (take n (drop a items)))
  pub storable :
      (n a : ℕ) (w : W)
      → All
          (IsStorable codec t.project)
          (collect (run (page_tasks project_id (take n (drop a items))) w).0.results)

-- The tables hold `t` and besides the issues `xs` as they were fetched, stored in some order.
abbrev pub Holds :
    (codec : Codec)
    → (Issue → ProcessedIssue)
    → Tables codec.Time
    → List Issue
    → Server codec.Time
    → Type 0
Holds codec fetched t xs d =
    (l : List ProcessedIssue) × Perm l (map fetched xs) × (d.committed ≡ store_all codec l t)

module _ (codec : Codec) {W : Type 0} (ctx_err : W → Option GoError)
    (search : String → ℤ → ℤ → W → Result SearchResponse × W) (run : RunPool W) (project_id : ℤ)
    (fetched : Issue → ProcessedIssue) (items : List Issue) (t : Tables codec.Time)
    (h : IsServing codec ctx_err search run project_id fetched items t) (id : String) where
  open codec use {Time}

  abbrev pub job_calls : Calls (W × Server Time)
  job_calls = sync_calls codec postgres run ctx_err search db id project_id

  -- A page that has been fetched is committed on top of what the tables hold.
  commit_fetched-Holds :
      (xs page : List Issue) (collected : List ProcessedIssue) (s : Service) (w : W)
      (d : Server Time)
      → Perm collected (map fetched page)
      → All (IsStorable codec t.project) collected
      → Holds codec fetched t xs d
      → let r = commit_fetched codec postgres run db id s (ok collected, w) d in
        (r.0 ≡ none) × Holds codec fetched t (xs ++ page) r.3
  commit_fetched-Holds xs page collected s w d found storable (l, perm, held) =
      let (fine, counters, stored) =
        commit_page-stores codec t.project id collected s d storable
          (ap (λ u. u.project) held ∙ store_all-project codec l t) in
      (
        fine,
        (
          l ++ collected,
          subst (Perm (l ++ collected)) (sym (map-append fetched xs page)) (Perm.append perm found),
          stored ∙ ap (store_all codec collected) held ∙ sym (store_all-append codec l collected t),
        ),
      )

  waited-Holds :
      (xs page : List Issue) (s : Service) (p : PoolRun) (w : W) (d : Server Time)
      → p.refused ≡ none
      → Perm (collect p.results) (map fetched page)
      → All (IsStorable codec t.project) (collect p.results)
      → Holds codec fetched t xs d
      → let r = commit_fetched codec postgres run db id s (waited p.refused p.results, w) d in
        (r.0 ≡ none) × Holds codec fetched t (xs ++ page) r.3
  waited-Holds xs page s p w d taken found storable held =
      rw taken (commit_fetched-Holds xs page (collect p.results) s w d found storable held)

  job_calls-IsHonest : IsHonest job_calls (λ xs x. Holds codec fetched t xs x.1) items
  unfolding process_page fetch_page_issues
  job_calls-IsHonest = record {
    uncancelled = λ x. h.uncancelled x.0;
    page_size = λ a x. h.page_size a x.0;
    page_size-pos = λ a x. h.page_size-pos a x.0;
    reply = λ a x. h.reply a x.0;
    reply_issues = λ a x. h.reply_issues a x.0;
    reply_total = λ a x. h.reply_total a x.0;
    answers = λ jql a x. h.answers jql a x.0;
    search_keeps = λ jql a xs x held. held;
    processes = λ n a xs s x held.
        let p = run (page_tasks project_id (take n (drop a items))) x.0 in
        waited-Holds xs (take n (drop a items)) s p.0 p.1 x.1 (h.takes n a x.0) (h.fetches n a x.0)
          (h.storable n a x.0) held;
  }

  job_calls-OnlyReports : OnlyReports id job_calls
  job_calls-OnlyReports page s x =
      process_page-Reports codec postgres run id db project_id page s x.0 x.1

  -- The job of a project from its first search to the tables: on a database that stores `t`, with a
  -- Jira server of fewer than 2 ^ 62 issues that answers honestly, a pool that fetches every issue of a
  -- page and issues that can be stored, the goroutine ends within one search more than there are
  -- issues, the database then stores `t` with every issue stored once, in some order, and Status
  -- reports the job as Completed.
  pub sync_job-stores :
      {sys : System} (key : String)
      → length items < 2 ^ 62
      → Reach sys
      → 0 < sys.active id key
      → (now : ℕ) (s : Service) (w : W) (d : Server Time) → s.manager ≡ sys.manager
      → d.committed ≡ t
      → (q : Progress (W × Server Time)) × (run_job job_calls
            (suc (length items))
            now
            id
            key
            (record { service = s; world = (w, d) })
          ≡ some q)
        × Holds codec fetched t items q.world.1
        × Reach (leave id key q.service.manager sys)
        × (snap : JobSnapshot) × (status id q.service.manager ≡ some snap)
        × (snap.state ≡ job_state_completed)
  sync_job-stores key few r a now s w d same stored =
      run_job-completes job_calls (λ xs x. Holds codec fetched t xs x.1) items id key
        job_calls-IsHonest few job_calls-OnlyReports r a now []
        (record { service = s; world = (w, d) }) same ([], Perm.rfl, stored)
