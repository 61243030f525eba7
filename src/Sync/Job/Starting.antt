-- ===== src/Sync/Job/Starting.antt =====
-- internal/service/sync/sync.go, `SyncProject`: its calls of the registry against Manager.Jobs.
use jira_connector.Base.{ℕ, ◌≡◌, refl, sym, subst, String, Option, none, some, Bool-cases, inl, inr}
use jira_connector.Base.Int.{ℤ}
use jira_connector.GoError.{Result, ok, err}
use jira_connector.Manager.{Manager, StartResult, start}
use jira_connector.Manager.Invariant.{IsFresh}
use jira_connector.Manager.Jobs.{System, Reach, next, call_start, launch, request, more_of}
use jira_connector.Repo.{Database}
use jira_connector.Sync.{Service}
use jira_connector.Sync.Projects.{
  Listing, Repository, postgres, foreign, start_result, start_ensured, ensure_project, sync_project,
}

-- The goroutines after a call for `key`, in a registry that the call left as `m`.
abbrev pub with_launched : Option (String × ℤ) → String → Manager → System → System
with_launched none key m sys = record { manager = m; active = sys.active }
with_launched (some (id, project_id)) key m sys = record {
  manager = m;
  active = more_of id key sys.active;
}

module _ (key : String) (sys : System) where
  start_result-launch :
      (s : Service) (project_id : ℤ) (m : Manager) (res : StartResult)
      → with_launched
          (start_result s project_id (m, res)).launched
          key
          (start_result s project_id (m, res)).service.manager
          sys
        ≡ launch key sys (m, res)
  start_result-launch s project_id m res = elim (Bool-cases res.started) [
    | inl e ↦ rw e refl
    | inr e ↦ rw e refl
  ]

  start_ensured-Reach :
      (now : ℕ) (uuid : String) (s : Service) (r : Result ℤ)
      → Reach sys
      → IsFresh uuid sys.manager
      → s.manager ≡ sys.manager
      → Reach (
          with_launched
            (start_ensured now uuid key s r).launched
            key
            (start_ensured now uuid key s r).service.manager
            sys)
  unfolding request
  start_ensured-Reach now uuid s (err e) reached fresh same = rw same reached
  start_ensured-Reach now uuid s (ok id) reached fresh same =
      rw
        (start_result-launch s id (start now uuid key s.manager).0 (start now uuid key s.manager).1)
        (subst (λ m. Reach (launch key sys (start now uuid key m))) (sym same)
          (next reached (call_start now uuid key sys fresh)))

  -- Whatever the repository, the listing of projects and the database do: a SyncProject from a
  -- reachable state of the registry and its goroutines, with a new id, ends in a reachable state, in
  -- which the goroutine that it launches, if it launches one, is at work on the project.
  pub sync_project-Reach :
      {Time W D : Type 0} (base : Database Time D) (listing : Listing W) (repo : Repository)
      (now : ℕ) (uuid : String) (s : Service) (w : W) (d : D)
      → Reach sys
      → IsFresh uuid sys.manager
      → s.manager ≡ sys.manager
      → let r = (sync_project base listing repo now uuid key s w d).0 in
        Reach (with_launched r.launched key r.service.manager sys)
  unfolding sync_project
  sync_project-Reach base listing foreign now uuid s w d reached fresh same = rw same reached
  sync_project-Reach base listing (postgres q) now uuid s w d reached fresh same =
      start_ensured-Reach now uuid s (ensure_project base listing q key w d).0 reached fresh same
