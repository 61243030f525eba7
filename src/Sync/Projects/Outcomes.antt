-- ===== src/Sync/Projects/Outcomes.antt =====
-- internal/service/sync/sync.go, `SyncProject`: unknown projects and running projects.
use jira_connector.Metrics.{Metrics}
use jira_connector.Base.{
  ◌<◌, ℕ, ◌≡◌, ◌↔◌, refl, ap, String, Option, none, some, All, Bool-cases, Option-cases, inl, inr,
}
use jira_connector.Base.Int.{ℤ, pos}
use jira_connector.Base.Text.{format_int}
use jira_connector.GoError.{
  GoError, is_error, err_project_already_exists, sentinel, detail, wrap, err_project_not_found, ok,
  err,
}
use jira_connector.Jira.{ProjectsResponse}
use jira_connector.Mapper.{map_project_to_raw}
use jira_connector.Repo.{Database, Querier, insert_project_row}
use jira_connector.Manager.{Manager, StartResult}
use jira_connector.Manager.Jobs.{System, Reach, start_deduplicates}
use jira_connector.Sync.{Service}
use jira_connector.Sync.Projects.Search.{IsOther, find_project-absent, find_project-none}
use jira_connector.Sync.Projects.{
  Listing, Started, postgres, find_project, inserted, start_result, start_ensured, ensure_project,
  sync_project,
}

module _ {Time W D : Type 0} (base : Database Time D) (listing : Listing W) where
  -- A sync that is refused: the service and the database are as before, and nothing is launched.
  abbrev pub refused : String → Service → W → D → Started × W × D
  refused key s w d = (
    record {
      result = err (wrap "ensure project" (detail (sentinel err_project_not_found) key));
      service = s;
      launched = none;
    },
    w,
    d,
  )

  pub sync_project-absent :
      (q : Querier) (now : ℕ) (uuid key : String) (s : Service) (w w' : W) (d : D)
      (resp : ProjectsResponse)
      → listing "" (pos 100) (pos 0) w ≡ (ok resp, w')
      → All (IsOther key) resp.values
      → sync_project base listing (postgres q) now uuid key s w d ≡ refused key s w' d
  unfolding sync_project ensure_project
  sync_project-absent q now uuid key s w w' d resp listed absent =
      rw (listed, find_project-absent key resp.values absent) refl

  start_result-fine :
      (s : Service) (id : ℤ) (m : Manager) (res : StartResult) (e : GoError)
      → ¬ ((start_result s id (m, res)).result ≡ err e)
  start_result-fine s id m res e h = elim (Bool-cases res.started) [
    | inl b ↦ cc (rw b at h)
    | inr b ↦ cc (rw b at h)
  ]

  -- The error of a project that was found is another one.
  ensured-known :
      (now : ℕ) (uuid key : String) (s : Service) (id : ℤ) (p : Option GoError × D)
      → ¬ (
          (start_ensured now uuid key s (inserted base listing id p).0).result
          ≡ err (wrap "ensure project" (detail (sentinel err_project_not_found) key)))
  ensured-known now uuid key s id (none, d) h = start_result-fine s id _ _ _ h
  ensured-known now uuid key s id (some e, d) h =
      elim (Bool-cases (is_error err_project_already_exists e)) [
        | inl b ↦ start_result-fine s id _ _ _ (rw b at h)
        | inr b ↦ cc (rw b at h)
      ]

  -- Where Jira answers with its first page of a hundred projects, SyncProject ends in
  -- ErrProjectNotFound, with the service and the database as before and nothing launched, exactly
  -- if none of the projects of that page has the key, whether or not there are more pages.
  pub sync_project-unknown :
      (q : Querier) (now : ℕ) (uuid key : String) (s : Service) (w w' : W) (d : D)
      (resp : ProjectsResponse)
      → listing "" (pos 100) (pos 0) w ≡ (ok resp, w')
      → (sync_project base listing (postgres q) now uuid key s w d ≡ refused key s w' d)
        ↔ All (IsOther key) resp.values
  unfolding sync_project ensure_project
  sync_project-unknown q now uuid key s w w' d resp listed = (
    λ h. elim (Option-cases (find_project key resp.values)) [
      | inl e ↦ find_project-none key resp.values e
      | inr (proj, e) ↦
          let row = map_project_to_raw proj in
          absurd (
            ensured-known now uuid key s row.id (insert_project_row base q row d)
              (rw (listed, e) at (ap (λ r. r.0.result) h)))
    ],
    sync_project-absent q now uuid key s w w' d resp listed,
  )

  -- While a goroutine syncs a project, SyncProject for it, once the project is ensured, answers
  -- "already_running" with the id of that job, launches nothing, and starts no metric.
  pub sync_project-running :
      {sys : System}
      → Reach sys
      → (q : Querier) (now : ℕ) (uuid i key : String) (mtr : Option Metrics) (w w' : W) (d d' : D)
        (id : ℤ)
      → 0 < sys.active i key
      → ensure_project base listing q key w d ≡ (ok id, w', d')
      → let r =
          (sync_project base listing
            (postgres q)
            now
            uuid
            key
            (record { manager = sys.manager; mtr = mtr })
            w
            d).0 in
        (r.result
          ≡ ok (record { sync_id = i; project_id = format_int id; status = "already_running" }))
        × (r.launched ≡ none)
        × (r.service.mtr ≡ mtr)
  unfolding sync_project
  sync_project-running r q now uuid i key mtr w w' d d' id busy ensured =
      let (same, quiet) = start_deduplicates r now uuid i key busy in
      (rw (ensured, same) refl, rw (ensured, same) refl, rw (ensured, same) refl)
