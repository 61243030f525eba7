-- ===== src/Sync/Projects/Ids.antt =====
-- internal/service/sync/sync.go, `SyncProject`: the project id of its answer.
use jira_connector.Base.{
  ℕ, ◌^◌, ◌<◌, ◌≡◌, refl, sym, String, List, ◌∷◌, ◌++◌, All, Option, none, some, arith, Bool-cases,
  inl, inr,
}
use jira_connector.Base.Int.{ℤ, pos}
use jira_connector.Base.Text.{format_int}
use jira_connector.GoError.{GoError, Result, ok, err, is_error, err_project_already_exists}
use jira_connector.Jira.{Project, ProjectsResponse}
use jira_connector.Mapper.{map_project_to_raw}
use jira_connector.Manager.{Manager, StartResult}
use jira_connector.Repo.{Database, Querier, insert_project_row}
use jira_connector.Strconv.RoundTrip.{parse_int-format_int}
use jira_connector.Sync.Projects.Search.{IsOther, find_project-first}
use jira_connector.Sync.{Service, SyncResult}
use jira_connector.Sync.Projects.{
  Listing, postgres, find_project, inserted, ensure_project, start_result, start_ensured,
  sync_project,
}

answered_id : {x r : SyncResult} → ok x ≡ ok r → r.project_id ≡ x.project_id
answered_id h = cc

start_result-id :
    (s : Service) (id : ℤ) (m : Manager) (res : StartResult) (r : SyncResult)
    → (start_result s id (m, res)).result ≡ ok r
    → r.project_id ≡ format_int id
start_result-id s id m res r h = elim (Bool-cases res.started) [
  | inl e ↦ answered_id (rw e at h)
  | inr e ↦ answered_id (rw e at h)
]

start_ensured-id :
    (now : ℕ) (uuid key : String) (s : Service) (found : Result ℤ) (r : SyncResult)
    → (start_ensured now uuid key s found).result ≡ ok r
    → (id : ℤ) × (found ≡ ok id) × (r.project_id ≡ format_int id)
start_ensured-id now uuid key s (err e) r h = cc
start_ensured-id now uuid key s (ok id) r h = (id, refl, start_result-id s id _ _ r h)

canonical :
    (proj : Project) (n : ℕ)
    → proj.id ≡ format_int (pos n)
    → n < 2 ^ 63
    → (map_project_to_raw proj).id ≡ pos n
unfolding map_project_to_raw
canonical proj n text small = rw (text, parse_int-format_int n small) refl

module _ {Time W D : Type 0} (base : Database Time D) (listing : Listing W) where
  inserted-id : (id i : ℤ) (r : Option GoError × D) → (inserted base listing id r).0 ≡ ok i → i ≡ id
  inserted-id id i (none, d) h = cc
  inserted-id id i (some e, d) h = elim (Bool-cases (is_error err_project_already_exists e)) [
    | inl same ↦ ground (arith, h, same)
    | inr other ↦ ground (arith, h, other)
  ]

  -- A sync of a project whose id Jira gives as a canonical decimal text below 2 ^ 63, the first listed
  -- one with its key, if it succeeds, answers with that very text as the project id: Jira's id has gone
  -- to a number for the project's row and back.
  pub project_id-kept :
      (q : Querier) (now : ℕ) (uuid key : String) (s : Service) (w w' : W) (d : D)
      (resp : ProjectsResponse) (before after : List Project) (proj : Project) (n : ℕ)
      (r : SyncResult)
      → listing "" (pos 100) (pos 0) w ≡ (ok resp, w')
      → resp.values ≡ before ++ proj ∷ after
      → All (IsOther key) before
      → proj.key ≡ key
      → proj.id ≡ format_int (pos n)
      → n < 2 ^ 63
      → (sync_project base listing (postgres q) now uuid key s w d).0.result ≡ ok r
      → r.project_id ≡ proj.id
  unfolding sync_project ensure_project
  project_id-kept q now uuid key s w w' d resp before after proj n r listed split others same text
        small done =
      let found : find_project key resp.values ≡ some proj =
        rw split (find_project-first key before proj after others same) in
      let (id, ensured, answer) = start_ensured-id now uuid key s _ r (rw listed at done) in
      let stored : id ≡ (map_project_to_raw proj).id =
        inserted-id (map_project_to_raw proj).id id
          (insert_project_row base q (map_project_to_raw proj) d) (rw found at ensured) in
      rw (answer, stored, canonical proj n text small) (sym text)
