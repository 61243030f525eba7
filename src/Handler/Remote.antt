-- ===== src/Handler/Remote.antt =====
-- cmd/internal/cli/client/client.go and internal/handler/grpc/handler.go: the command line client of a
-- server, from its flags to the service and back.
use jira_connector.Base.{
  ◌≡◌, refl, ap, String, Bool, true, false, Option, none, List, [], ◌∷◌, map, length, if◌then◌else◌,
}
use jira_connector.Base.Int.{ℤ, pos, int32, IsInt32, int32-eq_self}
use jira_connector.Base.Text.{append, is_empty, str_eq, format_int}
use jira_connector.GoError.{GoError, Result, ok, err}
use jira_connector.Jira.{Project, ProjectsResponse}
use jira_connector.Sync.{SyncResult}
use jira_connector.Sync.Projects.{Listing}
use jira_connector.Handler
use jira_connector.Handler.{Reply, reply, jira_project, get_available_projects, download_project}
use jira_connector.Handler.Client.{
  ClientFlags, Stub, Exit, failure, project_lines, Dial, listed, downloaded, list_projects,
  download, run,
}

-- The calls of the client reach the handler, over a service that lists projects and syncs one.
abbrev pub served_by : {W : Type 0} → Listing W → (String → W → Result SyncResult × W) → Stub W
served_by listing sync = record {
  get_available_projects = λ req w.
      let (r, w') = listing req.search_query req.limit req.page w in (get_available_projects r, w');
  download_project = λ key w. download_project sync key w;
}

-- What the client is to print of a listing that the service gives, and of a sync that it starts.
abbrev pub projects_printed : List Project → List String
projects_printed [] = []
projects_printed (p ∷ ps) =
    append "  [" (append p.key (append "] " p.name)) ∷ append "    " p.self ∷ projects_printed ps

abbrev pub projects_exit : Result ProjectsResponse → Exit
projects_exit (err e) = failure
projects_exit (ok resp) = record {
  code = 0;
  output =
      append "Found " (
        append (format_int (pos (length resp.values))) (
          append " projects (total: " (
            append (format_int (int32 resp.total))
              (append ", is_last: " (append (if resp.is_last then "true" else "false") "):")))))
      ∷ projects_printed resp.values;
}

project_lines-printed :
    (ps : List Project) → project_lines (map jira_project ps) ≡ projects_printed ps
project_lines-printed [] = refl
project_lines-printed (p ∷ ps) = rw (project_lines-printed ps) refl

length-jira_project : (ps : List Project) → length (map jira_project ps) ≡ length ps
length-jira_project [] = refl
length-jira_project (p ∷ ps) = rw (length-jira_project ps) refl

listed-printed :
    (is_last : Bool) (ps : List Project) (total : ℤ)
    → listed (reply (record { projects = map jira_project ps; total = total; is_last = is_last }))
      ≡ record {
        code = 0;
        output =
            append "Found " (
              append (format_int (pos (length ps))) (
                append " projects (total: " (
                  append
                    (format_int total)
                    (append ", is_last: " (append (if is_last then "true" else "false") "):")))))
            ∷ projects_printed ps;
      }
listed-printed true ps total = rw (length-jira_project ps, project_lines-printed ps) refl
listed-printed false ps total = rw (length-jira_project ps, project_lines-printed ps) refl

abbrev pub message : String → String → String
message key status =
    if str_eq status "already_running"
    then append "sync already in progress for project " key
    else append "sync started for project " key

abbrev pub sync_exit : String → Result SyncResult → Exit
sync_exit key (err e) = failure
sync_exit key (ok result) = record {
  code = 0;
  output =
      append "Sync ID:   " result.sync_id
      ∷ append "Status:    " result.status
      ∷ append "Message:   " (message key result.status)
      ∷ [];
}

module _ {W : Type 0} (connect : String → W → Option GoError × W) (hang_up : W → W)
    (listing : Listing W) (sync : String → W → Result SyncResult × W) (flags : ClientFlags)
    (w w' : W) (connected : connect flags.addr w ≡ (none, w')) where
  abbrev pub dial : Dial W
  dial = record { connect = connect; close = hang_up; stub = served_by listing sync }

  projects_reply :
      (r : Result ProjectsResponse) → listed (get_available_projects r) ≡ projects_exit r
  unfolding get_available_projects
  projects_reply (err e) = refl
  projects_reply (ok resp) = listed-printed resp.is_last resp.values (int32 resp.total)

  download_reply :
      (key : String) (r : Result SyncResult)
      → downloaded (Handler.downloaded key r) ≡ sync_exit key r
  download_reply key (err e) = refl
  download_reply key (ok result) = refl

  -- The command "projects" with a limit and a page in the range of int32 asks the service for exactly
  -- these, prints the number of listed projects, the total as an int32 and whether the page is the last
  -- one, then for each project a line with its key and its name and a line with its link, and returns 0,
  -- or prints nothing and returns 1 where the service fails; it ends with the connection closed.
  pub run-projects :
      flags.cmd ≡ "projects"
      → IsInt32 flags.limit
      → IsInt32 flags.page
      → let r = listing flags.search flags.limit flags.page w' in
        run dial flags w ≡ (projects_exit r.0, hang_up r.1)
  unfolding run list_projects
  run-projects e l p =
      rw (connected, e, int32-eq_self flags.limit l, int32-eq_self flags.page p)
        (ap (λ x. (x, hang_up (listing flags.search flags.limit flags.page w').1))
          (projects_reply (listing flags.search flags.limit flags.page w').0))

  -- The command "download" with a key has the service sync that project once, and prints the id, the
  -- status and the message of the sync and returns 0, or prints nothing and returns 1 where the service
  -- fails; it ends with the connection closed.
  pub run-download :
      flags.cmd ≡ "download"
      → is_empty flags.key ≡ false
      → let r = sync flags.key w' in run dial flags w ≡ (sync_exit flags.key r.0, hang_up r.1)
  unfolding run download download_project
  run-download e named =
      rw (connected, e, named)
        (ap (λ x. (x, hang_up (sync flags.key w').1))
          (download_reply flags.key (sync flags.key w').0))
