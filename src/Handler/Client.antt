-- ===== src/Handler/Client.antt =====
-- cmd/internal/cli/client/client.go: the command line client of the gRPC service. The flags are parsed,
-- `connect` is `grpc.NewClient`, and the two calls of the generated client are parameters. What goes to
-- the log is left out.
use jira_connector.Base.{
  ℕ, String, Bool, true, false, Option, none, some, List, [], ◌∷◌, if◌then◌else◌, length,
}
use jira_connector.Base.Int.{ℤ, pos, int32}
use jira_connector.Base.Text.{append, is_empty, str_eq, format_int}
use jira_connector.GoError.{GoError}
use jira_connector.Handler.{
  Reply, reply, refuse, JiraProject, GetAvailableProjectsResponse, DownloadProjectResponse,
}

abbrev pub default_limit : ℤ
default_limit = pos 10

pub record ClientFlags : Type 0 where
  pub addr : String
  pub cmd : String
  pub key : String
  pub search : String
  pub limit : ℤ
  pub page : ℤ

pub record ProjectsRequest : Type 0 where
  pub search_query : String
  pub limit : ℤ
  pub page : ℤ

pub record Stub (W : Type 0) : Type 0 where
  pub get_available_projects : ProjectsRequest → W → Reply GetAvailableProjectsResponse × W
  pub download_project : String → W → Reply DownloadProjectResponse × W

-- The exit code, and the lines on the standard output.
pub record Exit : Type 0 where
  pub code : ℕ
  pub output : List String

abbrev pub failure : Exit
failure = record { code = 1; output = [] }

abbrev format_bool : Bool → String
format_bool true = "true"
format_bool false = "false"

abbrev pub found_line : GetAvailableProjectsResponse → String
found_line resp = append "Found " (
    append (format_int (pos (length resp.projects))) (
      append " projects (total: " (
        append (format_int resp.total)
          (append ", is_last: " (append (format_bool resp.is_last) "):")))))

abbrev pub project_lines : List JiraProject → List String
project_lines [] = []
project_lines (p ∷ ps) =
    append "  [" (append p.key (append "] " p.title)) ∷ append "    " p.self ∷ project_lines ps

abbrev pub listed : Reply GetAvailableProjectsResponse → Exit
listed (refuse s) = failure
listed (reply resp) = record { code = 0; output = found_line resp ∷ project_lines resp.projects }

abbrev pub downloaded : Reply DownloadProjectResponse → Exit
downloaded (refuse s) = failure
downloaded (reply resp) = record {
  code = 0;
  output =
      append "Sync ID:   " resp.sync_id
      ∷ append "Status:    " resp.status
      ∷ append "Message:   " resp.message
      ∷ [];
}

module _ {W : Type 0} (stub : Stub W) where
  unfoldable pub list_projects : String → ℤ → ℤ → W → Exit × W
  list_projects search limit page w =
      let (r, w') =
        stub.get_available_projects
          (record { search_query = search; limit = int32 limit; page = int32 page }) w in
      (listed r, w')

  unfoldable pub download : String → W → Exit × W
  download key w = let (r, w') = stub.download_project key w in (downloaded r, w')

-- The connection is closed when the command returns.
pub record Dial (W : Type 0) : Type 0 where
  pub connect : String → W → Option GoError × W
  pub close : W → W
  pub stub : Stub W

module _ {W : Type 0} (dial : Dial W) where
  abbrev pub command : ClientFlags → W → Exit × W
  command flags w =
      let projects = list_projects dial.stub flags.search flags.limit flags.page w in
      let project = download dial.stub flags.key w in
      if str_eq flags.cmd "projects"
      then projects
      else if str_eq flags.cmd "download"
      then if is_empty flags.key then (failure, w) else project
      else (failure, w)

  abbrev pub dialled : ClientFlags → Option GoError × W → Exit × W
  dialled flags (some e, w) = (failure, w)
  dialled flags (none, w) = let (x, w') = command flags w in (x, dial.close w')

  unfoldable pub run : ClientFlags → W → Exit × W
  unfolding list_projects download
  run flags w = dialled flags (dial.connect flags.addr w)
