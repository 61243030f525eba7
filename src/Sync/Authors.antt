-- ===== src/Sync/Authors.antt =====
-- internal/service/sync/sync.go, `issueFetcher.Process` and `collectAuthors`: the people of an issue.
pub mod Tracking
pub mod Complete
use jira_connector.Base.{
  String, Bool, true, false, Option, none, some, List, [], ◌∷◌, ◌++◌, not, ◌&&◌, if◌then◌else◌,
}
use jira_connector.Base.Int.{ℤ}
use jira_connector.Base.Map.{Map, insert, empty}
use jira_connector.Base.Text.{append, is_empty}
use jira_connector.GoError.{GoError, Result, ok, err, ◌>>=◌, wrapped}
use jira_connector.Jira.{Issue, IssueFields, Author, History, Changelog}

-- The closure `add` changes both of its captured variables.
pub record Seen : Type 0 where
  pub seen : Map Bool
  pub authors : List Author

abbrev pub is_seen : Option Bool → Bool
is_seen none = false
is_seen (some b) = b

unfoldable pub add : Seen → String → String → Seen
add st name display_name =
    if not (is_empty name) && not (is_seen (st.seen name))
    then record {
      seen = insert name true st.seen;
      authors = st.authors ++ record { name = name; display_name = display_name } ∷ [];
    }
    else st

unfoldable pub add_histories : Seen → List History → Seen
add_histories st [] = st
add_histories st (h ∷ hs) = add_histories (add st h.author.name h.author.display_name) hs

abbrev pub add_changelog : Seen → Option Changelog → Seen
add_changelog st none = st
add_changelog st (some log) = add_histories st log.histories

abbrev pub nobody : Seen
nobody = record { seen = empty; authors = [] }

unfoldable pub collect_authors : Issue → IssueFields → List Author
collect_authors issue fields =
    let st = add nobody fields.creator.name fields.creator.display_name in
    let st' = add st fields.assignee.name fields.assignee.display_name in
    (add_changelog st' issue.changelog).authors

pub record ProcessedIssue : Type 0 where
  pub task_id : String
  pub jira_issue : Issue
  pub fields : IssueFields
  pub project_id : ℤ
  pub authors : List Author

abbrev pub processed : String → ℤ → Issue → IssueFields → ProcessedIssue
unfolding collect_authors
processed task_id project_id issue fields = record {
  task_id = task_id;
  jira_issue = issue;
  fields = fields;
  project_id = project_id;
  authors = collect_authors issue fields;
}

-- What GetIssue returned is `fetched`; `decode` is json.Unmarshal into a zero IssueFields. The task's
-- payload is an IssueTaskPayload by its type here.
unfoldable pub process :
    (String → Result IssueFields) → String → String → ℤ → Result Issue → Result ProcessedIssue
unfolding collect_authors
process decode task_id issue_key project_id fetched = do
  issue ← wrapped (append "get issue " issue_key) fetched
  fields ← wrapped "unmarshal fields" (decode issue.fields)
  ok (processed task_id project_id issue fields)
