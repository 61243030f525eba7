-- ===== src/Sync/Examples/Pages.antt =====
-- A page of two issues and a database that refuses its third statement.
use jira_connector.Base.{ℕ, suc, ◌==◌, String, some, none, [], ◌∷◌, refl, inl, inr, if◌then◌else◌}
use jira_connector.Base.Int.{pos}
use jira_connector.GoError.{ok, external}
use jira_connector.Jira.{Issue, IssueFields, Author}
use jira_connector.Mapper.{Codec}
use jira_connector.Manager.{new_manager}
use jira_connector.Repo.{Database, db}
use jira_connector.Repo.Transactions.{IsTransactional}
use jira_connector.Sync.{Service}
use jira_connector.Sync.Authors.{ProcessedIssue, collect_authors}
use jira_connector.Sync.Authors.Tracking.{Has}
use jira_connector.Sync.Authors.Complete.{collect_authors_complete}
use jira_connector.Sync.Commit.{commit_page}
use jira_connector.Sync.Commit.Atomic.{PageUnchanged, commit_page-atomic}

abbrev pub ann : Author
ann = record { name = "ann"; display_name = "Ann" }

abbrev pub bob : Author
bob = record { name = "bob"; display_name = "Bob" }

abbrev pub issue_of : String → String → Issue
issue_of key id = record {
  key = key;
  self = "";
  id = id;
  fields = "{}";
  changelog =
      some (record { histories = record { author = bob; created = "2024"; items = [] } ∷ [] });
}

abbrev pub fields : IssueFields
fields = record {
  summary = "s";
  description = "";
  created = "";
  updated = "";
  resolutiondate = "";
  time_spent = pos 0;
  issue_type = "Bug";
  priority = "";
  status = "Done";
  creator = ann;
  assignee = ann;
}

collect_authors_complete_example : Has "bob" (collect_authors (issue_of "AB-1" "1") fields)
collect_authors_complete_example =
    collect_authors_complete (issue_of "AB-1" "1") fields "bob" refl (inr (inr (inl refl)))

abbrev pub plain : Codec
plain = record { Time = String; parse = λ layout s. ok s; unmarshal_fields = λ s f. ok f }

record Rows : Type 0 where
  stored : ℕ
  pending : ℕ

-- The third statement of a transaction fails.
abbrev brittle : Database String Rows
brittle = record {
  exec = λ q query args d. (
    if d.pending == 2 then some (external "broken") else none,
    record d { pending = suc d.pending },
  );
  begin = λ d. (none, record d { pending = 0 });
  commit = λ d. (none, record d { stored = d.pending });
  rollback = λ d. (none, record d { pending = 0 });
}

brittle-IsTransactional : IsTransactional brittle (λ d. d.stored)
brittle-IsTransactional = record {
  begin_keeps = λ d. refl;
  exec_keeps = λ q args d. refl;
  rollback_keeps = λ d. refl;
  commit_keeps = λ d e h. cc;
}

abbrev rows : ℕ → Rows
rows n = record { stored = 0; pending = n }

abbrev item_of : String → String → ProcessedIssue
item_of key id = record {
  task_id = "t";
  jira_issue = issue_of key id;
  fields = fields;
  project_id = pos 7;
  authors = [];
}

abbrev pub service : Service
service = record { manager = new_manager; mtr = none }

commit_page-atomic_example :
    PageUnchanged plain brittle
      (λ d. d.stored)
      brittle-IsTransactional
      0
      (commit_page plain brittle db "u1"
        (item_of "AB-1" "1" ∷ item_of "AB-2" "2" ∷ [])
        service
        (rows 0))
commit_page-atomic_example =
    commit_page-atomic plain brittle (λ d. d.stored) brittle-IsTransactional db "u1"
      (item_of "AB-1" "1" ∷ item_of "AB-2" "2" ∷ []) service (rows 0)
