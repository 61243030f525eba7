-- ===== src/Sync/Examples/Tables.antt =====
-- The issue AB-1 of the stored project 7, on empty tables of authors and issues.
use jira_connector.Base.{◌≡◌, String, some, none, [], ◌∷◌, refl, inl, if◌then◌else◌}
use jira_connector.Base.Int.{pos, eqb_ℤ}
use jira_connector.GoError.{GoError}
use jira_connector.Strconv.{parse_int}
use jira_connector.Jira.{Issue}
use jira_connector.Mapper.{
  hash_id, hash_loop, hash_step, int_ptr, history_changes, status_items, parse_jira_time,
  map_author_to_raw, map_changelog_to_raw,
}
use jira_connector.Repo.{db, tx}
use jira_connector.Repo.Postgres.{Tables, postgres}
use jira_connector.Sync.Authors.{ProcessedIssue, collect_authors, add, add_histories}
use jira_connector.Sync.Commit.{insert_processed_issue, commit_page}
use jira_connector.Sync.Commit.Counting.{counted_times}
use jira_connector.Sync.Storage.{live, store_all, IsInsertable, IsStorable}
use jira_connector.Sync.Storage.Pages.{insert_processed_issue-again, commit_page-stores}
use jira_connector.Sync.Storage.Losses.{refused_change-loses_page}
use jira_connector.Sync.Storage.Overcount.{failed_page-overcounts}
use jira_connector.Sync.Examples.Pages.{plain, issue_of, fields, service}

abbrev pub tables : Tables String
tables = record {
  project = λ i. if eqb_ℤ i (pos 7) then some (record { id = pos 7; title = "Alpha" }) else none;
  author = λ i. none;
  issue = λ i. none;
  changes = λ i. [];
}

abbrev pub item : ProcessedIssue
item = record {
  task_id = "AB-1";
  jira_issue = issue_of "AB-1" "1";
  fields = fields;
  project_id = pos 7;
  authors = collect_authors (issue_of "AB-1" "1") fields;
}

pub item-IsStorable : IsStorable plain tables.project item
unfolding parse_int int_ptr
item-IsStorable = record {
  insertable = record {
    authors = refl;
    decodes = refl;
    numeric = refl;
    id_fits = refl;
    project_fits = refl;
    spent_fits = refl;
    project_stored = refl;
    created = refl;
  };
  histories = (refl, tt);
}

insert_processed_issue-again_example :
    let d = (insert_processed_issue plain postgres tx item (live tables tables)).1 in
    insert_processed_issue plain postgres tx item d ≡ (none, d)
insert_processed_issue-again_example =
    insert_processed_issue-again plain tables.project item item-IsStorable tables tables refl

commit_page-stores_example :
    let r = commit_page plain postgres db "u1" (item ∷ []) service (live tables tables) in
    (r.0 ≡ none)
    × (r.1 ≡ counted_times plain postgres 1 "u1" service)
    × (r.2.committed ≡ store_all plain (item ∷ []) tables)
commit_page-stores_example =
    commit_page-stores plain tables.project "u1" (item ∷ []) service (live tables tables)
      (item-IsStorable, tt) refl

-- A change of status by an author without a name.
abbrev nameless : Issue
nameless = record (issue_of "AB-1" "1") {
  changelog = some (record {
    histories =
        record {
          author = record { name = ""; display_name = "" };
          created = "2024";
          items = record { field = "status"; from_string = "Open"; to_string = "Done" } ∷ [];
        }
        ∷ [];
  });
}

abbrev nameless_item : ProcessedIssue
nameless_item = record item { jira_issue = nameless; authors = collect_authors nameless fields }

nameless-IsInsertable : IsInsertable plain tables.project nameless_item
unfolding parse_int int_ptr
nameless-IsInsertable = record {
  authors = refl;
  decodes = refl;
  numeric = refl;
  id_fits = refl;
  project_fits = refl;
  spent_fits = refl;
  project_stored = refl;
  created = refl;
}

refused_change-loses_page_example :
    let r =
      commit_page plain postgres db "u1" (nameless_item ∷ item ∷ []) service (live tables tables) in
    ((e : GoError) × (r.0 ≡ some e)) × (r.2.committed ≡ tables)
unfolding map_changelog_to_raw history_changes status_items hash_id hash_loop hash_step
    collect_authors add add_histories parse_int map_author_to_raw parse_jira_time
refused_change-loses_page_example =
    refused_change-loses_page plain "u1" nameless_item (item ∷ []) service (live tables tables)
      nameless-IsInsertable (inl refl)

-- An issue without an id.
failed_page-overcounts_example :
    let page = item ∷ record item { jira_issue = issue_of "AB-2" "" } ∷ item ∷ [] in
    let r = commit_page plain postgres db "u1" page service (live tables tables) in
    ((e : GoError) × (r.0 ≡ some e))
    × (r.1 ≡ counted_times plain postgres 1 "u1" service)
    × (r.2.committed ≡ tables)
unfolding parse_int
failed_page-overcounts_example =
    failed_page-overcounts plain "u1" (item ∷ []) (record item { jira_issue = issue_of "AB-2" "" })
      (item ∷ []) service (live tables tables) (item-IsStorable, tt) refl
