-- ===== src/Sync/Storage.antt =====
-- internal/service/sync/sync.go, `insertProcessedIssue` and `commitPage` over the tables of the schema
-- `raw`: what a page is meant to store, told on the tables alone, without statements, transactions or
-- errors.
pub mod Authors
pub mod Statements
pub mod Changes
pub mod Issues
pub mod Pages
pub mod Losses
pub mod Overcount
pub mod Jobs
use jira_connector.Base.{
  String, Bool, true, false, Option, none, some, List, [], ◌∷◌, ◌≡◌, All, map,
}
use jira_connector.Base.Int.{ℤ}
use jira_connector.Base.Text.{is_empty}
use jira_connector.GoError.{GoError, Result, ok, err}
use jira_connector.Jira.{Issue, Author, History, Changelog}
use jira_connector.Raw
use jira_connector.Strconv.{parse_int}
use jira_connector.Mapper.{Codec, hash_id, map_author_to_raw, raw_issue, map_changelog_to_raw}
use jira_connector.Repo.Postgres.{
  Tables, Server, put_row, exists, if_absent, fits_int4, fits_nullable,
}
use jira_connector.Sync.Authors.{ProcessedIssue, collect_authors}

-- A server inside a transaction without a failed statement.
abbrev pub live : {Time : Type 0} → Tables Time → Tables Time → Server Time
live c t = record { committed = c; working = t; aborted = false }

-- The authors that are not there yet are added.
abbrev pub put_authors : List Author → (ℤ → Option Raw.Author) → ℤ → Option Raw.Author
put_authors [] f = f
put_authors (a ∷ as') f = put_authors as' (if_absent (hash_id a.name) (map_author_to_raw a) f)

module _ (codec : Codec) where
  open codec use {Time}

  abbrev pub row_of : ProcessedIssue → Raw.Issue Time
  row_of item =
      raw_issue codec item.jira_issue (parse_int item.jira_issue.id).value item.project_id
        item.fields

  -- An issue is stored: its authors are there, its row is the new one, and its status changes are those
  -- of its changelog.
  abbrev pub store : ProcessedIssue → Tables Time → Tables Time
  store item t = record t {
    author = put_authors item.authors t.author;
    issue = put_row (row_of item).id (some (row_of item)) t.issue;
    changes =
        put_row (row_of item).id (map_changelog_to_raw codec item.jira_issue (row_of item).id)
          t.changes;
  }

  abbrev pub store_all : List ProcessedIssue → Tables Time → Tables Time
  store_all [] t = t
  store_all (item ∷ items) t = store_all items (store item t)

abbrev pub IsNamed : History → Type 0
IsNamed h = is_empty h.author.name ≡ false

abbrev pub HasNamedHistories : Option Changelog → Type 0
HasNamedHistories none = Unit
HasNamedHistories (some log) = All IsNamed log.histories

-- What the row of an issue must bring along: the issue comes from `Process`, decoding its fields once
-- more gives the same, its id is a number, the numbers fit their columns, its project is stored, and
-- its creator has a name.
pub record IsInsertable (codec : Codec) (project : ℤ → Option Raw.Project) (item : ProcessedIssue)
    : Type 0 where
  pub authors : item.authors ≡ collect_authors item.jira_issue item.fields
  pub decodes : codec.unmarshal_fields item.jira_issue.fields item.fields ≡ ok item.fields
  pub numeric : (parse_int item.jira_issue.id).fine ≡ true
  pub id_fits : fits_int4 (parse_int item.jira_issue.id).value ≡ true
  pub project_fits : fits_int4 item.project_id ≡ true
  pub spent_fits : fits_nullable (row_of codec item).time_spent ≡ true
  pub project_stored : exists (project item.project_id) ≡ true
  pub created : is_empty item.fields.creator.name ≡ false

-- An issue that can be stored: the authors of its histories have names as well.
pub record IsStorable (codec : Codec) (project : ℤ → Option Raw.Project) (item : ProcessedIssue)
    : Type 0 where
  pub insertable : IsInsertable codec project item
  pub histories : HasNamedHistories item.jira_issue.changelog
