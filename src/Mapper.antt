-- ===== src/Mapper.antt =====
-- internal/mapper/jira_to_raw.go: from the data of Jira to the rows of the database.
-- `time.Parse` and `json.Unmarshal` are parameters: an opaque type of times, the time that a text
-- has in a layout, and what decoding a text makes of a struct.
pub mod Hash
pub mod Rows
mod Examples
use jira_connector.Base.{
  ℕ, ◌+◌, ◌-◌, ◌*◌, ◌^◌, ◌%◌, String, Bool, Option, none, some, List, [], ◌∷◌, ◌++◌, leb,
  if◌then◌else◌,
}
use jira_connector.Base.Int.{ℤ, pos, eqb_ℤ}
use jira_connector.Base.Text.{codes, is_empty, str_eq, append}
use jira_connector.GoError.{GoError, external, wrap, Result, ok, err, ◌>>=◌, wrapped}
use jira_connector.Strconv.{Parsed, parse_int}
use jira_connector.Jira
use jira_connector.Jira.{IssueFields, History, Changelog, ChangeItem}
use jira_connector.Raw

abbrev pub hash_multiplier : ℕ
hash_multiplier = 31

-- One round of the loop in HashID, on the bit pattern of an int64: `hash*31 + int64(c)` wraps, and
-- a negative result is negated, which leaves the least int64 as it is.
unfoldable pub hash_step : ℕ → ℕ → ℕ
hash_step hash c =
    let h = (hash * hash_multiplier + c) % 2 ^ 64 in
    if leb (2 ^ 63) h then (2 ^ 64 - h) % 2 ^ 64 else h

unfoldable pub hash_loop : ℕ → List ℕ → ℕ
unfolding hash_step
hash_loop hash [] = hash
hash_loop hash (c ∷ cs) = hash_loop (hash_step hash c) cs

-- `hash & int31Mask` keeps the low 31 bits.
unfoldable pub hash_id : String → ℤ
unfolding hash_loop
hash_id str = if is_empty str then pos 0 else pos (hash_loop 0 (codes str) % 2 ^ 31)

unfoldable pub str_ptr : String → Option String
str_ptr str = if is_empty str then none else some str

unfoldable pub int_ptr : ℤ → Option ℤ
int_ptr n = if eqb_ℤ n (pos 0) then none else some n

-- The error of ParseInt is dropped.
unfoldable pub map_project_to_raw : Jira.Project → Raw.Project
map_project_to_raw proj = record { id = (parse_int proj.id).value; title = proj.name }

unfoldable pub map_author_to_raw : Jira.Author → Raw.Author
unfolding hash_id
map_author_to_raw author = record { id = hash_id author.name; name = author.display_name }

abbrev pub jira_time_layout : String
jira_time_layout = "2006-01-02T15:04:05.000-0700"

abbrev pub rfc3339 : String
rfc3339 = "2006-01-02T15:04:05Z07:00"

-- What the mapper takes from the standard library: `time.Parse layout text`, and the struct that
-- `json.Unmarshal text` leaves in a struct that holds some fields already.
pub record Codec : Type 1 where
  pub Time : Type 0
  pub parse : String → String → Result Time
  pub unmarshal_fields : String → IssueFields → Result IssueFields

abbrev quoted : String → String
quoted s = append "\"" (append s "\"")

unfoldable pub assignee_id : String → Option ℤ
unfolding int_ptr hash_id
assignee_id name = if is_empty name then none else int_ptr (hash_id name)

module _ (codec : Codec) where
  open codec use {Time, parse, unmarshal_fields}

  unfoldable pub parse_jira_time : String → Result Time
  parse_jira_time str = elim (parse jira_time_layout str) [
    | ok parsed ↦ ok parsed
    | err _ ↦ wrapped (append "parse time " (quoted str)) (parse rfc3339 str)
  ]

  unfoldable pub parse_time : String → Option Time
  unfolding parse_jira_time
  parse_time str =
      if is_empty str then none else elim (parse_jira_time str) [ ok t ↦ some t | err _ ↦ none ]

  abbrev pub raw_issue : Jira.Issue → ℤ → ℤ → IssueFields → Raw.Issue Time
  raw_issue issue identifier project_id fields = record {
    id = identifier;
    project_id = project_id;
    author_id = hash_id fields.creator.name;
    assignee_id = assignee_id fields.assignee.name;
    key = issue.key;
    summary = str_ptr fields.summary;
    description = str_ptr fields.description;
    kind = str_ptr fields.issue_type;
    priority = str_ptr fields.priority;
    status = str_ptr fields.status;
    created_time = parse_time fields.created;
    closed_time = parse_time fields.resolutiondate;
    updated_time = parse_time fields.updated;
    time_spent = int_ptr fields.time_spent;
  }

  -- The caller's `fields` are decoded once more, in place; nothing reads them afterwards.
  unfoldable pub map_issue_to_raw : Jira.Issue → ℤ → IssueFields → Result (Raw.Issue Time)
  unfolding hash_id str_ptr parse_time int_ptr assignee_id
  map_issue_to_raw issue project_id fields = do
    decoded ← wrapped "unmarshal issue fields" (unmarshal_fields issue.fields fields)
    let identifier = parse_int issue.id
    if identifier.fine
        then ok (raw_issue issue identifier.value project_id decoded)
        else err (
            wrap (append "parse issue ID " (quoted issue.id))
              (external "strconv.ParseInt: invalid"))

  -- The status items of one history, in order.
  unfoldable pub status_items :
      ℤ → Jira.Author → Time → List ChangeItem → List (Raw.StatusChange Time)
  unfolding hash_id str_ptr
  status_items issue_id author time [] = []
  status_items issue_id author time (item ∷ items) =
      let rest = status_items issue_id author time items in
      if str_eq item.field "status"
      then record {
        issue_id = issue_id;
        author_id = hash_id author.name;
        change_time = time;
        from_status = str_ptr item.from_string;
        to_status = str_ptr item.to_string;
      }
        ∷ rest
      else rest

  -- A history whose time cannot be parsed is skipped.
  abbrev pub changes_at :
      ℤ → History → Result Time → List (Raw.StatusChange Time) → List (Raw.StatusChange Time)
  changes_at issue_id h (err e) rest = rest
  changes_at issue_id h (ok time) rest = status_items issue_id h.author time h.items ++ rest

  unfoldable pub history_changes : ℤ → List History → List (Raw.StatusChange Time)
  history_changes issue_id [] = []
  history_changes issue_id (h ∷ hs) =
      changes_at issue_id h (parse_jira_time h.created) (history_changes issue_id hs)

  abbrev changelog_changes : ℤ → Option Changelog → List (Raw.StatusChange Time)
  unfolding history_changes
  changelog_changes issue_id none = []
  changelog_changes issue_id (some log) = history_changes issue_id log.histories

  unfoldable pub map_changelog_to_raw : Jira.Issue → ℤ → List (Raw.StatusChange Time)
  unfolding history_changes
  map_changelog_to_raw issue issue_id = changelog_changes issue_id issue.changelog
