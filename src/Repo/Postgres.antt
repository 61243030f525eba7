-- ===== src/Repo/Postgres.antt =====
-- internal/repository/postgres/queries and internal/database/migrations/000001_init_raw_data_scheme.up.sql:
-- what the five statements do to the four tables of the schema `raw`, under its primary keys, foreign
-- keys and INT columns, and how PostgreSQL runs them in a transaction. A table has no order: it is a
-- function of the key, and the status changes are grouped by issue. Two things are simplified: a text
-- holds no NUL, and a TIMESTAMP keeps the time it is given, with its zone.
pub mod Laws
use jira_connector.Base.{
  ℕ, ◌^◌, String, Bool, true, false, ◌&&◌, ltb, Option, none, some, List, [], ◌∷◌, ◌++◌,
  if◌then◌else◌,
}
use jira_connector.Base.Int.{ℤ, pos, negsuc, eqb_ℤ}
use jira_connector.GoError.{GoError, pg_error, external, Result, ok, err}
use jira_connector.Raw
use jira_connector.Repo.{
  Query, insert_project, insert_author, insert_issue, insert_status_change,
  delete_status_changes_by_issue, Arg, int, text, time, null, Querier, db, tx, other, Database,
}

pub record Tables (Time : Type 0) : Type 0 where
  pub project : ℤ → Option Raw.Project
  pub author : ℤ → Option Raw.Author
  pub issue : ℤ → Option (Raw.Issue Time)
  pub changes : ℤ → List (Raw.StatusChange Time)

-- The database: what is stored, what the transaction sees, and whether a statement of it has failed.
pub record Server (Time : Type 0) : Type 0 where
  pub committed : Tables Time
  pub working : Tables Time
  pub aborted : Bool

module _ {A : Type 0} where
  -- A table with a row put at a key.
  abbrev pub put_row : ℤ → A → (ℤ → A) → ℤ → A
  put_row k row f i = if eqb_ℤ k i then row else f i

  abbrev pub exists : Option A → Bool
  exists none = false
  exists (some a) = true

-- INT, four bytes.
abbrev pub fits_int4 : ℤ → Bool
fits_int4 (pos n) = ltb n (2 ^ 31)
fits_int4 (negsuc n) = ltb n (2 ^ 31)

abbrev pub fits_nullable : Option ℤ → Bool
fits_nullable none = true
fits_nullable (some n) = fits_int4 n

-- REFERENCES, where NULL refers to nothing.
abbrev pub refers : {A : Type 0} → (ℤ → Option A) → Option ℤ → Bool
refers f none = true
refers f (some n) = exists (f n)

abbrev pub int_arg : {Time : Type 0} → Arg Time → Option ℤ
int_arg (int n) = some n
int_arg (text s) = none
int_arg (time t) = none
int_arg null = none

abbrev pub text_arg : {Time : Type 0} → Arg Time → Option String
text_arg (text s) = some s
text_arg (int n) = none
text_arg (time t) = none
text_arg null = none

abbrev pub time_arg : {Time : Type 0} → Arg Time → Option Time
time_arg (time t) = some t
time_arg (int n) = none
time_arg (text s) = none
time_arg null = none

-- The driver writes numbers for INT columns in four bytes, and refuses others before it asks the
-- server.
abbrev pub ints_fit : {Time : Type 0} → List (Arg Time) → Bool
ints_fit [] = true
ints_fit (a ∷ args) = fits_nullable (int_arg a) && ints_fit args

abbrev pub out_of_range : GoError
out_of_range = external "failed to encode args: out of range"

-- A statement that breaks a constraint, and one whose arguments are not those of the query.
abbrev pub refused : {A : Type 0} → Result A
refused = err (pg_error "23503" "constraint violated")

abbrev pub malformed : {A : Type 0} → Result A
malformed = err (external "wrong arguments")

abbrev pub checked : {A : Type 0} → Bool → A → Result A
checked fine a = if fine then ok a else refused

-- ON CONFLICT DO NOTHING.
abbrev pub if_absent : {A : Type 0} → ℤ → A → (ℤ → Option A) → ℤ → Option A
if_absent k row f = if exists (f k) then f else put_row k (some row) f

abbrev pub is_aborted : GoError
is_aborted = pg_error "25P02" "current transaction is aborted"

module _ {Time : Type 0} where
  abbrev pub issue_fits : Raw.Issue Time → Tables Time → Bool
  issue_fits row t =
      fits_int4 row.id
      && fits_int4 row.project_id
      && fits_int4 row.author_id
      && fits_nullable row.assignee_id
      && fits_nullable row.time_spent
      && exists (t.project row.project_id)
      && exists (t.author row.author_id)
      && refers t.author row.assignee_id

  abbrev pub change_fits : Raw.StatusChange Time → Tables Time → Bool
  change_fits ch t =
      fits_int4 ch.issue_id
      && fits_int4 ch.author_id
      && exists (t.issue ch.issue_id)
      && exists (t.author ch.author_id)

  abbrev pub put_project : Raw.Project → Tables Time → Result (Tables Time)
  put_project row t =
      checked (fits_int4 row.id) (record t { project = if_absent row.id row t.project })

  abbrev pub put_author : Raw.Author → Tables Time → Result (Tables Time)
  put_author row t =
      checked (fits_int4 row.id) (record t { author = if_absent row.id row t.author })

  -- ON CONFLICT (id) DO UPDATE SET every other column.
  abbrev pub put_issue : Raw.Issue Time → Tables Time → Result (Tables Time)
  put_issue row t =
      checked (issue_fits row t) (record t { issue = put_row row.id (some row) t.issue })

  abbrev pub put_change : Raw.StatusChange Time → Tables Time → Result (Tables Time)
  put_change ch t =
      checked (change_fits ch t)
        (record t { changes = put_row ch.issue_id (t.changes ch.issue_id ++ ch ∷ []) t.changes })

  -- The statement of a query with its arguments $1, $2, ...
  unfoldable pub run_statement : Query → List (Arg Time) → Tables Time → Result (Tables Time)
  run_statement insert_project (int id ∷ text title ∷ []) t =
      put_project (record { id = id; title = title }) t
  run_statement insert_project args t = malformed
  run_statement insert_author (int id ∷ text name ∷ []) t =
      put_author (record { id = id; name = name }) t
  run_statement insert_author args t = malformed
  run_statement insert_issue
        (int id
          ∷ int project
          ∷ int author
          ∷ assignee
          ∷ text key
          ∷ summary
          ∷ description
          ∷ kind
          ∷ priority
          ∷ status
          ∷ created
          ∷ closed
          ∷ updated
          ∷ spent
          ∷ [])
        t =
      put_issue
        (record {
          id = id;
          project_id = project;
          author_id = author;
          assignee_id = int_arg assignee;
          key = key;
          summary = text_arg summary;
          description = text_arg description;
          kind = text_arg kind;
          priority = text_arg priority;
          status = text_arg status;
          created_time = time_arg created;
          closed_time = time_arg closed;
          updated_time = time_arg updated;
          time_spent = int_arg spent;
        })
        t
  run_statement insert_issue args t = malformed
  run_statement insert_status_change (int issue ∷ int author ∷ time at ∷ from ∷ to ∷ []) t =
      put_change
        (record {
          issue_id = issue;
          author_id = author;
          change_time = at;
          from_status = text_arg from;
          to_status = text_arg to;
        })
        t
  run_statement insert_status_change args t = malformed
  run_statement delete_status_changes_by_issue (int id ∷ []) t =
      checked (fits_int4 id) (record t { changes = put_row id [] t.changes })
  run_statement delete_status_changes_by_issue args t = malformed

  -- After a failed statement the transaction is aborted: further ones fail, and so does the commit.
  abbrev pub in_transaction : Result (Tables Time) → Server Time → Option GoError × Server Time
  in_transaction (ok t) d = (none, record d { working = t })
  in_transaction (err e) d = (some e, record d { aborted = true })

  abbrev pub autocommit : Result (Tables Time) → Server Time → Option GoError × Server Time
  autocommit (ok t) d = (none, record d { committed = t })
  autocommit (err e) d = (some e, d)

  unfoldable pub exec :
      Querier → Query → List (Arg Time) → Server Time → Option GoError × Server Time
  unfolding run_statement
  exec tx q args d =
      if d.aborted
      then (some is_aborted, d)
      else if ints_fit args
      then in_transaction (run_statement q args d.working) d
      else (some out_of_range, d)
  exec db q args d =
      if ints_fit args
      then autocommit (run_statement q args d.committed) d
      else (some out_of_range, d)
  exec other q args d = (some (external "unknown querier"), d)

  unfoldable pub commit : Server Time → Option GoError × Server Time
  commit d =
      if d.aborted
      then (
        some (external "commit unexpectedly resulted in rollback"),
        record d { aborted = false },
      )
      else (none, record d { committed = d.working })

  abbrev pub postgres : Database Time (Server Time)
  postgres = record {
    exec = exec;
    begin = λ d. (none, record d { working = d.committed; aborted = false });
    commit = commit;
    rollback = λ d. (none, record d { aborted = false });
  }
