-- ===== src/Repo.antt =====
-- internal/repository/postgres/postgres.go with the queries of its folder, and
-- internal/repository/repository.go: statements and transactions. The database behind
-- `database/sql` is a parameter: a state, and what the driver's calls return and leave.
pub mod Transactions
pub mod Postgres
mod Examples
use jira_connector.Base.{
  ℕ, String, Bool, true, false, Option, none, some, List, [], ◌∷◌, if◌then◌else◌,
}
use jira_connector.Base.Int.{ℤ}
use jira_connector.Base.Text.{str_eq, append, format_int}
use jira_connector.GoError.{
  GoError, Sentinel, sentinel, wrap, as_pg_error, err_project_already_exists,
  err_author_already_exists, err_issue_already_exists, err_nested_transaction,
  err_unexpected_querier_type, err_commit_outside_tx, err_rollback_outside_tx, Result, ok, err,
}
use jira_connector.Raw

-- The files of queries/.
pub data Query : Type 0 where
  insert_project insert_author insert_issue insert_status_change : Query
  delete_status_changes_by_issue : Query

-- A bound argument; a nil pointer is null.
pub data Arg (Time : Type 0) : Type 0 where
  int : ℤ → Arg Time
  text : String → Arg Time
  time : Time → Arg Time
  null : Arg Time

-- What the field `db` of a PostgresRepository holds: a *sql.DB, a *sql.Tx, or another querier.
pub data Querier : Type 0 where
  db tx other : Querier

pub record Database (Time D : Type 0) : Type 0 where
  pub exec : Querier → Query → List (Arg Time) → D → Option GoError × D
  pub begin : D → Option GoError × D
  pub commit : D → Option GoError × D
  pub rollback : D → Option GoError × D

unique_code : Option String → Bool
unique_code none = false
unique_code (some code) = str_eq code "23505"

unfoldable pub is_unique_violation : GoError → Bool
unfolding unique_code as_pg_error
is_unique_violation e = unique_code (as_pg_error e)

abbrev pub opt_int : {Time : Type 0} → Option ℤ → Arg Time
opt_int none = null
opt_int (some n) = int n

abbrev pub opt_text : {Time : Type 0} → Option String → Arg Time
opt_text none = null
opt_text (some s) = text s

abbrev pub opt_time : {Time : Type 0} → Option Time → Arg Time
opt_time none = null
opt_time (some t) = time t

-- The error of an insertion: a violation of uniqueness becomes the sentinel, any other is wrapped.
abbrev pub insert_error : Sentinel → String → Option GoError → Option GoError
insert_error exists prefix none = none
insert_error exists prefix (some e) =
    if is_unique_violation e then some (sentinel exists) else some (wrap prefix e)

abbrev pub plain_error : String → Option GoError → Option GoError
plain_error prefix none = none
plain_error prefix (some e) = some (wrap prefix e)

abbrev pub began : {D : Type 0} → Option GoError × D → Result Querier × D
began (none, d) = (ok tx, d)
began (some e, d) = (err (wrap "begin transaction" e), d)

module _ {Time D : Type 0} (base : Database Time D) where
  open base use {exec, begin, commit, rollback}

  unfoldable pub new_tx : Querier → D → Result Querier × D
  new_tx tx d = (err (sentinel err_nested_transaction), d)
  new_tx other d = (err (sentinel err_unexpected_querier_type), d)
  new_tx db d = began (begin d)

  unfoldable pub commit_tx : Querier → D → Option GoError × D
  commit_tx tx d = (plain_error "commit transaction" (commit d).0, (commit d).1)
  commit_tx db d = (some (sentinel err_commit_outside_tx), d)
  commit_tx other d = (some (sentinel err_commit_outside_tx), d)

  unfoldable pub rollback_tx : Querier → D → Option GoError × D
  rollback_tx tx d = (plain_error "rollback transaction" (rollback d).0, (rollback d).1)
  rollback_tx db d = (some (sentinel err_rollback_outside_tx), d)
  rollback_tx other d = (some (sentinel err_rollback_outside_tx), d)

  unfoldable pub insert_project_row : Querier → Raw.Project → D → Option GoError × D
  insert_project_row q project d =
      let (e, d') = exec q insert_project (int project.id ∷ text project.title ∷ []) d in
      (insert_error err_project_already_exists "insert project" e, d')

  unfoldable pub insert_author_row : Querier → Raw.Author → D → Option GoError × D
  insert_author_row q author d =
      let (e, d') = exec q insert_author (int author.id ∷ text author.name ∷ []) d in
      (insert_error err_author_already_exists "insert author" e, d')

  -- The arguments of insert_issue.sql, in the order of its columns.
  abbrev pub issue_args : Raw.Issue Time → List (Arg Time)
  issue_args issue =
      int issue.id
      ∷ int issue.project_id
      ∷ int issue.author_id
      ∷ opt_int issue.assignee_id
      ∷ text issue.key
      ∷ opt_text issue.summary
      ∷ opt_text issue.description
      ∷ opt_text issue.kind
      ∷ opt_text issue.priority
      ∷ opt_text issue.status
      ∷ opt_time issue.created_time
      ∷ opt_time issue.closed_time
      ∷ opt_time issue.updated_time
      ∷ opt_int issue.time_spent
      ∷ []

  unfoldable pub insert_issue_row : Querier → Raw.Issue Time → D → Option GoError × D
  insert_issue_row q issue d =
      let (e, d') = exec q insert_issue (issue_args issue) d in
      (insert_error err_issue_already_exists "insert issue" e, d')

  unfoldable pub insert_status_change_row : Querier → Raw.StatusChange Time → D → Option GoError × D
  insert_status_change_row q change d =
      let (e, d') =
        exec q insert_status_change
          (int change.issue_id
            ∷ int change.author_id
            ∷ time change.change_time
            ∷ opt_text change.from_status
            ∷ opt_text change.to_status
            ∷ [])
          d in
      (plain_error "insert status change" e, d')

  unfoldable pub delete_status_changes : Querier → ℤ → D → Option GoError × D
  delete_status_changes q issue_id d =
      let (e, d') = exec q delete_status_changes_by_issue (int issue_id ∷ []) d in
      (plain_error (append "delete status changes for issue " (format_int issue_id)) e, d')

  -- WithTransaction, for an operation that changes a state `S` of the program's own as well. A
  -- rollback does not undo that part.
  abbrev pub close_tx : {S : Type 0} → Querier → Option GoError × S × D → Option GoError × S × D
  close_tx q (none, s, d) = ((commit_tx q d).0, s, (commit_tx q d).1)
  close_tx q (some e, s, d) = (some e, s, (rollback_tx q d).1)

  abbrev pub in_tx :
      {S : Type 0}
      → (Querier → S → D → Option GoError × S × D)
      → S
      → Result Querier × D
      → Option GoError × S × D
  in_tx operation s (err e, d) = (some e, s, d)
  in_tx operation s (ok q, d) = close_tx q (operation q s d)

  unfoldable pub with_transaction :
      {S : Type 0}
      → Querier
      → (Querier → S → D → Option GoError × S × D)
      → S
      → D
      → Option GoError × S × D
  unfolding new_tx commit_tx rollback_tx
  with_transaction q operation s d = in_tx operation s (new_tx q d)
