-- ===== src/Sync/Storage/Statements.antt =====
-- internal/repository/postgres/postgres.go: the statements in a transaction that goes well.
use jira_connector.Base.{
  ◌≡◌, refl, String, true, Option, none, some, [], ◌∷◌, ◌++◌, arith, inl, inr, Bool-cases,
}
use mathlib.Core.Path.{fun_ext}
use jira_connector.Base.Int.{ℤ, eqb_ℤ}
use jira_connector.Raw
use jira_connector.Mapper.{Codec}
use jira_connector.Repo.{
  tx, insert_status_change_row, insert_issue_row, delete_status_changes, opt_int, opt_text,
  opt_time,
}
use jira_connector.Repo.Postgres.{
  Tables, put_row, fits_int4, fits_nullable, issue_fits, change_fits, exec, run_statement, postgres,
  int_arg, text_arg, time_arg,
}
use jira_connector.Sync.Storage.{live}

pub put_row_twice :
    {A : Type 0} (k : ℤ) (a b : A) (f : ℤ → A) → put_row k b (put_row k a f) ≡ put_row k b f
put_row_twice k a b f =
    fun_ext λ i. elim (Bool-cases (eqb_ℤ k i)) [ inl e ↦ rw e refl | inr e ↦ rw e refl ]

module _ (Time : Type 0) where
  int_arg-opt_int : (o : Option ℤ) → int_arg (opt_int {Time = Time} o) ≡ o
  int_arg-opt_int none = refl
  int_arg-opt_int (some n) = refl

  text_arg-opt_text : (o : Option String) → text_arg (opt_text {Time = Time} o) ≡ o
  text_arg-opt_text none = refl
  text_arg-opt_text (some n) = refl

  pub int_arg-opt_text : (o : Option String) → int_arg (opt_text {Time = Time} o) ≡ none
  int_arg-opt_text none = refl
  int_arg-opt_text (some n) = refl

  int_arg-opt_time : (o : Option Time) → int_arg (opt_time o) ≡ none
  int_arg-opt_time none = refl
  int_arg-opt_time (some n) = refl

  time_arg-opt_time : (o : Option Time) → time_arg (opt_time o) ≡ o
  time_arg-opt_time none = refl
  time_arg-opt_time (some n) = refl

module _ (codec : Codec) where
  open codec use {Time}

  issue_ints :
      (row : Raw.Issue Time) (t : Tables Time)
      → issue_fits row t ≡ true
      → (fits_int4 row.id ≡ true)
        × (fits_int4 row.project_id ≡ true)
        × (fits_int4 row.author_id ≡ true)
        × (fits_nullable row.assignee_id ≡ true)
        × (fits_nullable row.time_spent ≡ true)
  issue_ints row t fine = (ground arith, ground arith, ground arith, ground arith, ground arith)

  -- A row that fits is inserted, or put in the place of the old one.
  pub insert_issue-live :
      (row : Raw.Issue Time) (c t : Tables Time)
      → issue_fits row t ≡ true
      → insert_issue_row postgres tx row (live c t)
        ≡ (none, live c (record t { issue = put_row row.id (some row) t.issue }))
  unfolding insert_issue_row exec run_statement
  insert_issue-live row c t fine =
      let (id, project, author, assignee, spent) = issue_ints row t fine in
      rw
        (
          int_arg-opt_text Time row.summary,
          int_arg-opt_text Time row.description,
          int_arg-opt_text Time row.kind,
          int_arg-opt_text Time row.priority,
          int_arg-opt_text Time row.status,
          int_arg-opt_time Time row.created_time,
          int_arg-opt_time Time row.closed_time,
          int_arg-opt_time Time row.updated_time,
          int_arg-opt_int Time row.assignee_id,
          int_arg-opt_int Time row.time_spent,
          text_arg-opt_text Time row.summary,
          text_arg-opt_text Time row.description,
          text_arg-opt_text Time row.kind,
          text_arg-opt_text Time row.priority,
          text_arg-opt_text Time row.status,
          time_arg-opt_time Time row.created_time,
          time_arg-opt_time Time row.closed_time,
          time_arg-opt_time Time row.updated_time,
          fine,
          id,
          project,
          author,
          assignee,
          spent,
        )
        refl

  change_ints :
      (ch : Raw.StatusChange Time) (t : Tables Time)
      → change_fits ch t ≡ true
      → (fits_int4 ch.issue_id ≡ true) × (fits_int4 ch.author_id ≡ true)
  change_ints ch t fine = (ground arith, ground arith)

  pub insert_change-live :
      (ch : Raw.StatusChange Time) (c t : Tables Time)
      → change_fits ch t ≡ true
      → insert_status_change_row postgres tx ch (live c t) ≡ (
        none,
        live c (record t {
          changes = put_row ch.issue_id (t.changes ch.issue_id ++ ch ∷ []) t.changes;
        }),
      )
  unfolding insert_status_change_row exec run_statement
  insert_change-live ch c t fine =
      let (issue, author) = change_ints ch t fine in
      rw
        (
          int_arg-opt_text Time ch.from_status,
          int_arg-opt_text Time ch.to_status,
          text_arg-opt_text Time ch.from_status,
          text_arg-opt_text Time ch.to_status,
          fine,
          issue,
          author,
        )
        refl

  pub delete_changes-live :
      (id : ℤ) (c t : Tables Time)
      → fits_int4 id ≡ true
      → delete_status_changes postgres tx id (live c t)
        ≡ (none, live c (record t { changes = put_row id [] t.changes }))
  unfolding delete_status_changes exec run_statement
  delete_changes-live id c t fit = rw fit refl
