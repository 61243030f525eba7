-- ===== src/Repo/Postgres/Laws.antt =====
-- internal/repository/postgres/queries: the tables under the statements, and the transaction.
use jira_connector.Base.{◌≡◌, refl, true, false, Option, some, List, arith, Bool-cases, inl, inr}
use jira_connector.Base.Int.{ℤ, pos, negsuc, eqb_ℤ}
use jira_connector.GoError.{GoError, Result, ok, err}
use jira_connector.Repo.{Query, Arg, tx}
use jira_connector.Repo.Transactions.{IsTransactional}
use jira_connector.Repo.Postgres.{
  Tables, Server, put_row, exists, if_absent, ints_fit, run_statement, in_transaction, exec, commit,
  postgres,
}

pub eqb_ℤ-refl : (k : ℤ) → eqb_ℤ k k ≡ true
eqb_ℤ-refl k = ground arith

pub eqb_ℤ-eq : (k i : ℤ) → eqb_ℤ k i ≡ true → k ≡ i
eqb_ℤ-eq (pos k) (pos i) h = ground arith
eqb_ℤ-eq (pos k) (negsuc i) h = ground arith
eqb_ℤ-eq (negsuc k) (pos i) h = ground arith
eqb_ℤ-eq (negsuc k) (negsuc i) h = ground arith

module _ {A : Type 0} where
  pub put_row_self : (k : ℤ) (row : A) (f : ℤ → A) → put_row k row f k ≡ row
  put_row_self k row f = rw (eqb_ℤ-refl k) refl

  -- A row that is put where there is none is there afterwards, and so is whatever was there.
  pub exists-if_absent_self :
      (k : ℤ) (row : A) (f : ℤ → Option A) → exists (if_absent k row f k) ≡ true
  exists-if_absent_self k row f = elim (Bool-cases (exists (f k))) [
    | inl e ↦ rw e e
    | inr e ↦ rw (e, eqb_ℤ-refl k) refl
  ]

  pub exists-if_absent :
      (k i : ℤ) (row : A) (f : ℤ → Option A)
      → exists (f i) ≡ true
      → exists (if_absent k row f i) ≡ true
  exists-if_absent k i row f h = elim (Bool-cases (exists (f k))) [
    | inl e ↦ rw e h
    | inr e ↦ rw e (elim (Bool-cases (eqb_ℤ k i)) [ inl q ↦ rw q refl | inr q ↦ rw q h ])
  ]

module _ {Time : Type 0} where
  in_transaction-committed :
      (r : Result (Tables Time)) (d : Server Time) → (in_transaction r d).1.committed ≡ d.committed
  in_transaction-committed (ok t) d = refl
  in_transaction-committed (err e) d = refl

  exec-committed :
      (q : Query) (args : List (Arg Time)) (d : Server Time)
      → (exec tx q args d).1.committed ≡ d.committed
  unfolding exec
  exec-committed q args d = elim (Bool-cases d.aborted) [
    | inl e ↦ rw e refl
    | inr e ↦ rw e (elim (Bool-cases (ints_fit args)) [
      | inl f ↦
          rw f (
            in_transaction-committed (run_statement q args d.working)
              (record d { aborted = false }))
      | inr f ↦ rw f refl
    ])
  ]

  commit-committed :
      (d : Server Time) (e : GoError) → (commit d).0 ≡ some e → (commit d).1.committed ≡ d.committed
  unfolding commit
  commit-committed d e h = elim (Bool-cases d.aborted) [ inl f ↦ rw f refl | inr f ↦ cc ]

  -- Only a successful commit changes what is stored.
  pub postgres-IsTransactional : IsTransactional (postgres {Time = Time}) (λ d. d.committed)
  unfolding exec commit
  postgres-IsTransactional = record {
    begin_keeps = λ d. refl;
    exec_keeps = exec-committed;
    rollback_keeps = λ d. refl;
    commit_keeps = commit-committed;
  }
