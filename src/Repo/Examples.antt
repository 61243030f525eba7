-- ===== src/Repo/Examples.antt =====
-- A database of which only the number of rows is kept: what is stored, and what a transaction has
-- pending.
use jira_connector.Base.{ℕ, suc, String, Option, some, none, refl}
use jira_connector.GoError.{GoError, external}
use jira_connector.Repo.{Database, Querier, db, with_transaction}
use jira_connector.Repo.Transactions.{IsTransactional, Unchanged, with_transaction-atomic}

record Rows : Type 0 where
  stored : ℕ
  pending : ℕ

abbrev counting : Database String Rows
counting = record {
  exec = λ q query args d. (none, record d { pending = suc d.pending });
  begin = λ d. (none, record d { pending = d.stored });
  commit = λ d. (none, record d { stored = d.pending });
  rollback = λ d. (none, record d { pending = d.stored });
}

counting-IsTransactional : IsTransactional counting (λ d. d.stored)
counting-IsTransactional = record {
  begin_keeps = λ d. refl;
  exec_keeps = λ q args d. refl;
  rollback_keeps = λ d. refl;
  commit_keeps = λ d e h. cc;
}

-- An operation that writes a row and then fails.
abbrev write_and_fail : Querier → ℕ → Rows → Option GoError × ℕ × Rows
write_and_fail q s d = (some (external "broken"), suc s, record d { pending = suc d.pending })

abbrev two_rows : Rows
two_rows = record { stored = 2; pending = 2 }

with_transaction-atomic_example :
    Unchanged counting
      (λ d. d.stored)
      counting-IsTransactional
      2
      (with_transaction counting db write_and_fail 0 two_rows)
with_transaction-atomic_example =
    with_transaction-atomic counting (λ d. d.stored) counting-IsTransactional write_and_fail
      (λ s d. refl) db 0 two_rows
