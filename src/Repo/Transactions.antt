-- ===== src/Repo/Transactions.antt =====
-- internal/repository/postgres/postgres.go, `WithTransaction` over a transactional database.
use jira_connector.Base.{◌≡◌, refl, ◌∙◌, Option, none, some, Option-cases, inl, inr}
use jira_connector.GoError.{GoError}
use jira_connector.Repo.{
  Database, Querier, db, tx, other, commit_tx, rollback_tx, close_tx, in_tx, with_transaction,
  Query, began,
}

-- What the program relies on of the database: a view of what is stored durably, which only a
-- successful commit changes.
pub record IsTransactional {Time D V : Type 0} (base : Database Time D) (stored : D → V)
    : Type 0 where
  pub begin_keeps : (d : D) → stored (base.begin d).1 ≡ stored d
  pub exec_keeps : (q : Query) (args : _) (d : D) → stored (base.exec tx q args d).1 ≡ stored d
  pub rollback_keeps : (d : D) → stored (base.rollback d).1 ≡ stored d
  pub commit_keeps :
      (d : D) (e : GoError) → (base.commit d).0 ≡ some e → stored (base.commit d).1 ≡ stored d

module _ {Time D V S : Type 0} (base : Database Time D) (stored : D → V)
    (laws : IsTransactional base stored) where
  -- An operation inside a transaction leaves what is stored alone until the commit.
  abbrev pub Keeps : (Querier → S → D → Option GoError × S × D) → Type 0
  Keeps op = (s : S) (d : D) → stored (op tx s d).2 ≡ stored d

  -- A result that is an error leaves what was stored as it was.
  abbrev pub Unchanged : V → Option GoError × S × D → Type 0
  Unchanged v (none, s, d) = Unit
  Unchanged v (some e, s, d) = stored d ≡ v

  close_tx-Unchanged :
      (v : V) (o : Option GoError) (s : S) (d : D)
      → stored d ≡ v
      → Unchanged v (close_tx base tx (o, s, d))
  unfolding commit_tx rollback_tx
  close_tx-Unchanged v (some e) s d h = laws.rollback_keeps d ∙ h
  close_tx-Unchanged v none s d h = elim (Option-cases (base.commit d).0) [
    | inl e ↦ rw e tt
    | inr (x, e) ↦ rw e (laws.commit_keeps d x e ∙ h)
  ]

  in_tx-Unchanged :
      (op : Querier → S → D → Option GoError × S × D)
      → Keeps op
      → (v : V) (s : S) (p : Option GoError × D) → stored p.1 ≡ v
      → Unchanged v (in_tx base op s (began p))
  in_tx-Unchanged op keeps v s (some e, d) h = h
  in_tx-Unchanged op keeps v s (none, d) h =
      close_tx-Unchanged v (op tx s d).0 (op tx s d).1 (op tx s d).2 (keeps s d ∙ h)

  -- Over a database of which only a successful commit changes what is stored, and for an operation
  -- that leaves it so inside a transaction: if WithTransaction returns an error, be it of the
  -- beginning, of the operation or of the commit, the database stores what it stored before.
  pub with_transaction-atomic :
      (op : Querier → S → D → Option GoError × S × D)
      → Keeps op
      → (q : Querier) (s : S) (d : D) → Unchanged (stored d) (with_transaction base q op s d)
  unfolding with_transaction
  with_transaction-atomic op keeps tx s d = refl
  with_transaction-atomic op keeps other s d = refl
  with_transaction-atomic op keeps db s d =
      in_tx-Unchanged op keeps (stored d) s (base.begin d) (laws.begin_keeps d)
