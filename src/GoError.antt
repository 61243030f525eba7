-- ===== src/GoError.antt =====
-- Go's `error` values: the sentinels that the repository declares, the errors of libraries, and the
-- wrapping by `fmt.Errorf` with `errors.Is` and `errors.As`. A nil error is `none`.
use jira_connector.Base.{
  ℕ, String, Bool, false, ◌||◌, Option, none, some, List, [], ◌∷◌, ◌==◌, ◌≡◌, refl, ◌⊎◌, inl, inr,
}
use jira_connector.Base.Text.{append}
use jira_connector.JiraError.{JiraError, error}

pub data Sentinel : Type 0 where
  err_project_not_found err_invalid_payload_type err_invalid_repository : Sentinel
  err_unexpected_result_type : Sentinel
  err_project_already_exists err_author_already_exists err_issue_already_exists : Sentinel
  err_nested_transaction err_unexpected_querier_type : Sentinel
  err_commit_outside_tx err_rollback_outside_tx : Sentinel
  err_pool_stopped err_submit_panic : Sentinel
  err_internal_invalid_action err_jira_base_url_required : Sentinel
  err_job_disappeared err_sync_failed err_init_application err_no_project_key : Sentinel
  context_canceled context_deadline_exceeded : Sentinel
  err_no_change err_server_closed : Sentinel

abbrev index : Sentinel → ℕ
index err_project_not_found = 0
index err_invalid_payload_type = 1
index err_invalid_repository = 2
index err_unexpected_result_type = 3
index err_project_already_exists = 4
index err_author_already_exists = 5
index err_issue_already_exists = 6
index err_nested_transaction = 7
index err_unexpected_querier_type = 8
index err_commit_outside_tx = 9
index err_rollback_outside_tx = 10
index err_pool_stopped = 11
index err_submit_panic = 12
index err_internal_invalid_action = 13
index err_jira_base_url_required = 14
index err_job_disappeared = 15
index err_sync_failed = 16
index err_init_application = 17
index err_no_project_key = 18
index context_canceled = 19
index context_deadline_exceeded = 20
index err_no_change = 21
index err_server_closed = 22

abbrev pub same_sentinel : Sentinel → Sentinel → Bool
same_sentinel a b = index a == index b

-- The texts given to `errors.New`.
abbrev pub sentinel_text : Sentinel → String
sentinel_text err_project_not_found = "project not found in Jira"
sentinel_text err_invalid_payload_type = "invalid payload type"
sentinel_text err_invalid_repository = "repository is not *postgres.PostgresRepository"
sentinel_text err_unexpected_result_type = "unexpected result type"
sentinel_text err_project_already_exists = "project already exists"
sentinel_text err_author_already_exists = "author already exists"
sentinel_text err_issue_already_exists = "issue already exists"
sentinel_text err_nested_transaction =
    "cannot start nested transaction: already running in a transaction"
sentinel_text err_unexpected_querier_type =
    "unexpected querier type: expected *sql.DB to begin transaction"
sentinel_text err_commit_outside_tx = "commit called outside of transaction"
sentinel_text err_rollback_outside_tx = "rollback called outside of transaction"
sentinel_text err_pool_stopped = "worker pool is stopped"
sentinel_text err_submit_panic = "submit task: panic recovered"
sentinel_text err_internal_invalid_action = "internal error: unknown action from handleResponse"
sentinel_text err_jira_base_url_required = "jira.baseUrl is required"
sentinel_text err_job_disappeared = "sync job disappeared from registry"
sentinel_text err_sync_failed = "sync failed"
sentinel_text err_init_application = "create new fs manager"
sentinel_text err_no_project_key = "flag --project is required"
sentinel_text context_canceled = "context canceled"
sentinel_text context_deadline_exceeded = "context deadline exceeded"
sentinel_text err_no_change = "no change"
sentinel_text err_server_closed = "http: Server closed"

pub data GoError : Type 0 where
  sentinel : Sentinel → GoError
  -- A `*jira.Error`.
  api : JiraError → GoError
  -- A `*pgconn.PgError`: its code and message.
  pg_error : String → String → GoError
  -- Any other error of a library: its text.
  external : String → GoError
  -- fmt.Errorf("text: %w", err)
  wrap : String → GoError → GoError
  -- fmt.Errorf("text: %w", err) where err is nil
  wrap_nil : String → GoError
  -- fmt.Errorf("%w: text", err)
  detail : GoError → String → GoError
  -- errors.Join of two errors
  join : GoError → GoError → GoError

-- The text that `Error()` returns.
abbrev pub error_text : GoError → String
error_text (sentinel s) = sentinel_text s
error_text (api e) = error e
error_text (pg_error code text) = text
error_text (external text) = text
error_text (wrap text e) = append text (append ": " (error_text e))
error_text (wrap_nil text) = append text ": %!w(<nil>)"
error_text (detail e text) = append (error_text e) (append ": " text)
error_text (join a b) = append (error_text a) (append "\n" (error_text b))

-- errors.Is(err, target)
abbrev pub is_error : Sentinel → GoError → Bool
is_error t (sentinel s) = same_sentinel s t
is_error t (wrap text e) = is_error t e
is_error t (detail e text) = is_error t e
is_error t (join a b) = let there = is_error t b in is_error t a || there
is_error t (api e) = false
is_error t (pg_error code text) = false
is_error t (external text) = false
is_error t (wrap_nil text) = false

or_else {ℓ} : {A : Type ℓ} → Option A → Option A → Option A
or_else none o = o
or_else (some a) o = some a

-- errors.As(err, &pgErr): the code of the first `*pgconn.PgError` in the chain.
unfoldable pub as_pg_error : GoError → Option String
unfolding or_else
as_pg_error (pg_error code text) = some code
as_pg_error (wrap text e) = as_pg_error e
as_pg_error (detail e text) = as_pg_error e
as_pg_error (join a b) = or_else (as_pg_error a) (as_pg_error b)
as_pg_error (sentinel s) = none
as_pg_error (api e) = none
as_pg_error (external text) = none
as_pg_error (wrap_nil text) = none

-- errors.Join(errs...): nil where there is no error.
abbrev pub errors_join : List GoError → Option GoError
errors_join [] = none
errors_join (e ∷ []) = some e
errors_join (e ∷ f ∷ es) = elim (errors_join (f ∷ es)) [ none ↦ some e | some r ↦ some (join e r) ]

-- A pair `(T, error)` of which one is nil.
pub data Result {ℓ} (A : Type ℓ) : Type ℓ where
  ok : A → Result A
  err : GoError → Result A

module _ {ℓ κ} {A : Type ℓ} {B : Type κ} where
  infixl 5 ◌>>=◌
  -- `if err != nil { return err }`, and on with the value.
  abbrev pub ◌>>=◌ : Result A → (A → Result B) → Result B
  result >>= next = elim result [ ok value ↦ next value | err e ↦ err e ]

  -- What succeeds as a whole has succeeded in both of its parts.
  pub >>=-eq-ok :
      (result : Result A) (next : A → Result B) {final : B}
      → (result >>= next) ≡ ok final
      → (value : A) × (result ≡ ok value) × (next value ≡ ok final)
  >>=-eq-ok (ok value) next h = (value, refl, h)
  >>=-eq-ok (err e) next h = cc

-- `if err != nil { return fmt.Errorf("text: %w", err) }`
abbrev pub wrapped {ℓ} : {A : Type ℓ} → String → Result A → Result A
wrapped text (ok a) = ok a
wrapped text (err e) = err (wrap text e)

pub Result-cases {ℓ} :
    {A : Type ℓ} (r : Result A) → ((a : A) × (r ≡ ok a)) ⊎ ((e : GoError) × (r ≡ err e))
Result-cases (ok a) = inl (a, refl)
Result-cases (err e) = inr (e, refl)
