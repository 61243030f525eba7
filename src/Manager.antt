-- ===== src/Manager.antt =====
-- internal/service/sync/manager.go: the in-memory registry of sync jobs. Each method runs under the
-- manager's mutex (the counters are atomics), so it is one step on the record `Manager`. The clock
-- and `uuid.NewString` are arguments. `byKey` shares its `*job` pointers with `byID`, but the code
-- reads only the immutable `id` through it, so here it holds that id.
pub mod Invariant
pub mod Jobs
pub mod Polling
mod Examples
use jira_connector.Base.{
  ℕ, ◌+◌, ◌-◌, ◌*◌, ◌^◌, ◌%◌, String, Bool, true, false, Option, none, some, leb, ◌==◌,
  if◌then◌else◌,
}
use jira_connector.Base.Map.{Map, insert, erase, empty}

-- A time.Time or time.Duration in nanoseconds; the zero time is 0.
abbrev pub job_ttl : ℕ
job_ttl = 10 * 60 * 1_000_000_000

-- JobState, an int32.
abbrev pub JobState : Type 0
JobState = ℕ

abbrev pub job_state_running : JobState
job_state_running = 1

abbrev pub job_state_completed : JobState
job_state_completed = 2

abbrev pub job_state_failed : JobState
job_state_failed = 3

pub record Job : Type 0 where
  pub id : String
  pub project_key : String
  pub state : JobState
  pub processed : ℕ
  pub total : ℕ
  pub err_msg : String
  pub started_at : ℕ
  pub finished_at : ℕ

pub record JobSnapshot : Type 0 where
  pub id : String
  pub project_key : String
  pub state : JobState
  pub processed : ℕ
  pub total : ℕ
  pub err_msg : String
  pub started_at : ℕ
  pub finished_at : ℕ

unfoldable pub snapshot : Job → JobSnapshot
snapshot j = record {
  id = j.id;
  project_key = j.project_key;
  state = j.state;
  processed = j.processed;
  total = j.total;
  err_msg = j.err_msg;
  started_at = j.started_at;
  finished_at = j.finished_at;
}

pub record Manager : Type 0 where
  pub by_id : Map Job
  pub by_key : Map String

abbrev pub new_manager : Manager
new_manager = record { by_id = empty; by_key = empty }

pub record StartResult : Type 0 where
  pub sync_id : String
  pub started : Bool

abbrev is_expired : ℕ → Job → Bool
is_expired now j = if j.state == job_state_running then false else leb job_ttl (now - j.finished_at)

abbrev keep_unexpired : ℕ → Option Job → Option Job
keep_unexpired now none = none
keep_unexpired now (some j) = if is_expired now j then none else some j

-- `now` never precedes `finished_at` on the monotonic clock; before it the difference is negative in
-- the source and 0 here, and neither reaches the limit.
unfoldable pub evict_expired_locked : ℕ → Manager → Manager
evict_expired_locked now m = record m { by_id = λ k. keep_unexpired now (m.by_id k) }

abbrev new_job : ℕ → String → String → Job
new_job now uuid key = record {
  id = uuid;
  project_key = key;
  state = job_state_running;
  processed = 0;
  total = 0;
  err_msg = "";
  started_at = now;
  finished_at = 0;
}

abbrev start_evicted : ℕ → String → String → Manager → Option String → Manager × StartResult
start_evicted now uuid key m (some existing) = (m, record { sync_id = existing; started = false })
start_evicted now uuid key m none = (
  record { by_id = insert uuid (new_job now uuid key) m.by_id; by_key = insert key uuid m.by_key },
  record { sync_id = uuid; started = true },
)

unfoldable pub start : ℕ → String → String → Manager → Manager × StartResult
unfolding evict_expired_locked
start now uuid key m = start_evicted now uuid key (evict_expired_locked now m) (m.by_key key)

abbrev snapshot_of : Option Job → Option JobSnapshot
unfolding snapshot
snapshot_of none = none
snapshot_of (some j) = some (snapshot j)

-- `none` is ok=false.
unfoldable pub status : String → Manager → Option JobSnapshot
unfolding snapshot
status id m = snapshot_of (m.by_id id)

-- A write through the pointer that `byID[id]` holds.
abbrev pub modify : String → (Job → Job) → Manager → Option Job → Manager
modify id f m none = m
modify id f m (some j) = record m { by_id = insert id (f j) m.by_id }

unfoldable pub set_total : String → ℕ → Manager → Manager
set_total id total m = modify id (λ j. record j { total = total }) m (m.by_id id)

-- An atomic.Uint64 wraps.
unfoldable pub incr_processed : String → Manager → Manager
incr_processed id m =
    modify id (λ j. record j { processed = (j.processed + 1) % 2 ^ 64 }) m (m.by_id id)

abbrev pub finish : String → (Job → Job) → Manager → Option Job → Manager
finish id f m none = m
finish id f m (some j) = record {
  by_id = insert id (f j) m.by_id;
  by_key = erase j.project_key m.by_key;
}

unfoldable pub complete : ℕ → String → Manager → Manager
complete now id m =
    finish id (λ j. record j { state = job_state_completed; finished_at = now }) m (m.by_id id)

unfoldable pub fail : ℕ → String → String → Manager → Manager
fail now id msg m =
    finish id (λ j. record j { state = job_state_failed; err_msg = msg; finished_at = now }) m
      (m.by_id id)
