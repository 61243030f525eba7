-- ===== src/Metrics/Accounts.antt =====
-- internal/metrics/metrics.go: the gauge of active jobs against the counters of jobs.
use jira_connector.Base.{◌+◌, ◌≡◌, String, Bool, true, false, Option, none, some, arith}
use jira_connector.Base.Int.{pos_part, neg_part, ◌+ℤ◌, ◌-ℤ◌}
use jira_connector.GoError.{GoError}
use jira_connector.Metrics.{
  Metrics, new, observe_jira_request, inc_jira_retry, sync_job_started, sync_job_finished,
  inc_issues_processed, observe_sync_duration,
}

-- started = completed + failed + active, and every end has an observed duration.
abbrev pub IsBalanced : Option Metrics → Type 0
IsBalanced none = Unit
IsBalanced (some m) =
    m.sync_completed + m.sync_failed + pos_part m.sync_active
    ≡ m.sync_started + neg_part m.sync_active

pub new-IsBalanced : IsBalanced (some new)
unfolding new
new-IsBalanced = omega arith

pub sync_job_started-IsBalanced :
    (m : Option Metrics) → IsBalanced m → IsBalanced (sync_job_started m)
unfolding sync_job_started ◌+ℤ◌
sync_job_started-IsBalanced none h = tt
sync_job_started-IsBalanced (some m) h = ground arith

pub sync_job_finished-IsBalanced :
    (failed : Bool) (m : Option Metrics) → IsBalanced m → IsBalanced (sync_job_finished failed m)
unfolding sync_job_finished ◌-ℤ◌
sync_job_finished-IsBalanced failed none h = tt
sync_job_finished-IsBalanced true (some m) h = ground arith
sync_job_finished-IsBalanced false (some m) h = ground arith

-- What the program does to its metrics, one call after another.
pub data Call : Type 0 where
  request : String → Option GoError → Call
  retry started issue duration : Call
  ended : Bool → Call

abbrev pub apply : Call → Option Metrics → Option Metrics
apply (request operation e) = observe_jira_request operation e
apply retry = inc_jira_retry
apply started = sync_job_started
apply issue = inc_issues_processed
apply duration = observe_sync_duration
apply (ended failed) = sync_job_finished failed

-- Every call of the recording helpers, in any order, keeps the gauge of active jobs equal to the
-- started jobs less the completed and the failed ones.
pub apply-IsBalanced : (c : Call) (m : Option Metrics) → IsBalanced m → IsBalanced (apply c m)
unfolding observe_jira_request inc_jira_retry inc_issues_processed observe_sync_duration
apply-IsBalanced (request operation e) none h = tt
apply-IsBalanced (request operation e) (some m) h = h
apply-IsBalanced retry none h = tt
apply-IsBalanced retry (some m) h = h
apply-IsBalanced started m h = sync_job_started-IsBalanced m h
apply-IsBalanced issue none h = tt
apply-IsBalanced issue (some m) h = h
apply-IsBalanced duration none h = tt
apply-IsBalanced duration (some m) h = h
apply-IsBalanced (ended failed) m h = sync_job_finished-IsBalanced failed m h
