-- ===== src/Metrics.antt =====
-- internal/metrics/metrics.go: the Prometheus instruments, as the values that a scrape reads. Of a
-- histogram only the number of observations is kept. A nil `*Metrics` is `none`.
pub mod Accounts
pub mod Registry
pub mod Registering
mod Examples
use jira_connector.Base.{ℕ, ◌+◌, String, Bool, true, false, Option, none, some, if◌then◌else◌, ◌&&◌}
use jira_connector.Base.Int.{ℤ, pos, ◌+ℤ◌, ◌-ℤ◌}
use jira_connector.Base.Text.{str_eq}
use jira_connector.GoError.{GoError}

abbrev pub outcome_success : String
outcome_success = "success"

abbrev pub outcome_error : String
outcome_error = "error"

pub record Metrics : Type 0 where
  pub jira_requests : String → String → ℕ
  pub jira_request_duration : String → ℕ
  pub jira_retries : ℕ
  pub sync_started : ℕ
  pub sync_completed : ℕ
  pub sync_failed : ℕ
  pub sync_active : ℤ
  pub sync_issues_processed : ℕ
  pub sync_duration : ℕ

unfoldable pub new : Metrics
new = record {
  jira_requests = λ operation outcome. 0;
  jira_request_duration = λ operation. 0;
  jira_retries = 0;
  sync_started = 0;
  sync_completed = 0;
  sync_failed = 0;
  sync_active = pos 0;
  sync_issues_processed = 0;
  sync_duration = 0;
}

abbrev outcome_of : Option GoError → String
outcome_of none = outcome_success
outcome_of (some e) = outcome_error

abbrev count_request : String → String → (String → String → ℕ) → String → String → ℕ
count_request operation outcome f op out =
    if str_eq operation op && str_eq outcome out then f op out + 1 else f op out

abbrev count_observation : String → (String → ℕ) → String → ℕ
count_observation operation f op = if str_eq operation op then f op + 1 else f op

-- The seconds observed are not kept.
unfoldable pub observe_jira_request : String → Option GoError → Option Metrics → Option Metrics
observe_jira_request operation e none = none
observe_jira_request operation e (some m) = some (record m {
  jira_requests = count_request operation (outcome_of e) m.jira_requests;
  jira_request_duration = count_observation operation m.jira_request_duration;
})

unfoldable pub inc_jira_retry : Option Metrics → Option Metrics
inc_jira_retry none = none
inc_jira_retry (some m) = some (record m { jira_retries = m.jira_retries + 1 })

unfoldable pub sync_job_started : Option Metrics → Option Metrics
sync_job_started none = none
sync_job_started (some m) =
    some (record m { sync_started = m.sync_started + 1; sync_active = m.sync_active +ℤ pos 1 })

unfoldable pub sync_job_finished : Bool → Option Metrics → Option Metrics
sync_job_finished failed none = none
sync_job_finished true (some m) =
    some (record m { sync_failed = m.sync_failed + 1; sync_active = m.sync_active -ℤ pos 1 })
sync_job_finished false (some m) =
    some (record m { sync_completed = m.sync_completed + 1; sync_active = m.sync_active -ℤ pos 1 })

unfoldable pub inc_issues_processed : Option Metrics → Option Metrics
inc_issues_processed none = none
inc_issues_processed (some m) =
    some (record m { sync_issues_processed = m.sync_issues_processed + 1 })

unfoldable pub observe_sync_duration : Option Metrics → Option Metrics
observe_sync_duration none = none
observe_sync_duration (some m) = some (record m { sync_duration = m.sync_duration + 1 })
