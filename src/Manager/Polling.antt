-- ===== src/Manager/Polling.antt =====
-- internal/service/sync/manager.go: what `Status` shows of a job after its end.
use jira_connector.Base.{ℕ, ◌-◌, ◌≡◌, ◌≢◌, String, none, some, arith, leb, if◌then◌else◌}
use jira_connector.Base.Text.{eq_iff}
use jira_connector.Manager.{
  Manager, Job, JobSnapshot, job_ttl, job_state_completed, job_state_failed, start, status,
  complete, fail, snapshot,
}

-- The snapshot of a job that ended at `now`.
abbrev pub ended : ℕ → ℕ → String → Job → JobSnapshot
unfolding snapshot
ended now state msg j = snapshot (record j { state = state; err_msg = msg; finished_at = now })

-- A job that Complete has ended at time `t` is reported as Completed, with its counters, by Status
-- after a later Start of another job as long as less than the TTL has passed, and as unknown after
-- that.
pub status-start-complete :
    (t now : ℕ) (id uuid key : String) (m : Manager) (j : Job)
    → m.by_id id ≡ some j
    → id ≢ uuid
    → status id (start now uuid key (complete t id m)).0
      ≡ (if leb job_ttl (now - t) then none else some (ended t job_state_completed j.err_msg j))
unfolding status start complete
status-start-complete t now id uuid key m j e n =
    rw e (ground (arith, eq_iff uuid id, eq_iff id id))

-- The same for a job that Fail has ended, with its error message.
pub status-start-fail :
    (t now : ℕ) (id uuid key msg : String) (m : Manager) (j : Job)
    → m.by_id id ≡ some j
    → id ≢ uuid
    → status id (start now uuid key (fail t id msg m)).0
      ≡ (if leb job_ttl (now - t) then none else some (ended t job_state_failed msg j))
unfolding status start fail
status-start-fail t now id uuid key msg m j e n =
    rw e (ground (arith, eq_iff uuid id, eq_iff id id))
