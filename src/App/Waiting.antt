-- ===== src/App/Waiting.antt =====
-- cmd/internal/app/app.go, `waitForSync`: sequences of polls and how they end.
use jira_connector.Base.{
  ◌≡◌, refl, String, Option, none, some, List, [], ◌∷◌, ◌++◌, arith, All, ◌==◌, if◌then◌else◌, ◌∙◌,
  ◌⊎◌,
}
use jira_connector.GoError.{GoError, sentinel, detail, err_sync_failed}
use jira_connector.Manager.{JobSnapshot, job_state_running, job_state_completed, job_state_failed}
use jira_connector.App.{Event, cancelled, poll, decide, wait_for_sync}

-- A poll that sees a running job.
abbrev pub SeesRunning : Event → Type 0
SeesRunning (cancelled e) = ⊥
SeesRunning (poll none) = ⊥
SeesRunning (poll (some snap)) = snap.state ≡ job_state_running

running_waits : (id : String) (e : Event) → SeesRunning e → decide id e ≡ none
unfolding decide
running_waits id (cancelled e) h = absurd h
running_waits id (poll none) h = absurd h
running_waits id (poll (some snap)) h = ground arith

wait-append :
    (id : String) (es fs : List Event)
    → All SeesRunning es
    → wait_for_sync id (es ++ fs) ≡ wait_for_sync id fs
unfolding wait_for_sync
wait-append id [] fs h = refl
wait-append id (e ∷ es) fs h = rw (running_waits id e h.0) (wait-append id es fs h.1)

-- How a job that has ended makes the wait end.
abbrev pub verdict : JobSnapshot → Option GoError
verdict snap =
    if snap.state == job_state_completed
    then none
    else some (detail (sentinel err_sync_failed) snap.err_msg)

ended_decides :
    (id : String) (snap : JobSnapshot)
    → (snap.state ≡ job_state_completed) ⊎ (snap.state ≡ job_state_failed)
    → decide id (poll (some snap)) ≡ some (verdict snap)
unfolding decide
ended_decides id snap h = ground arith

-- After any number of polls that see the job running, the first poll that sees it ended decides:
-- success for a completed job, and for a failed one an error with its message. Later events do not
-- matter.
pub wait_for_sync-ends :
    (id : String) (before after : List Event) (snap : JobSnapshot)
    → All SeesRunning before
    → (snap.state ≡ job_state_completed) ⊎ (snap.state ≡ job_state_failed)
    → wait_for_sync id (before ++ poll (some snap) ∷ after) ≡ some (verdict snap)
unfolding wait_for_sync
wait_for_sync-ends id before after snap h ended =
    wait-append id before (poll (some snap) ∷ after) h ∙ (rw (ended_decides id snap ended) refl)

-- Some poll sees the job completed.
abbrev pub SeesCompleted : List Event → Type 0
SeesCompleted [] = ⊥
SeesCompleted (cancelled e ∷ es) = SeesCompleted es
SeesCompleted (poll none ∷ es) = SeesCompleted es
SeesCompleted (poll (some snap) ∷ es) = (snap.state ≡ job_state_completed) ⊎ SeesCompleted es

-- The wait succeeds only if some poll has seen the job completed.
pub wait_for_sync-success :
    (id : String) (events : List Event) → wait_for_sync id events ≡ some none → SeesCompleted events
unfolding wait_for_sync decide
wait_for_sync-success id [] h = cc
wait_for_sync-success id (cancelled e ∷ es) h = cc
wait_for_sync-success id (poll none ∷ es) h = cc
wait_for_sync-success id (poll (some snap) ∷ es) h = ground (arith, wait_for_sync-success id es)
