-- ===== src/App.antt =====
-- cmd/internal/app/app.go: the one-shot sync of the command line. The ticker's polls of the registry
-- are a list of what each of them sees.
pub mod Waiting
pub mod Command
pub mod Release
pub mod Examples
use jira_connector.Base.{String, Option, none, some, List, [], ◌∷◌, ◌==◌, if◌then◌else◌}
use jira_connector.GoError.{
  GoError, sentinel, detail, wrap, err_job_disappeared, err_sync_failed, Result, ok, err,
}
use jira_connector.Manager.{JobSnapshot, job_state_completed, job_state_failed}
use jira_connector.Sync.{SyncResult}

-- What the `select` of waitForSync finds: the context's error, or a poll.
pub data Event : Type 0 where
  cancelled : GoError → Event
  poll : Option JobSnapshot → Event

-- What one event decides: `none` is another round. A state that the switch does not name, and
-- Running, go round again.
unfoldable pub decide : String → Event → Option (Option GoError)
decide sync_id (cancelled e) = some (some (wrap "context cancelled while waiting for sync" e))
decide sync_id (poll none) = some (some (detail (sentinel err_job_disappeared) sync_id))
decide sync_id (poll (some snap)) =
    if snap.state == job_state_completed
    then some none
    else if snap.state == job_state_failed
    then some (some (detail (sentinel err_sync_failed) snap.err_msg))
    else none

-- `none`: still waiting after these events.
abbrev pub or_wait : Option (Option GoError) → Option (Option GoError) → Option (Option GoError)
or_wait none rest = rest
or_wait (some e) rest = some e

unfoldable pub wait_for_sync : String → List Event → Option (Option GoError)
wait_for_sync sync_id [] = none
wait_for_sync sync_id (e ∷ es) = or_wait (decide sync_id e) (wait_for_sync sync_id es)

-- `run`, from what SyncProject returned.
unfoldable pub run : Result SyncResult → List Event → Option (Option GoError)
unfolding wait_for_sync
run (err e) events = some (some (wrap "sync project failed" e))
run (ok result) events = wait_for_sync result.sync_id events
