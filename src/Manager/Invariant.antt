-- ===== src/Manager/Invariant.antt =====
-- internal/service/sync/manager.go: the agreement of the two indexes of the registry.
use jira_connector.Base.{ℕ, ◌+◌, ◌%◌, ◌^◌, ◌≡◌, ◌≢◌, refl, String, Option, none, some, arith}
use jira_connector.Base.Text.{eq_iff}
use jira_connector.Manager.{
  Manager, Job, new_manager, job_state_running, start, set_total, incr_processed, complete, fail,
  evict_expired_locked, modify, finish, job_state_completed, job_state_failed,
}

abbrev pub IsRunningFor : String → Option Job → Type 0
IsRunningFor k none = ⊥
IsRunningFor k (some j) = (j.project_key ≡ k) × (j.state ≡ job_state_running)

-- What one job and the index entry of its project owe to each other.
pub record IsConsistent (m : Manager) : Type 0 where
  pub own_id : (i : String) (j : Job) → m.by_id i ≡ some j → j.id ≡ i
  pub indexed :
      (i : String) (j : Job)
      → m.by_id i ≡ some j
      → j.state ≡ job_state_running
      → m.by_key j.project_key ≡ some i
  pub running : (k i : String) → m.by_key k ≡ some i → IsRunningFor k (m.by_id i)

pub new_manager-IsConsistent : IsConsistent new_manager
new_manager-IsConsistent = record {
  own_id = λ i j e. cc;
  indexed = λ i j e s. cc;
  running = λ k i e. absurd (cc e);
}

pub evict-IsConsistent :
    (now : ℕ) (m : Manager) → IsConsistent m → IsConsistent (evict_expired_locked now m)
unfolding evict_expired_locked
evict-IsConsistent now m h = record {
  own_id = λ i j e. ground (arith, h.own_id i j);
  indexed = λ i j e s. ground (arith, h.indexed i j);
  running = λ k i e. ground (arith, h.running k i);
}

-- The id that `uuid.NewString` returns is new.
abbrev pub IsFresh : String → Manager → Type 0
IsFresh uuid m = m.by_id uuid ≡ none

pub start-IsConsistent :
    (now : ℕ) (uuid key : String) (m : Manager)
    → IsFresh uuid m
    → IsConsistent m
    → IsConsistent (start now uuid key m).0
unfolding start
start-IsConsistent now uuid key m f h = record {
  own_id = λ i j e. ground (arith, h.own_id i j, eq_iff uuid i);
  indexed = λ i j e s. ground (arith, h.indexed i j, eq_iff uuid i, eq_iff key j.project_key);
  running = λ k i e. ground (arith, h.running k i, eq_iff uuid i, eq_iff key k);
}

-- A write that keeps a job's identity and state.
pub record IsQuiet (f : Job → Job) : Type 0 where
  pub id : (j : Job) → (f j).id ≡ j.id
  pub project_key : (j : Job) → (f j).project_key ≡ j.project_key
  pub state : (j : Job) → (f j).state ≡ j.state

pub modify-IsConsistent :
    (id : String) (f : Job → Job) (m : Manager) (o : Option Job)
    → m.by_id id ≡ o
    → IsQuiet f
    → IsConsistent m
    → IsConsistent (modify id f m o)
modify-IsConsistent id f m none e q h = h
modify-IsConsistent id f m (some o) e q h = record {
  own_id = λ i j p. ground (arith, h.own_id i j, h.own_id id o, q.id o, eq_iff id i);
  indexed = λ i j p s.
      ground (arith, h.indexed i j, h.indexed id o, q.project_key o, q.state o, eq_iff id i);
  running = λ k i p. ground (arith, h.running k i, q.project_key o, q.state o, eq_iff id i);
}

abbrev pub with_total : ℕ → Job → Job
with_total n j = record j { total = n }

abbrev pub one_more : Job → Job
one_more j = record j { processed = (j.processed + 1) % 2 ^ 64 }

pub set_total-IsQuiet : (n : ℕ) → IsQuiet (with_total n)
set_total-IsQuiet n = record { id = λ j. refl; project_key = λ j. refl; state = λ j. refl }

pub incr-IsQuiet : IsQuiet one_more
incr-IsQuiet = record { id = λ j. refl; project_key = λ j. refl; state = λ j. refl }

pub set_total-IsConsistent :
    (id : String) (n : ℕ) (m : Manager) → IsConsistent m → IsConsistent (set_total id n m)
unfolding set_total
set_total-IsConsistent id n m h =
    modify-IsConsistent id _ m (m.by_id id) refl (set_total-IsQuiet n) h

pub incr_processed-IsConsistent :
    (id : String) (m : Manager) → IsConsistent m → IsConsistent (incr_processed id m)
unfolding incr_processed
incr_processed-IsConsistent id m h = modify-IsConsistent id _ m (m.by_id id) refl incr-IsQuiet h

-- The job, if it is registered, has not finished yet.
abbrev pub IsUnfinished : Option Job → Type 0
IsUnfinished none = Unit
IsUnfinished (some j) = j.state ≡ job_state_running

-- A write that ends a job and keeps its identity.
pub record IsFinal (f : Job → Job) : Type 0 where
  pub id : (j : Job) → (f j).id ≡ j.id
  pub project_key : (j : Job) → (f j).project_key ≡ j.project_key
  pub state : (j : Job) → (f j).state ≢ job_state_running

pub finish-IsConsistent :
    (id : String) (f : Job → Job) (m : Manager) (o : Option Job)
    → m.by_id id ≡ o
    → IsUnfinished o
    → IsFinal f
    → IsConsistent m
    → IsConsistent (finish id f m o)
finish-IsConsistent id f m none e u q h = h
finish-IsConsistent id f m (some o) e u q h = record {
  own_id = λ i j p. ground (arith, h.own_id i j, h.own_id id o, q.id o, eq_iff id i);
  indexed = λ i j p s. ground (
    arith,
    h.indexed i j,
    h.indexed id o,
    q.state o,
    eq_iff id i,
    eq_iff o.project_key j.project_key,
  );
  running = λ k i p. ground (arith, h.running k i, eq_iff id i, eq_iff o.project_key k);
}

abbrev pub completed : ℕ → Job → Job
completed now j = record j { state = job_state_completed; finished_at = now }

abbrev pub failed : ℕ → String → Job → Job
failed now msg j = record j { state = job_state_failed; err_msg = msg; finished_at = now }

pub complete-IsFinal : (now : ℕ) → IsFinal (completed now)
complete-IsFinal now = record { id = λ j. refl; project_key = λ j. refl; state = λ j. omega arith }

pub fail-IsFinal : (now : ℕ) (msg : String) → IsFinal (failed now msg)
fail-IsFinal now msg = record { id = λ j. refl; project_key = λ j. refl; state = λ j. omega arith }

pub complete-IsConsistent :
    (now : ℕ) (id : String) (m : Manager)
    → IsUnfinished (m.by_id id)
    → IsConsistent m
    → IsConsistent (complete now id m)
unfolding complete
complete-IsConsistent now id m u h =
    finish-IsConsistent id _ m (m.by_id id) refl u (complete-IsFinal now) h

pub fail-IsConsistent :
    (now : ℕ) (id msg : String) (m : Manager)
    → IsUnfinished (m.by_id id)
    → IsConsistent m
    → IsConsistent (fail now id msg m)
unfolding fail
fail-IsConsistent now id msg m u h =
    finish-IsConsistent id _ m (m.by_id id) refl u (fail-IsFinal now msg) h
