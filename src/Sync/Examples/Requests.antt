-- ===== src/Sync/Examples/Requests.antt =====
-- A request to sync a project, and the searches of its job.
use jira_connector.Base.{
  ℕ, suc, ◌≡◌, String, some, none, List, [], ◌∷◌, ◌++◌, take, drop, refl, ap, arith, Bool, false,
  true, subst, All, ◌↔◌,
}
use jira_connector.Base.Int.{ℤ, pos, negsuc}
use jira_connector.Base.Text.{str_eq, format_int}
use jira_connector.GoError.{ok}
use jira_connector.Strconv.{parse_int}
use jira_connector.Jira.{Issue, Project, ProjectsResponse, SearchResponse}
use jira_connector.Mapper.{map_project_to_raw}
use jira_connector.Repo.{Database, db, insert_project_row}
use jira_connector.Manager.{new_manager, start}
use jira_connector.Manager.Jobs.{System, Reach, here, next, call_start, idle, request}
use jira_connector.Sync.{Service}
use jira_connector.Sync.Paging.{Calls, Progress, run_sync, pages}
use jira_connector.Sync.Paging.Coverage.{IsHonest, run_sync-coverage}
use jira_connector.Sync.Paging.Stuck.{IsStuck, pages-stuck}
use jira_connector.Sync.Projects.{Listing, postgres, find_project, ensure_project, sync_project}
use jira_connector.Sync.Projects.Ids.{project_id-kept}
use jira_connector.Sync.Projects.Outcomes.{refused, sync_project-absent, sync_project-unknown}
use jira_connector.Sync.Projects.Search.{IsOther}

abbrev issue_of : String → Issue
issue_of key = record { key = key; self = ""; id = "1"; fields = "{}"; changelog = none }

abbrev pub three_issues : List Issue
three_issues = issue_of "AB-1" ∷ issue_of "AB-2" ∷ issue_of "AB-3" ∷ []

abbrev offset : ℤ → ℕ
offset (pos n) = n
offset (negsuc n) = 0

-- A page of two issues.
abbrev page_at : ℕ → SearchResponse
page_at a = record {
  issues = take 2 (drop a three_issues);
  total = pos 3;
  start_at = pos a;
  max_results = pos 2;
}

-- The world is the list of the processed issues.
abbrev pub honest : Calls (List Issue)
honest = record {
  cancelled = λ w. none;
  search = λ jql start limit w. (ok (page_at (offset start)), w);
  process_page = λ p s w. (none, s, w ++ p);
}

pub honest-IsHonest : IsHonest honest (λ xs w. w ≡ xs) three_issues
honest-IsHonest = record {
  uncancelled = λ w. refl;
  page_size = λ a w. 2;
  page_size-pos = λ a w. omega arith;
  reply = λ a w. page_at a;
  reply_issues = λ a w. refl;
  reply_total = λ a w. refl;
  answers = λ jql a w. refl;
  search_keeps = λ jql a xs w e. e;
  processes = λ n a xs s w e. (refl, ap (λ l. l ++ take n (drop a three_issues)) e);
}

abbrev pub service : Service
service = record { manager = new_manager; mtr = none }

abbrev pub at_start : Progress (List Issue)
at_start = record { service = service; world = [] }

run_sync-coverage_example :
    (q : Progress (List Issue)) × (run_sync honest 4 "u1" "AB" at_start ≡ some (none, q))
    × (q.world ≡ three_issues)
run_sync-coverage_example =
    run_sync-coverage honest (λ xs w. w ≡ xs) three_issues honest-IsHonest (omega arith) "u1" "AB"
      [] at_start refl

abbrev empty_page : SearchResponse
empty_page = record { issues = []; total = pos 5; start_at = pos 0; max_results = pos 50 }

abbrev stuck : Calls (List Issue)
stuck = record {
  cancelled = λ w. none;
  search = λ jql start limit w. (ok empty_page, w);
  process_page = λ p s w. (none, s, w ++ p);
}

stuck-IsStuck : IsStuck stuck "project=AB" 0
stuck-IsStuck = record {
  uncancelled = λ w. refl;
  total = 5;
  beyond = omega arith;
  small = omega arith;
  answers = λ w. (empty_page, refl, refl, refl);
}

pages-stuck_example : pages stuck "u1" "project=AB" 100 (pos 0) false at_start ≡ none
pages-stuck_example = pages-stuck stuck "u1" "project=AB" 0 stuck-IsStuck 100 false at_start

abbrev listed : ProjectsResponse
listed = record {
  values = record { id = "7"; key = "AB"; name = "Alpha"; self = "" } ∷ [];
  total = pos 1;
  start_at = pos 0;
  max_results = pos 100;
  is_last = true;
}

abbrev pub listing : Listing ℕ
listing query limit page w = (ok listed, suc w)

abbrev pub database : Database String ℕ
database = record {
  exec = λ q query args d. (none, suc d);
  begin = λ d. (none, d);
  commit = λ d. (none, d);
  rollback = λ d. (none, d);
}

abbrev Holds : Bool → Type 0
Holds true = Unit
Holds false = ⊥

not_cd : ¬ (◌≡◌ {A = String} "AB" "CD")
not_cd e = subst (λ s. Holds (str_eq s "AB")) e tt

sync_project-unknown_example :
    (sync_project database listing (postgres db) 5 "u1" "CD" service 0 0
      ≡ refused database listing "CD" service 1 0)
    ↔ All (IsOther "CD") listed.values
sync_project-unknown_example =
    sync_project-unknown database listing db 5 "u1" "CD" service 0 1 0 listed refl

-- The key CD is refused.
unknown_key :
    sync_project database listing (postgres db) 5 "u1" "CD" service 0 0
    ≡ refused database listing "CD" service 1 0
unknown_key =
    sync_project-absent database listing db 5 "u1" "CD" service 0 1 0 listed refl (not_cd, tt)

-- Project AB is being synced.
unfoldable pub one_job : System
unfolding request start
one_job = request 5 "u1" "AB" idle

pub one_job-Reach : Reach one_job
unfolding one_job request start
one_job-Reach = next here (call_start 5 "u1" "AB" idle refl)

abbrev alpha : Project
alpha = record { id = "7"; key = "AB"; name = "Alpha"; self = "" }

abbrev only_alpha : Listing ℕ
only_alpha query limit page w = (ok (record listed { values = alpha ∷ [] }), suc w)

project_id-kept_example : alpha.id ≡ "7"
unfolding find_project insert_project_row map_project_to_raw parse_int start format_int sync_project
    ensure_project
project_id-kept_example =
    project_id-kept database only_alpha db 5 "u1" "AB" service 0 1 0
      (record listed { values = alpha ∷ [] }) [] [] alpha 7
      (record { sync_id = "u1"; project_id = "7"; status = "running" }) refl refl tt refl refl
      (omega arith) refl
