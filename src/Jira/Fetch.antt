-- ===== src/Jira/Fetch.antt =====
-- internal/client/jira/jira.go: the constructor of the client and its three requests. What
-- encoding/json makes of a body, and the two escapes of net/url, are parameters.
pub mod Setup
use jira_connector.Base.{
  ℕ, String, Bool, true, false, Option, none, some, List, [], ◌∷◌, length, if◌then◌else◌,
}
use jira_connector.Base.Int.{ℤ, pos, ◌*ℤ◌, int64, leb_ℤ, ltb_ℤ, eqb_ℤ}
use jira_connector.Base.Text.{append, is_empty, format_int}
use jira_connector.GoError.{GoError, wrap, Result, ok, err, ◌>>=◌, wrapped}
use jira_connector.Config.{JiraConfig}
use jira_connector.Metrics.{Metrics, observe_jira_request}
use jira_connector.Jira.{Issue, Project, SearchResponse, ProjectsResponse}
use jira_connector.Jira.Client.{Client, Network, Response, Body, read_all}
use jira_connector.Jira.Retry.{Session, Answer, do_request}

abbrev pub default_max_results : ℤ
default_max_results = pos 50

abbrev pub min_allowed_results : ℤ
min_allowed_results = pos 50

abbrev pub max_allowed_results : ℤ
max_allowed_results = pos 1000

abbrev pub millisecond : ℤ
millisecond = pos 1_000_000

abbrev pub default_min_retry_delay : ℤ
default_min_retry_delay = pos 1_000_000_000

abbrev pub default_max_retry_delay : ℤ
default_max_retry_delay = pos 60_000_000_000

abbrev pub clamp_results : ℤ → ℤ
clamp_results n =
    if ltb_ℤ n min_allowed_results
    then min_allowed_results
    else if ltb_ℤ max_allowed_results n
    then max_allowed_results
    else n

abbrev pub or_delay : ℤ → ℤ → ℤ
or_delay n default = if eqb_ℤ n (pos 0) then default else n

-- `strings.TrimSuffix` is the parameter `trim`; the limiter of golang.org/x/time/rate and the HTTP
-- client are part of the network.
unfoldable pub new : {Rate : Type 0} → (String → String) → JiraConfig Rate → Client
new trim cfg = record {
  base_url = trim cfg.base_url;
  token = cfg.token;
  max_results =
      clamp_results
        (if leb_ℤ cfg.max_results (pos 0) then default_max_results else cfg.max_results);
  min_retry_delay = or_delay (int64 (cfg.min_retry_delay *ℤ millisecond)) default_min_retry_delay;
  max_retry_delay = or_delay (int64 (cfg.max_retry_delay *ℤ millisecond)) default_max_retry_delay;
}

-- Decoding by encoding/json, and escaping by net/url; `encode` is `Values.Encode`.
pub record Json : Type 0 where
  pub decode_issue : Body → Result Issue
  pub decode_search : Body → Result SearchResponse
  pub unmarshal_list : String → Result (List Project)
  pub unmarshal_projects : String → Result ProjectsResponse
  pub query_escape : String → String
  pub encode : List (String × String) → String

abbrev pub simple_list : List Project → ProjectsResponse
simple_list projects = record {
  values = projects;
  total = pos (length projects);
  start_at = pos 0;
  max_results = pos 0;
  is_last = true;
}

-- What a request returns, with the session that it leaves; `none` where the fuel ran out.
abbrev pub Reply : Type 0 → Type 0 → Type 0
Reply W A = Option (Result A × Session W)

module _ {W : Type 0} (net : Network W) (json : Json) (c : Client) where
  open json use {
    decode_issue, decode_search, unmarshal_list, unmarshal_projects, query_escape, encode,
  }

  -- Go on with the response of `do`, or wrap its error.
  abbrev pub decode_with : {A : Type 0} → String → (Response → Result A) → Answer W → Reply W A
  decode_with prefix decode none = none
  decode_with prefix decode (some (r, s)) = some (wrapped prefix r >>= decode, s)

  unfoldable pub fetch_issue : ℕ → String → Session W → Reply W Issue
  fetch_issue fuel key s =
      decode_with (append "failed to fetch issue \"" (append key "\""))
        (λ resp. wrapped "decode Jira issue response" (decode_issue resp.body))
        (do_request net c fuel "GET" (append "/rest/api/2/issue/" (append key "?expand=changelog"))
          s)

  abbrev pub search_url : String → ℤ → ℤ → String
  search_url jql start_at max_results = append "/rest/api/2/search?jql=" (
      append (query_escape jql) (
        append "&fields=*all&startAt="
          (append (format_int start_at) (append "&maxResults=" (format_int max_results)))))

  unfoldable pub search_issues : ℕ → String → ℤ → ℤ → Session W → Reply W SearchResponse
  search_issues fuel jql start_at max_results s =
      let max_results' = if leb_ℤ max_results (pos 0) then c.max_results else max_results in
      let url = search_url jql start_at max_results' in
      decode_with (append "failed to perform search request to \"" (append url "\""))
        (λ resp. wrapped "decode Jira search response" (decode_search resp.body))
        (do_request net c fuel "GET" url s)

  abbrev pub parse_projects_body : String → Result (List Project) → Result ProjectsResponse
  parse_projects_body body (ok projects) = ok (simple_list projects)
  parse_projects_body body (err e) = wrapped "decode projects response" (unmarshal_projects body)

  unfoldable pub parse_projects_response : Response → Result ProjectsResponse
  parse_projects_response resp = wrapped "read response body" (read_all resp.body) >>= λ body.
      parse_projects_body body (unmarshal_list body)

  -- The `url.Values`, in key order. A search text is sent under two names.
  abbrev pub project_params : String → ℤ → ℤ → List (String × String)
  project_params search limit page =
      let limit' = if leb_ℤ limit (pos 0) then pos 50 else limit in
      let page' = if ltb_ℤ page (pos 0) then pos 0 else page in
      let start_at = int64 (page' *ℤ limit') in
      if is_empty search
      then ("maxResults", format_int limit') ∷ ("startAt", format_int start_at) ∷ []
      else ("maxResults", format_int limit')
        ∷ ("query", search)
        ∷ ("searchQuery", search)
        ∷ ("startAt", format_int start_at)
        ∷ []

  unfoldable pub fetch_projects : ℕ → String → ℤ → ℤ → Session W → Reply W ProjectsResponse
  unfolding parse_projects_response
  fetch_projects fuel search limit page s =
      decode_with "failed to fetch projects" parse_projects_response (
        do_request net c fuel "GET"
          (append "/rest/api/2/project?" (encode (project_params search limit page))) s)

  -- The instrumentation that the three exported methods share.
  abbrev pub error_of : {A : Type 0} → Result A → Option GoError
  error_of (ok a) = none
  error_of (err e) = some e

  abbrev pub observed : {A : Type 0} → String → Reply W A → Reply W A
  observed operation none = none
  observed operation (some (r, s)) =
      some (r, record s { metrics = observe_jira_request operation (error_of r) s.metrics })

  unfoldable pub get_issue : ℕ → String → Session W → Reply W Issue
  get_issue fuel key s = observed "get_issue" (fetch_issue fuel key s)

  unfoldable pub search_issues_observed : ℕ → String → ℤ → ℤ → Session W → Reply W SearchResponse
  search_issues_observed fuel jql start_at max_results s =
      observed "search_issues" (search_issues fuel jql start_at max_results s)

  unfoldable pub get_projects : ℕ → String → ℤ → ℤ → Session W → Reply W ProjectsResponse
  get_projects fuel search limit page s =
      observed "get_projects" (fetch_projects fuel search limit page s)
