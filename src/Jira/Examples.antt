-- ===== src/Jira/Examples.antt =====
-- A client of two small delays, and servers that always give the same answer.
use jira_connector.Base.{ℕ, suc, ◌≡◌, some, none, refl, arith, subst}
use jira_connector.Base.Int.{pos, ◌*ℤ◌, int64}
use jira_connector.GoError.{Result, ok}
use jira_connector.Config.{JiraConfig}
use jira_connector.Strconv.{parse_int}
use jira_connector.Jira.Client.{
  Client, Network, Response, Body, no_body, broken, text, closed, handle_response, retry_delay,
}
use jira_connector.Jira.Retry.{Session, do_request}
use jira_connector.Jira.Retry.Budget.{do_request-returns}
use jira_connector.Jira.Retry.Replies.{throttled_body_lost}
use jira_connector.Jira.Retry.Throttle.{IsThrottledForever, do_request-throttled}

abbrev client : Client
client = record {
  base_url = "https://jira";
  token = "t";
  max_results = pos 50;
  min_retry_delay = pos 500;
  max_retry_delay = pos 2_000_000_000;
}

-- The server counts the requests.
abbrev server : Response → Network ℕ
server resp = record {
  limiter_wait = λ w. (none, w);
  new_request = λ r. none;
  send = λ r w. (ok resp, suc w);
  ctx_err = λ w. none;
  sleep = λ d w. (none, w);
  unmarshal_error = λ s. none;
}

abbrev busy : Response
busy = record { status_code = 503; retry_after = ""; body = text "busy" }

abbrev patient : Response
patient = record { status_code = 429; retry_after = "1"; body = text "slow down" }

abbrev session : Session ℕ
session = record { world = 0; metrics = none }

do_request-returns_example :
    (p : Result Response × Session ℕ) × (do_request (server busy) client 23 "GET" "/x" session
      ≡ some p)
do_request-returns_example =
    do_request-returns (server busy) client 2_000_000_000 refl (omega arith) (λ req w resp e. cc) 22
      500 "GET" "/x" session refl (omega arith)

abbrev HasBody : Body → Type 0
HasBody no_body = ⊥
HasBody (text s) = Unit
HasBody (broken e) = Unit
HasBody closed = Unit

throttled_body_lost_example :
    handle_response (server busy) client (ok (record busy { body = closed })) (pos 500) none 0
    ≡ handle_response (server busy) client (ok busy) (pos 500) none 0
throttled_body_lost_example =
    throttled_body_lost (server busy) client busy closed (pos 500) none 0 refl
      (λ e. subst HasBody e tt) (λ e. subst HasBody e tt)

patient-IsThrottledForever : IsThrottledForever (server patient) client patient
unfolding retry_delay parse_int int64 ◌*ℤ◌
patient-IsThrottledForever = record {
  admitted = λ w. refl;
  buildable = λ req. refl;
  answer = λ req w. refl;
  uncut = λ d w. refl;
  status = refl;
  bounded = λ d. refl;
}

do_request-throttled_example : do_request (server patient) client 1000 "GET" "/x" session ≡ none
do_request-throttled_example =
    do_request-throttled (server patient) client patient patient-IsThrottledForever 1000 "GET" "/x"
      session

abbrev config : JiraConfig ℕ
config = record {
  base_url = "https://jira/";
  token = "t";
  max_results = pos 5000;
  min_retry_delay = pos 1000;
  max_retry_delay = pos 60000;
  rate_limit_per_sec = 10;
}
