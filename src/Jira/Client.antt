-- ===== src/Jira/Client.antt =====
-- internal/client/jira/jira.go: the client, its requests, and what it makes of one HTTP response.
-- The network, the rate limiter, the context and JSON decoding of an error body are parameters.
use jira_connector.Base.{
  ℕ, String, Bool, true, false, ◌||◌, Option, none, some, List, ◌==◌, if◌then◌else◌,
}
use jira_connector.Base.Int.{ℤ, pos, ◌*ℤ◌, int64, ltb_ℤ}
use jira_connector.Base.Text.{append, is_empty, format_int}
use jira_connector.GoError.{GoError, api, external, wrap, wrap_nil, Result, ok, err}
use jira_connector.Strconv.{parse_int}

-- Durations in nanoseconds, as int64.
abbrev pub second : ℤ
second = pos 1_000_000_000

abbrev pub retry_backoff_multiplier : ℤ
retry_backoff_multiplier = pos 2

pub record Client : Type 0 where
  pub base_url : String
  pub token : String
  pub max_results : ℤ
  pub min_retry_delay : ℤ
  pub max_retry_delay : ℤ

-- The body of a response: none at all (http.NoBody), text to be read, a connection that breaks, or
-- closed. Reading a body that was closed fails (net/http, ErrBodyReadAfterClose); reading none gives
-- the empty text before and after it is closed.
pub data Body : Type 0 where
  no_body : Body
  text : String → Body
  broken : GoError → Body
  closed : Body

unfoldable pub read_all : Body → Result String
read_all no_body = ok ""
read_all (text s) = ok s
read_all (broken e) = err e
read_all closed = err (external "http: read on closed response body")

-- `retry_after` is the header, or "" where it is absent.
pub record Response : Type 0 where
  pub status_code : ℕ
  pub retry_after : String
  pub body : Body

abbrev pub closed_body : Body → Body
closed_body no_body = no_body
closed_body (text s) = closed
closed_body (broken e) = closed
closed_body closed = closed

unfoldable pub close_body : Response → Response
close_body r = record r { body = closed_body r.body }

pub record Request : Type 0 where
  pub method : String
  pub url : String
  pub accept : String
  pub content_type : String
  pub authorization : Option String

unfoldable pub request : Client → String → String → Request
request c method path = record {
  method = method;
  url = append c.base_url path;
  accept = "application/json";
  content_type = "application/json";
  authorization = if is_empty c.token then none else some (append "Bearer " c.token);
}

-- The outside of the client: its state `W` changes with each call. A wait that the context cuts
-- short returns the context's error.
pub record Network (W : Type 0) : Type 0 where
  pub limiter_wait : W → Option GoError × W
  pub new_request : Request → Option GoError
  pub send : Request → W → Result Response × W
  pub ctx_err : W → Option GoError
  pub sleep : ℤ → W → Option GoError × W
  pub unmarshal_error : String → Option (List String × List (String × String))

-- The triple (responseAction, time.Duration, error); the error is nil exactly for `actionReturn`.
-- The type has no other action, so the `default` branch of `do` has no counterpart.
pub data Outcome : Type 0 where
  action_return : ℤ → Outcome
  action_retry action_error : ℤ → GoError → Outcome

abbrev pub wrap_nilable : String → Option GoError → GoError
wrap_nilable prefix none = wrap_nil prefix
wrap_nilable prefix (some e) = wrap prefix e

module _ {W : Type 0} (net : Network W) where
  open net use {ctx_err, sleep, unmarshal_error}

  abbrev pub api_error : ℕ → String → Option (List String × List (String × String)) → GoError
  api_error code body none = api (record {
    status_code = code;
    body = body;
    message = body;
    error_messages = List.[];
    errors = List.[];
  })
  api_error code body (some (messages, fields)) = api (record {
    status_code = code;
    body = body;
    message = "";
    error_messages = messages;
    errors = fields;
  })

  abbrev pub error_of_body : ℕ → Result String → GoError
  error_of_body code (err e) = wrap "failed to read error response body" e
  error_of_body code (ok body) = api_error code body (unmarshal_error body)

  unfoldable pub handle_error_response : Response → GoError
  unfolding read_all
  handle_error_response resp = error_of_body resp.status_code (read_all resp.body)

  abbrev pub cut_short : Option GoError × W → Option GoError × W
  cut_short (none, w) = (none, w)
  cut_short (some e, w) = (some (wrap "context cancelled during backoff" e), w)

  unfoldable pub wait_with_backoff : ℤ → W → Option GoError × W
  wait_with_backoff delay w = cut_short (sleep delay w)

  -- After the wait: give up with the context's error, or try again with twice the delay.
  abbrev pub after_wait : ℤ → GoError → Option GoError × W → Outcome × W
  after_wait delay e (some wait_err, w) = (action_error delay wait_err, w)
  after_wait delay e (none, w) = (action_retry (int64 (delay *ℤ retry_backoff_multiplier)) e, w)

  module _ (c : Client) where
    -- The context's error, the delay, the last error, and the wait.
    abbrev pub network_error :
        Option GoError → Bool → GoError → Option GoError → ℤ → W → Outcome × W
    network_error (some cancelled) too_long e last_err delay w =
        (action_error delay (wrap "request cancelled" e), w)
    network_error none true e last_err delay w =
        (action_error delay (wrap_nilable "max retry delay exceeded on network error" last_err), w)
    network_error none false e last_err delay w = after_wait delay e (wait_with_backoff delay w)

    unfoldable pub handle_network_error : GoError → Option GoError → ℤ → W → Outcome × W
    unfolding wait_with_backoff
    handle_network_error e last_err delay w =
        network_error (ctx_err w) (ltb_ℤ c.max_retry_delay delay) e last_err delay w

    -- A Retry-After that is a number of seconds replaces the delay.
    unfoldable pub retry_delay : String → ℤ → ℤ
    retry_delay header delay =
        let parsed = parse_int header in
        if is_empty header
        then delay
        else if parsed.fine
        then int64 (parsed.value *ℤ second)
        else delay

    abbrev pub after_status : ℕ → String
    after_status code = append "max retry delay exceeded after status " (format_int (pos code))

    abbrev pub retry_status : Bool → Response → GoError → ℤ → W → Outcome × W
    retry_status true resp retry_err delay w =
        (action_error delay (wrap (after_status resp.status_code) retry_err), w)
    retry_status false resp retry_err delay w =
        after_wait delay retry_err (wait_with_backoff delay w)

    -- The body is closed first; the error is then made of the closed response.
    unfoldable pub handle_retry_status : Response → ℤ → W → Outcome × W
    unfolding close_body handle_error_response retry_delay wait_with_backoff
    handle_retry_status resp delay w =
        let resp' = close_body resp in
        let delay' = retry_delay resp'.retry_after delay in
        let retry_err = handle_error_response resp' in
        retry_status (ltb_ℤ c.max_retry_delay delay') resp' retry_err delay' w

    unfoldable pub handle_response : Result Response → ℤ → Option GoError → W → Outcome × W
    unfolding handle_network_error handle_retry_status handle_error_response
    handle_response (err e) delay last_err w = handle_network_error e last_err delay w
    handle_response (ok resp) delay last_err w =
        if resp.status_code == 200
        then (action_return delay, w)
        else if (resp.status_code == 429) || (resp.status_code == 503)
        then handle_retry_status resp delay w
        else (action_error delay (handle_error_response resp), w)
