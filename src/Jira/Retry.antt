-- ===== src/Jira/Retry.antt =====
-- internal/client/jira/jira.go, method `do`: the loop that sends a request until it is answered, or
-- until the delay between attempts passes its maximum. The loop is on fuel, one unit an attempt.
pub mod Budget
pub mod Replies
pub mod Throttle
use jira_connector.Base.{ℕ, zero, suc, String, Option, none, some}
use jira_connector.Base.Int.{ℤ}
use jira_connector.GoError.{GoError, wrap, Result, ok, err}
use jira_connector.Metrics.{Metrics, inc_jira_retry}
use jira_connector.Jira.Client.{
  Client, Network, Request, Response, Outcome, action_return, action_retry, action_error, request,
  handle_response,
}

-- The outside of the client and its metrics.
pub record Session (W : Type 0) : Type 0 where
  pub world : W
  pub metrics : Option Metrics

-- One round of the loop: it returns, or goes round again with a new delay and last error.
pub data Round (W : Type 0) : Type 0 where
  done : Result Response → Session W → Round W
  again : ℤ → GoError → Session W → Round W

-- What the loop returns, with the session that it leaves; `none` where the fuel ran out.
abbrev pub Answer : Type 0 → Type 0
Answer W = Option (Result Response × Session W)

module _ {W : Type 0} (net : Network W) (c : Client) where
  open net use {limiter_wait, new_request, send}

  abbrev pub act : Result Response → Option Metrics → Outcome × W → Round W
  act resp m (action_return delay, w) = done resp (record { world = w; metrics = m })
  act resp m (action_error delay e, w) = done (err e) (record { world = w; metrics = m })
  act resp m (action_retry delay e, w) =
      again delay e (record { world = w; metrics = inc_jira_retry m })

  abbrev pub sent : ℤ → Option GoError → Option Metrics → Result Response × W → Round W
  sent delay last_err m (resp, w) = act resp m (handle_response net c resp delay last_err w)

  abbrev pub built : Request → ℤ → Option GoError → Option Metrics → Option GoError → W → Round W
  built req delay last_err m (some e) w =
      done (err (wrap "create HTTP request" e)) (record { world = w; metrics = m })
  built req delay last_err m none w = sent delay last_err m (send req w)

  abbrev pub limited : Request → ℤ → Option GoError → Option Metrics → Option GoError × W → Round W
  limited req delay last_err m (some e, w) =
      done (err (wrap "rate limiter wait failed" e)) (record { world = w; metrics = m })
  limited req delay last_err m (none, w) = built req delay last_err m (new_request req) w

  unfoldable pub round : Request → ℤ → Option GoError → Session W → Round W
  unfolding inc_jira_retry
  round req delay last_err s = limited req delay last_err s.metrics (limiter_wait s.world)

  abbrev pub follow : (ℤ → GoError → Session W → Answer W) → Round W → Answer W
  follow more (done r s) = some (r, s)
  follow more (again delay e s) = more delay e s

  unfoldable pub do_loop : ℕ → Request → ℤ → Option GoError → Session W → Answer W
  do_loop zero req delay last_err s = none
  do_loop (suc fuel) req delay last_err s =
      follow (λ delay' e s'. do_loop fuel req delay' (some e) s') (round req delay last_err s)

  -- The method `do`, whose name is a reserved word here.
  unfoldable pub do_request : ℕ → String → String → Session W → Answer W
  unfolding do_loop round request
  do_request fuel method path s = do_loop fuel (request c method path) c.min_retry_delay none s
