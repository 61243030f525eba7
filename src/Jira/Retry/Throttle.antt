-- ===== src/Jira/Retry/Throttle.antt =====
-- internal/client/jira/jira.go, `do`: servers that answer with a Retry-After header.
use jira_connector.Base.{
  ℕ, zero, suc, ◌≡◌, refl, String, Bool, true, false, Option, none, some, arith, Bool-cases, inl,
  inr, ◌||◌, ◌==◌,
}
use jira_connector.Base.Int.{ℤ, ltb_ℤ}
use jira_connector.GoError.{GoError, Result, ok}
use jira_connector.Metrics.{Metrics}
use jira_connector.Jira.Client.{
  Client, Network, Request, Response, Outcome, action_return, action_retry, action_error,
  handle_response, after_wait, retry_status, retry_delay, wait_with_backoff, cut_short,
}
use jira_connector.Jira.Retry.{
  Session, Round, done, again, act, sent, built, limited, round, do_loop, do_request, Answer,
  follow,
}

module _ {W : Type 0} (net : Network W) (c : Client) where
  open net use {send}

  -- A server that answers every request with the same 429 or 503 response, which asks in its header
  -- to wait for a time within the maximum, while nothing cancels the context.
  pub record IsThrottledForever (resp : Response) : Type 0 where
    pub admitted : (w : W) → (net.limiter_wait w).0 ≡ none
    pub buildable : (req : Request) → net.new_request req ≡ none
    pub answer : (req : Request) (w : W) → (send req w).0 ≡ ok resp
    pub uncut : (d : ℤ) (w : W) → (net.sleep d w).0 ≡ none
    pub status : ((resp.status_code == 429) || (resp.status_code == 503)) ≡ true
    pub bounded : (d : ℤ) → ltb_ℤ c.max_retry_delay (retry_delay net c resp.retry_after d) ≡ false

  abbrev GoesOn : Round W → Type 0
  GoesOn (done r s) = ⊥
  GoesOn (again d e s) = Unit

  abbrev IsRetry : Outcome → Type 0
  IsRetry (action_return d) = ⊥
  IsRetry (action_retry d e) = Unit
  IsRetry (action_error d e) = ⊥

  after_wait-IsRetry :
      (d : ℤ) (e : GoError) (p : Option GoError × W) → p.0 ≡ none → IsRetry (after_wait net d e p).0
  after_wait-IsRetry d e (none, w) h = tt
  after_wait-IsRetry d e (some x, w) h = cc

  wait-uncut : (d : ℤ) (p : Option GoError × W) → p.0 ≡ none → (cut_short net p).0 ≡ none
  wait-uncut d (none, w) h = refl
  wait-uncut d (some x, w) h = cc

  retry_status-IsRetry :
      (b : Bool) (resp : Response) (e : GoError) (d : ℤ) (w : W)
      → b ≡ false
      → (net.sleep d w).0 ≡ none
      → IsRetry (retry_status net c b resp e d w).0
  unfolding wait_with_backoff
  retry_status-IsRetry true resp e d w h p = cc
  retry_status-IsRetry false resp e d w h p = after_wait-IsRetry d e _ (wait-uncut d _ p)

  response-IsRetry :
      (resp : Response)
      → IsThrottledForever resp
      → (d : ℤ) (last : Option GoError) (w : W)
      → IsRetry (handle_response net c (ok resp) d last w).0
  unfolding handle_response
  response-IsRetry resp t d last w = elim (Bool-cases (resp.status_code == 200)) [
    | inl e ↦ absurd (ground (arith, t.status))
    | inr e ↦ rw (e, t.status) (retry_status-IsRetry _ _ _ _ w (t.bounded d) (t.uncut _ w))
  ]

  act-GoesOn :
      (r : Result Response) (m : Option Metrics) (o : Outcome) (w : W)
      → IsRetry o
      → GoesOn (act net c r m (o, w))
  act-GoesOn r m (action_return d) w h = h
  act-GoesOn r m (action_retry d e) w h = tt
  act-GoesOn r m (action_error d e) w h = h

  sent-GoesOn :
      (resp : Response)
      → IsThrottledForever resp
      → (d : ℤ) (last : Option GoError) (m : Option Metrics) (p : Result Response × W)
      → p.0 ≡ ok resp
      → GoesOn (sent net c d last m p)
  sent-GoesOn resp t d last m (r, w) h =
      rw h (act-GoesOn _ m _ _ (response-IsRetry resp t d last w))

  built-GoesOn :
      (resp : Response)
      → IsThrottledForever resp
      → (req : Request) (d : ℤ) (last : Option GoError) (m : Option Metrics) (o : Option GoError)
        (w : W)
      → o ≡ none
      → GoesOn (built net c req d last m o w)
  built-GoesOn resp t req d last m (some e) w h = cc
  built-GoesOn resp t req d last m none w h = sent-GoesOn resp t d last m _ (t.answer req w)

  limited-GoesOn :
      (resp : Response)
      → IsThrottledForever resp
      → (req : Request) (d : ℤ) (last : Option GoError) (m : Option Metrics)
        (p : Option GoError × W)
      → p.0 ≡ none
      → GoesOn (limited net c req d last m p)
  limited-GoesOn resp t req d last m (some e, w) h = cc
  limited-GoesOn resp t req d last m (none, w) h =
      built-GoesOn resp t req d last m _ w (t.buildable req)

  follow-none :
      (more : ℤ → GoError → Session W → Answer W) (r : Round W)
      → GoesOn r
      → ((d : ℤ) (e : GoError) (s : Session W) → more d e s ≡ none)
      → follow net c more r ≡ none
  follow-none more (done r s) h go = absurd h
  follow-none more (again d e s) h go = go d e s

  do_loop-none :
      (resp : Response)
      → IsThrottledForever resp
      → (fuel : ℕ) (req : Request) (d : ℤ) (last : Option GoError) (s : Session W)
      → do_loop net c fuel req d last s ≡ none
  unfolding do_loop round
  do_loop-none resp t zero req d last s = refl
  do_loop-none resp t (suc fuel) req d last s =
      follow-none _ _ (limited-GoesOn resp t req d last s.metrics _ (t.admitted s.world))
        (λ d' e s'. do_loop-none resp t fuel req d' (some e) s')

  -- As long as the limiter admits every request, the server answers each with the same 429 or 503
  -- response whose Retry-After asks for a delay within the maximum, and nothing cancels the context,
  -- no number of attempts makes `do` return: the loop has no bound on attempts.
  pub do_request-throttled :
      (resp : Response)
      → IsThrottledForever resp
      → (fuel : ℕ) (method path : String) (s : Session W)
      → do_request net c fuel method path s ≡ none
  unfolding do_request
  do_request-throttled resp t fuel method path s = do_loop-none resp t fuel _ _ none s
