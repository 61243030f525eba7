-- ===== src/Jira/Retry/Replies.antt =====
-- internal/client/jira/jira.go, `do` and `handleRetryStatus`: the responses that come out.
use jira_connector.Base.{
  ℕ, zero, suc, ◌≡◌, refl, String, Bool, true, false, Option, none, some, arith, Bool-cases, inl,
  inr, ◌||◌, ◌==◌, ap,
}
use jira_connector.Base.Int.{ℤ, ltb_ℤ}
use jira_connector.GoError.{GoError, Result, ok, err}
use jira_connector.Metrics.{Metrics}
use jira_connector.Jira.Client.{
  Client, Network, Request, Response, Outcome, action_return, action_retry, action_error, request,
  handle_response, after_wait, network_error, retry_delay, handle_error_response, retry_status,
  handle_retry_status, Body, no_body, text, broken, closed, closed_body, close_body,
}
use jira_connector.Jira.Retry.{
  Session, Round, done, again, act, built, limited, round, do_loop, do_request, Answer, follow,
}

-- A response that the caller of `do` gets has the status 200.
abbrev IsFine : Result Response → Type 0
IsFine (ok resp) = resp.status_code ≡ 200
IsFine (err e) = Unit

abbrev AnswersFine : {W : Type 0} → Answer W → Type 0
AnswersFine none = Unit
AnswersFine (some (r, s)) = IsFine r

abbrev RoundFine : {W : Type 0} → Round W → Type 0
RoundFine (done r s) = IsFine r
RoundFine (again delay e s) = Unit

-- Only a response of status 200 lets the loop return it.
abbrev Justified : Result Response → Outcome → Type 0
Justified r (action_return delay) = IsFine r
Justified r (action_retry delay e) = Unit
Justified r (action_error delay e) = Unit

module _ {W : Type 0} (net : Network W) (c : Client) where
  open net use {send}

  after_wait-Justified :
      (r : Result Response) (d : ℤ) (e : GoError) (p : Option GoError × W)
      → Justified r (after_wait net d e p).0
  after_wait-Justified r d e (none, w) = tt
  after_wait-Justified r d e (some x, w) = tt

  network_error-Justified :
      (r : Result Response) (o : Option GoError) (b : Bool) (e : GoError) (last : Option GoError)
      (d : ℤ) (w : W)
      → Justified r (network_error net c o b e last d w).0
  network_error-Justified r (some x) b e last d w = tt
  network_error-Justified r none true e last d w = tt
  network_error-Justified r none false e last d w = after_wait-Justified r d e _

  retry_status-Justified :
      (r : Result Response) (b : Bool) (resp : Response) (e : GoError) (d : ℤ) (w : W)
      → Justified r (retry_status net c b resp e d w).0
  retry_status-Justified r true resp e d w = tt
  retry_status-Justified r false resp e d w = after_wait-Justified r d e _

  response-Justified :
      (r : Result Response) (d : ℤ) (last : Option GoError) (w : W)
      → Justified r (handle_response net c r d last w).0
  unfolding handle_response
  response-Justified (err e) d last w = network_error-Justified (err e) _ _ e last d w
  response-Justified (ok resp) d last w = elim (Bool-cases (resp.status_code == 200)) [
    | inl e ↦ rw e (ground arith)
    | inr e ↦ rw e (elim (Bool-cases ((resp.status_code == 429) || (resp.status_code == 503))) [
      | inl f ↦ rw f (retry_status-Justified (ok resp) _ _ _ _ w)
      | inr f ↦ rw f tt
    ])
  ]

  act-Fine :
      (r : Result Response) (m : Option Metrics) (o : Outcome) (w : W)
      → Justified r o
      → RoundFine (act net c r m (o, w))
  act-Fine r m (action_return d) w h = h
  act-Fine r m (action_retry d e) w h = tt
  act-Fine r m (action_error d e) w h = tt

  built-Fine :
      (req : Request) (d : ℤ) (last : Option GoError) (m : Option Metrics) (o : Option GoError)
      (w : W)
      → RoundFine (built net c req d last m o w)
  built-Fine req d last m (some e) w = tt
  built-Fine req d last m none w =
      act-Fine _ m _ _ (response-Justified (send req w).0 d last (send req w).1)

  limited-Fine :
      (req : Request) (d : ℤ) (last : Option GoError) (m : Option Metrics) (o : Option GoError)
      (w : W)
      → RoundFine (limited net c req d last m (o, w))
  limited-Fine req d last m (some e) w = tt
  limited-Fine req d last m none w = built-Fine req d last m _ w

  follow-Fine :
      (more : ℤ → GoError → Session W → Answer W) (r : Round W)
      → RoundFine r
      → ((d : ℤ) (e : GoError) (s : Session W) → AnswersFine (more d e s))
      → AnswersFine (follow net c more r)
  follow-Fine more (done r s) h go = h
  follow-Fine more (again d e s) h go = go d e s

  do_loop-Fine :
      (fuel : ℕ) (req : Request) (d : ℤ) (last : Option GoError) (s : Session W)
      → AnswersFine (do_loop net c fuel req d last s)
  unfolding do_loop round
  do_loop-Fine zero req d last s = tt
  do_loop-Fine (suc fuel) req d last s =
      follow-Fine _ _ (limited-Fine req d last s.metrics _ _)
        (λ d' e s'. do_loop-Fine fuel req d' (some e) s')

  -- Every response that `do` returns has the status 200, whatever the server and the network did
  -- before.
  pub do_request-status :
      (fuel : ℕ) (method path : String) (s s' : Session W) (resp : Response)
      → do_request net c fuel method path s ≡ some (ok resp, s')
      → resp.status_code ≡ 200
  unfolding do_request
  do_request-status fuel method path s s' resp e =
      rw e at (do_loop-Fine fuel (request c method path) c.min_retry_delay none s)

  closed_body-same :
      (a b : Body) → ¬ (a ≡ no_body) → ¬ (b ≡ no_body) → closed_body a ≡ closed_body b
  closed_body-same no_body b p q = absurd (p refl)
  closed_body-same (text x) no_body p q = absurd (q refl)
  closed_body-same (text x) (text y) p q = refl
  closed_body-same (text x) (broken y) p q = refl
  closed_body-same (text x) closed p q = refl
  closed_body-same (broken x) no_body p q = absurd (q refl)
  closed_body-same (broken x) (text y) p q = refl
  closed_body-same (broken x) (broken y) p q = refl
  closed_body-same (broken x) closed p q = refl
  closed_body-same closed no_body p q = absurd (q refl)
  closed_body-same closed (text y) p q = refl
  closed_body-same closed (broken y) p q = refl
  closed_body-same closed closed p q = refl

  close_body-same :
      (resp : Response) (b : Body)
      → ¬ (resp.body ≡ no_body)
      → ¬ (b ≡ no_body)
      → close_body (record resp { body = b }) ≡ close_body resp
  unfolding close_body
  close_body-same resp b p q = rw (closed_body-same b resp.body q p) refl

  handle_retry_status-same :
      (resp : Response) (b : Body) (d : ℤ) (w : W)
      → ¬ (resp.body ≡ no_body)
      → ¬ (b ≡ no_body)
      → handle_retry_status net c (record resp { body = b }) d w
        ≡ handle_retry_status net c resp d w
  unfolding handle_retry_status
  handle_retry_status-same resp b d w p q =
      ap
        (λ r.
          let d' = retry_delay net c r.retry_after d in
          retry_status net c (ltb_ℤ c.max_retry_delay d') r (handle_error_response net r) d' w)
        (close_body-same resp b p q)

  -- Two responses of status 429 or 503 that differ only in their bodies, neither of which is absent
  -- (http.NoBody), give the same outcome of handleResponse, the error included: the body is closed
  -- before it is read, so what Jira explains in it is lost.
  pub throttled_body_lost :
      (resp : Response) (b : Body) (d : ℤ) (last : Option GoError) (w : W)
      → ((resp.status_code == 429) || (resp.status_code == 503)) ≡ true
      → ¬ (resp.body ≡ no_body)
      → ¬ (b ≡ no_body)
      → handle_response net c (ok (record resp { body = b })) d last w
        ≡ handle_response net c (ok resp) d last w
  unfolding handle_response
  throttled_body_lost resp b d last w t p q = elim (Bool-cases (resp.status_code == 200)) [
    | inl e ↦ absurd (ground arith)
    | inr e ↦ rw (e, t) (handle_retry_status-same resp b d w p q)
  ]
