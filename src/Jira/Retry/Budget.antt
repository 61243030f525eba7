-- ===== src/Jira/Retry/Budget.antt =====
-- internal/client/jira/jira.go, `do`: the delays of the retry loop and the fuel that it takes.
use native.Mathlib.Nat.{pow-succ', mul_assoc}
use jira_connector.Base.{
  ℕ, zero, suc, ◌*◌, ◌^◌, ◌≤◌, ◌<◌, ◌≡◌, refl, String, Bool, true, false, Option, none, some, arith,
  ltb, Bool-cases, inl, inr, ◌||◌, ◌==◌,
}
use jira_connector.Base.Int.{ℤ, pos, ◌*ℤ◌, int64}
use jira_connector.GoError.{GoError, Result, ok, err}
use jira_connector.Metrics.{Metrics}
use jira_connector.Jira.Client.{
  Client, Network, Request, Response, Outcome, action_return, action_retry, action_error, request,
  handle_response, after_wait, network_error, retry_status, retry_delay, wait_with_backoff,
  handle_network_error, handle_retry_status,
}
use jira_connector.Jira.Retry.{
  Session, Round, done, again, act, limited, round, do_loop, do_request, Answer, follow,
}

-- A retry comes only while the delay is within its maximum, and doubles it.
abbrev Doubles : ℕ → ℕ → Outcome → Type 0
Doubles d m (action_retry delay e) = (d ≤ m) × (delay ≡ pos (d * 2))
Doubles d m (action_return delay) = Unit
Doubles d m (action_error delay e) = Unit

double : (d : ℕ) → d * 2 < 2 ^ 63 → int64 (pos d *ℤ pos 2) ≡ pos (d * 2)
unfolding ◌*ℤ◌ int64
double d h = ground arith

abbrev Returns : {W : Type 0} → Answer W → Type 0
Returns none = ⊥
Returns (some p) = Unit

returned :
    {W : Type 0} (o : Answer W) → Returns o → (p : Result Response × Session W) × (o ≡ some p)
returned none h = absurd h
returned (some p) h = (p, refl)

module _ {W : Type 0} (net : Network W) (c : Client) (m : ℕ) (max : c.max_retry_delay ≡ pos m)
    (small : m < 2 ^ 62) where
  open net use {send}

  -- The server never sends a Retry-After header.
  abbrev pub NoRetryAfter : Type 0
  NoRetryAfter =
      (req : Request) (w : W) (resp : Response) → (send req w).0 ≡ ok resp → resp.retry_after ≡ ""

  after_wait-Doubles :
      (d : ℕ) (e : GoError) (p : Option GoError × W)
      → d ≤ m
      → Doubles d m (after_wait net (pos d) e p).0
  after_wait-Doubles d e (some x, w) h = tt
  after_wait-Doubles d e (none, w) h = (h, double d (omega arith))

  network_error-Doubles :
      (d : ℕ) (o : Option GoError) (b : Bool) (e : GoError) (last : Option GoError) (w : W)
      → ltb m d ≡ b
      → Doubles d m (network_error net c o b e last (pos d) w).0
  network_error-Doubles d (some x) b e last w p = tt
  network_error-Doubles d none true e last w p = tt
  network_error-Doubles d none false e last w p =
      after_wait-Doubles d e (wait_with_backoff net (pos d) w) (ground arith)

  retry_status-Doubles :
      (d : ℕ) (b : Bool) (resp : Response) (e : GoError) (w : W)
      → ltb m d ≡ b
      → Doubles d m (retry_status net c b resp e (pos d) w).0
  retry_status-Doubles d true resp e w p = tt
  retry_status-Doubles d false resp e w p =
      after_wait-Doubles d e (wait_with_backoff net (pos d) w) (ground arith)

  network-Doubles :
      (d : ℕ) (e : GoError) (last : Option GoError) (w : W)
      → Doubles d m (handle_network_error net c e last (pos d) w).0
  unfolding handle_network_error
  network-Doubles d e last w = network_error-Doubles d (net.ctx_err w) _ e last w (ground arith)

  retry-Doubles :
      (d : ℕ) (resp : Response) (w : W)
      → resp.retry_after ≡ ""
      → Doubles d m (handle_retry_status net c resp (pos d) w).0
  unfolding handle_retry_status
  retry-Doubles d resp w e =
      let same : retry_delay net c resp.retry_after (pos d) ≡ pos d = rw (e, retry_delay) refl in
      rw same (retry_status-Doubles d _ _ _ w (ground arith))

  response-Doubles :
      (d : ℕ) (r : Result Response) (last : Option GoError) (w : W)
      → ((resp : Response) → r ≡ ok resp → resp.retry_after ≡ "")
      → Doubles d m (handle_response net c r (pos d) last w).0
  unfolding handle_response
  response-Doubles d (err e) last w h = network-Doubles d e last w
  response-Doubles d (ok resp) last w h = elim (Bool-cases (resp.status_code == 200)) [
    | inl e ↦ rw e tt
    | inr e ↦ rw e (elim (Bool-cases ((resp.status_code == 429) || (resp.status_code == 503))) [
      | inl f ↦ rw f (retry-Doubles d resp w (h resp refl))
      | inr f ↦ rw f tt
    ])
  ]

  -- The same of a round of the loop.
  abbrev RoundDoubles : ℕ → Round W → Type 0
  RoundDoubles d (done r s) = Unit
  RoundDoubles d (again delay e s) = (d ≤ m) × (delay ≡ pos (d * 2))

  act-Doubles :
      (d : ℕ) (r : Result Response) (mtr : Option Metrics) (o : Outcome) (w : W)
      → Doubles d m o
      → RoundDoubles d (act net c r mtr (o, w))
  act-Doubles d r mtr (action_return delay) w h = tt
  act-Doubles d r mtr (action_error delay e) w h = tt
  act-Doubles d r mtr (action_retry delay e) w h = h

  limited-Doubles :
      NoRetryAfter
      → (d : ℕ) (req : Request) (last : Option GoError) (mtr : Option Metrics)
        (o p : Option GoError) (w : W)
      → p ≡ net.new_request req
      → RoundDoubles d (limited net c req (pos d) last mtr (o, w))
  limited-Doubles plain d req last mtr (some e) p w q = tt
  limited-Doubles plain d req last mtr none (some e) w q = rw (← q) tt
  limited-Doubles plain d req last mtr none none w q =
      let (r, w') = send req w in
      rw (← q) (act-Doubles d r mtr _ _ (response-Doubles d r last w' (plain req w)))

  round-Doubles :
      NoRetryAfter
      → (d : ℕ) (req : Request) (last : Option GoError) (s : Session W)
      → RoundDoubles d (round net c req (pos d) last s)
  unfolding round
  round-Doubles plain d req last s =
      limited-Doubles plain d req last s.metrics _ (net.new_request req) _ refl

  follow-Returns :
      (d : ℕ) (more : ℤ → GoError → Session W → Answer W) (r : Round W)
      → RoundDoubles d r
      → ((e : GoError) (s : Session W) → d ≤ m → Returns (more (pos (d * 2)) e s))
      → Returns (follow net c more r)
  follow-Returns d more (done r s) h go = tt
  follow-Returns d more (again delay e s) h go = rw (h.1) (go e s h.0)

  do_loop-Returns :
      NoRetryAfter
      → (k d : ℕ) (req : Request) (last : Option GoError) (s : Session W) → m < d * 2 ^ k
      → Returns (do_loop net c (suc k) req (pos d) last s)
  unfolding do_loop
  do_loop-Returns plain zero d req last s enough =
      follow-Returns d _ _ (round-Doubles plain d req last s) (λ e s' h. absurd (omega arith))
  do_loop-Returns plain (suc k) d req last s enough =
      follow-Returns d _ _ (round-Doubles plain d req last s) (λ e s' h.
        do_loop-Returns plain k (d * 2) req (some e) s' (rw (pow-succ', ← mul_assoc) at enough))

  do_loop-returns :
      NoRetryAfter
      → (k d : ℕ) (delay : ℤ) (req : Request) (s : Session W) → delay ≡ pos d
      → m < d * 2 ^ k
      → (p : Result Response × Session W) × (do_loop net c (suc k) req delay none s ≡ some p)
  do_loop-returns plain k d delay req s e enough =
      rw e (returned _ (do_loop-Returns plain k d req none s enough))

  -- A server that never sends Retry-After is given up on or answers within k + 1 attempts, where the
  -- greatest delay (below 2 ^ 62 ns) is less than 2 ^ k times the least one: `do` returns.
  pub do_request-returns :
      NoRetryAfter
      → (k d : ℕ) (method path : String) (s : Session W) → c.min_retry_delay ≡ pos d
      → m < d * 2 ^ k
      → (p : Result Response × Session W) × (do_request net c (suc k) method path s ≡ some p)
  unfolding do_request
  do_request-returns plain k d method path s min enough =
      do_loop-returns plain k d _ (request c method path) s min enough
