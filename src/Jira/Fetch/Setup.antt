-- ===== src/Jira/Fetch/Setup.antt =====
-- internal/client/jira/jira.go, `New`: the page size and the delays of the client.
use jira_connector.Base.{ℕ, ◌*◌, ◌≤◌, ◌<◌, ◌≡◌, String, arith, if◌then◌else◌}
use jira_connector.Base.Int.{ℤ, pos, ◌*ℤ◌, ◌≤ℤ◌, int64, leb_ℤ}
use jira_connector.Config.{JiraConfig}
use jira_connector.Jira.Fetch.{new, clamp_results, or_delay, default_max_results}

clamp_bounds : (n : ℤ) → (pos 50 ≤ℤ clamp_results n) × (clamp_results n ≤ℤ pos 1000)
clamp_bounds n = ground arith

-- Whatever the configuration, the page size of the client lies between 50 and 1000.
pub new-max_results :
    {Rate : Type 0} (trim : String → String) (cfg : JiraConfig Rate)
    → (pos 50 ≤ℤ (new trim cfg).max_results) × ((new trim cfg).max_results ≤ℤ pos 1000)
unfolding new
new-max_results trim cfg =
    clamp_bounds (if leb_ℤ cfg.max_results (pos 0) then default_max_results else cfg.max_results)

delay_exact :
    (n : ℕ) (d : ℤ)
    → 0 < n
    → n ≤ 9_000_000_000_000
    → or_delay (int64 (pos n *ℤ pos 1_000_000)) d ≡ pos (n * 1_000_000)
unfolding ◌*ℤ◌ int64
delay_exact n d p q = ground arith

delay_of :
    (z : ℤ) (n : ℕ) (d : ℤ)
    → z ≡ pos n
    → 0 < n
    → n ≤ 9_000_000_000_000
    → or_delay (int64 (z *ℤ pos 1_000_000)) d ≡ pos (n * 1_000_000)
delay_of z n d e p q = rw e (delay_exact n d p q)

-- Delays that are positive and at most nine million million milliseconds become exactly that many
-- nanoseconds: the multiplication does not overflow.
pub new-delays :
    {Rate : Type 0} (trim : String → String) (cfg : JiraConfig Rate) (least most : ℕ)
    → cfg.min_retry_delay ≡ pos least
    → cfg.max_retry_delay ≡ pos most
    → 0 < least
    → least ≤ 9_000_000_000_000
    → 0 < most
    → most ≤ 9_000_000_000_000
    → ((new trim cfg).min_retry_delay ≡ pos (least * 1_000_000))
      × ((new trim cfg).max_retry_delay ≡ pos (most * 1_000_000))
unfolding new
new-delays trim cfg least most e f a b c d =
    (delay_of cfg.min_retry_delay least _ e a b, delay_of cfg.max_retry_delay most _ f c d)
