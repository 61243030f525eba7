-- ===== src/Sync/Paging/Stuck.antt =====
-- internal/service/sync/sync.go, `runSync`: servers that report more issues than they hand out.
use jira_connector.Base.{
  ℕ, zero, suc, ◌^◌, ◌<◌, ◌≡◌, refl, String, Bool, true, Option, none, some, List, [], arith,
  Bool-cases, inl, inr, length,
}
use jira_connector.Base.Int.{ℤ, pos, ◌+ℤ◌, int64, leb_ℤ, int64-pos}
use jira_connector.GoError.{GoError, Result, ok}
use jira_connector.Jira.{SearchResponse, Issue}
use jira_connector.Sync.{Service}
use jira_connector.Sync.Paging.{
  Calls, Progress, Round, finished, more, Answer, report_total, advance, answered, polled, round,
  follow, pages, process_some,
}

-- At offset `a` the server always answers with no issue and a total beyond the offset, and nothing
-- cancels the context.
pub record IsStuck {W : Type 0} (calls : Calls W) (jql : String) (a : ℕ) : Type 0 where
  pub uncancelled : (w : W) → calls.cancelled w ≡ none
  pub total : ℕ
  pub beyond : a < total
  pub small : a < 2 ^ 63
  pub answers :
      (w : W)
      → (r : SearchResponse) × ((calls.search jql (pos a) (pos 50) w).0 ≡ ok r)
        × (r.issues ≡ [])
        × (r.total ≡ pos total)

module _ {W : Type 0} (calls : Calls W) (sync_id jql : String) (a : ℕ)
    (h : IsStuck calls jql a) where
  abbrev Stays : Round W → Type 0
  Stays (finished e p) = ⊥
  Stays (more next p) = next ≡ pos a

  same_offset : int64 (pos a +ℤ pos 0) ≡ pos a
  same_offset = rw plus_zero (int64-pos a h.small)
    where
      plus_zero : pos a +ℤ pos 0 ≡ pos a
      plus_zero = unfold ◌+ℤ◌ in ground arith

  advance-Stays :
      (s : Service) (w : W) → Stays (advance calls sync_id jql (pos a) (pos h.total) 0 (none, s, w))
  advance-Stays s w = rw same_offset (elim (Bool-cases (leb_ℤ (pos h.total) (pos a))) [
    | inl e ↦ absurd (ground (arith, h.beyond))
    | inr e ↦ rw e refl
  ])

  answered-Stays :
      (total_set : Bool) (s : Service) (p : Result SearchResponse × W) (r : SearchResponse)
      → p.0 ≡ ok r
      → r.issues ≡ []
      → r.total ≡ pos h.total
      → Stays (answered calls sync_id jql (pos a) total_set s p)
  answered-Stays total_set s (x, w) r e none_left total =
      rw e (
        stays r.issues r.total (report_total calls sync_id jql total_set r.total s) none_left total)
    where
      stays :
          (is : List Issue) (t : ℤ) (s : Service)
          → is ≡ []
          → t ≡ pos h.total
          → Stays (
              advance calls sync_id jql
                (pos a)
                t
                (length is)
                (process_some calls sync_id jql is s w))
      stays is t s p q = rw (p, q) (advance-Stays s w)

  polled-Stays :
      (total_set : Bool) (s : Service) (w : W) (o : Option GoError)
      → o ≡ none
      → Stays (polled calls sync_id jql (pos a) total_set s w o)
  polled-Stays total_set s w (some e) n = cc
  polled-Stays total_set s w none n =
      let (r, e, none_left, total) = h.answers w in
      answered-Stays total_set s (calls.search jql (pos a) (pos 50) w) r e none_left total

  follow-none :
      (go : ℤ → Progress W → Answer W) (r : Round W)
      → Stays r
      → ((p : Progress W) → go (pos a) p ≡ none)
      → follow calls sync_id jql go r ≡ none
  follow-none go (finished e p) st next = absurd st
  follow-none go (more z p) st next = rw st (next p)

  -- If at some offset below 2 ^ 63 the server always answers with an empty page and a total beyond
  -- the offset, and the context is not cancelled, the loop at that offset never returns, whatever
  -- the number of requests.
  pub pages-stuck :
      (fuel : ℕ) (total_set : Bool) (p : Progress W)
      → pages calls sync_id jql fuel (pos a) total_set p ≡ none
  unfolding pages round
  pages-stuck zero total_set p = refl
  pages-stuck (suc fuel) total_set p =
      follow-none _ _ (polled-Stays total_set p.service p.world _ (h.uncancelled p.world))
        (λ p'. pages-stuck fuel true p')
