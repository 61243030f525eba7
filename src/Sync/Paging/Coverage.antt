-- ===== src/Sync/Paging/Coverage.antt =====
-- internal/service/sync/sync.go, `runSync`: runs against a server that holds a fixed list of issues.
use Prim.Native.Nat.{min}
use mathlib.Core.List.{append-nil, append_assoc}
use jira_connector.Base.{
  ℕ, zero, suc, ◌+◌, ◌-◌, ◌^◌, ◌≤◌, ◌<◌, ◌≡◌, refl, sym, ap, subst, ◌∙◌, String, Bool, true, false,
  Option, none, some, List, [], ◌∷◌, ◌++◌, length, take, drop, length-take, length-drop, take_all,
  take-drop-length, drop-drop, arith, Bool-cases, inl, inr,
}
use jira_connector.Base.Int.{ℤ, pos, ◌+ℤ◌, int64, leb_ℤ, int64-pos}
use jira_connector.GoError.{GoError, Result, ok}
use jira_connector.Jira.{Issue, SearchResponse}
use jira_connector.Sync.{Service}
use jira_connector.Sync.Paging.{
  Calls, Progress, Round, finished, more, Answer, report_total, advance, process_some, answered,
  polled, round, follow, pages, run_sync,
}

-- A server that holds a list of issues throughout, and answers each search with at least one issue
-- from the offset on if there is one, and with the right total; processing a part of the list never
-- fails. `Did xs w` says of a world that it is one in which the issues `xs` have been processed.
pub record IsHonest {W : Type 0} (calls : Calls W) (Did : List Issue → W → Type 0)
    (items : List Issue) : Type 0 where
  pub uncancelled : (w : W) → calls.cancelled w ≡ none
  pub page_size : ℕ → W → ℕ
  pub page_size-pos : (a : ℕ) (w : W) → 0 < page_size a w
  pub reply : ℕ → W → SearchResponse
  pub reply_issues : (a : ℕ) (w : W) → (reply a w).issues ≡ take (page_size a w) (drop a items)
  pub reply_total : (a : ℕ) (w : W) → (reply a w).total ≡ pos (length items)
  pub answers :
      (jql : String) (a : ℕ) (w : W) → (calls.search jql (pos a) (pos 50) w).0 ≡ ok (reply a w)
  pub search_keeps :
      (jql : String) (a : ℕ) (xs : List Issue) (w : W)
      → Did xs w
      → Did xs (calls.search jql (pos a) (pos 50) w).1
  pub processes :
      (n a : ℕ) (xs : List Issue) (s : Service) (w : W)
      → Did xs w
      → ((calls.process_page (take n (drop a items)) s w).0 ≡ none)
        × Did (xs ++ take n (drop a items)) (calls.process_page (take n (drop a items)) s w).2

module _ {W : Type 0} (calls : Calls W) (Did : List Issue → W → Type 0) (items : List Issue)
    (h : IsHonest calls Did items) (few : length items < 2 ^ 62) (sync_id jql : String) where
  -- What a round has processed after `xs`: all that was left, or at least one issue, up to the next
  -- offset.
  abbrev Covers : ℕ → List Issue → Round W → Type 0
  Covers a xs (finished e p) = (e ≡ none) × Did (xs ++ drop a items) p.world
  Covers a xs (more next p) =
      (b : ℕ) × (next ≡ pos b)
      × (a < b)
      × (b ≤ length items)
      × (ys : List Issue) × Did ys p.world
      × (ys ++ drop b items ≡ xs ++ drop a items)

  -- After the processing of a page.
  abbrev Processed : List Issue → Option GoError × Service × W → Type 0
  Processed xs r = (r.0 ≡ none) × Did xs r.2

  process_some-done :
      (n a : ℕ) (p xs : List Issue) (s : Service) (w : W)
      → p ≡ take n (drop a items)
      → Did xs w
      → Processed (xs ++ p) (process_some calls sync_id jql p s w)
  process_some-done n a [] xs s w part done =
      (refl, subst (λ l. Did l w) (sym (append-nil xs)) done)
  process_some-done n a (i ∷ is') xs s w part done =
      subst (λ p. Processed (xs ++ p) (calls.process_page p s w)) (sym part)
        (h.processes n a xs s w done)

  sum_pos : (a m : ℕ) → pos a +ℤ pos m ≡ pos (a + m)
  unfolding ◌+ℤ◌
  sum_pos a m = ground arith

  sum_exact : (a m : ℕ) → a + m < 2 ^ 63 → int64 (pos a +ℤ pos m) ≡ pos (a + m)
  sum_exact a m p = rw sum_pos (int64-pos (a + m) p)

  rest_of :
      (n a : ℕ) (xs : List Issue)
      → (xs ++ take n (drop a items)) ++ drop (a + length (take n (drop a items))) items
        ≡ xs ++ drop a items
  rest_of n a xs =
      append_assoc xs (take n (drop a items)) _
      ∙ ap (λ t. xs ++ (take n (drop a items) ++ t))
          (sym (drop-drop a (length (take n (drop a items))) items))
      ∙ ap (λ t. xs ++ t) (take-drop-length n (drop a items))

  all_taken :
      (n a : ℕ)
      → length (take n (drop a items)) ≡ min n (length items - a)
      → leb_ℤ (pos (length items)) (pos (a + length (take n (drop a items)))) ≡ true
      → length (drop a items) ≤ n
  all_taken n a count e = ground (arith, length-drop a items)

  advance-Covers :
      (a n : ℕ) (xs : List Issue) (p : Option GoError × Service × W)
      → a ≤ length items
      → 0 < n
      → Processed (xs ++ take n (drop a items)) p
      → Covers a xs (
          advance calls sync_id jql (pos a) (pos (length items)) (length (take n (drop a items))) p)
  advance-Covers a n xs (some e, s, w') within some_issue done = cc
  advance-Covers a n xs (none, s, w') within some_issue done =
      let m = length (take n (drop a items)) in
      let count : m ≡ min n (length items - a) =
        length-take n (drop a items) ∙ ap (min n) (length-drop a items) in
      rw (sum_exact a m (omega arith))
        (elim (Bool-cases (leb_ℤ (pos (length items)) (pos (a + m)))) [
          | inl e ↦ rw e (
            refl,
            subst (λ l. Did (xs ++ l) w') (take_all n (drop a items) (all_taken n a count e))
                done.1,
          )
          | inr e ↦ rw e (
            a + m,
            refl,
            ground arith,
            ground arith,
            xs ++ take n (drop a items),
            done.1,
            rest_of n a xs,
          )
        ])

  reply-Covers :
      (a n : ℕ) (xs : List Issue) (total : ℤ) (issues : List Issue)
      (p : Option GoError × Service × W)
      → a ≤ length items
      → 0 < n
      → total ≡ pos (length items)
      → issues ≡ take n (drop a items)
      → Processed (xs ++ issues) p
      → Covers a xs (advance calls sync_id jql (pos a) total (length issues) p)
  reply-Covers a n xs total issues p within some_issue et ei done =
      rw (et, ei)
        (advance-Covers a n xs p within some_issue (subst (λ l. Processed (xs ++ l) p) ei done))

  answered-Covers :
      (a : ℕ) (total_set : Bool) (s : Service) (xs : List Issue) (w : W)
      (p : Result SearchResponse × W)
      → a ≤ length items
      → p.0 ≡ ok (h.reply a w)
      → Did xs p.1
      → Covers a xs (answered calls sync_id jql (pos a) total_set s p)
  answered-Covers a total_set s xs w (r, w') within e done = rw e (
      reply-Covers a (h.page_size a w) xs (h.reply a w).total (h.reply a w).issues _ within
        (h.page_size-pos a w) (h.reply_total a w) (h.reply_issues a w)
        (process_some-done (h.page_size a w) a (h.reply a w).issues xs
          (report_total calls sync_id jql total_set (h.reply a w).total s) w' (h.reply_issues a w)
          done))

  polled-Covers :
      (a : ℕ) (total_set : Bool) (s : Service) (xs : List Issue) (w : W) (o : Option GoError)
      → a ≤ length items
      → o ≡ none
      → Did xs w
      → Covers a xs (polled calls sync_id jql (pos a) total_set s w o)
  polled-Covers a total_set s xs w (some e) within n done = cc
  polled-Covers a total_set s xs w none within n done =
      answered-Covers a total_set s xs w (calls.search jql (pos a) (pos 50) w) within
        (h.answers jql a w) (h.search_keeps jql a xs w done)

  -- The loop has ended without an error, and has processed the rest of the issues.
  abbrev Completes : ℕ → List Issue → Answer W → Type 0
  Completes a xs none = ⊥
  Completes a xs (some (e, p)) = (e ≡ none) × Did (xs ++ drop a items) p.world

  Completes-trans :
      (a b : ℕ) (xs ys : List Issue) (r : Answer W)
      → ys ++ drop b items ≡ xs ++ drop a items
      → Completes b ys r
      → Completes a xs r
  Completes-trans a b xs ys none e c = c
  Completes-trans a b xs ys (some (x, p)) e c = (c.0, subst (λ l. Did l p.world) e c.1)

  follow-Completes :
      (a : ℕ) (xs : List Issue) (go : ℤ → Progress W → Answer W) (r : Round W)
      → Covers a xs r
      → ((b : ℕ) (ys : List Issue) (p : Progress W)
          → a < b
          → b ≤ length items
          → Did ys p.world
          → Completes b ys (go (pos b) p))
      → Completes a xs (follow calls sync_id jql go r)
  follow-Completes a xs go (finished e p) c next = c
  follow-Completes a xs go (more z p) (b, same, less, within, ys, done, joined) next =
      rw same (Completes-trans a b xs ys _ joined (next b ys p less within done))

  pages-Completes :
      (fuel a : ℕ) (total_set : Bool) (xs : List Issue) (p : Progress W)
      → a ≤ length items
      → length items < a + fuel
      → Did xs p.world
      → Completes a xs (pages calls sync_id jql fuel (pos a) total_set p)
  unfolding pages round
  pages-Completes zero a total_set xs p within enough done = absurd (omega arith)
  pages-Completes (suc fuel) a total_set xs p within enough done =
      follow-Completes a xs _ _
        (polled-Covers a total_set p.service xs p.world _ within (h.uncancelled p.world) done)
        (λ b ys p' less w' done'. pages-Completes fuel b true ys p' w' (omega arith) done')

-- Against a server that holds a list of fewer than 2 ^ 62 issues throughout and answers every search
-- with at least one more of them and with their number, where the context is not cancelled and no
-- page of them fails, runSync ends without an error within one request more than there are issues,
-- and then every issue has been processed exactly once, in the server's order.
pub run_sync-coverage :
    {W : Type 0} (calls : Calls W) (Did : List Issue → W → Type 0) (items : List Issue)
    → IsHonest calls Did items
    → length items < 2 ^ 62
    → (sync_id key : String) (xs : List Issue) (p : Progress W) → Did xs p.world
    → (q : Progress W) × (run_sync calls (suc (length items)) sync_id key p ≡ some (none, q))
      × Did (xs ++ items) q.world
unfolding run_sync
run_sync-coverage calls Did items h few sync_id key xs p done =
    completed (pages calls sync_id _ (suc (length items)) (pos 0) false p) (
      pages-Completes calls Did items h few sync_id _ (suc (length items)) 0 false xs p
        (omega arith) (omega arith) done)
  where
    completed :
        (r : Answer _)
        → Completes calls Did items h few sync_id "" 0 xs r
        → (q : Progress _) × (r ≡ some (none, q)) × Did (xs ++ items) q.world
    completed none c = absurd c
    completed (some (none, q)) c = (q, refl, c.1)
    completed (some (some e, q)) c = cc
