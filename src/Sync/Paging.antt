-- ===== src/Sync/Paging.antt =====
-- internal/service/sync/sync.go, `runSync`: the loop over the pages of a search. It is on fuel, one
-- unit for each request; the program itself is bounded only by the deadline of the context.
pub mod Coverage
pub mod Stuck
use jira_connector.Base.{
  ℕ, zero, suc, String, Bool, true, false, Option, none, some, List, [], ◌∷◌, length, is_nil,
  if◌then◌else◌,
}
use jira_connector.Base.Int.{ℤ, pos, ◌+ℤ◌, int64, leb_ℤ, uint64}
use jira_connector.Base.Text.{append, format_int}
use jira_connector.GoError.{GoError, wrap, Result, ok, err}
use jira_connector.Jira.{Issue, SearchResponse}
use jira_connector.Manager.{set_total}
use jira_connector.Sync.{Service, default_page_size}

-- What the loop calls: the context, the search of the Jira client, and `processPage` for this sync.
pub record Calls (W : Type 0) : Type 0 where
  pub cancelled : W → Option GoError
  pub search : String → ℤ → ℤ → W → Result SearchResponse × W
  pub process_page : List Issue → Service → W → Option GoError × Service × W

pub record Progress (W : Type 0) : Type 0 where
  pub service : Service
  pub world : W

-- One round of the loop: it returns, or goes on at another offset.
pub data Round (W : Type 0) : Type 0 where
  finished : Option GoError → Progress W → Round W
  more : ℤ → Progress W → Round W

abbrev pub Answer : Type 0 → Type 0
Answer W = Option (Option GoError × Progress W)

abbrev pub with_start : String → ℤ → String
with_start what start_at = append what (append " (startAt=" (append (format_int start_at) ")"))

module _ {W : Type 0} (calls : Calls W) (sync_id jql : String) where
  open calls use {cancelled, search, process_page}

  abbrev pub report_total : Bool → ℤ → Service → Service
  report_total true total s = s
  report_total false total s = record s { manager = set_total sync_id (uint64 total) s.manager }

  -- After the page: the total of the response and the number of its issues decide.
  abbrev pub advance : ℤ → ℤ → ℕ → Option GoError × Service × W → Round W
  advance start_at total count (some e, s, w) =
      finished (some (wrap (with_start "process page" start_at) e))
        (record { service = s; world = w })
  advance start_at total count (none, s, w) =
      let next = int64 (start_at +ℤ pos count) in
      if leb_ℤ total next
      then finished none (record { service = s; world = w })
      else more next (record { service = s; world = w })

  abbrev pub process_some : List Issue → Service → W → Option GoError × Service × W
  process_some [] s w = (none, s, w)
  process_some (i ∷ is') s w = process_page (i ∷ is') s w

  abbrev pub answered : ℤ → Bool → Service → Result SearchResponse × W → Round W
  answered start_at total_set s (err e, w) =
      finished (some (wrap (with_start "search issues" start_at) e))
        (record { service = s; world = w })
  answered start_at total_set s (ok resp, w) =
      advance start_at resp.total (length resp.issues)
        (process_some resp.issues (report_total total_set resp.total s) w)

  abbrev pub polled : ℤ → Bool → Service → W → Option GoError → Round W
  polled start_at total_set s w (some e) =
      finished (some (wrap "sync context cancelled" e)) (record { service = s; world = w })
  polled start_at total_set s w none =
      answered start_at total_set s (search jql start_at (pos default_page_size) w)

  unfoldable pub round : ℤ → Bool → Progress W → Round W
  round start_at total_set p = polled start_at total_set p.service p.world (cancelled p.world)

  abbrev pub follow : (ℤ → Progress W → Answer W) → Round W → Answer W
  follow go (finished e p) = some (e, p)
  follow go (more start_at p) = go start_at p

  -- After the first response the total is set.
  unfoldable pub pages : ℕ → ℤ → Bool → Progress W → Answer W
  pages zero start_at total_set p = none
  pages (suc fuel) start_at total_set p =
      follow (λ next p'. pages fuel next true p') (round start_at total_set p)

unfoldable pub run_sync : {W : Type 0} → Calls W → ℕ → String → String → Progress W → Answer W
unfolding pages round
run_sync calls fuel sync_id project_key p =
    pages calls sync_id (append "project=" project_key) fuel (pos 0) false p
