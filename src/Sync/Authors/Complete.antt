-- ===== src/Sync/Authors/Complete.antt =====
-- internal/service/sync/sync.go, `collectAuthors`: who is among the collected authors.
use jira_connector.Base.{
  ◌≡◌, String, false, Option, none, some, List, [], ◌∷◌, ◌⊎◌, inl, inr, subst,
}
use jira_connector.Base.Text.{is_empty}
use jira_connector.Jira.{Issue, IssueFields, Author, History, Changelog}
use jira_connector.Sync.Authors.{add, nobody, collect_authors}
use jira_connector.Sync.Authors.Tracking.{
  Has, AllDistinct, HasHistories, HasChangelog, add-IsAdded, changelog-added, nobody-IsTracking,
}

-- Somebody of that name wrote a history.
abbrev pub WroteHistory : String → List History → Type 0
WroteHistory name [] = ⊥
WroteHistory name (h ∷ hs) = (h.author.name ≡ name) ⊎ WroteHistory name hs

abbrev pub WroteChangelog : String → Option Changelog → Type 0
WroteChangelog name none = ⊥
WroteChangelog name (some log) = WroteHistory name log.histories

-- The issue mentions somebody of that name: its creator, its assignee, or the author of a history.
abbrev pub Mentions : String → Issue → IssueFields → Type 0
Mentions name issue fields =
    (fields.creator.name ≡ name)
    ⊎ (fields.assignee.name ≡ name)
    ⊎ WroteChangelog name issue.changelog

history-Has :
    (name : String) (hs : List History) (authors : List Author)
    → is_empty name ≡ false
    → HasHistories hs authors
    → WroteHistory name hs
    → Has name authors
history-Has name [] authors named all m = absurd m
history-Has name (h ∷ hs) authors named all (inl e) =
    subst (λ n. Has n authors) e (all.0 (rw e named))
history-Has name (h ∷ hs) authors named all (inr m) = history-Has name hs authors named all.1 m

changelog-Has :
    (name : String) (log : Option Changelog) (authors : List Author)
    → is_empty name ≡ false
    → HasChangelog log authors
    → WroteChangelog name log
    → Has name authors
changelog-Has name none authors named all m = absurd m
changelog-Has name (some log) authors named all m =
    history-Has name log.histories authors named all m

-- The three rounds of `add`.
collected :
    (issue : Issue) (fields : IssueFields)
    → AllDistinct (collect_authors issue fields)
      × (is_empty fields.creator.name ≡ false
          → Has fields.creator.name (collect_authors issue fields))
      × (is_empty fields.assignee.name ≡ false
          → Has fields.assignee.name (collect_authors issue fields))
      × HasChangelog issue.changelog (collect_authors issue fields)
unfolding collect_authors
collected issue fields =
    let a = add-IsAdded nobody fields.creator.name fields.creator.display_name nobody-IsTracking in
    let st = add nobody fields.creator.name fields.creator.display_name in
    let b = add-IsAdded st fields.assignee.name fields.assignee.display_name a.tracking in
    let (t, kept, log) =
      changelog-added (add st fields.assignee.name fields.assignee.display_name) issue.changelog
        b.tracking in
    (t.distinct, λ p. kept _ (b.kept _ (a.present p)), λ p. kept _ (b.present p), log)

-- The collected authors have non-empty names, and no name occurs twice.
pub collect_authors-AllDistinct :
    (issue : Issue) (fields : IssueFields) → AllDistinct (collect_authors issue fields)
collect_authors-AllDistinct issue fields = (collected issue fields).0

-- Everyone with a name whom the issue mentions, be it as its creator, as its assignee or as the
-- author of a history of its changelog, is among the collected authors.
pub collect_authors_complete :
    (issue : Issue) (fields : IssueFields) (name : String)
    → is_empty name ≡ false
    → Mentions name issue fields
    → Has name (collect_authors issue fields)
collect_authors_complete issue fields name named (inl e) =
    subst (λ n. Has n (collect_authors issue fields)) e ((collected issue fields).1 (rw e named))
collect_authors_complete issue fields name named (inr (inl e)) =
    subst (λ n. Has n (collect_authors issue fields)) e ((collected issue fields).2 (rw e named))
collect_authors_complete issue fields name named (inr (inr m)) =
    changelog-Has name issue.changelog _ named (collected issue fields).3 m
