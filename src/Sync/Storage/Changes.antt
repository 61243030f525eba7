-- ===== src/Sync/Storage/Changes.antt =====
-- internal/service/sync/sync.go, `insertProcessedIssue` over the tables: the status changes.
use jira_connector.Base.{
  ◌≡◌, refl, ap, ◌∙◌, String, true, false, Option, none, List, [], ◌∷◌, ◌++◌, inl, inr, All,
  Bool-cases,
}
use mathlib.Core.List.{append_assoc, append-nil}
use jira_connector.Base.Int.{ℤ}
use jira_connector.Base.Text.{is_empty, str_eq}
use jira_connector.GoError.{Result, ok, err}
use jira_connector.Jira.{Author, History, ChangeItem}
use jira_connector.Raw
use jira_connector.Mapper.{Codec, hash_id, status_items, changes_at, history_changes}
use jira_connector.Repo.{tx, insert_status_change_row}
use jira_connector.Repo.Postgres.{Tables, exists, put_row, fits_int4, change_fits, postgres}
use jira_connector.Repo.Postgres.Laws.{put_row_self}
use jira_connector.Sync.Authors.Complete.{WroteHistory}
use jira_connector.Sync.Commit.{insert_changes}
use jira_connector.Sync.Storage.{live, IsNamed}
use jira_connector.Sync.Storage.Authors.{hash-fits_int4}
use jira_connector.Sync.Storage.Statements.{put_row_twice, insert_change-live}

append_at :
    {A : Type 0} (k id : ℤ) (done : List A) (a : A) (f : ℤ → List A)
    → k ≡ id
    → put_row k (put_row id done f k ++ a ∷ []) (put_row id done f) ≡ put_row id (done ++ a ∷ []) f
append_at k id done a f e =
    rw (e, put_row_self id done f) (put_row_twice id done (done ++ a ∷ []) f)

module _ (codec : Codec) where
  open codec use {Time}

  -- A change of this issue by somebody who has a row.
  abbrev pub FitsTables : (ℤ → Option Raw.Author) → ℤ → Raw.StatusChange Time → Type 0
  FitsTables author id ch =
      (ch.issue_id ≡ id) × (fits_int4 ch.author_id ≡ true) × (exists (author ch.author_id) ≡ true)

  change-fits :
      (id : ℤ) (t : Tables Time) (ch : Raw.StatusChange Time)
      → fits_int4 id ≡ true
      → exists (t.issue id) ≡ true
      → FitsTables t.author id ch
      → change_fits ch t ≡ true
  change-fits id t ch a b (same, fit, there) = rw (same, a, fit, b, there) refl

  insert_one :
      (id : ℤ) (c t : Tables Time) (done : List (Raw.StatusChange Time))
      (ch : Raw.StatusChange Time)
      → fits_int4 id ≡ true
      → exists (t.issue id) ≡ true
      → FitsTables t.author id ch
      → insert_status_change_row postgres tx ch
          (live c (record t { changes = put_row id done t.changes }))
        ≡ (none, live c (record t { changes = put_row id (done ++ ch ∷ []) t.changes }))
  insert_one id c t done ch a b fine =
      insert_change-live codec ch c (record t { changes = put_row id done t.changes })
        (change-fits id (record t { changes = put_row id done t.changes }) ch a b fine)
      ∙ ap (λ f. (none, live c (record t { changes = f })))
          (append_at ch.issue_id id done ch t.changes fine.0)

  pub insert_changes-live :
      (id : ℤ) (c t : Tables Time) (chs done : List (Raw.StatusChange Time))
      → fits_int4 id ≡ true
      → exists (t.issue id) ≡ true
      → All (FitsTables t.author id) chs
      → insert_changes codec postgres tx chs
          (live c (record t { changes = put_row id done t.changes }))
        ≡ live c (record t { changes = put_row id (done ++ chs) t.changes })
  unfolding insert_changes
  insert_changes-live id c t [] done a b fine = rw (append-nil done) refl
  insert_changes-live id c t (ch ∷ chs) done a b fine = rw (insert_one id c t done ch a b fine.0) (
      insert_changes-live id c t chs (done ++ ch ∷ []) a b fine.1
      ∙ ap (λ l. live c (record t { changes = put_row id l t.changes }))
          (append_assoc done (ch ∷ []) chs))

  status_items-fit :
      (author : ℤ → Option Raw.Author) (id : ℤ) (by_whom : Author) (at : Time)
      (items : List ChangeItem)
      → exists (author (hash_id by_whom.name)) ≡ true
      → All (FitsTables author id) (status_items codec id by_whom at items)
  unfolding status_items
  status_items-fit author id by_whom at [] h = tt
  status_items-fit author id by_whom at (item ∷ items) h =
      elim (Bool-cases (str_eq item.field "status")) [
        | inl e ↦
            rw e (
              (refl, hash-fits_int4 by_whom.name, h),
              status_items-fit author id by_whom at items h,
            )
        | inr e ↦ rw e (status_items-fit author id by_whom at items h)
      ]

  All-append :
      (P : Raw.StatusChange Time → Type 0) (xs ys : List (Raw.StatusChange Time))
      → All P xs
      → All P ys
      → All P (xs ++ ys)
  All-append P [] ys hx hy = hy
  All-append P (x ∷ xs) ys hx hy = (hx.0, All-append P xs ys hx.1 hy)

  changes_at-fit :
      (author : ℤ → Option Raw.Author) (id : ℤ) (h : History) (r : Result Time)
      (rest : List (Raw.StatusChange Time))
      → exists (author (hash_id h.author.name)) ≡ true
      → All (FitsTables author id) rest
      → All (FitsTables author id) (changes_at codec id h r rest)
  changes_at-fit author id h (err e) rest there a = a
  changes_at-fit author id h (ok at) rest there a =
      All-append (FitsTables author id) (status_items codec id h.author at h.items) rest
        (status_items-fit author id h.author at h.items there) a

  pub history_changes-fit :
      (author : ℤ → Option Raw.Author) (id : ℤ) (hs : List History)
      → ((name : String)
          → is_empty name ≡ false
          → WroteHistory name hs
          → exists (author (hash_id name)) ≡ true)
      → All IsNamed hs
      → All (FitsTables author id) (history_changes codec id hs)
  unfolding history_changes
  history_changes-fit author id [] known named = tt
  history_changes-fit author id (h ∷ hs) known named =
      changes_at-fit author id h _ _ (known h.author.name named.0 (inl refl))
        (history_changes-fit author id hs (λ n e w. known n e (inr w)) named.1)
