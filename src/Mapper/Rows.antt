-- ===== src/Mapper/Rows.antt =====
-- internal/mapper/jira_to_raw.go: the rows of an issue and of its changelog.
use jira_connector.Mapper.Hash.{FitsInt4, hash_id-FitsInt4}
use jira_connector.Base.{
  ℕ, ◌+◌, ◌≡◌, refl, String, Option, none, some, List, [], ◌∷◌, ◌++◌, arith, All, length,
  if◌then◌else◌, Bool-cases, inl, inr, Option-cases, suc, length-append,
}
use jira_connector.Base.Int.{ℤ, pos, eqb_ℤ}
use jira_connector.Base.Text.{str_eq}
use jira_connector.GoError.{Result, ok, err, Result-cases}
use jira_connector.Strconv.{parse_int}
use jira_connector.Jira
use jira_connector.Jira.{IssueFields, History, Changelog, ChangeItem}
use jira_connector.Raw
use jira_connector.Mapper.{
  Codec, int_ptr, parse_jira_time, map_issue_to_raw, status_items, history_changes,
  map_changelog_to_raw, raw_issue, assignee_id, changes_at,
}

module _ (codec : Codec) where
  open codec use {Time, parse, unmarshal_fields}

  map_issue_to_raw-ok :
      (issue : Jira.Issue) (project_id : ℤ) (fields : IssueFields) (row : Raw.Issue Time)
      → map_issue_to_raw codec issue project_id fields ≡ ok row
      → (d : IssueFields) × (unmarshal_fields issue.fields fields ≡ ok d)
        × (row ≡ raw_issue codec issue (parse_int issue.id).value project_id d)
  unfolding map_issue_to_raw
  map_issue_to_raw-ok issue project_id fields row h =
      elim (Result-cases (unmarshal_fields issue.fields fields)) [
        | inl (d, e) ↦ (d, e, ground arith)
        | inr (x, e) ↦ absurd (ground arith)
      ]

abbrev pub OptionFits : Option ℤ → Type 0
OptionFits none = Unit
OptionFits (some n) = FitsInt4 n

int_ptr-fits : (n : ℤ) → FitsInt4 n → OptionFits (int_ptr n)
unfolding int_ptr
int_ptr-fits n f = elim (Bool-cases (eqb_ℤ n (pos 0))) [ inl e ↦ rw e tt | inr e ↦ rw e f ]

assignee_id-fits : (name : String) → OptionFits (assignee_id name)
unfolding assignee_id
assignee_id-fits String.[] = tt
assignee_id-fits (String.◌∷◌ c s) = int_ptr-fits _ (hash_id-FitsInt4 (String.◌∷◌ c s))

module _ (codec : Codec) where
  open codec use {Time, parse, unmarshal_fields}

  -- Whenever an issue is mapped, its row belongs to the given project, has the id that its text
  -- denotes, and refers to its author and assignee by ids that an int4 column holds.
  pub map_issue_to_raw-refs :
      (issue : Jira.Issue) (project_id : ℤ) (fields : IssueFields) (row : Raw.Issue Time)
      → map_issue_to_raw codec issue project_id fields ≡ ok row
      → (row.id ≡ (parse_int issue.id).value)
        × (row.project_id ≡ project_id)
        × FitsInt4 row.author_id
        × OptionFits row.assignee_id
  map_issue_to_raw-refs issue project_id fields row h =
      let (d, e, shape) = map_issue_to_raw-ok codec issue project_id fields row h in
      rw shape (refl, refl, hash_id-FitsInt4 d.creator.name, assignee_id-fits d.assignee.name)

  -- A change of the status of this issue, by an author whose id an int4 column holds.
  abbrev pub IsChangeOf : ℤ → Raw.StatusChange Time → Type 0
  IsChangeOf issue_id ch = (ch.issue_id ≡ issue_id) × FitsInt4 ch.author_id

  All-append :
      (id : ℤ) (xs ys : List (Raw.StatusChange Time))
      → All (IsChangeOf id) xs
      → All (IsChangeOf id) ys
      → All (IsChangeOf id) (xs ++ ys)
  All-append id [] ys hx hy = hy
  All-append id (x ∷ xs) ys hx hy = (hx.0, All-append id xs ys hx.1 hy)

  status_items-refs :
      (id : ℤ) (author : Jira.Author) (time : Time) (items : List ChangeItem)
      → All (IsChangeOf id) (status_items codec id author time items)
  unfolding status_items
  status_items-refs id author time [] = tt
  status_items-refs id author time (item ∷ items) = elim (Bool-cases (str_eq item.field "status")) [
    | inl e ↦ rw e ((refl, hash_id-FitsInt4 author.name), status_items-refs id author time items)
    | inr e ↦ rw e (status_items-refs id author time items)
  ]

  changes_at-refs :
      (id : ℤ) (h : History) (r : Result Time) (rest : List (Raw.StatusChange Time))
      → All (IsChangeOf id) rest
      → All (IsChangeOf id) (changes_at codec id h r rest)
  changes_at-refs id h (err e) rest a = a
  changes_at-refs id h (ok t) rest a = All-append id _ _ (status_items-refs id h.author t h.items) a

  history_changes-refs :
      (id : ℤ) (hs : List History) → All (IsChangeOf id) (history_changes codec id hs)
  unfolding history_changes
  history_changes-refs id [] = tt
  history_changes-refs id (h ∷ hs) = changes_at-refs id h _ _ (history_changes-refs id hs)

  -- Every status change made of an issue's changelog belongs to that issue and has an author whose
  -- id an int4 column holds.
  pub map_changelog_to_raw-refs :
      (issue : Jira.Issue) (id : ℤ) → All (IsChangeOf id) (map_changelog_to_raw codec issue id)
  unfolding map_changelog_to_raw
  map_changelog_to_raw-refs issue id = elim (Option-cases issue.changelog) [
    | inl e ↦ rw e tt
    | inr (log, e) ↦ rw e (history_changes-refs id log.histories)
  ]

  -- How many status items the histories with a readable time hold.
  status_count : List ChangeItem → ℕ
  status_count [] = 0
  status_count (item ∷ items) =
      let rest = status_count items in if str_eq item.field "status" then suc rest else rest

  counted_at : History → Result Time → ℕ → ℕ
  counted_at h (err e) rest = rest
  counted_at h (ok t) rest = status_count h.items + rest

  pub readable_status_count : List History → ℕ
  unfolding counted_at
  readable_status_count [] = 0
  readable_status_count (h ∷ hs) =
      counted_at h (parse_jira_time codec h.created) (readable_status_count hs)

  status_items-length :
      (id : ℤ) (author : Jira.Author) (time : Time) (items : List ChangeItem)
      → length (status_items codec id author time items) ≡ status_count items
  unfolding status_items status_count
  status_items-length id author time [] = refl
  status_items-length id author time (item ∷ items) =
      ground (arith, status_items-length id author time items)

  changes_at-length :
      (id : ℤ) (h : History) (r : Result Time) (rest : List (Raw.StatusChange Time)) (n : ℕ)
      → length rest ≡ n
      → length (changes_at codec id h r rest) ≡ counted_at h r n
  unfolding counted_at
  changes_at-length id h (err e) rest n p = p
  changes_at-length id h (ok t) rest n p = omega (
    arith,
    length-append (status_items codec id h.author t h.items) rest,
    status_items-length id h.author t h.items,
    p,
  )

  -- The changelog of an issue yields exactly one status change for each item of the field "status"
  -- in the histories whose time can be parsed.
  pub history_changes-length :
      (id : ℤ) (hs : List History) → length (history_changes codec id hs) ≡ readable_status_count hs
  unfolding history_changes readable_status_count
  history_changes-length id [] = refl
  history_changes-length id (h ∷ hs) =
      changes_at-length id h (parse_jira_time codec h.created) _ _ (history_changes-length id hs)
