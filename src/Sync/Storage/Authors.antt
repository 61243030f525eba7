-- ===== src/Sync/Storage/Authors.antt =====
-- internal/service/sync/sync.go, `insertAuthors` of a page's issue over the tables.
use jira_connector.Base.{
  ◌≡◌, refl, subst, String, true, Option, none, List, [], ◌∷◌, inl, inr, lt→ltb, ◌^◌,
}
use jira_connector.Base.Int.{ℤ}
use jira_connector.Jira.{Author}
use jira_connector.Mapper.{Codec, hash_id, map_author_to_raw}
use jira_connector.Mapper.Hash.{FitsInt4, fits, hash_id-FitsInt4}
use jira_connector.Repo.{tx, insert_author_row}
use jira_connector.Repo.Postgres.{
  Tables, exists, if_absent, fits_int4, exec, run_statement, postgres,
}
use jira_connector.Repo.Postgres.Laws.{exists-if_absent, exists-if_absent_self}
use jira_connector.Sync.Authors.Tracking.{Has}
use jira_connector.Sync.Commit.{insert_authors}
use jira_connector.Sync.Storage.{live, put_authors}

pub fits-int4 : (z : ℤ) → FitsInt4 z → fits_int4 z ≡ true
fits-int4 z (fits n h) = lt→ltb n (2 ^ 31) h

pub hash-fits_int4 : (name : String) → fits_int4 (hash_id name) ≡ true
hash-fits_int4 name = fits-int4 (hash_id name) (hash_id-FitsInt4 name)

exists-put_authors :
    (i : ℤ) (as' : List Author) (f : ℤ → Option _)
    → exists (f i) ≡ true
    → exists (put_authors as' f i) ≡ true
exists-put_authors i [] f h = h
exists-put_authors i (a ∷ as') f h =
    exists-put_authors i as' _ (exists-if_absent (hash_id a.name) i (map_author_to_raw a) f h)

-- Whoever is in the list has a row afterwards.
pub put_authors-exists :
    (name : String) (as' : List Author) (f : ℤ → Option _)
    → Has name as'
    → exists (put_authors as' f (hash_id name)) ≡ true
put_authors-exists name [] f h = absurd h
put_authors-exists name (a ∷ as') f (inl e) = exists-put_authors (hash_id name) as' _ (
    subst (λ n. exists (if_absent (hash_id a.name) (map_author_to_raw a) f (hash_id n)) ≡ true) e
      (exists-if_absent_self (hash_id a.name) (map_author_to_raw a) f))
put_authors-exists name (a ∷ as') f (inr h) = put_authors-exists name as' _ h

module _ (codec : Codec) where
  open codec use {Time}

  insert_author-live :
      (a : Author) (c t : Tables Time)
      → insert_author_row postgres tx (map_author_to_raw a) (live c t) ≡ (
        none,
        live c (record t { author = if_absent (hash_id a.name) (map_author_to_raw a) t.author }),
      )
  unfolding insert_author_row exec run_statement map_author_to_raw
  insert_author-live a c t = rw (hash-fits_int4 a.name) refl

  -- In a live transaction the authors of an issue are inserted without an error.
  pub insert_authors-live :
      (as' : List Author) (c t : Tables Time)
      → insert_authors codec postgres tx as' (live c t)
        ≡ (none, live c (record t { author = put_authors as' t.author }))
  unfolding insert_authors
  insert_authors-live [] c t = refl
  insert_authors-live (a ∷ as') c t = rw (insert_author-live a c t) (
      insert_authors-live as' c
        (record t { author = if_absent (hash_id a.name) (map_author_to_raw a) t.author }))
