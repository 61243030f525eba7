-- ===== src/Sync/Authors/Tracking.antt =====
-- internal/service/sync/sync.go: the closure `add` of `collectAuthors` and its set of names.
use jira_connector.Base.{
  ◌≡◌, refl, String, Bool, true, false, Option, none, some, List, [], ◌∷◌, ◌++◌, ◌⊎◌, inl, inr,
  arith, Bool-cases, sym,
}
use jira_connector.Base.Text.{eq_iff, is_empty}
use jira_connector.Base.Map.{insert, Map}
use jira_connector.Jira.{Author, History, Changelog}
use jira_connector.Sync.Authors.{Seen, is_seen, add, add_histories, add_changelog, nobody}

-- Somebody of that name is in the list.
abbrev pub Has : String → List Author → Type 0
Has name [] = ⊥
Has name (a ∷ as') = (a.name ≡ name) ⊎ Has name as'

-- No name occurs twice, and none is empty.
abbrev pub AllDistinct : List Author → Type 0
AllDistinct [] = Unit
AllDistinct (a ∷ as') = ((Has a.name as' → ⊥) × (is_empty a.name ≡ false)) × AllDistinct as'

Has-append_left : (n : String) (xs ys : List Author) → Has n xs → Has n (xs ++ ys)
Has-append_left n [] ys h = absurd h
Has-append_left n (x ∷ xs) ys (inl e) = inl e
Has-append_left n (x ∷ xs) ys (inr h) = inr (Has-append_left n xs ys h)

Has-append_right : (n : String) (xs ys : List Author) → Has n ys → Has n (xs ++ ys)
Has-append_right n [] ys h = h
Has-append_right n (x ∷ xs) ys h = inr (Has-append_right n xs ys h)

Has-append_inv : (n : String) (xs ys : List Author) → Has n (xs ++ ys) → Has n xs ⊎ Has n ys
Has-append_inv n [] ys h = inr h
Has-append_inv n (x ∷ xs) ys (inl e) = inl (inl e)
Has-append_inv n (x ∷ xs) ys (inr h) = elim (Has-append_inv n xs ys h) [
  | inl p ↦ inl (inr p)
  | inr p ↦ inr p
]

AllDistinct-snoc :
    (xs : List Author) (a : Author)
    → (Has a.name xs → ⊥)
    → is_empty a.name ≡ false
    → AllDistinct xs
    → AllDistinct (xs ++ a ∷ [])
AllDistinct-snoc [] a new named d = ((λ h. h, named), tt)
AllDistinct-snoc (x ∷ xs) a new named d = (
  (
    λ h. elim (Has-append_inv x.name xs (a ∷ []) h) [
      | inl p ↦ d.0.0 p
      | inr (inl e) ↦ new (inl (sym e))
      | inr (inr e) ↦ e
    ],
    d.0.1,
  ),
  AllDistinct-snoc xs a (λ h. new (inr h)) named d.1,
)

-- `seen` marks exactly the names of the list, which are distinct.
pub record IsTracking (st : Seen) : Type 0 where
  pub sound : (n : String) → is_seen (st.seen n) ≡ true → Has n st.authors
  pub complete : (n : String) → Has n st.authors → is_seen (st.seen n) ≡ true
  pub distinct : AllDistinct st.authors

seen-insert :
    (n m : String) (f : Map Bool)
    → is_seen (insert n true f m) ≡ true
    → (n ≡ m) ⊎ (is_seen (f m) ≡ true)
seen-insert n m f h = ground (arith, eq_iff n m)

seen-insert_self : (n m : String) (f : Map Bool) → n ≡ m → is_seen (insert n true f m) ≡ true
seen-insert_self n m f e = ground (arith, eq_iff n m)

seen-insert_old :
    (n m : String) (f : Map Bool) → is_seen (f m) ≡ true → is_seen (insert n true f m) ≡ true
seen-insert_old n m f h = ground (arith, eq_iff n m)

-- The state that `add` leaves where the name is new.
abbrev added : Seen → String → String → Seen
added st n d = record {
  seen = insert n true st.seen;
  authors = st.authors ++ record { name = n; display_name = d } ∷ [];
}

added-IsTracking :
    (st : Seen) (n d : String)
    → is_empty n ≡ false
    → is_seen (st.seen n) ≡ false
    → IsTracking st
    → IsTracking (added st n d)
added-IsTracking st n d e f t = record {
  sound = λ m h. elim (seen-insert n m st.seen h) [
    | inl p ↦ Has-append_right m st.authors _ (inl p)
    | inr p ↦ Has-append_left m st.authors _ (t.sound m p)
  ];
  complete = λ m h. elim (Has-append_inv m st.authors _ h) [
    | inl p ↦ seen-insert_old n m st.seen (t.complete m p)
    | inr (inl p) ↦ seen-insert_self n m st.seen p
    | inr (inr p) ↦ absurd p
  ];
  distinct =
      AllDistinct-snoc st.authors (record { name = n; display_name = d }) (λ h. cc (t.complete n h))
        e t.distinct;
}

-- What an `add` gives: the tracking goes on, nobody is lost, and the name is there unless empty.
pub record IsAdded (st : Seen) (n : String) (st' : Seen) : Type 0 where
  pub tracking : IsTracking st'
  pub kept : (m : String) → Has m st.authors → Has m st'.authors
  pub present : is_empty n ≡ false → Has n st'.authors

pub add-IsAdded : (st : Seen) (n d : String) → IsTracking st → IsAdded st n (add st n d)
unfolding add
add-IsAdded st n d t = elim (Bool-cases (is_empty n)) [
  | inl e ↦ rw e (record { tracking = t; kept = λ m h. h; present = λ f. cc })
  | inr e ↦ rw e (elim (Bool-cases (is_seen (st.seen n))) [
    | inl f ↦ rw f (record { tracking = t; kept = λ m h. h; present = λ p. t.sound n f })
    | inr f ↦ rw f (record {
      tracking = added-IsTracking st n d e f t;
      kept = λ m h. Has-append_left m st.authors _ h;
      present = λ p. Has-append_right n st.authors _ (inl refl);
    })
  ])
]

-- Every author of a history is named, or has no name.
abbrev pub HasHistories : List History → List Author → Type 0
HasHistories [] authors = Unit
HasHistories (h ∷ hs) authors =
    (is_empty h.author.name ≡ false → Has h.author.name authors) × HasHistories hs authors

abbrev pub HasChangelog : Option Changelog → List Author → Type 0
HasChangelog none authors = Unit
HasChangelog (some log) authors = HasHistories log.histories authors

histories-added :
    (st : Seen) (hs : List History)
    → IsTracking st
    → IsTracking (add_histories st hs)
      × ((m : String) → Has m st.authors → Has m (add_histories st hs).authors)
      × HasHistories hs (add_histories st hs).authors
unfolding add_histories
histories-added st [] t = (t, λ m h. h, tt)
histories-added st (h ∷ hs) t =
    let a = add-IsAdded st h.author.name h.author.display_name t in
    let (t', kept, all) =
      histories-added (add st h.author.name h.author.display_name) hs a.tracking in
    (t', λ m p. kept m (a.kept m p), (λ p. kept _ (a.present p), all))

pub changelog-added :
    (st : Seen) (log : Option Changelog)
    → IsTracking st
    → IsTracking (add_changelog st log)
      × ((m : String) → Has m st.authors → Has m (add_changelog st log).authors)
      × HasChangelog log (add_changelog st log).authors
changelog-added st none t = (t, λ m h. h, tt)
changelog-added st (some log) t = histories-added st log.histories t

pub nobody-IsTracking : IsTracking nobody
nobody-IsTracking = record { sound = λ n h. cc; complete = λ n h. absurd h; distinct = tt }
