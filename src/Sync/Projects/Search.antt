-- ===== src/Sync/Projects/Search.antt =====
-- internal/service/sync/sync.go, `findProject`: which project is found.
use jira_connector.Base.{
  ◌≡◌, String, none, some, List, [], ◌∷◌, ◌++◌, All, Bool-cases, inl, inr, arith, refl,
}
use jira_connector.Base.Text.{eq_iff, str_eq}
use jira_connector.Jira.{Project}
use jira_connector.Sync.Projects.{find_project}

-- The project has another key.
abbrev pub IsOther : String → Project → Type 0
IsOther key p = ¬ (p.key ≡ key)

pub find_project-absent :
    (key : String) (ps : List Project) → All (IsOther key) ps → find_project key ps ≡ none
unfolding find_project
find_project-absent key [] h = refl
find_project-absent key (p ∷ ps) (other, others) =
    ground (arith, find_project-absent key ps others, eq_iff p.key key)

pub find_project-first :
    (key : String) (before : List Project) (proj : Project) (after : List Project)
    → All (IsOther key) before
    → proj.key ≡ key
    → find_project key (before ++ proj ∷ after) ≡ some proj
unfolding find_project
find_project-first key [] proj after h same = ground (arith, eq_iff proj.key key)
find_project-first key (p ∷ before) proj after (other, others) same =
    ground (arith, find_project-first key before proj after others same, eq_iff p.key key)

-- No project is found only where each one has another key.
pub find_project-none :
    (key : String) (ps : List Project) → find_project key ps ≡ none → All (IsOther key) ps
unfolding find_project
find_project-none key [] h = tt
find_project-none key (p ∷ ps) h = elim (Bool-cases (str_eq p.key key)) [
  | inl e ↦ cc (rw e at h)
  | inr e ↦
      (λ same. ground (arith, eq_iff p.key key, same, e), find_project-none key ps (rw e at h))
]
