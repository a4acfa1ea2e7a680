-- ===== src/Engine.antt =====
-- app/db.py: which engine is built for a DATABASE_URL, and which directory is made for it. The
-- function `posixpath.dirname` is Python's.
use ticket_triage.Base.{
  ℕ, ◌≡◌, refl, ap, ◌∙◌, Bool, true, false, ◌==◌, eqb, Option, none, some, [], ◌∷◌, ◌++◌, drop,
  if◌then◌else◌, Bool-cases, inl, inr, ◌↔◌, All,
}
use ticket_triage.Text.{Text, codes, text_eq, starts_with, same}

abbrev slash : ℕ
slash = b'/'

-- The text up to its last slash, with it.
unfoldable pub head_of : Text → Text
head_of [] = []
head_of (c ∷ s) = elim (head_of s) [ [] ↦ if eqb c slash then c ∷ [] else [] | d ∷ h ↦ c ∷ d ∷ h ]

-- `str.rstrip("/")`
unfoldable pub strip_slashes : Text → Text
strip_slashes [] = []
strip_slashes (c ∷ s) = elim (strip_slashes s) [
  | [] ↦ if eqb c slash then [] else c ∷ []
  | d ∷ h ↦ c ∷ d ∷ h
]

-- `os.path.dirname`: a head of slashes alone is kept.
unfoldable pub dirname : Text → Text
unfolding head_of strip_slashes
dirname path = elim (strip_slashes (head_of path)) [ [] ↦ head_of path | c ∷ s ↦ c ∷ s ]

-- `_ensure_sqlite_dir`: the directory that is made, if one is.
unfoldable pub ensure_sqlite_dir : Text → Option Text
unfolding dirname
ensure_sqlite_dir url =
    if starts_with url (codes "sqlite:///")
    then (let path = drop 10 url in
        if path == codes ":memory:"
        then none
        else elim (dirname path) [ [] ↦ none | c ∷ s ↦ some (c ∷ s) ])
    else none

pub record Engine : Type 0 where
  pub url : Text
  pub check_same_thread : Option Bool
  pub foreign_keys : Bool
  pub made_dir : Option Text

-- `make_engine`, with the pragma that its listener sets on every connection.
unfoldable pub make_engine : Text → Engine
unfolding ensure_sqlite_dir
make_engine url =
    if starts_with url (codes "sqlite")
    then record {
      url = url;
      check_same_thread = some false;
      foreign_keys = true;
      made_dir = ensure_sqlite_dir url;
    }
    else record { url = url; check_same_thread = none; foreign_keys = false; made_dir = none }

-- The default of app/config.py.
default_engine :
    (make_engine (codes "sqlite:///./data/tickets.db")).made_dir ≡ some (codes "./data")
unfolding make_engine starts_with same
default_engine = refl

-- A path in a directory: its last part has no slash.
abbrev NoSlash : Text → Type 0
NoSlash name = All (λ c. eqb c slash ≡ false) name

head_of-name : (name : Text) → NoSlash name → head_of name ≡ []
unfolding head_of
head_of-name [] h = refl
head_of-name (c ∷ s) h = rw (head_of-name s h.1, head_of, h.0) refl

head_of-join : (dir name : Text) → NoSlash name → head_of (dir ++ slash ∷ name) ≡ dir ++ slash ∷ []
unfolding head_of
head_of-join [] name h = rw (head_of-name name h, head_of) refl
head_of-join (c ∷ s) name h =
    ap (λ t. elim t as (λ x. Text) [ [] ↦ if eqb c slash then c ∷ [] else [] | d ∷ k ↦ c ∷ d ∷ k ])
      (head_of-join s name h)
    ∙ extend c s
  where
    extend :
        (c : ℕ) (s : Text)
        → elim (s ++ slash ∷ []) as (λ x. Text) [
          | [] ↦ if eqb c slash then c ∷ [] else []
          | d ∷ k ↦ c ∷ d ∷ k
        ]
          ≡ c ∷ (s ++ slash ∷ [])
    extend c [] = refl
    extend c (d ∷ s) = refl

dirname-join :
    (dir name : Text) (c : ℕ) (s : Text)
    → NoSlash name
    → strip_slashes (dir ++ slash ∷ []) ≡ c ∷ s
    → dirname (dir ++ slash ∷ name) ≡ c ∷ s
unfolding dirname
dirname-join dir name c s h e =
    ap (λ t. elim (strip_slashes t) as (λ x. Text) [ [] ↦ t | d ∷ k ↦ d ∷ k ])
      (head_of-join dir name h)
    ∙ ap (λ t. elim t as (λ x. Text) [ [] ↦ dir ++ slash ∷ [] | d ∷ k ↦ d ∷ k ]) e

-- For a database file in a directory, that directory is made: the path before its last slash, without
-- slashes at the end.
ensure_sqlite_dir-join :
    (dir name : Text) (c : ℕ) (s : Text)
    → NoSlash name
    → strip_slashes (dir ++ slash ∷ []) ≡ c ∷ s
    → ((dir ++ slash ∷ name) == codes ":memory:") ≡ false
    → ensure_sqlite_dir (codes "sqlite:///" ++ (dir ++ slash ∷ name)) ≡ some (c ∷ s)
unfolding ensure_sqlite_dir starts_with same
ensure_sqlite_dir-join dir name c s h e m =
    rw (m, dirname-join dir name c s h e, ensure_sqlite_dir) refl

-- An engine enforces foreign keys, and shares its connections between threads, exactly for SQLite.
make_engine-foreign_keys :
    (url : Text)
    → ((make_engine url).foreign_keys ≡ true) ↔ (starts_with url (codes "sqlite") ≡ true)
unfolding make_engine
make_engine-foreign_keys url = elim (Bool-cases (starts_with url (codes "sqlite"))) [
  | inl e ↦ rw (e, make_engine) (λ h. refl, λ h. refl)
  | inr e ↦ rw (e, make_engine) (λ h. h, λ h. h)
]
