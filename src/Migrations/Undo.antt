-- ===== src/Migrations/Undo.antt =====
-- Operations that take back others: the removal of what was created last.
use mathlib.Core.Path.{subst, sym}
use ticket_triage.Base.{
  ◌≡◌, refl, ap, ◌∙◌, ◌⊎◌, Bool, true, false, not, ◌&&◌, ◌||◌, ◌==◌, Option, some, List, [], ◌∷◌,
  ◌++◌, exists, arith, Bool-cases, inl, inr, Option-cases, ==_refl, All,
}
use ticket_triage.Text.{Text, text_eq, same_iff}
use ticket_triage.Migrations.Ddl.{
  Op, Store, Stored, TableDef, Constraint, primary_key, foreign_key, unique, check, create_table,
  drop_table, create_index, drop_index, apply, run, alter, is_named, refers_to, table_refers,
  all_grounded, remove_named, add_index, remove_index,
}

-- No table refers to a missing one.
abbrev pub Closed : Store → Type 0
Closed db = (n : Text) → exists (is_named n) db ≡ false → exists (table_refers n) db ≡ false

all_grounded-refers :
    (own n : Text) (db : Store) (cs : List Constraint)
    → all_grounded own db cs ≡ true
    → (own == n) ≡ false
    → exists (is_named n) db ≡ false
    → exists (refers_to n) cs ≡ false
unfolding all_grounded
all_grounded-refers own n db [] h ne gone = refl
all_grounded-refers own n db (primary_key c ∷ cs) h ne gone =
    all_grounded-refers own n db cs h ne gone
all_grounded-refers own n db (unique m c ∷ cs) h ne gone = all_grounded-refers own n db cs h ne gone
all_grounded-refers own n db (check m p ∷ cs) h ne gone = all_grounded-refers own n db cs h ne gone
all_grounded-refers own n db (foreign_key m c t target ∷ cs) h ne gone =
    elim (Bool-cases (t == n)) [
      | inl hit ↦
          let e : t ≡ n = (same_iff t n).0 hit in
          let h' : all_grounded own db (foreign_key m c n target ∷ cs) ≡ true =
            subst (λ x. all_grounded own db (foreign_key m c x target ∷ cs) ≡ true) e h in
          absurd (ground (arith, h', gone, ne, same_iff own n, same_iff n own))
      | inr miss ↦ rw miss (all_grounded-refers own n db cs (ground arith) ne gone)
    ]

exists-weaken :
    (p q : Stored → Bool) (db : Store) → exists q db ≡ false → exists (λ t. p t && q t) db ≡ false
exists-weaken p q [] h = refl
exists-weaken p q (t ∷ ts) h = ground (arith, exists-weaken p q ts)

-- The second operation takes back the first, and references stay closed.
abbrev pub Undoes : Op × Op → Type 0
Undoes (op, back) =
    (db db' : Store) → Closed db → apply op db ≡ some db' → (apply back db' ≡ some db) × Closed db'

abbrev fresh : TableDef → Stored
fresh d = record { definition = d; indexes = []; rows = [] }

create_table-creates :
    (d : TableDef) (db db' : Store)
    → apply (create_table d) db ≡ some db'
    → (exists (is_named d.name) db ≡ false)
      × (all_grounded d.name db d.constraints ≡ true)
      × (fresh d ∷ db ≡ db')
unfolding apply
create_table-creates d db db' h = ground arith

create_table-Closed :
    (d : TableDef) (db : Store)
    → all_grounded d.name db d.constraints ≡ true
    → Closed db
    → Closed (fresh d ∷ db)
create_table-Closed d db g closed n gone =
    ground (arith, closed n, all_grounded-refers d.name n db d.constraints g)

drop_table-drops :
    (d : TableDef) (db : Store)
    → exists (is_named d.name) db ≡ false
    → Closed db
    → apply (drop_table d.name) (fresh d ∷ db) ≡ some db
unfolding apply
drop_table-drops d db gone closed =
    let none_refers =
      exists-weaken (λ t. not (is_named d.name t)) (table_refers d.name) db (closed d.name gone) in
    rw (==_refl d.name, none_refers) refl

pub create_table-Undoes : (d : TableDef) → Undoes (create_table d, drop_table d.name)
create_table-Undoes d db db' closed h =
    let (gone, g, e) = create_table-creates d db db' h in
    subst (λ s. (apply (drop_table d.name) s ≡ some db) × Closed s) e
      (drop_table-drops d db gone closed, create_table-Closed d db g closed)

-- A change of one table that is taken back, and leaves definitions as they are.
abbrev Reversed : (Stored → Option Stored) → (Stored → Option Stored) → Type 0
Reversed f g = (t t' : Stored) → f t ≡ some t' → (g t' ≡ some t) × (t'.definition ≡ t.definition)

-- Where a change was made: at the first table, or further on.
alter-cases :
    (n : Text) (f : Stored → Option Stored) (t : Stored) (ts db' : Store)
    → alter n f (t ∷ ts) ≡ some db'
    → ((t' : Stored) × (is_named n t ≡ true) × (f t ≡ some t') × (t' ∷ ts ≡ db'))
      ⊎ ((ts' : Store) × (is_named n t ≡ false) × (alter n f ts ≡ some ts') × (t ∷ ts' ≡ db'))
unfolding alter
alter-cases n f t ts db' h = elim (Bool-cases (is_named n t)) [
  | inl hit ↦ elim (Option-cases (f t)) [
    | inl e ↦ absurd (ground arith)
    | inr (t', e) ↦ inl (t', hit, e, ground arith)
  ]
  | inr miss ↦ elim (Option-cases (alter n f ts)) [
    | inl e ↦ absurd (ground arith)
    | inr (ts', e) ↦ inr (ts', miss, e, ground arith)
  ]
]

alter-Reversed :
    (n : Text) (f g : Stored → Option Stored) (db db' : Store)
    → Reversed f g
    → alter n f db ≡ some db'
    → alter n g db' ≡ some db
unfolding alter
alter-Reversed n f g [] db' r h = cc
alter-Reversed n f g (t ∷ ts) db' r h = elim (alter-cases n f t ts db' h) [
  | inl (t', hit, e, same_db) ↦
      let (back, same_def) = r t t' e in
      let hit' : is_named n t' ≡ true = ap (λ (d : TableDef). d.name == n) same_def ∙ hit in
      subst (λ s. alter n g s ≡ some (t ∷ ts)) same_db (rw (hit', back) refl)
  | inr (ts', miss, e, same_db) ↦
      let back = alter-Reversed n f g ts ts' r e in
      subst (λ s. alter n g s ≡ some (t ∷ ts)) same_db (rw (miss, back) refl)
]

alter-exists :
    (n : Text) (f g : Stored → Option Stored) (q : TableDef → Bool) (db db' : Store)
    → Reversed f g
    → alter n f db ≡ some db'
    → exists (λ t. q t.definition) db' ≡ exists (λ t. q t.definition) db
unfolding alter
alter-exists n f g q [] db' r h = cc
alter-exists n f g q (t ∷ ts) db' r h = elim (alter-cases n f t ts db' h) [
  | inl (t', hit, e, same_db) ↦
      let (back, same_def) = r t t' e in
      subst
        (λ s. exists (λ u. q u.definition) s ≡ (q t.definition || exists (λ u. q u.definition) ts))
        same_db (ap (λ d. q d || exists (λ u. q u.definition) ts) same_def)
  | inr (ts', miss, e, same_db) ↦
      subst
        (λ s. exists (λ u. q u.definition) s ≡ (q t.definition || exists (λ u. q u.definition) ts))
        same_db (ap (λ b. q t.definition || b) (alter-exists n f g q ts ts' r e))
]

alter-Closed :
    (n : Text) (f g : Stored → Option Stored) (db db' : Store)
    → Reversed f g
    → alter n f db ≡ some db'
    → Closed db
    → Closed db'
alter-Closed n f g db db' r h closed m gone =
    alter-exists n f g (λ d. exists (refers_to m) d.constraints) db db' r h
    ∙ closed m (sym (alter-exists n f g (λ d. d.name == m) db db' r h) ∙ gone)

add_index-Reversed : (i c : Text) → Reversed (add_index i c) (remove_index i)
unfolding remove_named
add_index-Reversed i c t t' h = (ground (arith, ==_refl i), ground arith)

pub create_index-Undoes : (i n c : Text) → Undoes (create_index i n c, drop_index i n)
unfolding apply
create_index-Undoes i n c db db' closed h = (
  alter-Reversed n (add_index i c) (remove_index i) db db' (add_index-Reversed i c) h,
  alter-Closed n (add_index i c) (remove_index i) db db' (add_index-Reversed i c) h closed,
)

-- A script of operations, each with the one that takes it back.
abbrev pub forwards : List (Op × Op) → List Op
forwards [] = []
forwards ((op, back) ∷ script) = op ∷ forwards script

abbrev pub backwards : List (Op × Op) → List Op
backwards [] = []
backwards ((op, back) ∷ script) = backwards script ++ back ∷ []

run-step :
    (op : Op) (ops : List Op) (a b : Store)
    → run (op ∷ ops) a ≡ some b
    → (mid : Store) × (apply op a ≡ some mid) × (run ops mid ≡ some b)
unfolding run
run-step op ops a b h = elim (Option-cases (apply op a)) [
  | inl e ↦ absurd (ground arith)
  | inr (mid, e) ↦ (mid, e, ground arith)
]

run-append_one :
    (ops : List Op) (op : Op) (a b c : Store)
    → run ops a ≡ some b
    → apply op b ≡ some c
    → run (ops ++ op ∷ []) a ≡ some c
unfolding run
run-append_one [] op a b c h k = ground arith
run-append_one (o ∷ ops) op a b c h k =
    let (mid, e, rest) = run-step o ops a b h in rw (e, run) (run-append_one ops op mid b c rest k)

-- A script can be taken back as a whole, the last operation first.
pub run-undo :
    (script : List (Op × Op)) (db db' : Store)
    → All Undoes script
    → Closed db
    → run (forwards script) db ≡ some db'
    → run (backwards script) db' ≡ some db
unfolding run
run-undo [] db db' all closed h = sym h
run-undo ((op, back) ∷ script) db db' (u, all) closed h =
    let (mid, e, rest) = run-step op (forwards script) db db' h in
    let (undone, closed') = u db mid closed e in
    run-append_one (backwards script) back db' mid db (run-undo script mid db' all closed' rest)
      undone
