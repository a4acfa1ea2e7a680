-- ===== src/Migrations/Ddl.antt =====
-- What a migration is made of: the table definitions and the operations of `op`, and what SQL says
-- of them. A database is the list of its tables, the newest first, each with its rows. An operation
-- that the database refuses has no result. A reference to a missing table is refused, and so is the
-- removal of a table that another one refers to.
use ticket_triage.Base.{
  ℕ, Bool, true, false, not, ◌&&◌, ◌||◌, ◌==◌, eqb, Option, none, some, List, [], ◌∷◌, ◌++◌, exists,
  if◌then◌else◌,
}
use ticket_triage.Text.{Text, text_eq}

-- A value of a row. A cost, a count and a time are numbers.
pub data Value : Type 0 where
  null : Value
  text : Text → Value
  number : ℕ → Value

abbrev pub Row : Type 0
Row = List (Text × Value)

-- `sa.String(length=n)`, `sa.Text()`, `sa.Integer()`, `sa.Numeric(...)`, `sa.DateTime(...)`
pub data Kind : Type 0 where
  string : ℕ → Kind
  long_text : Kind
  integer : Kind
  numeric : ℕ → ℕ → Kind
  date_time : Kind

pub record Column : Type 0 where
  pub name : Text
  pub kind : Kind
  pub nullable : Bool

-- The expressions of the CHECK constraints.
pub data Check : Type 0 where
  is_in : Text → List Text → Check
  is_null : Text → Check
  is_not_null : Text → Check
  either : Check → Check → Check

pub data Constraint : Type 0 where
  primary_key : Text → Constraint
  foreign_key : Text → Text → Text → Text → Constraint
  unique : Text → Text → Constraint
  check : Text → Check → Constraint

pub record TableDef : Type 0 where
  pub name : Text
  pub columns : List Column
  pub constraints : List Constraint

pub record Stored : Type 0 where
  pub definition : TableDef
  pub indexes : List (Text × Text)
  pub rows : List Row

abbrev pub Store : Type 0
Store = List Stored

abbrev pub is_named : Text → Stored → Bool
is_named n t = t.definition.name == n

-- A column that a row does not give is NULL.
unfoldable pub value_of : Text → Row → Value
value_of c [] = null
value_of c ((k, v) ∷ row) = if k == c then v else value_of c row

unfoldable pub same_value : Value → Value → Bool
same_value (text s) (text t) = s == t
same_value (number m) (number n) = eqb m n
same_value _ _ = false

abbrev pub is_given : Value → Bool
is_given null = false
is_given (text s) = true
is_given (number n) = true

unfoldable pub is_one_of : Text → List Text → Bool
is_one_of s [] = false
is_one_of s (w ∷ words) = s == w || is_one_of s words

-- Whether a CHECK is false: SQL refuses a row only then, and an `IN` of NULL is unknown.
unfoldable pub is_false : Check → Row → Bool
unfolding value_of is_one_of
is_false (is_in c words) row = elim (value_of c row) [
  | null ↦ false
  | text s ↦ not (is_one_of s words)
  | number n ↦ true
]
is_false (is_null c) row = is_given (value_of c row)
is_false (is_not_null c) row = not (is_given (value_of c row))
is_false (either p q) row = is_false p row && is_false q row

-- Some row has this value in the column; NULL is no value.
unfoldable pub has_value : Text → Value → List Row → Bool
unfolding value_of same_value
has_value c v rows = exists (λ row. same_value (value_of c row) v) rows

unfoldable pub rows_of : Text → Store → List Row
rows_of n [] = []
rows_of n (t ∷ ts) = if is_named n t then t.rows else rows_of n ts

unfoldable pub violates : Store → List Row → Row → Constraint → Bool
unfolding value_of has_value is_false rows_of
violates db rows row (primary_key c) = has_value c (value_of c row) rows
violates db rows row (foreign_key n c table target) =
    is_given (value_of c row) && not (has_value target (value_of c row) (rows_of table db))
violates db rows row (unique n c) = has_value c (value_of c row) rows
violates db rows row (check n p) = is_false p row

unfoldable pub is_complete : List Column → Row → Bool
unfolding value_of
is_complete [] row = true
is_complete (c ∷ cs) row = (c.nullable || is_given (value_of c.name row)) && is_complete cs row

-- Change the table of this name.
unfoldable pub alter : Text → (Stored → Option Stored) → Store → Option Store
alter n f [] = none
alter n f (t ∷ ts) =
    let rest = alter n f ts in
    if is_named n t
    then elim (f t) [ none ↦ none | some t' ↦ some (t' ∷ ts) ]
    else elim rest [ none ↦ none | some ts' ↦ some (t ∷ ts') ]

-- A missing value, or a constraint that the row violates.
unfoldable pub refuses : Store → Stored → Row → Bool
unfolding violates is_complete
refuses db t row =
    not (is_complete t.definition.columns row)
    || exists (violates db t.rows row) t.definition.constraints

-- `INSERT`
abbrev pub add_row : Store → Row → Stored → Option Stored
add_row db row t = if refuses db t row then none else some (record t { rows = t.rows ++ row ∷ [] })

unfoldable pub insert : Text → Row → Store → Option Store
unfolding alter
insert n row db = alter n (add_row db row) db

-- The operations of the migrations. `recreate` is the batch of revision 0003: the table is copied
-- into one whose named CHECK is another.
pub data Op : Type 0 where
  create_table : TableDef → Op
  drop_table : Text → Op
  create_index : Text → Text → Text → Op
  drop_index : Text → Text → Op
  recreate : Text → Text → Check → Op

abbrev pub refers_to : Text → Constraint → Bool
refers_to n (foreign_key _ _ table _) = table == n
refers_to n _ = false

abbrev pub table_refers : Text → Stored → Bool
table_refers n t = exists (refers_to n) t.definition.constraints

-- A constraint's target is there: another table of the database, or its own.
abbrev pub is_grounded : Text → Store → Constraint → Bool
is_grounded own db (foreign_key _ _ table _) = table == own || exists (is_named table) db
is_grounded own db _ = true

unfoldable pub all_grounded : Text → Store → List Constraint → Bool
all_grounded own db [] = true
all_grounded own db (c ∷ cs) = is_grounded own db c && all_grounded own db cs

unfoldable pub remove_table : Text → Store → Option Store
remove_table n [] = none
remove_table n (t ∷ ts) =
    let rest = remove_table n ts in
    if is_named n t then some ts else elim rest [ none ↦ none | some ts' ↦ some (t ∷ ts') ]

abbrev pub has_column : Text → List Column → Bool
has_column c columns = exists (λ (k : Column). k.name == c) columns

abbrev pub add_index : Text → Text → Stored → Option Stored
add_index i c t =
    if has_column c t.definition.columns && not (exists (λ x. x.0 == i) t.indexes)
    then some (record t { indexes = (i, c) ∷ t.indexes })
    else none

unfoldable pub remove_named : Text → List (Text × Text) → Option (List (Text × Text))
remove_named i [] = none
remove_named i ((j, c) ∷ rest) =
    let later = remove_named i rest in
    if j == i then some rest else elim later [ none ↦ none | some r ↦ some ((j, c) ∷ r) ]

abbrev pub remove_index : Text → Stored → Option Stored
remove_index i t = elim (remove_named i t.indexes) [
  | none ↦ none
  | some rest ↦ some (record t { indexes = rest })
]

-- The other constraints keep their places, which have no meaning.
unfoldable pub swap_check : Text → Check → List Constraint → Option (List Constraint)
swap_check n p [] = none
swap_check n p (check m q ∷ cs) =
    let rest = swap_check n p cs in
    if m == n
    then some (check m p ∷ cs)
    else elim rest [ none ↦ none | some r ↦ some (check m q ∷ r) ]
swap_check n p (primary_key c ∷ cs) = elim (swap_check n p cs) [
  | none ↦ none
  | some r ↦ some (primary_key c ∷ r)
]
swap_check n p (foreign_key m c table target ∷ cs) = elim (swap_check n p cs) [
  | none ↦ none
  | some r ↦ some (foreign_key m c table target ∷ r)
]
swap_check n p (unique m c ∷ cs) = elim (swap_check n p cs) [
  | none ↦ none
  | some r ↦ some (unique m c ∷ r)
]

-- The copy is an INSERT of every row, which the new CHECK may refuse.
abbrev pub copy_with : Text → Check → Stored → Option Stored
copy_with n p t =
    if exists (is_false p) t.rows then none else elim (swap_check n p t.definition.constraints) [
      | none ↦ none
      | some cs ↦ some (record t { definition = record t.definition { constraints = cs } })
    ]

unfoldable pub apply : Op → Store → Option Store
unfolding alter all_grounded remove_table remove_named swap_check is_false
apply (create_table d) db =
    if exists (is_named d.name) db || not (all_grounded d.name db d.constraints)
    then none
    else some (record { definition = d; indexes = []; rows = [] } ∷ db)
apply (drop_table n) db =
    if exists (λ t. not (is_named n t) && table_refers n t) db then none else remove_table n db
apply (create_index i n c) db = alter n (add_index i c) db
apply (drop_index i n) db = alter n (remove_index i) db
apply (recreate n name p) db = alter n (copy_with name p) db

-- A migration: one operation after another.
unfoldable pub run : List Op → Store → Option Store
unfolding apply
run [] db = some db
run (op ∷ ops) db = elim (apply op db) [ none ↦ none | some db' ↦ run ops db' ]
