-- ===== src/Worker/Open.antt =====
-- Which tickets are still received, counted over a list of ids.
use mathlib.Core.Path.{subst}
use ticket_triage.Base.{
  ℕ, ◌+◌, ◌≤◌, ◌<◌, ◌≡◌, refl, ap, inl, inr, Bool, true, false, Bool-cases, ◌==◌, Option, none,
  some, List, [], ◌∷◌, map, exists, All, arith, if◌then◌else◌,
}
use ticket_triage.Text.{Text, text_eq}
use ticket_triage.Table
use ticket_triage.Labels.{status_eq}
use ticket_triage.Model.{Ticket, Db, ticket_key, ticket_of}
use ticket_triage.Counts.{count_if}
use ticket_triage.Worker.Queue.{is_received}

-- Whether the row under an id is a received ticket.
abbrev pub opens : Option Ticket → Bool
opens none = false
opens (some t) = is_received t

abbrev pub is_open : Db → Text → Bool
is_open db k = opens (ticket_of k db)

abbrev pub open_count : List Text → Db → ℕ
open_count ks db = count_if (is_open db) ks

-- The ids of all tickets are in the list.
abbrev pub Covers : List Text → Db → Type 0
Covers ks db = (k : Text) (t : Ticket) → ticket_of k db ≡ some t → exists (λ j. k == j) ks ≡ true

module _ (f g : Text → Bool) (k : Text) (same : (j : Text) → (k == j) ≡ false → g j ≡ f j)
    (was : f k ≡ true) (now : g k ≡ false) where
  abbrev weight : Bool → ℕ
  weight b = if b then 1 else 0

  at-changed : (j : Text) → (k == j) ≡ true → weight (g j) + 1 ≡ weight (f j)
  at-changed j e =
      subst (λ i. weight (g i) + 1 ≡ weight (f i)) ((text_eq.beq_iff k j).0 e)
        (rw (was, now) (omega arith))

  off-changed : (j : Text) → (k == j) ≡ false → weight (g j) ≡ weight (f j)
  off-changed j e = ap weight (same j e)

  count_if-le_changed : (ks : List Text) → count_if g ks ≤ count_if f ks
  count_if-le_changed [] = omega arith
  count_if-le_changed (j ∷ ks) =
      let rest = count_if-le_changed ks in
      elim (Bool-cases (k == j)) [
        | inl e ↦ let head = at-changed j e in omega (arith, head, rest)
        | inr e ↦ let head = off-changed j e in omega (arith, head, rest)
      ]

  pub count_if-lt_changed :
      (ks : List Text) → exists (λ j. k == j) ks ≡ true → count_if g ks < count_if f ks
  count_if-lt_changed [] h = cc h
  count_if-lt_changed (j ∷ ks) h = elim (Bool-cases (k == j)) [
    | inl e ↦
        let head = at-changed j e in let rest = count_if-le_changed ks in omega (arith, head, rest)
    | inr e ↦
        let head = off-changed j e in
        let rest = count_if-lt_changed ks (rw e at h) in omega (arith, head, rest)
  ]

pub count_if-pos :
    (f : Text → Bool) (k : Text) (ks : List Text)
    → f k ≡ true
    → exists (λ j. k == j) ks ≡ true
    → 0 < count_if f ks
count_if-pos f k [] h e = cc e
count_if-pos f k (j ∷ ks) h e = elim (Bool-cases (k == j)) [
  | inl s ↦
      subst (λ i. 0 < (if f i then 1 else 0) + count_if f ks) ((text_eq.beq_iff k j).0 s)
        (rw h (omega arith))
  | inr s ↦ let rest = count_if-pos f k ks h (rw s at e) in omega (arith, rest)
]

-- The ids of a table cover it, and count its received tickets.
pub ids-cover :
    (rows : List Ticket) (k : Text) (t : Ticket)
    → Table.lookup ticket_key k rows ≡ some t
    → exists (λ j. k == j) (map ticket_key rows) ≡ true
unfolding Table.lookup
ids-cover [] k t h = cc h
ids-cover (z ∷ zs) k t h =
    ground (arith, h, ids-cover zs k t, text_eq.beq_iff z.id k, text_eq.beq_iff k z.id)

pub open-ids :
    (db : Db) (rows : List Ticket)
    → All (λ (t : Ticket). ticket_of t.id db ≡ some t) rows
    → count_if (is_open db) (map ticket_key rows) ≡ count_if is_received rows
open-ids db [] h = refl
open-ids db (t ∷ rows) h =
    let rest = open-ids db rows h.1 in
    let head : is_open db t.id ≡ is_received t = ap opens h.0 in rw head (omega (arith, rest))
