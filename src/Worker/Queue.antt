-- ===== src/Worker/Queue.antt =====
-- The queue of received tickets: what a poll takes, and when it finds nothing to do.
use mathlib.Core.Path.{subst}
use ticket_triage.Base.{
  All-map, All-select, All-of_select, ℕ, ==_refl, Bool, ◌≤◌, ◌≡◌, true, ◌==◌, none, some, List, [],
  ◌∷◌, arith, All, select,
}
use ticket_triage.Text.{text_eq, same_iff}
use ticket_triage.Table
use ticket_triage.Table.Laws
use ticket_triage.Table.{order_by}
use ticket_triage.Labels.{received, status_eq}
use ticket_triage.Model.{Ticket, Db, ticket_key, ticket_of}
use ticket_triage.Worker.{waiting, first, oldest_received}

-- A received ticket of the table.
abbrev IsWaiting : List Ticket → Ticket → Type 0
IsWaiting rows t = (t.status ≡ received) × (Table.lookup ticket_key t.id rows ≡ some t)

select_received :
    (rows : List Ticket)
    → All (λ (t : Ticket). t.status ≡ received) (select (λ (t : Ticket). t.status == received) rows)
select_received [] = tt
select_received (t ∷ rows) = ground (arith, select_received rows)

-- Every row of a table with distinct keys is found by its key.
pub All-lookup :
    (rows : List Ticket)
    → Table.Distinct ticket_key rows
    → All (λ (t : Ticket). Table.lookup ticket_key t.id rows ≡ some t) rows
unfolding Table.lookup
All-lookup [] d = tt
All-lookup (z ∷ zs) d = (
  rw (==_refl z.id),
  All-map (λ (t : Ticket). Table.lookup ticket_key t.id zs ≡ some t)
      (λ (t : Ticket). Table.lookup ticket_key t.id (z ∷ zs) ≡ some t) zs
      (λ t h. ground (arith, h, d.0, same_iff z.id t.id)) (All-lookup zs d.1),
)

abbrev pub is_received : Ticket → Bool
is_received t = t.status == received

abbrev created : Ticket → ℕ
created t = t.created_at

first-All : {A : Type 0} (P : A → Type 0) (xs : List A) {x : A} → All P xs → first xs ≡ some x → P x
first-All P [] h e = cc
first-All P (y ∷ ys) h e = subst P (ground arith) h.0

first-Ascending :
    (xs : List Ticket) {x : Ticket}
    → Laws.Ascending created xs
    → first xs ≡ some x
    → All (λ (u : Ticket). x.created_at ≤ u.created_at) xs
first-Ascending [] h e = cc
first-Ascending (y ∷ ys) {x} h e =
    let same_ticket : y ≡ x = ground arith in
    subst (λ (z : Ticket). All (λ (u : Ticket). z.created_at ≤ u.created_at) (y ∷ ys)) same_ticket
      (omega arith, h.0)

first-none : (xs : List Ticket) → first xs ≡ none → All (λ (u : Ticket). ⊥) xs
first-none [] h = tt
first-none (x ∷ xs) h = cc

-- The ticket that a poll takes: it is in the table under its id, it is received, and no received
-- ticket was created before it.
pub oldest_received-some :
    (db : Db) {t : Ticket}
    → Table.Distinct ticket_key db.tickets
    → oldest_received db ≡ some t
    → (ticket_of t.id db ≡ some t)
      × (t.status ≡ received)
      × All (λ (u : Ticket). is_received u ≡ true → t.created_at ≤ u.created_at) db.tickets
unfolding oldest_received
oldest_received-some db {t} d h =
    let rows = select is_received db.tickets in
    (
      first-All (λ (u : Ticket). ticket_of u.id db ≡ some u) (waiting db)
          (Laws.All-order_by created _ rows
            (All-select is_received _ db.tickets (All-lookup db.tickets d)))
          h,
      first-All (λ (u : Ticket). u.status ≡ received) (waiting db)
          (Laws.All-order_by created _ rows (select_received db.tickets)) h,
      All-of_select is_received (λ (u : Ticket). t.created_at ≤ u.created_at) db.tickets
          (Laws.All-of_order_by created _ rows
            (first-Ascending (waiting db) (Laws.order_by-Ascending created rows) h)),
    )

-- A poll finds nothing to do exactly when no ticket is received.
oldest_received-none :
    (db : Db)
    → oldest_received db ≡ none
    → All (λ (u : Ticket). is_received u ≡ true → ⊥) db.tickets
unfolding oldest_received
oldest_received-none db h =
    All-of_select is_received (λ (u : Ticket). ⊥) db.tickets
      (Laws.All-of_order_by created _ (select is_received db.tickets) (first-none (waiting db) h))
