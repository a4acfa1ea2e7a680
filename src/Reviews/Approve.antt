-- ===== src/Reviews/Approve.antt =====
-- A human's approval of a triage: when it is accepted, and what it changes.
use mathlib.Core.Path.{subst}
use ticket_triage.Base.{
  ℕ, ◌≡◌, ◌≢◌, refl, ◌⊎◌, inl, inr, ◌==◌, Bool-cases, none, some, Option-cases,
}
use ticket_triage.Text.{Text, codes, text_eq}
use ticket_triage.Labels.{Status, triaged, status_eq}
use ticket_triage.Model.{Ticket, Db, ticket_of, triage_of, correction_of, draft_of}
use ticket_triage.Model.Lifecycle.{Lifecycle, Fits, FitsAt}
use ticket_triage.Model.Frame.{
  Kept, save_ticket-Kept, ticket_of-id, ticket_of-own, ticket_of-save_ticket,
}
use ticket_triage.Errors.{AppError, Answer, success, error, not_found, invalid_state}
use ticket_triage.Tickets.{TicketOut, ticket_detail}
use ticket_triage.Reviews.{approved_ticket, approve_ticket}

abbrev pub no_such_ticket : Text
no_such_ticket = codes "No ticket exists with that id."

-- An error of this kind, and no change.
abbrev pub Refused : AppError → Db → Answer TicketOut × Db → Type 0
Refused kind db r = (message : Text) × (r ≡ (error kind message, db))

-- An accepted decision: the ticket is now `t`, which is what is answered; the invariant holds, and no
-- other ticket has changed.
pub record Accepted (k : Text) (t : Ticket) (db : Db) (r : Answer TicketOut × Db) : Type 0 where
  pub answer : r.0 ≡ success 200 (ticket_detail r.1 t)
  pub stored : ticket_of k r.1 ≡ some t
  pub kept : Kept k db r.1

approved-Fits :
    (now : ℕ) (k : Text) (t : Ticket) (db : Db)
    → Lifecycle db
    → ticket_of k db ≡ some t
    → t.status ≡ triaged
    → FitsAt k (approved_ticket now t) db
unfolding approved_ticket
approved-Fits now k t db v here st =
    subst (λ s. Fits s t.queue t.triage_error (triage_of k db) (correction_of k db) (draft_of k db))
      st (v.fits k t here)

approve-Accepted :
    (now : ℕ) (t : Ticket) (db : Db)
    → Lifecycle db
    → ticket_of t.id db ≡ some t
    → t.status ≡ triaged
    → Accepted t.id (approved_ticket now t) db (approve_ticket now t.id db)
unfolding approve_ticket
approve-Accepted now t db v here st =
    rw (here, approve_ticket)
      (rw (st, approve_ticket)
        (record {
          answer = refl;
          stored = ticket_of-save_ticket (approved_ticket now t) db t here;
          kept =
              save_ticket-Kept (approved_ticket now t) t db v here refl
                (approved-Fits now t.id t db v here st);
        }))

-- Approval, branch by branch: 404 for an unknown ticket and 409 for one that is not triaged, with no
-- change; a triaged ticket becomes approved and all its other columns but the time are kept.
pub approve_ticket-branches :
    (now : ℕ) (k : Text) (db : Db)
    → Lifecycle db
    → ((ticket_of k db ≡ none) × Refused not_found db (approve_ticket now k db))
      ⊎ ((t : Ticket) × (ticket_of k db ≡ some t)
          × (((t.status ≢ triaged) × Refused invalid_state db (approve_ticket now k db))
              ⊎ ((t.status ≡ triaged)
                  × Accepted k
                      (record t { status = Status.approved; updated_at = now })
                      db
                      (approve_ticket now k db))))
unfolding approve_ticket approved_ticket
approve_ticket-branches now k db v = elim (Option-cases (ticket_of k db)) [
  | inl h ↦ inl (h, (no_such_ticket, rw (h, approve_ticket) refl))
  | inr (t, h) ↦ inr (
    t,
    h,
    elim (Bool-cases (t.status == triaged)) [
      | inl e ↦
          let st : t.status ≡ triaged = (status_eq.beq_iff t.status triaged).0 e in
          let id : t.id ≡ k = ticket_of-id k db h in
          inr (
            st,
            subst (λ i. Accepted i (approved_ticket now t) db (approve_ticket now i db)) id
                (approve-Accepted now t db v (ticket_of-own k db h) st),
          )
      | inr e ↦ inl (
        λ st. cc (e, (status_eq.beq_iff t.status triaged).1 st),
        (
          codes "Only tickets in triaged status can be approved.",
          rw (h, approve_ticket) (rw (e, approve_ticket) refl),
        ),
      )
    ],
  )
]
