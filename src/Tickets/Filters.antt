-- ===== src/Tickets/Filters.antt =====
-- Which filters `list_tickets` of app/routers/tickets.py refuses.
use ticket_triage.Base.{ℕ, ◌≡◌, refl, Option, none, some, Option-cases, inl, inr, arith}
use ticket_triage.Text.{Text}
use ticket_triage.Labels.{parse_intent, parse_priority}
use ticket_triage.Model.{Db}
use ticket_triage.Errors
use ticket_triage.Errors.{Answer, success, error}
use ticket_triage.Tickets.{TicketListOut}
use ticket_triage.Tickets.Listing.{
  TicketFilter, TicketQuery, Validated, valid, invalid, checked, parse_status, validate_filters,
  ticket_page, list_tickets,
}

-- A filter that is given names a member of its set.
abbrev pub Names : {A : Type 0} → (Text → Option A) → Option Text → Type 0
Names parse none = Unit
Names {A} parse (some s) = (a : A) × (parse s ≡ some a)

pub record IsKnown (f : TicketFilter) : Type 0 where
  pub status : Names parse_status f.status
  pub intent : Names parse_intent f.intent
  pub priority : Names parse_priority f.priority

checked-Names :
    {A : Type 0} (parse : Text → Option A) (o : Option Text)
    → Names parse o
    → (r : Option A) × (checked parse o ≡ some r)
checked-Names parse none h = (none, refl)
checked-Names parse (some s) (a, e) = (some a, rw (e, checked) refl)

Names-checked :
    {A : Type 0} (parse : Text → Option A) (o : Option Text) {r : Option A}
    → checked parse o ≡ some r
    → Names parse o
Names-checked parse none h = tt
Names-checked parse (some s) h = elim (Option-cases (parse s)) [
  | inl e ↦ absurd (ground arith)
  | inr (a, e) ↦ (a, e)
]

validate_filters-valid :
    (f : TicketFilter) → IsKnown f → (q : TicketQuery) × (validate_filters f ≡ valid q)
unfolding validate_filters
validate_filters-valid f known =
    let (s, es) = checked-Names parse_status f.status known.status in
    let (i, ei) = checked-Names parse_intent f.intent known.intent in
    let (p, ep) = checked-Names parse_priority f.priority known.priority in
    (record { status = s; queue = f.queue; intent = i; priority = p }, ground arith)

valid-parts :
    (f : TicketFilter) {q : TicketQuery}
    → validate_filters f ≡ valid q
    → (checked parse_status f.status ≡ some q.status)
      × (checked parse_intent f.intent ≡ some q.intent)
      × (checked parse_priority f.priority ≡ some q.priority)
unfolding validate_filters
valid-parts f h = ground arith

valid-IsKnown : (f : TicketFilter) {q : TicketQuery} → validate_filters f ≡ valid q → IsKnown f
valid-IsKnown f h =
    let (s, i, p) = valid-parts f h in
    record {
      status = Names-checked parse_status f.status s;
      intent = Names-checked parse_intent f.intent i;
      priority = Names-checked parse_priority f.priority p;
    }

-- A listing is answered exactly when each of the filters on the status, the intent and the priority
-- that is given names a member of its set; the queue may be any text.
pub list_tickets_iff :
    (f : TicketFilter) (limit offset : ℕ) (db : Db)
    → (IsKnown f
        → (q : TicketQuery) × (list_tickets f limit offset db
            ≡ success 200 (ticket_page q limit offset db)))
      × ((page : TicketListOut) → list_tickets f limit offset db ≡ success 200 page → IsKnown f)
unfolding list_tickets
list_tickets_iff f limit offset db = (
  λ known. let (q, e) = validate_filters-valid f known in (q, rw (e, list_tickets) refl),
  λ page h. answered (validate_filters f) refl h,
)
  where
    answered :
        {page : TicketListOut} (v : Validated)
        → validate_filters f ≡ v
        → elim v as (λ x. Answer TicketListOut) [
          | invalid message ↦ error Errors.validation_error message
          | valid q ↦ success 200 (ticket_page q limit offset db)
        ]
          ≡ success 200 page
        → IsKnown f
    answered (invalid message) e h = cc
    answered (valid q) e h = valid-IsKnown f e
