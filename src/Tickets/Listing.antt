-- ===== src/Tickets/Listing.antt =====
-- `list_tickets` and `_validate_filters` of app/routers/tickets.py.
use ticket_triage.Base.{
  ℕ, ◌+◌, ◌≡◌, refl, Bool, true, false, ◌&&◌, ◌==◌, Eq, Option, none, some, List, [], ◌∷◌, ◌++◌,
  length, leb, select, map, take, drop, if◌then◌else◌, arith,
}
use ticket_triage.Base.Pages.{page-append, length-page}
use ticket_triage.Text.{Text, codes, text_eq}
use ticket_triage.Labels.{
  Intent, Priority, Status, received, triaged, needs_human, status_eq, intent_eq, priority_eq,
  named, parse_intent, parse_priority,
}
use ticket_triage.Model.{Ticket, Triage, Db, triage_of}
use ticket_triage.Errors.{Answer, success, error, validation_error}
use ticket_triage.Tickets.{TicketListOut, ticket_list_item}

-- STATUSES
unfoldable status_name : Status → Text
status_name received = codes "received"
status_name triaged = codes "triaged"
status_name needs_human = codes "needs_human"
status_name Status.approved = codes "approved"
status_name Status.corrected = codes "corrected"

abbrev statuses : List Status
statuses = received ∷ triaged ∷ needs_human ∷ Status.approved ∷ Status.corrected ∷ []

unfoldable pub parse_status : Text → Option Status
unfolding status_name
parse_status = named status_name statuses

-- The filters as the query string has them, and after their validation.
pub record TicketFilter : Type 0 where
  pub status : Option Text
  pub queue : Option Text
  pub intent : Option Text
  pub priority : Option Text

pub record TicketQuery : Type 0 where
  pub status : Option Status
  pub queue : Option Text
  pub intent : Option Intent
  pub priority : Option Priority

-- A filter that is given must name a label: `none` for one that does not.
abbrev pub checked : {A : Type 0} → (Text → Option A) → Option Text → Option (Option A)
checked parse none = some none
checked parse (some s) = elim (parse s) [ none ↦ none | some a ↦ some (some a) ]

pub data Validated : Type 0 where
  valid : TicketQuery → Validated
  invalid : Text → Validated

-- `_validate_filters`: the query, or the message of the first filter that is refused.
unfoldable pub validate_filters : TicketFilter → Validated
unfolding parse_status parse_intent parse_priority
validate_filters f = elim (checked parse_status f.status) [
  | none ↦
      invalid (codes "status must be one of received, triaged, needs_human, approved, corrected")
  | some s ↦ elim (checked parse_intent f.intent) [
    | none ↦ invalid (
        codes
          "intent must be one of billing, bug, how_to, feature_request, account_access, refund, other")
    | some i ↦ elim (checked parse_priority f.priority) [
      | none ↦ invalid (codes "priority must be one of P1, P2, P3, P4")
      | some p ↦ valid (record { status = s; queue = f.queue; intent = i; priority = p })
    ]
  ]
]

-- `column == value`, where a filter that is not given holds and NULL equals nothing.
abbrev pub holds : {A : Type 0} ⦃e : Eq A⦄ → Option A → A → Bool
holds none a = true
holds (some b) a = a == b

abbrev pub queue_holds : Option Text → Option Text → Bool
queue_holds none queue = true
queue_holds (some b) none = false
queue_holds (some b) (some a) = a == b

-- The join with the triages, which only a filter on a label makes.
abbrev pub labels_hold : Option Intent → Option Priority → Option Triage → Bool
labels_hold none none row = true
labels_hold intent priority none = false
labels_hold intent priority (some r) = holds intent r.intent && holds priority r.priority

unfoldable pub matches : TicketQuery → Db → Ticket → Bool
matches q db t =
    holds q.status t.status
    && queue_holds q.queue t.queue
    && labels_hold q.intent q.priority (triage_of t.id db)

-- `ORDER BY created_at DESC`
unfoldable pub insert_newest : Ticket → List Ticket → List Ticket
insert_newest t [] = t ∷ []
insert_newest t (u ∷ us) =
    if leb u.created_at t.created_at then t ∷ u ∷ us else u ∷ insert_newest t us

unfoldable pub newest_first : List Ticket → List Ticket
unfolding insert_newest
newest_first [] = []
newest_first (t ∷ ts) = insert_newest t (newest_first ts)

unfoldable pub ticket_page : TicketQuery → ℕ → ℕ → Db → TicketListOut
unfolding ticket_list_item
ticket_page q limit offset db =
    let found = select (matches q db) db.tickets in
    record {
      tickets = map (ticket_list_item db) (take limit (drop offset (newest_first found)));
      total = length found;
      limit = limit;
      offset = offset;
    }

-- `list_tickets`, whose bounds on the limit FastAPI enforces.
unfoldable pub list_tickets : TicketFilter → ℕ → ℕ → Db → Answer TicketListOut
unfolding validate_filters ticket_page
list_tickets f limit offset db = elim (validate_filters f) [
  | invalid message ↦ error validation_error message
  | valid q ↦ success 200 (ticket_page q limit offset db)
]

length-insert_newest : (t : Ticket) (us : List Ticket) → length (insert_newest t us) ≡ length us + 1
unfolding insert_newest
length-insert_newest t [] = omega arith
length-insert_newest t (u ∷ us) = ground (arith, length-insert_newest t us)

pub length-newest_first : (ts : List Ticket) → length (newest_first ts) ≡ length ts
unfolding newest_first
length-newest_first [] = refl
length-newest_first (t ∷ ts) =
    omega (arith, length-insert_newest t (newest_first ts), length-newest_first ts)

-- Paging loses and repeats nothing: two pages, the second at the offset where the first ends, are
-- together the page of both limits; every page states the same total; and the page of that limit
-- from the start has exactly as many tickets.
pub ticket_page-append :
    (q : TicketQuery) (a b offset : ℕ) (db : Db)
    → ((ticket_page q a offset db).tickets ++ (ticket_page q b (offset + a) db).tickets
        ≡ (ticket_page q (a + b) offset db).tickets)
      × ((ticket_page q a offset db).total ≡ (ticket_page q b (offset + a) db).total)
      × (length (ticket_page q (ticket_page q a offset db).total 0 db).tickets
          ≡ (ticket_page q a offset db).total)
unfolding ticket_page
ticket_page-append q a b offset db =
    let found = newest_first (select (matches q db) db.tickets) in
    (
      page-append (ticket_list_item db) a b offset found,
      refl,
      length-page (ticket_list_item db) found _ (length-newest_first _),
    )
