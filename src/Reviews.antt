-- ===== src/Reviews.antt =====
-- The review workflow: app/routers/reviews.py, without the export.
pub mod Approve
pub mod Correct
pub mod Pending
use ticket_triage.Base.{
  ℕ, Bool, true, false, ◌&&◌, ◌||◌, not, ◌==◌, Option, none, some, List, [], ◌∷◌, length, take,
  drop, select, map, leb, if◌then◌else◌,
}
use ticket_triage.Text.{Text, codes, trim}
use ticket_triage.Labels.{Intent, Priority, Sentiment, Status, triaged, needs_human, status_eq}
use ticket_triage.Table.{order_by}
use ticket_triage.Model.{
  Ticket, Correction, Db, Settings, ticket_of, insert_correction, save_ticket,
}
use ticket_triage.Routing.{resolve_queue, load_rules}
use ticket_triage.Errors.{
  Answer, success, error, not_found, invalid_state, internal_error, validation_error,
}
use ticket_triage.Tickets.{TicketOut, TicketListOut, ticket_detail, ticket_list_item}

unfoldable pub approved_ticket : ℕ → Ticket → Ticket
approved_ticket now t = record t { status = Status.approved; updated_at = now }

-- `approve_ticket`
unfoldable pub approve_ticket : ℕ → Text → Db → Answer TicketOut × Db
unfolding approved_ticket ticket_detail
approve_ticket now k db = elim (ticket_of k db) [
  | none ↦ (error not_found (codes "No ticket exists with that id."), db)
  | some t ↦
      if not (t.status == triaged)
      then (error invalid_state (codes "Only tickets in triaged status can be approved."), db)
      else (let t' = approved_ticket now t in
          let db' = save_ticket t' db in (success 200 (ticket_detail db' t'), db'))
]

-- `CorrectRequest`: what the schema makes of a body, with its note stripped and of at most 1000
-- characters.
pub record CorrectRequest : Type 0 where
  pub intent : Intent
  pub priority : Priority
  pub sentiment : Sentiment
  pub note : Option Text

-- The note of a body, or `none` if it is refused.
unfoldable pub note_field : Option Text → Option (Option Text)
note_field none = some none
note_field (some s) = let t = trim s in if leb (length t) 1000 then some (some t) else none

abbrev pub with_labels :
    Intent → Priority → Sentiment → Option (Option Text) → Option CorrectRequest
with_labels i p s none = none
with_labels i p s (some note) =
    some (record { intent = i; priority = p; sentiment = s; note = note })

-- A body whose labels are in their sets.
unfoldable pub validate_correct :
    Intent → Priority → Sentiment → Option Text → Option CorrectRequest
unfolding note_field
validate_correct i p s note = with_labels i p s (note_field note)

-- `_CORRECTABLE_STATUSES`, which are also `_PENDING_STATUSES`.
abbrev pub correctable : Status → Bool
correctable s = s == triaged || s == needs_human

abbrev pub correction_row : Text → ℕ → Text → CorrectRequest → Correction
correction_row id now k payload = record {
  id = id;
  ticket_id = k;
  intent = payload.intent;
  priority = payload.priority;
  sentiment = payload.sentiment;
  note = payload.note;
  created_at = now;
}

-- The queue that the current rules assign to the gold labels.
unfoldable pub gold_queue : Settings → CorrectRequest → Db → Text
gold_queue settings payload db =
    resolve_queue (load_rules db) payload.intent payload.priority payload.sentiment
      settings.default_queue

unfoldable pub corrected_ticket : Settings → ℕ → CorrectRequest → Db → Ticket → Ticket
corrected_ticket settings now payload db t = record t {
  status = Status.corrected;
  queue = some (gold_queue settings payload db);
  triage_error = none;
  updated_at = now;
}

-- The commit of a correction. An IntegrityError reaches the handler of unexpected errors.
unfoldable pub store_correction :
    Settings → Text → ℕ → CorrectRequest → Ticket → Db → Answer TicketOut × Db
unfolding corrected_ticket ticket_detail
store_correction settings id now payload t db =
    elim (insert_correction (correction_row id now t.id payload) db) [
      | none ↦ (error internal_error (codes "An unexpected error occurred."), db)
      | some db' ↦
          let t' = corrected_ticket settings now payload db' t in
          let db'' = save_ticket t' db' in (success 200 (ticket_detail db'' t'), db'')
    ]

-- `correct_ticket`
unfoldable pub correct_ticket :
    Settings → Text → ℕ → CorrectRequest → Text → Db → Answer TicketOut × Db
unfolding store_correction
correct_ticket settings id now payload k db = elim (ticket_of k db) [
  | none ↦ (error not_found (codes "No ticket exists with that id."), db)
  | some t ↦
      if not (correctable t.status)
      then (error invalid_state (codes "Only triaged or needs_human tickets can be corrected."), db)
      else store_correction settings id now payload t db
]

-- The route: a refused body changes nothing.
abbrev pub correct_validated :
    Settings → Text → ℕ → Option CorrectRequest → Text → Db → Answer TicketOut × Db
correct_validated settings id now none k db =
    (error validation_error (codes "Request validation failed."), db)
correct_validated settings id now (some payload) k db = correct_ticket settings id now payload k db

-- `pending_reviews`, whose bounds on the limit FastAPI enforces.
unfoldable pub pending_reviews : ℕ → ℕ → Db → TicketListOut
unfolding ticket_list_item
pending_reviews limit offset db =
    let pending = select (λ (t : Ticket). correctable t.status) db.tickets in
    record {
      tickets =
          map (ticket_list_item db)
            (take limit (drop offset (order_by (λ (t : Ticket). t.created_at) pending)));
      total = length pending;
      limit = limit;
      offset = offset;
    }
