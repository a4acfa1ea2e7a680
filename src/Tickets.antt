-- ===== src/Tickets.antt =====
-- Ingestion and the ticket's representation: app/routers/tickets.py and app/routers/webhooks.py, with
-- the request schemas of app/schemas/tickets.py.
pub mod Ingest
pub mod Listing
pub mod Filters
pub mod Order
use ticket_triage.Base.{
  ℕ, ◌+◌, Bool, true, false, ◌&&◌, ◌==◌, Option, none, some, List, [], ◌∷◌, length, leb, select,
  map, if◌then◌else◌,
}
use ticket_triage.Text.{Text, codes, text_eq, strip, trim}
use ticket_triage.Labels.{Channel, email, web, api, Status, received, TriageError}
use ticket_triage.Table
use ticket_triage.Shown.{TriageOut, CorrectionOut, triage_out, correction_out}
use ticket_triage.Model.{
  Ticket, Triage, Correction, LlmCall, Db, external_key, insert_ticket, ticket_of, triage_of,
  correction_of,
}
use ticket_triage.Errors.{Answer, success, error, not_found, internal_error, validation_error}
use ticket_triage.Prompts.{channel_name}

-- The fields of a new ticket, and what the service adds: `uuid4().hex` and the two defaults.
pub record NewTicket : Type 0 where
  pub external_id : Text
  pub channel : Channel
  pub sender : Text
  pub subject : Text
  pub body : Text

pub record Stamp : Type 0 where
  pub id : Text
  pub now : ℕ

abbrev pub ticket_row : Stamp → NewTicket → Ticket
ticket_row stamp n = record {
  id = stamp.id;
  external_id = n.external_id;
  channel = n.channel;
  sender = n.sender;
  subject = n.subject;
  body = n.body;
  status = received;
  queue = none;
  triage_error = none;
  created_at = stamp.now;
  updated_at = stamp.now;
}

abbrev pub known : Text → Db → Option Ticket
known external_id db = Table.lookup external_key external_id db.tickets

-- The ticket and whether it was created, or the IntegrityError that is raised again.
pub data Ingested : Type 0 where
  ingested : Ticket → Bool → Ingested
  integrity_error : Ingested

-- After the first query found nothing. `db` is what the commit meets.
unfoldable pub insert_new : Stamp → NewTicket → Db → Ingested × Db
insert_new stamp n db = elim (insert_ticket (ticket_row stamp n) db) [
  | some db' ↦ (ingested (ticket_row stamp n) true, db')
  | none ↦ elim (known n.external_id db) [
    | some existing ↦ (ingested existing false, db)
    | none ↦ (integrity_error, db)
  ]
]

-- `ingest_ticket`. Between the first query and the commit other requests may commit: `rivals`.
unfoldable pub ingest_ticket : (Db → Db) → Stamp → NewTicket → Db → Ingested × Db
unfolding insert_new
ingest_ticket rivals stamp n db = elim (known n.external_id db) [
  | some existing ↦ (ingested existing false, db)
  | none ↦ insert_new stamp n (rivals db)
]

pub record MetricsOut : Type 0 where
  pub llm_calls : ℕ
  pub input_tokens : Option ℕ
  pub output_tokens : Option ℕ
  pub cost_usd : ℕ
  pub latency_ms : ℕ

-- `sum(inputs) if inputs else None` over the counts that are not null.
unfoldable pub sum_known : List (Option ℕ) → Option ℕ
sum_known [] = none
sum_known (none ∷ rest) = sum_known rest
sum_known (some n ∷ rest) = elim (sum_known rest) [ none ↦ some n | some m ↦ some (n + m) ]

unfoldable pub total_of : (LlmCall → ℕ) → List LlmCall → ℕ
total_of f [] = 0
total_of f (c ∷ cs) = f c + total_of f cs

unfoldable pub metrics_of : List LlmCall → Option MetricsOut
unfolding sum_known total_of
metrics_of [] = none
metrics_of (c ∷ cs) =
    let calls = c ∷ cs in
    some (record {
      llm_calls = length calls;
      input_tokens = sum_known (map (λ (r : LlmCall). r.input_tokens) calls);
      output_tokens = sum_known (map (λ (r : LlmCall). r.output_tokens) calls);
      cost_usd = total_of (λ (r : LlmCall). r.cost_usd) calls;
      latency_ms = total_of (λ (r : LlmCall). r.latency_ms) calls;
    })

abbrev pub is_ticket : Text → LlmCall → Bool
is_ticket k c = elim c.ticket_id [ none ↦ false | some j ↦ j == k ]

unfoldable pub metrics_out : Text → Db → Option MetricsOut
unfolding metrics_of
metrics_out k db = metrics_of (select (is_ticket k) db.llm_calls)

-- `TicketOut`: the ticket's columns, with its triage, its correction and its metrics.
pub record TicketOut : Type 0 where
  pub ticket : Ticket
  pub triage : Option TriageOut
  pub correction : Option CorrectionOut
  pub metrics : Option MetricsOut

abbrev pub shown_correction : Status → Option CorrectionOut → Option CorrectionOut
shown_correction Status.corrected c = c
shown_correction _ c = none

unfoldable pub ticket_detail : Db → Ticket → TicketOut
unfolding metrics_out
ticket_detail db t = record {
  ticket = t;
  triage = triage_out db t.id;
  correction = shown_correction t.status (correction_out db t.id);
  metrics = metrics_out t.id db;
}

-- `TicketListItem`: the list form, without body, correction and metrics.
pub record TicketListItem : Type 0 where
  pub id : Text
  pub external_id : Text
  pub channel : Channel
  pub sender : Text
  pub subject : Text
  pub status : Status
  pub queue : Option Text
  pub triage_error : Option TriageError
  pub triage : Option TriageOut
  pub created_at : ℕ
  pub updated_at : ℕ

unfoldable pub ticket_list_item : Db → Ticket → TicketListItem
ticket_list_item db t = record {
  id = t.id;
  external_id = t.external_id;
  channel = t.channel;
  sender = t.sender;
  subject = t.subject;
  status = t.status;
  queue = t.queue;
  triage_error = t.triage_error;
  triage = triage_out db t.id;
  created_at = t.created_at;
  updated_at = t.updated_at;
}

pub record TicketListOut : Type 0 where
  pub tickets : List TicketListItem
  pub total : ℕ
  pub limit : ℕ
  pub offset : ℕ

-- `GET /tickets/{ticket_id}`
unfoldable pub get_ticket : Text → Db → Answer TicketOut
unfolding ticket_detail
get_ticket k db = elim (ticket_of k db) [
  | none ↦ error not_found (codes "No ticket exists with that id.")
  | some t ↦ success 200 (ticket_detail db t)
]

-- The answer of the two ingestion routes: 201 for a new ticket, 200 for a replay.
unfoldable pub ingest_answer : Ingested × Db → Answer TicketOut × Db
unfolding ticket_detail
ingest_answer (ingested t true, db) = (success 201 (ticket_detail db t), db)
ingest_answer (ingested t false, db) = (success 200 (ticket_detail db t), db)
ingest_answer (integrity_error, db) =
    (error internal_error (codes "An unexpected error occurred."), db)

-- A string field of a request: stripped by pydantic, then held to its bounds.
unfoldable pub field_text : ℕ → Text → Option Text
field_text limit s =
    let t = trim s in if leb 1 (length t) && leb (length t) limit then some t else none

-- `_body_not_blank` and `_text_not_blank`
unfoldable pub not_blank : Option Text → Option Text
not_blank none = none
not_blank (some t) = if leb 1 (length (strip t)) then some t else none

-- `_check_channel`
unfoldable pub parse_channel : Text → Option Channel
unfolding channel_name
parse_channel s =
    if s == channel_name email
    then some email
    else if s == channel_name web
    then some web
    else if s == channel_name api
    then some api
    else none

-- `TicketCreateRequest`: the strings of the body, and the validated fields.
pub record TicketCreateRequest : Type 0 where
  pub external_id : Text
  pub subject : Text
  pub body : Text
  pub sender : Text
  pub channel : Text

abbrev pub all_present :
    Option Text → Option Text → Option Text → Option Text → Option Channel → Option NewTicket
all_present (some e) (some s) (some b) (some f) (some c) =
    some (record { external_id = e; channel = c; sender = f; subject = s; body = b })
all_present _ _ _ _ _ = none

unfoldable pub validate_create : TicketCreateRequest → Option NewTicket
unfolding field_text not_blank parse_channel
validate_create r =
    all_present (field_text 128 r.external_id) (field_text 500 r.subject)
      (not_blank (field_text 50000 r.body)) (field_text 320 r.sender)
      (parse_channel (trim r.channel))

-- `EmailWebhookRequest`, after "from" is mapped onto `sender`.
pub record EmailWebhookRequest : Type 0 where
  pub message_id : Text
  pub sender : Text
  pub text : Text
  pub subject : Option Text

-- The subject: `none` if it is refused, and the default for a missing or empty one.
unfoldable pub email_subject : Option Text → Option Text
email_subject none = some (codes "(no subject)")
email_subject (some s) =
    let t = trim s in
    if leb (length t) 500
    then some (elim t [ [] ↦ codes "(no subject)" | c ∷ rest ↦ c ∷ rest ])
    else none

unfoldable pub validate_email : EmailWebhookRequest → Option NewTicket
unfolding field_text not_blank email_subject
validate_email r =
    all_present (field_text 128 r.message_id) (email_subject r.subject)
      (not_blank (field_text 50000 r.text)) (field_text 320 r.sender) (some email)

abbrev pub ingest_validated : (Db → Db) → Stamp → Option NewTicket → Db → Answer TicketOut × Db
ingest_validated rivals stamp none db =
    (error validation_error (codes "Request validation failed."), db)
ingest_validated rivals stamp (some n) db = ingest_answer (ingest_ticket rivals stamp n db)

-- `POST /tickets`
unfoldable pub create_ticket : (Db → Db) → Stamp → TicketCreateRequest → Db → Answer TicketOut × Db
unfolding validate_create ingest_answer ingest_ticket
create_ticket rivals stamp payload db = ingest_validated rivals stamp (validate_create payload) db

-- `POST /webhooks/email`
unfoldable pub ingest_email : (Db → Db) → Stamp → EmailWebhookRequest → Db → Answer TicketOut × Db
unfolding validate_email ingest_answer ingest_ticket
ingest_email rivals stamp payload db = ingest_validated rivals stamp (validate_email payload) db
