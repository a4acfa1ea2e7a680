-- ===== src/Model.antt =====
-- app/models.py: a record for each table, and the database. A timestamp is the number of its tick,
-- a cost is a whole number of micro-dollars (the column has six decimals). The `Settings` of
-- app/config.py that the modelled code reads stand here too.
pub mod Lifecycle
pub mod Frame
use ticket_triage.Base.{ℕ, Option, some, none, List, [], ◌∷◌, ◌++◌, ◌||◌, false, not, if◌then◌else◌}
use ticket_triage.Text.{Text, text_eq}
use ticket_triage.Table
use ticket_triage.Labels.{
  Intent, Priority, Sentiment, Channel, Status, TriageError, Purpose, Outcome, ReplyState,
}

pub record Ticket : Type 0 where
  pub id : Text
  pub external_id : Text
  pub channel : Channel
  pub sender : Text
  pub subject : Text
  pub body : Text
  pub status : Status
  pub queue : Option Text
  pub triage_error : Option TriageError
  pub created_at : ℕ
  pub updated_at : ℕ

pub record Triage : Type 0 where
  pub id : Text
  pub ticket_id : Text
  pub intent : Intent
  pub priority : Priority
  pub sentiment : Sentiment
  pub summary : Text
  pub model : Text
  pub prompt_version : Text
  pub attempts : ℕ
  pub created_at : ℕ

pub record LlmCall : Type 0 where
  pub id : Text
  pub ticket_id : Option Text
  pub purpose : Purpose
  pub model : Text
  pub input_tokens : Option ℕ
  pub output_tokens : Option ℕ
  pub cost_usd : ℕ
  pub latency_ms : ℕ
  pub outcome : Outcome
  pub created_at : ℕ

pub record Correction : Type 0 where
  pub id : Text
  pub ticket_id : Text
  pub intent : Intent
  pub priority : Priority
  pub sentiment : Sentiment
  pub note : Option Text
  pub created_at : ℕ

pub record ReplyDraft : Type 0 where
  pub id : Text
  pub ticket_id : Text
  pub body : Text
  pub state : ReplyState
  pub model : Text
  pub prompt_version : Text
  pub attempts : ℕ
  pub created_at : ℕ
  pub updated_at : ℕ

pub record RoutingRule : Type 0 where
  pub id : ℕ
  pub position : ℕ
  pub intent : Option Intent
  pub priority : Option Priority
  pub sentiment : Option Sentiment
  pub queue : Text

pub record Db : Type 0 where
  pub tickets : List Ticket
  pub triages : List Triage
  pub llm_calls : List LlmCall
  pub corrections : List Correction
  pub reply_drafts : List ReplyDraft
  pub routing_rules : List RoutingRule

pub record Settings : Type 0 where
  pub llm_model : Text
  pub llm_max_retries : ℕ
  pub llm_price_input_per_mtok : ℕ
  pub llm_price_output_per_mtok : ℕ
  pub api_key : Text
  pub default_queue : Text
  pub circuit_failure_threshold : ℕ
  pub circuit_cooldown_seconds : ℕ

-- The key columns, and the rows that a key finds.
abbrev pub ticket_key : Ticket → Text
ticket_key t = t.id

abbrev pub external_key : Ticket → Text
external_key t = t.external_id

abbrev pub triage_key : Triage → Text
triage_key t = t.ticket_id

abbrev pub correction_key : Correction → Text
correction_key c = c.ticket_id

abbrev pub draft_key : ReplyDraft → Text
draft_key d = d.ticket_id

abbrev pub ticket_of : Text → Db → Option Ticket
ticket_of k db = Table.lookup ticket_key k db.tickets

abbrev pub triage_of : Text → Db → Option Triage
triage_of k db = Table.lookup triage_key k db.triages

abbrev pub correction_of : Text → Db → Option Correction
correction_of k db = Table.lookup correction_key k db.corrections

abbrev pub draft_of : Text → Db → Option ReplyDraft
draft_of k db = Table.lookup draft_key k db.reply_drafts

-- The INSERTs. `none` is the database's IntegrityError: a primary key or a unique column that is
-- taken already, or a foreign key that names no ticket.
unfoldable pub insert_ticket : Ticket → Db → Option Db
insert_ticket t db =
    if Table.contains ticket_key t.id db.tickets
      || Table.contains external_key t.external_id db.tickets
    then none
    else some (record db { tickets = db.tickets ++ t ∷ [] })

unfoldable pub insert_triage : Triage → Db → Option Db
insert_triage r db =
    if Table.contains (λ (x : Triage). x.id) r.id db.triages
      || Table.contains triage_key r.ticket_id db.triages
      || not (Table.contains ticket_key r.ticket_id db.tickets)
    then none
    else some (record db { triages = db.triages ++ r ∷ [] })

unfoldable pub insert_correction : Correction → Db → Option Db
insert_correction r db =
    if Table.contains (λ (x : Correction). x.id) r.id db.corrections
      || Table.contains correction_key r.ticket_id db.corrections
      || not (Table.contains ticket_key r.ticket_id db.tickets)
    then none
    else some (record db { corrections = db.corrections ++ r ∷ [] })

unfoldable pub insert_draft : ReplyDraft → Db → Option Db
insert_draft r db =
    if Table.contains (λ (x : ReplyDraft). x.id) r.id db.reply_drafts
      || Table.contains draft_key r.ticket_id db.reply_drafts
      || not (Table.contains ticket_key r.ticket_id db.tickets)
    then none
    else some (record db { reply_drafts = db.reply_drafts ++ r ∷ [] })

unfoldable pub insert_call : LlmCall → Db → Option Db
insert_call r db =
    if Table.contains (λ (x : LlmCall). x.id) r.id db.llm_calls
      || elim r.ticket_id [ none ↦ false | some k ↦ not (Table.contains ticket_key k db.tickets) ]
    then none
    else some (record db { llm_calls = db.llm_calls ++ r ∷ [] })

-- The UPDATE of a row. A draft is addressed by its ticket, which is unique among the drafts.
unfoldable pub save_ticket : Ticket → Db → Db
save_ticket t db = record db { tickets = Table.replace ticket_key t db.tickets }

unfoldable pub save_draft : ReplyDraft → Db → Db
save_draft d db = record db { reply_drafts = Table.replace draft_key d db.reply_drafts }
