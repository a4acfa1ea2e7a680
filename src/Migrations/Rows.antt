-- ===== src/Migrations/Rows.antt =====
-- The rows of the models as the tables store them: the values of the columns of app/models.py by
-- name, an enumeration as its word. `dump` is the database in the tables that the migrations leave.
use ticket_triage.Base.{Option, none, some, List, [], ◌∷◌, map}
use ticket_triage.Text.{Text, codes}
use ticket_triage.Labels.{
  Channel, email, web, api, Status, received, triaged, needs_human, TriageError, parse_failed,
  provider_error, circuit_open, Purpose, classify, repair, reply_draft, reply_repair, Outcome, ok,
  parse_error, timeout, api_error, ReplyState, intent_name, priority_name, sentiment_name,
}
use ticket_triage.Model.{Ticket, Triage, LlmCall, Correction, ReplyDraft, RoutingRule, Db}
use ticket_triage.Migrations.Ddl.{Value, null, text, number, Row, Store, TableDef, Stored}
use ticket_triage.Migrations.Init.{tickets_def, triages_def, calls_def, corrections_def, rules_def}
use ticket_triage.Migrations.Drafts.{drafts_def, new_purpose_words}

abbrev pub channel_word : Channel → Text
channel_word email = codes "email"
channel_word web = codes "web"
channel_word api = codes "api"

abbrev pub status_word : Status → Text
status_word received = codes "received"
status_word triaged = codes "triaged"
status_word needs_human = codes "needs_human"
status_word Status.approved = codes "approved"
status_word Status.corrected = codes "corrected"

abbrev pub triage_error_word : TriageError → Text
triage_error_word parse_failed = codes "parse_failed"
triage_error_word provider_error = codes "provider_error"
triage_error_word circuit_open = codes "circuit_open"

abbrev pub purpose_word : Purpose → Text
purpose_word classify = codes "classify"
purpose_word repair = codes "repair"
purpose_word reply_draft = codes "reply_draft"
purpose_word reply_repair = codes "reply_repair"

abbrev pub outcome_word : Outcome → Text
outcome_word ok = codes "ok"
outcome_word parse_error = codes "parse_error"
outcome_word timeout = codes "timeout"
outcome_word api_error = codes "api_error"

abbrev pub state_word : ReplyState → Text
state_word ReplyState.draft = codes "draft"
state_word ReplyState.approved = codes "approved"
state_word ReplyState.discarded = codes "discarded"

abbrev pub or_null : {A : Type 0} → (A → Value) → Option A → Value
or_null f none = null
or_null f (some a) = f a

abbrev pub ticket_values : Ticket → Row
ticket_values t =
    (codes "id", text t.id)
    ∷ (codes "external_id", text t.external_id)
    ∷ (codes "channel", text (channel_word t.channel))
    ∷ (codes "sender", text t.sender)
    ∷ (codes "subject", text t.subject)
    ∷ (codes "body", text t.body)
    ∷ (codes "status", text (status_word t.status))
    ∷ (codes "queue", or_null text t.queue)
    ∷ (codes "triage_error", or_null (λ e. text (triage_error_word e)) t.triage_error)
    ∷ (codes "created_at", number t.created_at)
    ∷ (codes "updated_at", number t.updated_at)
    ∷ []

abbrev pub triage_values : Triage → Row
triage_values r =
    (codes "id", text r.id)
    ∷ (codes "ticket_id", text r.ticket_id)
    ∷ (codes "intent", text (intent_name r.intent))
    ∷ (codes "priority", text (priority_name r.priority))
    ∷ (codes "sentiment", text (sentiment_name r.sentiment))
    ∷ (codes "summary", text r.summary)
    ∷ (codes "model", text r.model)
    ∷ (codes "prompt_version", text r.prompt_version)
    ∷ (codes "attempts", number r.attempts)
    ∷ (codes "created_at", number r.created_at)
    ∷ []

abbrev pub call_values : LlmCall → Row
call_values c =
    (codes "id", text c.id)
    ∷ (codes "ticket_id", or_null text c.ticket_id)
    ∷ (codes "purpose", text (purpose_word c.purpose))
    ∷ (codes "model", text c.model)
    ∷ (codes "input_tokens", or_null number c.input_tokens)
    ∷ (codes "output_tokens", or_null number c.output_tokens)
    ∷ (codes "cost_usd", number c.cost_usd)
    ∷ (codes "latency_ms", number c.latency_ms)
    ∷ (codes "outcome", text (outcome_word c.outcome))
    ∷ (codes "created_at", number c.created_at)
    ∷ []

abbrev pub correction_values : Correction → Row
correction_values c =
    (codes "id", text c.id)
    ∷ (codes "ticket_id", text c.ticket_id)
    ∷ (codes "intent", text (intent_name c.intent))
    ∷ (codes "priority", text (priority_name c.priority))
    ∷ (codes "sentiment", text (sentiment_name c.sentiment))
    ∷ (codes "note", or_null text c.note)
    ∷ (codes "created_at", number c.created_at)
    ∷ []

abbrev pub draft_values : ReplyDraft → Row
draft_values d =
    (codes "id", text d.id)
    ∷ (codes "ticket_id", text d.ticket_id)
    ∷ (codes "body", text d.body)
    ∷ (codes "state", text (state_word d.state))
    ∷ (codes "model", text d.model)
    ∷ (codes "prompt_version", text d.prompt_version)
    ∷ (codes "attempts", number d.attempts)
    ∷ (codes "created_at", number d.created_at)
    ∷ (codes "updated_at", number d.updated_at)
    ∷ []

abbrev pub rule_values : RoutingRule → Row
rule_values r =
    (codes "id", number r.id)
    ∷ (codes "position", number r.position)
    ∷ (codes "intent", or_null (λ i. text (intent_name i)) r.intent)
    ∷ (codes "priority", or_null (λ p. text (priority_name p)) r.priority)
    ∷ (codes "sentiment", or_null (λ s. text (sentiment_name s)) r.sentiment)
    ∷ (codes "queue", text r.queue)
    ∷ []

abbrev pub stored : TableDef → List (Text × Text) → List Row → Stored
stored d indexes rows = record { definition = d; indexes = indexes; rows = rows }

abbrev pub call_indexes : List (Text × Text)
call_indexes =
    (codes "ix_llm_calls_created_at", codes "created_at")
    ∷ (codes "ix_llm_calls_ticket_id", codes "ticket_id")
    ∷ []

abbrev pub ticket_indexes : List (Text × Text)
ticket_indexes =
    (codes "ix_tickets_created_at", codes "created_at")
    ∷ (codes "ix_tickets_status", codes "status")
    ∷ []

-- The tables of revision 0001, where llm_calls takes these purposes.
abbrev pub base_tables : List Text → Db → Store
base_tables purposes db =
    stored rules_def [] (map rule_values db.routing_rules)
    ∷ stored corrections_def [] (map correction_values db.corrections)
    ∷ stored (calls_def purposes) call_indexes (map call_values db.llm_calls)
    ∷ stored triages_def [] (map triage_values db.triages)
    ∷ stored tickets_def ticket_indexes (map ticket_values db.tickets)
    ∷ []

abbrev pub dump : Db → Store
dump db = stored drafts_def [] (map draft_values db.reply_drafts) ∷ base_tables new_purpose_words db
