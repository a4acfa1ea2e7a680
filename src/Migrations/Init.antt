-- ===== src/Migrations/Init.antt =====
-- migrations/versions/0001_init.py: the tables of the first revision, and their removal.
use ticket_triage.Base.{true, false, List, [], ◌∷◌}
use ticket_triage.Text.{Text, codes}
use ticket_triage.Migrations.Ddl.{
  Kind, string, long_text, integer, numeric, date_time, Column, Check, is_in, is_null, is_not_null,
  either, primary_key, foreign_key, unique, check, TableDef, Op, create_table, drop_table,
  create_index, drop_index,
}

-- `sa.Column(name, kind, nullable=False)`, with `primary_key=True` a constraint of the table.
abbrev pub required : Text → Kind → Column
required name kind = record { name = name; kind = kind; nullable = false }

abbrev pub optional : Text → Kind → Column
optional name kind = record { name = name; kind = kind; nullable = true }

-- _INTENT, _PRIORITY, _SENTIMENT, _CHANNEL, _STATUS, _TRIAGE_ERROR, _PURPOSE, _OUTCOME
abbrev pub intent_words : List Text
intent_words =
    codes "billing"
    ∷ codes "bug"
    ∷ codes "how_to"
    ∷ codes "feature_request"
    ∷ codes "account_access"
    ∷ codes "refund"
    ∷ codes "other"
    ∷ []

abbrev pub priority_words : List Text
priority_words = codes "P1" ∷ codes "P2" ∷ codes "P3" ∷ codes "P4" ∷ []

abbrev pub sentiment_words : List Text
sentiment_words = codes "negative" ∷ codes "neutral" ∷ codes "positive" ∷ []

abbrev pub channel_words : List Text
channel_words = codes "email" ∷ codes "web" ∷ codes "api" ∷ []

abbrev pub status_words : List Text
status_words =
    codes "received"
    ∷ codes "triaged"
    ∷ codes "needs_human"
    ∷ codes "approved"
    ∷ codes "corrected"
    ∷ []

abbrev pub triage_error_words : List Text
triage_error_words = codes "parse_failed" ∷ codes "provider_error" ∷ codes "circuit_open" ∷ []

abbrev pub purpose_words : List Text
purpose_words = codes "classify" ∷ codes "repair" ∷ []

abbrev pub outcome_words : List Text
outcome_words = codes "ok" ∷ codes "parse_error" ∷ codes "timeout" ∷ codes "api_error" ∷ []

abbrev pub or_null : Text → List Text → Check
or_null column words = either (is_null column) (is_in column words)

abbrev pub tickets_def : TableDef
tickets_def = record {
  name = codes "tickets";
  columns =
      required (codes "id") (string 32)
      ∷ required (codes "external_id") (string 128)
      ∷ required (codes "channel") (string 16)
      ∷ required (codes "sender") (string 320)
      ∷ required (codes "subject") (string 500)
      ∷ required (codes "body") long_text
      ∷ required (codes "status") (string 16)
      ∷ optional (codes "queue") (string 64)
      ∷ optional (codes "triage_error") (string 32)
      ∷ required (codes "created_at") date_time
      ∷ required (codes "updated_at") date_time
      ∷ [];
  constraints =
      primary_key (codes "id")
      ∷ unique (codes "uq_tickets_external_id") (codes "external_id")
      ∷ check (codes "ck_tickets_channel") (is_in (codes "channel") channel_words)
      ∷ check (codes "ck_tickets_status") (is_in (codes "status") status_words)
      ∷ check (codes "ck_tickets_triage_error") (or_null (codes "triage_error") triage_error_words)
      ∷ [];
}

abbrev pub triages_def : TableDef
triages_def = record {
  name = codes "triages";
  columns =
      required (codes "id") (string 32)
      ∷ required (codes "ticket_id") (string 32)
      ∷ required (codes "intent") (string 32)
      ∷ required (codes "priority") (string 8)
      ∷ required (codes "sentiment") (string 16)
      ∷ required (codes "summary") (string 600)
      ∷ required (codes "model") (string 128)
      ∷ required (codes "prompt_version") (string 16)
      ∷ required (codes "attempts") integer
      ∷ required (codes "created_at") date_time
      ∷ [];
  constraints =
      primary_key (codes "id")
      ∷ foreign_key (codes "fk_triages_ticket") (codes "ticket_id") (codes "tickets") (codes "id")
      ∷ unique (codes "uq_triages_ticket_id") (codes "ticket_id")
      ∷ check (codes "ck_triages_intent") (is_in (codes "intent") intent_words)
      ∷ check (codes "ck_triages_priority") (is_in (codes "priority") priority_words)
      ∷ check (codes "ck_triages_sentiment") (is_in (codes "sentiment") sentiment_words)
      ∷ [];
}

-- llm_calls, for the words that its purpose may be.
abbrev pub calls_def : List Text → TableDef
calls_def purposes = record {
  name = codes "llm_calls";
  columns =
      required (codes "id") (string 32)
      ∷ optional (codes "ticket_id") (string 32)
      ∷ required (codes "purpose") (string 16)
      ∷ required (codes "model") (string 128)
      ∷ optional (codes "input_tokens") integer
      ∷ optional (codes "output_tokens") integer
      ∷ required (codes "cost_usd") (numeric 10 6)
      ∷ required (codes "latency_ms") integer
      ∷ required (codes "outcome") (string 16)
      ∷ required (codes "created_at") date_time
      ∷ [];
  constraints =
      primary_key (codes "id")
      ∷ foreign_key (codes "fk_llm_calls_ticket") (codes "ticket_id") (codes "tickets") (codes "id")
      ∷ check (codes "ck_llm_calls_purpose") (is_in (codes "purpose") purposes)
      ∷ check (codes "ck_llm_calls_outcome") (is_in (codes "outcome") outcome_words)
      ∷ [];
}

abbrev pub corrections_def : TableDef
corrections_def = record {
  name = codes "corrections";
  columns =
      required (codes "id") (string 32)
      ∷ required (codes "ticket_id") (string 32)
      ∷ required (codes "intent") (string 32)
      ∷ required (codes "priority") (string 8)
      ∷ required (codes "sentiment") (string 16)
      ∷ optional (codes "note") (string 1000)
      ∷ required (codes "created_at") date_time
      ∷ [];
  constraints =
      primary_key (codes "id")
      ∷ foreign_key (codes "fk_corrections_ticket") (codes "ticket_id") (codes "tickets")
          (codes "id")
      ∷ unique (codes "uq_corrections_ticket_id") (codes "ticket_id")
      ∷ check (codes "ck_corrections_intent") (is_in (codes "intent") intent_words)
      ∷ check (codes "ck_corrections_priority") (is_in (codes "priority") priority_words)
      ∷ check (codes "ck_corrections_sentiment") (is_in (codes "sentiment") sentiment_words)
      ∷ [];
}

abbrev pub rules_def : TableDef
rules_def = record {
  name = codes "routing_rules";
  columns =
      required (codes "id") integer
      ∷ required (codes "position") integer
      ∷ optional (codes "intent") (string 32)
      ∷ optional (codes "priority") (string 8)
      ∷ optional (codes "sentiment") (string 16)
      ∷ required (codes "queue") (string 64)
      ∷ [];
  constraints =
      primary_key (codes "id")
      ∷ unique (codes "uq_routing_rules_position") (codes "position")
      ∷ check (codes "ck_routing_rules_intent") (or_null (codes "intent") intent_words)
      ∷ check (codes "ck_routing_rules_priority") (or_null (codes "priority") priority_words)
      ∷ check (codes "ck_routing_rules_sentiment") (or_null (codes "sentiment") sentiment_words)
      ∷ check (codes "ck_routing_rules_at_least_one") (
          either (either (is_not_null (codes "intent")) (is_not_null (codes "priority")))
            (is_not_null (codes "sentiment")))
      ∷ [];
}

unfoldable pub upgrade : List Op
upgrade =
    create_table tickets_def
    ∷ create_index (codes "ix_tickets_status") (codes "tickets") (codes "status")
    ∷ create_index (codes "ix_tickets_created_at") (codes "tickets") (codes "created_at")
    ∷ create_table triages_def
    ∷ create_table (calls_def purpose_words)
    ∷ create_index (codes "ix_llm_calls_ticket_id") (codes "llm_calls") (codes "ticket_id")
    ∷ create_index (codes "ix_llm_calls_created_at") (codes "llm_calls") (codes "created_at")
    ∷ create_table corrections_def
    ∷ create_table rules_def
    ∷ []

unfoldable pub downgrade : List Op
downgrade =
    drop_table (codes "routing_rules")
    ∷ drop_table (codes "corrections")
    ∷ drop_index (codes "ix_llm_calls_created_at") (codes "llm_calls")
    ∷ drop_index (codes "ix_llm_calls_ticket_id") (codes "llm_calls")
    ∷ drop_table (codes "llm_calls")
    ∷ drop_table (codes "triages")
    ∷ drop_index (codes "ix_tickets_created_at") (codes "tickets")
    ∷ drop_index (codes "ix_tickets_status") (codes "tickets")
    ∷ drop_table (codes "tickets")
    ∷ []
