-- ===== src/Export.antt =====
-- app/services/export.py: the gold labels of the decided tickets, oldest first. A line is the
-- record that `json.dumps` writes out; a join with a table whose ticket_id is unique is a lookup.
pub mod Gold
use ticket_triage.Base.{
  ℕ, Bool, true, false, ◌==◌, not, Option, none, some, List, [], ◌∷◌, ◌++◌, map, leb, if◌then◌else◌,
}
use ticket_triage.Errors.{Answer, success, error, validation_error}
use ticket_triage.Stats.{malformed, since_time, parse_since}
use ticket_triage.Text.{Text, codes}
use ticket_triage.Labels.{Intent, Priority, Sentiment, Channel, Status, status_eq}
use ticket_triage.Table.{order_by}
use ticket_triage.Model.{Ticket, Triage, Correction, Db, triage_of, correction_of}

pub record ExportLine : Type 0 where
  pub external_id : Text
  pub channel : Channel
  pub sender : Text
  pub subject : Text
  pub body : Text
  pub intent : Intent
  pub priority : Priority
  pub sentiment : Sentiment
  pub source : Text

-- A line with the time by which the lines are sorted.
pub record ExportRow : Type 0 where
  pub at : ℕ
  pub line : ExportLine

-- `_line`
abbrev pub gold_line : Ticket → Intent → Priority → Sentiment → Text → ExportLine
gold_line t intent priority sentiment source = record {
  external_id = t.external_id;
  channel = t.channel;
  sender = t.sender;
  subject = t.subject;
  body = t.body;
  intent = intent;
  priority = priority;
  sentiment = sentiment;
  source = source;
}

-- `since is not None and time < since`
abbrev pub before : Option ℕ → ℕ → Bool
before none time = false
before (some since) time = not (leb since time)

abbrev pub correction_export : Ticket → Correction → ExportRow
correction_export t c = record {
  at = c.created_at;
  line = gold_line t c.intent c.priority c.sentiment (codes "corrected");
}

abbrev pub triage_export : Ticket → Triage → ExportRow
triage_export t r = record {
  at = t.updated_at;
  line = gold_line t r.intent r.priority r.sentiment (codes "approved");
}

-- What one ticket adds in the loop over the corrected tickets, and in the one over the approved.
unfoldable pub corrected_part : Option ℕ → Db → Ticket → List ExportRow
corrected_part since db t =
    if t.status == Status.corrected
    then elim (correction_of t.id db) [
      | none ↦ []
      | some c ↦ if before since c.created_at then [] else correction_export t c ∷ []
    ]
    else []

unfoldable pub approved_part : Option ℕ → Db → Ticket → List ExportRow
approved_part since db t =
    if t.status == Status.approved
    then elim (triage_of t.id db) [
      | none ↦ []
      | some r ↦ if before since t.updated_at then [] else triage_export t r ∷ []
    ]
    else []

unfoldable pub corrected_rows : Option ℕ → Db → List Ticket → List ExportRow
corrected_rows since db [] = []
corrected_rows since db (t ∷ ts) = corrected_part since db t ++ corrected_rows since db ts

unfoldable pub approved_rows : Option ℕ → Db → List Ticket → List ExportRow
approved_rows since db [] = []
approved_rows since db (t ∷ ts) = approved_part since db t ++ approved_rows since db ts

unfoldable pub export_rows : Option ℕ → Db → List ExportRow
export_rows since db =
    order_by (λ (r : ExportRow). r.at)
      (corrected_rows since db db.tickets ++ approved_rows since db db.tickets)

unfoldable pub export_lines : Option ℕ → Db → List ExportLine
unfolding export_rows
export_lines since db = map (λ (r : ExportRow). r.line) (export_rows since db)

-- The route `export_corrections` of app/routers/reviews.py.
unfoldable pub export_corrections : (Text → Option ℕ) → Option Text → Db → Answer (List ExportLine)
unfolding export_lines parse_since
export_corrections fromisoformat since db = elim (parse_since fromisoformat since) [
  | malformed ↦ error validation_error (codes "since must be an ISO-8601 timestamp.")
  | since_time time ↦ success 200 (export_lines time db)
]
