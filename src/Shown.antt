-- ===== src/Shown.antt =====
-- The forms in which the API shows a triage and a correction: `_triage_out` and `_correction_out` of
-- app/routers/tickets.py, with the schemas of app/schemas/tickets.py.
use ticket_triage.Base.{ℕ, Option, none, some}
use ticket_triage.Text.{Text}
use ticket_triage.Labels.{Intent, Priority, Sentiment}
use ticket_triage.Model.{Triage, Correction, Db, triage_of, correction_of}

pub record TriageOut : Type 0 where
  pub intent : Intent
  pub priority : Priority
  pub sentiment : Sentiment
  pub summary : Text
  pub model : Text
  pub prompt_version : Text
  pub attempts : ℕ
  pub created_at : ℕ

pub record CorrectionOut : Type 0 where
  pub intent : Intent
  pub priority : Priority
  pub sentiment : Sentiment
  pub note : Option Text
  pub created_at : ℕ

abbrev pub triage_form : Option Triage → Option TriageOut
triage_form none = none
triage_form (some row) = some (record {
  intent = row.intent;
  priority = row.priority;
  sentiment = row.sentiment;
  summary = row.summary;
  model = row.model;
  prompt_version = row.prompt_version;
  attempts = row.attempts;
  created_at = row.created_at;
})

abbrev pub correction_form : Option Correction → Option CorrectionOut
correction_form none = none
correction_form (some row) = some (record {
  intent = row.intent;
  priority = row.priority;
  sentiment = row.sentiment;
  note = row.note;
  created_at = row.created_at;
})

-- `_triage_out`
abbrev pub triage_out : Db → Text → Option TriageOut
triage_out db k = triage_form (triage_of k db)

-- `_correction_out`
abbrev pub correction_out : Db → Text → Option CorrectionOut
correction_out db k = correction_form (correction_of k db)
