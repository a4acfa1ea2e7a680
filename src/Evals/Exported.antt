-- ===== src/Evals/Exported.antt =====
-- The corrections export as a dataset: app/services/export.py writes the fields of
-- evals/dataset.jsonl, which evals/run.py reads.
use ticket_triage.Base.{ℕ, List, ◌==◌, if◌then◌else◌}
use ticket_triage.Text.{Text, text_eq}
use ticket_triage.Labels.{intent_name, priority_name, sentiment_name}
use ticket_triage.Counts.{total_by}
use ticket_triage.Model.Lifecycle.{Lifecycle}
use ticket_triage.Export.{ExportLine}
use ticket_triage.Evals.Metrics.{intent, priority, sentiment, Pair, support_of}
use ticket_triage.Evals.Pipeline.{EvalRow}

-- What `load_dataset` reads from an exported line.
abbrev pub eval_row : ExportLine → EvalRow
eval_row line = record {
  external_id = line.external_id;
  letter = record {
    subject = line.subject;
    sender = line.sender;
    channel = line.channel;
    body = line.body;
  };
  gold = record {
    intent = intent_name line.intent;
    priority = priority_name line.priority;
    sentiment = sentiment_name line.sentiment;
  };
}

-- How often a text stands in a list.
abbrev occurrences : Text → List Text → ℕ
occurrences gold = total_by (λ label. if gold == label then 1 else 0)

-- The supports of some labels.
abbrev pub supports : List Text → List Pair → ℕ
supports labels pairs = total_by (λ label. support_of label pairs) labels
