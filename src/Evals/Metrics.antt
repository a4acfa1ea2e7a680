-- ===== src/Evals/Metrics.antt =====
-- The scores of a run: `field_metrics`, `confusion_top`, `compute_metrics` and `parse_failure_rate`
-- of evals/run.py. A dict over FIELDS is a record with these fields.
pub mod Scores
use ticket_triage.Base.{
  ℕ, ◌+◌, ◌≡◌, Bool, true, false, ◌&&◌, ◌==◌, Eq, not, Option, none, some, List, [], ◌∷◌, length,
  map, take, leb, if◌then◌else◌, arith, inl, inr, ◌↔◌,
}
use ticket_triage.Text.{Text, text_eq}
use ticket_triage.Labels.{
  intents, priorities, sentiments, intent_name, priority_name, sentiment_name, TriageError,
}
use ticket_triage.Counts.{count_if, Group, group_counts}
use ticket_triage.Evals.Ratio.{Ratio, quotient, add, mul, divide, twice, from_nat, sum}

-- FIELDS
pub data Field : Type 0 where
  intent priority sentiment : Field

pub record Labelled : Type 0 where
  pub intent : Text
  pub priority : Text
  pub sentiment : Text

abbrev pub label_of : Field → Labelled → Text
label_of intent l = l.intent
label_of priority l = l.priority
label_of sentiment l = l.sentiment

-- LABELS
unfoldable pub labels_of : Field → List Text
unfolding intent_name priority_name sentiment_name
labels_of intent = map intent_name intents
labels_of priority = map priority_name priorities
labels_of sentiment = map sentiment_name sentiments

pub record RowResult : Type 0 where
  pub external_id : Text
  pub gold : Labelled
  pub pred : Option Labelled
  pub failure : Option TriageError

-- `RunOutput`, without the elapsed time.
pub record RunOutput : Type 0 where
  pub results : List RowResult
  pub calls : ℕ
  pub input_tokens : ℕ
  pub output_tokens : ℕ
  pub cost_usd : ℕ
  pub provider_errors : ℕ
  pub parse_failures : ℕ

-- A gold label with its prediction, if there is one.
pub record Pair : Type 0 where
  pub gold : Text
  pub pred : Option Text

abbrev pub says : Text → Option Text → Bool
says label none = false
says label (some p) = p == label

abbrev pub is_correct : Pair → Bool
is_correct p = says p.gold p.pred

pub record LabelStat : Type 0 where
  pub label : Text
  pub precision : Ratio
  pub recall : Ratio
  pub f1 : Ratio
  pub support : ℕ

pub record FieldMetrics : Type 0 where
  pub accuracy : Ratio
  pub macro_f1 : Ratio
  pub labels : List LabelStat

-- The counts of one label.
abbrev pub true_positives : Text → List Pair → ℕ
true_positives label = count_if (λ (p : Pair). says label p.pred && p.gold == label)

abbrev pub false_positives : Text → List Pair → ℕ
false_positives label = count_if (λ (p : Pair). says label p.pred && not (p.gold == label))

abbrev pub false_negatives : Text → List Pair → ℕ
false_negatives label = count_if (λ (p : Pair). p.gold == label && not (says label p.pred))

abbrev pub support_of : Text → List Pair → ℕ
support_of label = count_if (λ (p : Pair). p.gold == label)

unfoldable pub label_stat : List Pair → Text → LabelStat
label_stat pairs label =
    let tp = true_positives label pairs in
    let precision = quotient tp (tp + false_positives label pairs) in
    let recall = quotient tp (tp + false_negatives label pairs) in
    record {
      label = label;
      precision = precision;
      recall = recall;
      f1 = divide (twice (mul precision recall)) (add precision recall);
      support = support_of label pairs;
    }

-- `f1_scores`, of the labels that occur.
unfoldable pub f1_scores : List LabelStat → List Ratio
f1_scores [] = []
f1_scores (s ∷ ss) = if leb 1 s.support then s.f1 ∷ f1_scores ss else f1_scores ss

unfoldable pub field_metrics : List Pair → List Text → FieldMetrics
unfolding label_stat f1_scores
field_metrics pairs labels =
    let stats = map (label_stat pairs) labels in
    record {
      accuracy = quotient (count_if is_correct pairs) (length pairs);
      macro_f1 = divide (sum (f1_scores stats)) (from_nat (length (f1_scores stats)));
      labels = stats;
    }

-- A confusion: a gold label and another prediction.
pub record Confusion : Type 0 where
  pub gold : Text
  pub pred : Text

abbrev pub same_confusion : Confusion → Confusion → Bool
same_confusion a b = a.gold == b.gold && a.pred == b.pred

pub same_confusion_iff : (a b : Confusion) → (same_confusion a b ≡ true) ↔ (a ≡ b)
same_confusion_iff a b =
    ground (arith, text_eq.beq_iff a.gold b.gold, text_eq.beq_iff a.pred b.pred)

instance abbrev pub confusion_eq : Eq Confusion
confusion_eq = record { beq = same_confusion; beq_iff = same_confusion_iff }

unfoldable pub confusions : List Pair → List Confusion
confusions [] = []
confusions (p ∷ ps) =
    let rest = confusions ps in
    elim p.pred [
      | none ↦ rest
      | some q ↦ if p.gold == q then rest else record { gold = p.gold; pred = q } ∷ rest
    ]

-- `Counter.most_common`: by falling count.
unfoldable pub insert_common : Group Confusion → List (Group Confusion) → List (Group Confusion)
insert_common g [] = g ∷ []
insert_common g (h ∷ hs) = if leb h.size g.size then g ∷ h ∷ hs else h ∷ insert_common g hs

unfoldable pub most_common : List (Group Confusion) → List (Group Confusion)
unfolding insert_common
most_common [] = []
most_common (g ∷ gs) = insert_common g (most_common gs)

unfoldable pub confusion_top : List Pair → ℕ → List (Group Confusion)
unfolding confusions most_common
confusion_top pairs k = take k (most_common (group_counts (confusions pairs)))

-- The pairs of one field, and the metrics of all.
abbrev pub pair_of : Field → RowResult → Pair
pair_of field r = record {
  gold = label_of field r.gold;
  pred = elim r.pred [ none ↦ none | some l ↦ some (label_of field l) ];
}

pub record Metrics : Type 0 where
  pub scores : Field → FieldMetrics
  pub confusion : Field → List (Group Confusion)

unfoldable pub compute_metrics : RunOutput → Metrics
unfolding field_metrics confusion_top labels_of
compute_metrics output = record {
  scores = λ field. field_metrics (map (pair_of field) output.results) (labels_of field);
  confusion = λ field. confusion_top (map (pair_of field) output.results) 5;
}

unfoldable pub parse_failure_rate : RunOutput → Ratio
parse_failure_rate output = quotient output.parse_failures (length output.results)
