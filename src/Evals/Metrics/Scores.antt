-- ===== src/Evals/Metrics/Scores.antt =====
-- What the scores are: shares from 0 to 1, whose parts add up.
use mathlib.Core.Path.{subst}
use ticket_triage.Base.{ap, ℕ, ◌+◌, ◌*◌, ◌≤◌, ◌≡◌, ◌==◌, List, [], ◌∷◌, length, map, All, arith}
use ticket_triage.Text.{Text, text_eq}
use ticket_triage.Counts.{count_if, count_if-le}
use ticket_triage.Evals.Ratio.{
  quotient, add, mul, divide, twice, IsShare, Same, quotient-IsShare, harmonic_lem,
  harmonic-IsShare, mean-IsShare,
}
use ticket_triage.Evals.Metrics.{
  Pair, says, is_correct, LabelStat, true_positives, false_positives, false_negatives, support_of,
  label_stat, f1_scores, field_metrics,
}

-- All ratios of a label are shares.
pub record IsFair (pairs : List Pair) (s : LabelStat) : Type 0 where
  pub precision : IsShare s.precision
  pub recall : IsShare s.recall
  pub f1 : IsShare s.f1
  pub support : s.support ≤ length pairs

label_stat-IsFair : (pairs : List Pair) (label : Text) → IsFair pairs (label_stat pairs label)
unfolding label_stat
label_stat-IsFair pairs label =
    let tp : ℕ = true_positives label pairs in
    let p = quotient-IsShare tp (tp + false_positives label pairs) (omega arith) in
    let r = quotient-IsShare tp (tp + false_negatives label pairs) (omega arith) in
    record {
      precision = p;
      recall = r;
      f1 = harmonic-IsShare _ _ p r;
      support = count_if-le (λ (q : Pair). q.gold == label) pairs;
    }

f1_scores-IsShare :
    (pairs : List Pair) (labels : List Text)
    → All IsShare (f1_scores (map (label_stat pairs) labels))
unfolding f1_scores
f1_scores-IsShare pairs [] = tt
f1_scores-IsShare pairs (l ∷ ls) =
    ground (arith, (label_stat-IsFair pairs l).f1, f1_scores-IsShare pairs ls)

labels-IsFair :
    (pairs : List Pair) (labels : List Text) → All (IsFair pairs) (map (label_stat pairs) labels)
labels-IsFair pairs [] = tt
labels-IsFair pairs (l ∷ ls) = (label_stat-IsFair pairs l, labels-IsFair pairs ls)

-- Accuracy, macro-F1 and every label's precision, recall and F1 are numbers from 0 to 1, for any
-- rows and labels, none included.
pub field_metrics-IsShare :
    (pairs : List Pair) (labels : List Text)
    → let m = field_metrics pairs labels in
      IsShare m.accuracy × IsShare m.macro_f1 × All (IsFair pairs) m.labels
unfolding field_metrics
field_metrics-IsShare pairs labels = (
  quotient-IsShare _ _ (count_if-le is_correct pairs),
  mean-IsShare _ (f1_scores-IsShare pairs labels),
  labels-IsFair pairs labels,
)

-- The true positives and false negatives of a label are the rows with that gold label.
support_split :
    (label : Text) (pairs : List Pair)
    → true_positives label pairs + false_negatives label pairs ≡ support_of label pairs
support_split label [] = omega arith
support_split label (p ∷ ps) = ground (arith, support_split label ps)

abbrev pub predictions_of : Text → List Pair → ℕ
predictions_of label = count_if (λ (p : Pair). says label p.pred)

-- The true and false positives of a label are the predictions of it.
predictions_split :
    (label : Text) (pairs : List Pair)
    → true_positives label pairs + false_positives label pairs ≡ predictions_of label pairs
predictions_split label [] = omega arith
predictions_split label (p ∷ ps) = ground (arith, predictions_split label ps)

-- Each label is reported with its own counts: recall is the share of its gold rows that were found, a
-- row without a prediction counting as missed, and F1 is twice the true positives over the gold rows
-- and the predictions of the label together, also where a denominator is 0.
pub label_stat-dice :
    (label : Text) (pairs : List Pair)
    → let tp = true_positives label pairs in
      ((label_stat pairs label).recall ≡ quotient tp (support_of label pairs))
      × Same
          (label_stat pairs label).f1
          (quotient (2 * tp) (support_of label pairs + predictions_of label pairs))
unfolding label_stat
label_stat-dice label pairs =
    let tp : ℕ = true_positives label pairs in
    let gold = support_split label pairs in
    let said = predictions_split label pairs in
    let fp : ℕ = false_positives label pairs in
    let fn : ℕ = false_negatives label pairs in
    let denominator : tp + fp + (tp + fn) ≡ support_of label pairs + predictions_of label pairs =
      omega (arith, gold, said) in
    (
      ap (quotient tp) gold,
      subst
          (λ d.
            Same
              (divide (twice (mul (quotient tp (tp + fp)) (quotient tp (tp + fn))))
                (add (quotient tp (tp + fp)) (quotient tp (tp + fn))))
              (quotient (2 * tp) d))
          denominator (harmonic_lem tp (tp + fp) (tp + fn) (omega arith) (omega arith)),
    )
