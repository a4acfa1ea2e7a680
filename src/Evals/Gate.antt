-- ===== src/Evals/Gate.antt =====
-- The baseline gate of evals/run.py: `build_baseline` and `compare_baseline`.
pub mod Worst
pub mod Unchanged
use ticket_triage.Base.{
  ℕ, zero, suc, ◌+◌, ◌*◌, take, Bool, true, false, ◌&&◌, ◌||◌, not, ◌==◌, Option, none, some, List,
  [], ◌∷◌, ◌++◌, length, ltb, if◌then◌else◌,
}
use ticket_triage.Text.{Text, codes, text_eq, decimal}
use ticket_triage.Client.{round_div}
use ticket_triage.Prompts.{prompt_version}
use ticket_triage.Evals.Ratio.{Ratio, zero_ratio, quotient}
use ticket_triage.Evals.Metrics.{
  Field, intent, priority, sentiment, FieldMetrics, Metrics, RunOutput, RowResult, compute_metrics,
  parse_failure_rate,
}

-- The difference of two ratios: `gain - loss` over a common denominator.
pub record Delta : Type 0 where
  pub gain : ℕ
  pub loss : ℕ
  pub scale : ℕ

abbrev pub minus : Ratio → Ratio → Delta
minus a b = record { gain = a.num * b.den; loss = b.num * a.den; scale = a.den * b.den }

abbrev pub negated : Ratio → Delta
negated r = record { gain = 0; loss = r.num; scale = r.den }

-- `x < y`
unfoldable pub less : Delta → Delta → Bool
less x y = ltb (x.gain * y.scale + y.loss * x.scale) (y.gain * x.scale + x.loss * y.scale)

-- The scores of one field in a baseline.
pub record BaseScore : Type 0 where
  pub accuracy : Ratio
  pub macro_f1 : Ratio

-- A baseline file. The keys that the code reads by `get` may be missing.
pub record Baseline : Type 0 where
  pub created_at : Text
  pub model : Text
  pub prompt_version : Text
  pub dataset_sha256 : Option Text
  pub n : ℕ
  pub metrics : Field → BaseScore
  pub parse_failure_rate : Option Ratio

-- `round(_, 4)`
unfoldable pub rounded : Ratio → Ratio
unfolding round_div
rounded r = record { num = round_div (r.num * 10000) r.den; den = 10000 }

unfoldable pub build_baseline : Metrics → RunOutput → Text → Text → Text → Baseline
unfolding rounded parse_failure_rate
build_baseline metrics output sha model now = record {
  created_at = now;
  model = model;
  prompt_version = prompt_version;
  dataset_sha256 = some sha;
  n = length output.results;
  metrics = λ field. record {
    accuracy = rounded (metrics.scores field).accuracy;
    macro_f1 = rounded (metrics.scores field).macro_f1;
  };
  parse_failure_rate = some (rounded (parse_failure_rate output));
}

-- One score that is compared, by its label.
pub record Drop : Type 0 where
  pub label : Text
  pub delta : Delta

unfoldable pub field_name : Field → Text
field_name intent = codes "intent"
field_name priority = codes "priority"
field_name sentiment = codes "sentiment"

-- The two drops of a field.
abbrev pub field_drops : Metrics → Baseline → Field → List Drop
field_drops metrics baseline field =
    record {
      label = field_name field ++ codes " accuracy";
      delta = minus (metrics.scores field).accuracy (baseline.metrics field).accuracy;
    }
    ∷ record {
      label = field_name field ++ codes " macro_f1";
      delta = minus (metrics.scores field).macro_f1 (baseline.metrics field).macro_f1;
    }
    ∷ []

abbrev pub rate_or_zero : Option Ratio → Ratio
rate_or_zero none = zero_ratio
rate_or_zero (some r) = r

abbrev pub rate_drop : Baseline → Ratio → Drop
rate_drop baseline pf_rate = record {
  label = codes "parse_failure_rate";
  delta = minus (rate_or_zero baseline.parse_failure_rate) pf_rate;
}

abbrev pub later_drops : Metrics → Baseline → Ratio → List Drop
later_drops metrics baseline pf_rate =
    record {
      label = field_name intent ++ codes " macro_f1";
      delta = minus (metrics.scores intent).macro_f1 (baseline.metrics intent).macro_f1;
    }
    ∷ (field_drops metrics baseline priority
        ++ (field_drops metrics baseline sentiment ++ rate_drop baseline pf_rate ∷ []))

-- `any(delta < -threshold ...)`
unfoldable pub any_below : Delta → List Drop → Bool
unfolding less
any_below limit [] = false
any_below limit (d ∷ ds) = less d.delta limit || any_below limit ds

-- `min(..., key=delta)`: the first of the smallest.
unfoldable pub smallest : Drop → List Drop → Drop
unfolding less
smallest d [] = d
smallest d (e ∷ es) = smallest (if less e.delta d.delta then e else d) es

-- Whether the run regressed, and its largest drop.
pub record Comparison : Type 0 where
  pub regressed : Bool
  pub drop : Drop

abbrev pub compare_drops : Drop → List Drop → Ratio → Comparison
compare_drops d ds threshold = record {
  regressed = any_below (negated threshold) (d ∷ ds);
  drop = smallest d ds;
}

abbrev pub first_drop : Metrics → Baseline → Drop
first_drop metrics baseline = record {
  label = field_name intent ++ codes " accuracy";
  delta = minus (metrics.scores intent).accuracy (baseline.metrics intent).accuracy;
}

unfoldable pub compare_baseline : Metrics → Baseline → Ratio → Ratio → Comparison
unfolding any_below smallest field_name
compare_baseline metrics baseline threshold pf_rate =
    compare_drops (first_drop metrics baseline) (later_drops metrics baseline pf_rate) threshold
