-- ===== src/Evals/Gate/Worst.antt =====
-- The comparison with the baseline: the largest drop decides.
use mathlib.Core.Path.{◌∙◌, sym, subst}
use native.Mathlib.Nat.{mul-le-mul_right, le_of_mul-le-mul_left}
use ticket_triage.Base.{
  length, map, ap, ◌+◌, ◌*◌, ◌≤◌, ◌<◌, ◌≡◌, ◌↔◌, ◌⊎◌, refl, inl, inr, Bool, true, false, Bool-cases,
  ◌||◌, List, [], ◌∷◌, All, if◌then◌else◌, arith,
}
use ticket_triage.Text.{codes}
use ticket_triage.Evals.Ratio.{Ratio, IsShare, product_pos, quotient-den}
use ticket_triage.Evals.Metrics.{
  Field, intent, priority, sentiment, labels_of, pair_of, RunOutput, Metrics, compute_metrics,
  parse_failure_rate,
}
use ticket_triage.Evals.Metrics.Scores.{field_metrics-IsShare}
use ticket_triage.Evals.Gate.{
  Delta, minus, negated, less, Baseline, Drop, any_below, smallest, rate_or_zero, first_drop,
  later_drops, compare_baseline, field_name,
}

-- `x ≤ y`
abbrev pub AtMost : Delta → Delta → Type 0
AtMost x y = x.gain * y.scale + y.loss * x.scale ≤ y.gain * x.scale + x.loss * y.scale

pub less-AtMost : (x y : Delta) → (less x y ≡ false) ↔ AtMost y x
unfolding less
less-AtMost x y = ground arith

below-AtMost : (x y : Delta) → less x y ≡ true → AtMost x y
unfolding less
below-AtMost x y h = ground arith

AtMost-trans : (x y z : Delta) → 0 < y.scale → AtMost x y → AtMost y z → AtMost x z
AtMost-trans x y z pos h k =
    let left = mul-le-mul_right z.scale h in
    let right = mul-le-mul_right x.scale k in
    le_of_mul-le-mul_left {k = y.scale} (omega (arith, left, right)) pos

abbrev HasScale : Drop → Type 0
HasScale d = 0 < d.delta.scale

AtMost-refl : (x : Delta) → AtMost x x
AtMost-refl x = omega arith

-- The drop is one of a list.
abbrev pub Among : Drop → List Drop → Type 0
Among m [] = ⊥
Among m (d ∷ ds) = (m ≡ d) ⊎ Among m ds

skip_second : (m d e : Drop) (es : List Drop) → Among m (d ∷ es) → Among m (d ∷ e ∷ es)
skip_second m d e es (inl h) = inl h
skip_second m d e es (inr h) = inr (inr h)

-- A drop of a list that is not above any of them.
pub record IsLeast (m : Drop) (ds : List Drop) : Type 0 where
  pub member : Among m ds
  pub scaled : HasScale m
  pub below : All (λ (e : Drop). AtMost m.delta e.delta) ds

module _ (d e : Drop) (es : List Drop) where
  smallest-lower : less e.delta d.delta ≡ true → smallest d (e ∷ es) ≡ smallest e es
  unfolding smallest
  smallest-lower h = ap (λ b. smallest (if b then e else d) es) h

  smallest-higher : less e.delta d.delta ≡ false → smallest d (e ∷ es) ≡ smallest d es
  unfolding smallest
  smallest-higher h = ap (λ b. smallest (if b then e else d) es) h

smallest-IsLeast :
    (d : Drop) (ds : List Drop) → HasScale d → All HasScale ds → IsLeast (smallest d ds) (d ∷ ds)
unfolding smallest
smallest-IsLeast d [] p ps = record {
  member = inl refl;
  scaled = p;
  below = (AtMost-refl d.delta, tt);
}
smallest-IsLeast d (e ∷ es) p ps = elim (Bool-cases (less e.delta d.delta)) [
  | inl lower ↦
      let rest = smallest-IsLeast e es ps.0 ps.1 in
      let first =
        AtMost-trans _ e.delta d.delta ps.0 (rest.below).0 (below-AtMost e.delta d.delta lower) in
      subst (λ m. IsLeast m (d ∷ e ∷ es)) (sym (smallest-lower d e es lower))
        (record { member = inr rest.member; scaled = rest.scaled; below = (first, rest.below) })
  | inr higher ↦
      let rest = smallest-IsLeast d es p ps.1 in
      let first = (rest.below).0 in
      let second =
        AtMost-trans _ d.delta e.delta p first ((less-AtMost e.delta d.delta).0 higher) in
      subst (λ m. IsLeast m (d ∷ e ∷ es)) (sym (smallest-higher d e es higher))
        (record {
          member = skip_second (smallest d es) d e es rest.member;
          scaled = rest.scaled;
          below = (first, (second, (rest.below).1));
        })
]

less-from : (x y z : Delta) → 0 < x.scale → AtMost x y → less y z ≡ true → less x z ≡ true
less-from x y z pos h k = elim (Bool-cases (less x z)) [
  | inl e ↦ e
  | inr higher ↦
      let e = (less-AtMost y z).1 (AtMost-trans z x y pos ((less-AtMost x z).0 higher) h) in
      cc (k, e)
]

or_first : (a b r : Bool) → (b ≡ true → a ≡ true) → a || (b || r) ≡ a || r
or_first a b r h = ground arith

or_second : (a b r : Bool) → (a ≡ true → b ≡ true) → a || (b || r) ≡ b || r
or_second a b r h = ground arith

-- Some drop is below the limit exactly when the smallest is.
below-smallest :
    (limit : Delta) (d : Drop) (ds : List Drop)
    → HasScale d
    → All HasScale ds
    → any_below limit (d ∷ ds) ≡ less (smallest d ds).delta limit
unfolding any_below smallest
below-smallest limit d [] p ps = ground arith
below-smallest limit d (e ∷ es) p ps = elim (Bool-cases (less e.delta d.delta)) [
  | inl lower ↦
      or_second (less d.delta limit) (less e.delta limit) (any_below limit es)
        (less-from e.delta d.delta limit ps.0 (below-AtMost e.delta d.delta lower))
      ∙ below-smallest limit e es ps.0 ps.1
      ∙ ap (λ m. less m.delta limit) (sym (smallest-lower d e es lower))
  | inr higher ↦
      or_first (less d.delta limit) (less e.delta limit) (any_below limit es)
        (less-from d.delta e.delta limit p ((less-AtMost e.delta d.delta).0 higher))
      ∙ below-smallest limit d es p ps.1
      ∙ ap (λ m. less m.delta limit) (sym (smallest-higher d e es higher))
]

-- The labels of the seven scores are no part of what is shown of them.
pub drops-All :
    (P : Delta → Type 0) (metrics : Metrics) (b : Baseline) (pf_rate : Ratio)
    → ((f : Field) → P (minus (metrics.scores f).accuracy (b.metrics f).accuracy))
    → ((f : Field) → P (minus (metrics.scores f).macro_f1 (b.metrics f).macro_f1))
    → P (minus (rate_or_zero b.parse_failure_rate) pf_rate)
    → All (λ (d : Drop). P d.delta) (first_drop metrics b ∷ later_drops metrics b pf_rate)
drops-All P metrics b pf_rate accuracy macro_f1 rate = (
  accuracy intent,
  (
    macro_f1 intent,
    (
      accuracy priority,
      (macro_f1 priority, (accuracy sentiment, (macro_f1 sentiment, (rate, tt)))),
    ),
  ),
)

-- The numbers of a baseline have denominators.
pub record IsProper (b : Baseline) : Type 0 where
  pub accuracy : (f : Field) → 0 < (b.metrics f).accuracy.den
  pub macro_f1 : (f : Field) → 0 < (b.metrics f).macro_f1.den
  pub rate : 0 < (rate_or_zero b.parse_failure_rate).den

pub compute_metrics-IsShare :
    (output : RunOutput) (f : Field)
    → IsShare ((compute_metrics output).scores f).accuracy
      × IsShare ((compute_metrics output).scores f).macro_f1
unfolding compute_metrics
compute_metrics-IsShare output f =
    let (accuracy, macro_f1, labels) =
      field_metrics-IsShare (map (pair_of f) output.results) (labels_of f) in
    (accuracy, macro_f1)

pub parse_failure_rate-pos : (output : RunOutput) → 0 < (parse_failure_rate output).den
unfolding parse_failure_rate
parse_failure_rate-pos output = quotient-den output.parse_failures (length output.results)

-- The seven differences to a baseline, by name: a score above the baseline is a gain, a rate of parse
-- failures above it a loss.
abbrev pub seven_drops : Metrics → Baseline → Ratio → List Drop
seven_drops metrics b pf_rate =
    record {
      label = codes "intent accuracy";
      delta = minus (metrics.scores intent).accuracy (b.metrics intent).accuracy;
    }
    ∷ record {
      label = codes "intent macro_f1";
      delta = minus (metrics.scores intent).macro_f1 (b.metrics intent).macro_f1;
    }
    ∷ record {
      label = codes "priority accuracy";
      delta = minus (metrics.scores priority).accuracy (b.metrics priority).accuracy;
    }
    ∷ record {
      label = codes "priority macro_f1";
      delta = minus (metrics.scores priority).macro_f1 (b.metrics priority).macro_f1;
    }
    ∷ record {
      label = codes "sentiment accuracy";
      delta = minus (metrics.scores sentiment).accuracy (b.metrics sentiment).accuracy;
    }
    ∷ record {
      label = codes "sentiment macro_f1";
      delta = minus (metrics.scores sentiment).macro_f1 (b.metrics sentiment).macro_f1;
    }
    ∷ record {
      label = codes "parse_failure_rate";
      delta = minus (rate_or_zero b.parse_failure_rate) pf_rate;
    }
    ∷ []

seven_drops_lem :
    (metrics : Metrics) (b : Baseline) (pf_rate : Ratio)
    → first_drop metrics b ∷ later_drops metrics b pf_rate ≡ seven_drops metrics b pf_rate
unfolding field_name
seven_drops_lem metrics b pf_rate = refl

-- The verdict of a comparison is that of the drop it reports: that drop, with its name, is one of the
-- seven differences and not above any of them, and the run regressed exactly when it is below minus the threshold, if the
-- numbers of the baseline have denominators.
pub compare_baseline-IsLeast :
    (output : RunOutput) (b : Baseline) (threshold : Ratio)
    → IsProper b
    → let metrics = compute_metrics output in
      let pf_rate = parse_failure_rate output in
      let c = compare_baseline metrics b threshold pf_rate in
      IsLeast c.drop (seven_drops metrics b pf_rate)
      × (c.regressed ≡ less c.drop.delta (negated threshold))
unfolding compare_baseline
compare_baseline-IsLeast output b threshold proper =
    let metrics = compute_metrics output in
    let pf_rate = parse_failure_rate output in
    let scaled : All HasScale (first_drop metrics b ∷ later_drops metrics b pf_rate) =
      drops-All (λ x. 0 < x.scale) metrics b pf_rate
        (λ f. product_pos _ _ (compute_metrics-IsShare output f).0.positive (proper.accuracy f))
        (λ f. product_pos _ _ (compute_metrics-IsShare output f).1.positive (proper.macro_f1 f))
        (product_pos _ _ proper.rate (parse_failure_rate-pos output)) in
    (
      subst (IsLeast (smallest (first_drop metrics b) (later_drops metrics b pf_rate)))
          (seven_drops_lem metrics b pf_rate)
          (smallest-IsLeast (first_drop metrics b) (later_drops metrics b pf_rate) scaled.0
            scaled.1),
      below-smallest (negated threshold) (first_drop metrics b) (later_drops metrics b pf_rate)
          scaled.0 scaled.1,
    )
