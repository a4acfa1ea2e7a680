-- ===== src/Evals/Gate/Unchanged.antt =====
-- A run against its own baseline: what `build_baseline` rounds away is within the threshold.
use mathlib.Core.Path.{subst}
use native.Mathlib.Nat.{mul-le-mul_left, mul-le-mul_right, mod-lt, div-add-mod'}
use ticket_triage.Base.{
  ℕ, zero, suc, ◌+◌, ◌*◌, ◌/◌, ◌%◌, ◌≤◌, ◌<◌, ◌≡◌, refl, Bool, true, false, List, [], ◌∷◌, ltb, All,
  if◌then◌else◌, arith,
}
use ticket_triage.Client.{round_div}
use ticket_triage.Text.{Text}
use ticket_triage.Evals.Ratio.{Ratio}
use ticket_triage.Evals.Metrics.{RunOutput, compute_metrics, parse_failure_rate}
use ticket_triage.Evals.Gate.{
  Delta, minus, negated, less, rounded, build_baseline, Drop, first_drop, later_drops, any_below,
  compare_baseline,
}
use ticket_triage.Evals.Gate.Worst.{
  less-AtMost, drops-All, compute_metrics-IsShare, parse_failure_rate-pos,
}

-- A quotient `q` with the rest `r`, rounded: it moves by at most half a step.
abbrev Near : ℕ → ℕ → ℕ → Type 0
Near v n d = (2 * (v * d) ≤ 2 * n + d) × (2 * n ≤ 2 * (v * d) + d)

down-Near : (q r d : ℕ) → 2 * r ≤ d → Near q (q * d + r) d
down-Near q r d h = (omega arith, omega arith)

up-Near : (q r d : ℕ) → r < d → d ≤ 2 * r → Near (q + 1) (q * d + r) d
up-Near q r d h k = (omega arith, omega arith)

even-Near : (q r d b : ℕ) → 2 * r ≡ d → r < d → b ≤ 1 → Near (q + b) (q * d + r) d
even-Near q r d zero e h k = (omega arith, omega arith)
even-Near q r d (suc zero) e h k = (omega arith, omega arith)
even-Near q r d (suc (suc b)) e h k = absurd (omega arith)

if_cases :
    {A : Type 0} (P : A → Type 0) (b : Bool) (x y : A)
    → (b ≡ true → P x)
    → (b ≡ false → P y)
    → P (if b then x else y)
if_cases P true x y f g = f refl
if_cases P false x y f g = g refl

abbrev chosen : ℕ → ℕ → ℕ → ℕ → ℕ
chosen q r d b = if ltb (2 * r) d then q else if ltb d (2 * r) then q + 1 else q + b

chosen-Near : (q r d b : ℕ) → r < d → b ≤ 1 → Near (chosen q r d b) (q * d + r) d
chosen-Near q r d b h k =
    if_cases (λ v. Near v (q * d + r) d) (ltb (2 * r) d) q (if ltb d (2 * r) then q + 1 else q + b)
      (λ lower. down-Near q r d (ground (arith, lower)))
      (λ rest.
        if_cases (λ v. Near v (q * d + r) d) (ltb d (2 * r)) (q + 1) (q + b)
          (λ upper. up-Near q r d h (ground (arith, upper)))
          (λ same. even-Near q r d b (ground (arith, rest, same)) h k))

round_div-Near : (n d : ℕ) → 0 < d → Near (round_div n d) n d
unfolding round_div
round_div-Near n d h =
    subst (λ m. Near (round_div n d) m d) (div-add-mod' n d)
      (chosen-Near (n / d) (n % d) d (n / d % 2) (mod-lt n h) (omega arith))

-- `x - round(x)` and `round(x) - x` are not below minus a threshold of half of 0.0001 or more.
module _ (r threshold : Ratio) (pos : 0 < r.den)
    (wide : threshold.den ≤ 20000 * threshold.num) where
  above : less (minus r (rounded r)) (negated threshold) ≡ false
  unfolding rounded less
  above =
      let near = round_div-Near (r.num * 10000) r.den pos in
      let scaled = mul-le-mul_right threshold.den near.0 in
      let slack = mul-le-mul_left r.den wide in
      (less-AtMost (minus r (rounded r)) (negated threshold)).1 (omega (arith, scaled, slack))

  below : less (minus (rounded r) r) (negated threshold) ≡ false
  unfolding rounded less
  below =
      let near = round_div-Near (r.num * 10000) r.den pos in
      let scaled = mul-le-mul_right threshold.den near.1 in
      let slack = mul-le-mul_left r.den wide in
      (less-AtMost (minus (rounded r) r) (negated threshold)).1 (omega (arith, scaled, slack))

none_below :
    (limit : Delta) (ds : List Drop)
    → All (λ (d : Drop). less d.delta limit ≡ false) ds
    → any_below limit ds ≡ false
unfolding any_below
none_below limit [] h = refl
none_below limit (d ∷ ds) h = rw h.0 (none_below limit ds h.1)

-- A run that is compared with the baseline that was built from the same output did not regress, if
-- the threshold is at least half of the last digit that a baseline keeps.
pub build_baseline-compare :
    (output : RunOutput) (sha model now : Text) (threshold : Ratio)
    → threshold.den ≤ 20000 * threshold.num
    → let metrics = compute_metrics output in
      (compare_baseline metrics
        (build_baseline metrics output sha model now)
        threshold
        (parse_failure_rate output)).regressed
      ≡ false
unfolding compare_baseline build_baseline
build_baseline-compare output sha model now threshold wide =
    let metrics = compute_metrics output in
    let pf_rate = parse_failure_rate output in
    let b = build_baseline metrics output sha model now in
    none_below (negated threshold) (first_drop metrics b ∷ later_drops metrics b pf_rate) (
      drops-All (λ d. less d (negated threshold) ≡ false) metrics b pf_rate
        (λ f. above _ threshold (compute_metrics-IsShare output f).0.positive wide)
        (λ f. above _ threshold (compute_metrics-IsShare output f).1.positive wide)
        (below _ threshold (parse_failure_rate-pos output) wide))
