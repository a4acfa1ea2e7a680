-- ===== src/Tests/Evals.antt =====
-- Runs of the statistics and of the evaluation: two labelled rows with one fixture, and a baseline.
use ticket_triage.Base.{
  ℕ, ◌+◌, ◌*◌, ◌≤◌, ◌<◌, ◌≡◌, refl, none, some, false, List, [], ◌∷◌, length, leb, ltb, Option,
  arith,
}
use ticket_triage.Text.{Text, codes}
use ticket_triage.Labels.{web, classify, ok}
use ticket_triage.Model.{LlmCall, Db}
use ticket_triage.Counts.{count_if}
use ticket_triage.Stats.{StatsOut, compute_stats, recent_calls}
use ticket_triage.Stats.Balance.{Balanced, compute_stats-Balanced, compute_stats-p95}
use ticket_triage.Evals.Ratio.{Ratio}
use ticket_triage.Evals.Metrics.{
  Labelled, RowResult, RunOutput, Pair, compute_metrics, parse_failure_rate,
}
use ticket_triage.Evals.Gate.{Baseline, build_baseline, compare_baseline, less, negated}
use ticket_triage.Evals.Gate.Worst.{IsLeast, seven_drops, compare_baseline-IsLeast}
use ticket_triage.Evals.Gate.Unchanged.{build_baseline-compare}
use ticket_triage.Evals.Pipeline.{EvalRow, Fixture, Surroundings, selected_rows, run_pipeline}
use ticket_triage.Evals.Pipeline.Account.{Reported}
use ticket_triage.Evals.Pipeline.Returns.{run_pipeline-Reported}
use ticket_triage.Evals.Pipeline.Offline.{Numbered}
use ticket_triage.Evals.Main.{content, Invocation}
use ticket_triage.Evals.Metrics.{priority}
use ticket_triage.Tests.{
  settings_a, db_a, db_a-Lifecycle, decoder_a, exchange_of, answers, documented, readable,
}

compute_stats-Balanced_example :
    (out : StatsOut) × (compute_stats db_a (some 2) (some (codes "2")) ≡ some out)
    × Balanced (some 2) db_a out
compute_stats-Balanced_example =
    compute_stats-Balanced (some 2) (some (codes "2")) db_a db_a-Lifecycle

abbrev one_call : LlmCall
one_call = record {
  id = codes "c1";
  ticket_id = none;
  purpose = classify;
  model = codes "small";
  input_tokens = some 120;
  output_tokens = some 30;
  cost_usd = 36;
  latency_ms = 50;
  outcome = ok;
  created_at = 9;
}

abbrev called : Db
called = record db_a { llm_calls = one_call ∷ [] }

compute_stats-p95_example :
    (out : StatsOut) × (compute_stats called none none ≡ some out)
    × (95 * length (recent_calls none called)
        ≤ 100
          * count_if
              (λ (c : LlmCall). leb c.latency_ms out.llm.p95_latency_ms)
              (recent_calls none called))
    × (100
          * count_if
              (λ (c : LlmCall). ltb c.latency_ms out.llm.p95_latency_ms)
              (recent_calls none called)
        < 95 * length (recent_calls none called))
compute_stats-p95_example = compute_stats-p95 none none called (omega arith)

abbrev labelled_a : Labelled
labelled_a = record {
  intent = codes "billing";
  priority = codes "P2";
  sentiment = codes "negative";
}

abbrev row_of : Text → EvalRow
row_of id = record {
  external_id = id;
  letter = record {
    subject = codes "Invoice";
    sender = codes "ann@example.org";
    channel = web;
    body = codes "I was charged twice.";
  };
  gold = labelled_a;
}

abbrev rows_a : List EvalRow
rows_a = row_of (codes "e1") ∷ row_of (codes "e2") ∷ []

abbrev fixtures_a : List Fixture
fixtures_a = record { external_id = codes "e1"; content = codes "{}" } ∷ []

abbrev around_a : Surroundings
around_a = record {
  first = λ i. exchange_of ((2 * i) ∷ []) answers;
  second = λ i. exchange_of ((2 * i + 1) ∷ []) answers;
  size = λ payload. 400;
}

abbrev number_a : Text → ℕ
number_a [] = 0
number_a (c ∷ s) = c

abbrev numbered_a : Numbered number_a around_a
numbered_a = record { first = λ i. refl; second = λ i. refl }

run_pipeline-Reported_example :
    (output : RunOutput) × (run_pipeline decoder_a settings_a none around_a none rows_a
      ≡ some output)
    × Reported (selected_rows none rows_a) output
run_pipeline-Reported_example =
    run_pipeline-Reported decoder_a settings_a around_a number_a numbered_a none none rows_a (λ i. (
      documented ((2 * i) ∷ []),
      documented ((2 * i + 1) ∷ []),
      readable ((2 * i) ∷ []),
      readable ((2 * i + 1) ∷ []),
    ))

abbrev result_of : Text → Option Labelled → RowResult
result_of id pred = record { external_id = id; gold = labelled_a; pred = pred; failure = none }

abbrev output_a : RunOutput
output_a = record {
  results = result_of (codes "e1") (some labelled_a) ∷ [];
  calls = 1;
  input_tokens = 100;
  output_tokens = 40;
  cost_usd = 39;
  provider_errors = 0;
  parse_failures = 0;
}

abbrev pairs_a : List Pair
pairs_a =
    record { gold = codes "P2"; pred = some (codes "P2") }
    ∷ record { gold = codes "P3"; pred = some (codes "P2") }
    ∷ record { gold = codes "P2"; pred = none }
    ∷ []

abbrev tenths : ℕ → Ratio
tenths n = record { num = n; den = 10 }

abbrev baseline_a : Baseline
baseline_a = record {
  created_at = codes "2025-01-01T00:00:00Z";
  model = codes "small";
  prompt_version = codes "v1";
  dataset_sha256 = some (codes "5f");
  n = 2;
  metrics = λ field. record { accuracy = tenths 9; macro_f1 = tenths 8 };
  parse_failure_rate = some (tenths 1);
}

compare_baseline-IsLeast_example :
    let metrics = compute_metrics output_a in
    let pf_rate = parse_failure_rate output_a in
    let c = compare_baseline metrics baseline_a (tenths 1) pf_rate in
    IsLeast c.drop (seven_drops metrics baseline_a pf_rate)
    × (c.regressed ≡ less c.drop.delta (negated (tenths 1)))
compare_baseline-IsLeast_example =
    compare_baseline-IsLeast output_a baseline_a (tenths 1)
      (record { accuracy = λ f. omega arith; macro_f1 = λ f. omega arith; rate = omega arith })

build_baseline-compare_example :
    let metrics = compute_metrics output_a in
    (compare_baseline metrics
      (build_baseline metrics output_a (codes "5f") (codes "small") (codes "now"))
      (tenths 1)
      (parse_failure_rate output_a)).regressed
    ≡ false
build_baseline-compare_example =
    build_baseline-compare output_a (codes "5f") (codes "small") (codes "now") (tenths 1)
      (omega arith)

abbrev call_a : Invocation
call_a = record {
  dataset = codes "evals/dataset.jsonl";
  dataset_file = content rows_a;
  sha = codes "5f";
  fixtures = some (codes "evals/fixtures.jsonl");
  fixtures_file = content fixtures_a;
  baseline = codes "evals/baseline.json";
  baseline_file = some (content baseline_a);
  llm_api_key = [];
  llm_base_url = [];
  settings = settings_a;
  eval_regression_threshold = tenths 1;
  limit = none;
  update_baseline = false;
  no_fail_on_regression = false;
  now = codes "2025-01-02T00:00:00Z";
}
