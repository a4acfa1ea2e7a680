-- ===== src/Evals/Main/Exit.antt =====
-- What the exit codes of the evaluation mean.
use ticket_triage.Base.{ℕ, ◌≡◌, ◌⊎◌, Bool, true, false, Option, none, some}
use ticket_triage.Text.{text_eq}
use ticket_triage.Schema.{Decoder}
use ticket_triage.Evals.Metrics.{RunOutput, compute_metrics, parse_failure_rate}
use ticket_triage.Evals.Pipeline.{Surroundings, run_pipeline}
use ticket_triage.Evals.Gate.{Baseline, compare_baseline}
use ticket_triage.Evals.Main.{
  content, found, raised, Invocation, Prepared, prepare, is_partial, Ended, exits, main_raised,
}

-- The code that `main` returns; an exception out of it gives none.
abbrev pub code_of : Ended → Option ℕ
code_of (exits code written) = some code
code_of main_raised = none

-- The status of the process: what `main` returns, and 1 for an exception out of it.
abbrev pub status_of : Ended → ℕ
status_of (exits code written) = code
status_of main_raised = 1

-- `main` raises: reading its files does, or the run.
abbrev pub Raises : Decoder → Surroundings → Invocation → Type 0
Raises d around call =
    (prepare call ≡ raised)
    ⊎ ((p : Prepared) × (prepare call ≡ found p)
        × (run_pipeline d call.settings p.fixtures around call.limit p.rows ≡ none))

abbrev pub regressed : Invocation → Baseline → RunOutput → Bool
regressed call b output =
    (compare_baseline (compute_metrics output) b call.eval_regression_threshold
      (parse_failure_rate output)).regressed

-- A complete run that fell behind the baseline in its file, and that may fail.
pub record Regression (d : Decoder) (around : Surroundings) (call : Invocation) : Type 0 where
  pub p : Prepared
  pub b : Baseline
  pub output : RunOutput
  pub prepared : prepare call ≡ found p
  pub baseline_file : call.baseline_file ≡ some (content b)
  pub same_data : b.dataset_sha256 ≡ some call.sha
  pub run : run_pipeline d call.settings p.fixtures around call.limit p.rows ≡ some output
  pub complete : is_partial call.limit ≡ false
  pub compares : call.update_baseline ≡ false
  pub strict : call.no_fail_on_regression ≡ false
  pub behind : regressed call b output ≡ true
