-- ===== src/Evals.antt =====
-- evals/run.py, the evaluation of the classifier on a labelled dataset. Scores are exact ratios in
-- the place of floats. Modules: Ratio for the numbers, Metrics for the scores of a run, Gate for the
-- comparison with the baseline, Pipeline for the run, Main for the checks and the exit code, Exported
-- for the corrections export as a dataset.
pub mod Ratio
pub mod Metrics
pub mod Gate
pub mod Pipeline
pub mod Main
pub mod Exported
