-- ===== src/Evals/Main.antt =====
-- `main` of evals/run.py: the checks before a run, the run, and the exit code. Files, the command line,
-- settings and the clock are arguments; a baseline file has the keys of `build_baseline`, and what is
-- printed is left out.
pub mod Checks
pub mod Exit
use ticket_triage.Base.{
  ℕ, zero, suc, take, Bool, true, false, ◌&&◌, ◌||◌, not, ◌==◌, Option, none, some, List, [], ◌∷◌,
  ◌++◌, if◌then◌else◌,
}
use ticket_triage.Text.{Text, codes, text_eq}
use ticket_triage.Model.{Settings}
use ticket_triage.Schema.{Decoder}
use ticket_triage.Evals.Ratio.{Ratio}
use ticket_triage.Evals.Metrics.{RunOutput, compute_metrics, parse_failure_rate}
use ticket_triage.Evals.Pipeline.{EvalRow, Fixture, Surroundings, run_pipeline}
use ticket_triage.Evals.Gate.{Baseline, build_baseline, Comparison, compare_baseline}

-- What opening and decoding a file gives: an OSError, a line that is not the JSON wanted, or its data.
pub data File (A : Type 0) : Type 0 where
  os_error : Text → File A
  malformed : Text → File A
  content : A → File A

-- What was read, an EvalConfigError, or another exception.
pub data Read (A : Type 0) : Type 0 where
  found : A → Read A
  config_error : Text → Read A
  raised : Read A

-- The arguments, settings and files of one call of `main`.
pub record Invocation : Type 0 where
  pub dataset : Text
  pub dataset_file : File (List EvalRow)
  pub sha : Text
  pub fixtures : Option Text
  pub fixtures_file : File (List Fixture)
  pub baseline : Text
  pub baseline_file : Option (File Baseline)
  pub llm_api_key : Text
  pub llm_base_url : Text
  pub settings : Settings
  pub eval_regression_threshold : Ratio
  pub limit : Option ℕ
  pub update_baseline : Bool
  pub no_fail_on_regression : Bool
  pub now : Text

infixl 5 ◌>>=◌
abbrev pub ◌>>=◌ : {A B : Type 0} → Read A → (A → Read B) → Read B
found a >>= f = f a
config_error message >>= f = config_error message
raised >>= f = raised

abbrev pub is_empty : Text → Bool
is_empty [] = true
is_empty (c ∷ s) = false

abbrev nonempty_rows : Text → List EvalRow → Read (List EvalRow)
nonempty_rows path [] = config_error (codes "dataset " ++ (path ++ codes " is empty"))
nonempty_rows path (row ∷ rows) = found (row ∷ rows)

unfoldable pub load_dataset : Text → File (List EvalRow) → Read (List EvalRow)
load_dataset path (os_error exc) =
    config_error (codes "cannot read dataset " ++ (path ++ (codes ": " ++ exc)))
load_dataset path (malformed exc) = raised
load_dataset path (content rows) = nonempty_rows path rows

unfoldable pub load_fixtures : Text → File (List Fixture) → Read (List Fixture)
load_fixtures path (os_error exc) =
    config_error (codes "cannot read fixtures " ++ (path ++ (codes ": " ++ exc)))
load_fixtures path (malformed exc) = raised
load_fixtures path (content entries) = found entries

unfoldable pub load_baseline : Text → Option (File Baseline) → Read (Option Baseline)
load_baseline path none = found none
load_baseline path (some (content b)) = found (some b)
load_baseline path (some (os_error exc)) =
    config_error (codes "cannot read baseline " ++ (path ++ (codes ": " ++ exc)))
load_baseline path (some (malformed exc)) =
    config_error (codes "cannot read baseline " ++ (path ++ (codes ": " ++ exc)))

-- `load_fixtures(args.fixtures) if args.fixtures else None`
unfoldable pub read_fixtures : Invocation → Read (Option (List Fixture))
unfolding load_fixtures
read_fixtures call = elim call.fixtures [
  | none ↦ found none
  | some path ↦
      if is_empty path
      then found none
      else load_fixtures path call.fixtures_file >>= (λ entries. found (some entries))
]

unfoldable pub require_provider : Invocation → Option (List Fixture) → Read (Unit {0})
require_provider call (some fixtures) = found tt
require_provider call none =
    if is_empty call.llm_api_key || is_empty call.llm_base_url
    then config_error (
        codes
          "set LLM_API_KEY and LLM_BASE_URL in .env or the environment, or pass --fixtures for an offline run")
    else found tt

abbrev pub has_sha : Text → Option Text → Bool
has_sha sha none = false
has_sha sha (some s) = s == sha

-- `None` or the start of a text, as the message of a mismatch prints them.
abbrev pub short_sha : Option Text → Text
short_sha none = codes "None"
short_sha (some s) = take 12 s

-- A baseline of another dataset is refused, unless it is about to be rewritten.
unfoldable pub check_sha : Invocation → Option Baseline → Read (Unit {0})
check_sha call none = found tt
check_sha call (some b) =
    if not call.update_baseline && not (has_sha call.sha b.dataset_sha256)
    then config_error (
        codes "dataset sha256 "
        ++ (take 12 call.sha
            ++ (codes " does not match baseline "
                ++ (short_sha b.dataset_sha256 ++ codes "; rerun with --update-baseline"))))
    else found tt

-- What the checks before the run leave.
pub record Prepared : Type 0 where
  pub rows : List EvalRow
  pub fixtures : Option (List Fixture)
  pub baseline : Option Baseline

-- The checks before the run, in their order.
unfoldable pub check_baseline :
    Invocation → List EvalRow → Option (List Fixture) → Option Baseline → Read Prepared
unfolding check_sha
check_baseline call rows fixtures baseline = do
  same ← check_sha call baseline
  found (record { rows = rows; fixtures = fixtures; baseline = baseline })

unfoldable pub read_baseline : Invocation → List EvalRow → Option (List Fixture) → Read Prepared
unfolding load_baseline check_baseline
read_baseline call rows fixtures = do
  baseline ← load_baseline call.baseline call.baseline_file
  check_baseline call rows fixtures baseline

unfoldable pub check_provider : Invocation → List EvalRow → Option (List Fixture) → Read Prepared
unfolding require_provider read_baseline
check_provider call rows fixtures = do
  checked ← require_provider call fixtures
  read_baseline call rows fixtures

unfoldable pub prepare : Invocation → Read Prepared
unfolding load_dataset read_fixtures check_provider
prepare call = do
  rows ← load_dataset call.dataset call.dataset_file
  fixtures ← read_fixtures call
  check_provider call rows fixtures

-- `args.limit` as a condition.
abbrev pub is_partial : Option ℕ → Bool
is_partial none = false
is_partial (some zero) = false
is_partial (some (suc n)) = true

-- How `main` ends: it returns an exit code and has written a baseline or not, or it raises.
pub data Ended : Type 0 where
  exits : ℕ → Option Baseline → Ended
  main_raised : Ended

-- The comparison at the end of `main`.
unfoldable pub compare_run : Invocation → Baseline → RunOutput → Ended
unfolding compare_baseline
compare_run call b output =
    let c =
      compare_baseline (compute_metrics output) b call.eval_regression_threshold
        (parse_failure_rate output) in
    if c.regressed && not call.no_fail_on_regression then exits 1 none else exits 0 none

abbrev pub model_name : Invocation → Text
model_name call =
    if is_empty call.settings.llm_model then codes "(none)" else call.settings.llm_model

abbrev pub new_baseline : Invocation → RunOutput → Baseline
new_baseline call output =
    build_baseline (compute_metrics output) output call.sha (model_name call) call.now

-- What follows the run.
unfoldable pub after_run : Invocation → Option Baseline → RunOutput → Ended
unfolding compare_run build_baseline
after_run call baseline output =
    if call.update_baseline then exits 0 (some (new_baseline call output)) else elim baseline [
      | none ↦ exits 0 none
      | some b ↦ if is_partial call.limit then exits 0 none else compare_run call b output
    ]

unfoldable pub run_prepared : Decoder → Surroundings → Invocation → Prepared → Ended
unfolding run_pipeline after_run
run_prepared d around call p =
    elim (run_pipeline d call.settings p.fixtures around call.limit p.rows) [
      | none ↦ main_raised
      | some output ↦ after_run call p.baseline output
    ]

unfoldable pub main : Decoder → Surroundings → Invocation → Ended
unfolding prepare run_prepared
main d around call = elim (prepare call) [
  | config_error message ↦ exits 2 none
  | raised ↦ main_raised
  | found p ↦ run_prepared d around call p
]
