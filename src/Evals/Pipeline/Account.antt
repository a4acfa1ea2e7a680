-- ===== src/Evals/Pipeline/Account.antt =====
-- What a run reports for its rows.
use mathlib.Core.Path.{subst}
use ticket_triage.Base.{
  ℕ, suc, ◌+◌, ◌≡◌, refl, ◌⊎◌, inl, inr, ap, Bool, true, false, Option, none, some, List, [], ◌∷◌,
  length, arith,
}
use ticket_triage.Text.{Text}
use ticket_triage.Labels.{TriageError, parse_failed, provider_error, circuit_open}
use ticket_triage.Model.{Settings}
use ticket_triage.Schema.{Decoder, TriageResult}
use ticket_triage.Client.{World}
use ticket_triage.Classifier.{Produced, produced, failed, unexpected}
use ticket_triage.Counts.{count_if}
use ticket_triage.Evals.Metrics.{Labelled, RowResult, RunOutput}
use ticket_triage.Evals.Pipeline.{
  EvalRow, Fixture, Surroundings, selected_rows, row_result, Tally, count_result, then_count,
  classify_row, run_rows, empty_db, new_client, summarize, run_pipeline,
}

-- A row has a prediction or a reason why there is none, under its own id and gold labels.
abbrev pub Reports : RowResult → EvalRow → Type 0
Reports r row =
    (r.external_id ≡ row.external_id)
    × (r.gold ≡ row.gold)
    × (((l : Labelled) × (r.pred ≡ some l) × (r.failure ≡ none))
        ⊎ ((reason : TriageError) × (r.pred ≡ none) × (r.failure ≡ some reason)))

-- One result for each row, in the same order.
abbrev pub ReportsAll : List RowResult → List EvalRow → Type 0
ReportsAll [] [] = Unit
ReportsAll (r ∷ rs) (row ∷ rows) = Reports r row × ReportsAll rs rows
ReportsAll _ _ = ⊥

abbrev pub is_predicted : RowResult → Bool
is_predicted r = elim r.pred [ none ↦ false | some l ↦ true ]

abbrev pub is_unparsed : RowResult → Bool
is_unparsed r = elim r.failure [
  | none ↦ false
  | some reason ↦ elim reason [ parse_failed ↦ true | _ ↦ false ]
]

-- The counters are those of the results.
pub record Counted (results : List RowResult) (provider_errors parse_failures : ℕ) : Type 0 where
  pub unparsed : parse_failures ≡ count_if is_unparsed results
  pub all : count_if is_predicted results + parse_failures + provider_errors ≡ length results

abbrev some_or {ℓ} : {A : Type ℓ} → A → Option A → A
some_or a none = a
some_or a (some b) = b

row_result-Reports :
    (row : EvalRow) (p : Produced TriageResult) (r : RowResult)
    → row_result row p ≡ some r
    → Reports r row
unfolding row_result
row_result-Reports row (produced t n) r h =
    subst (λ x. Reports x row) (ap (some_or r) h) (refl, refl, inl (_, refl, refl))
row_result-Reports row (failed reason) r h =
    subst (λ x. Reports x row) (ap (some_or r) h) (refl, refl, inr (reason, refl, refl))
row_result-Reports row unexpected r h = ground arith

module _ (row : EvalRow) (id : Text) (gold : Labelled) (t : Tally)
    (c : Counted t.results t.provider_errors t.parse_failures) where
  shaped-Counted :
      (pred : Option Labelled) (failure : Option TriageError)
      → let r : RowResult = record {
        external_id = id;
        gold = gold;
        pred = pred;
        failure = failure;
      } in
        let u = count_result r t in
        Reports r row → Counted u.results u.provider_errors u.parse_failures
  unfolding count_result
  shaped-Counted (some l) none h = record {
    unparsed = omega (arith, c.unparsed);
    all = omega (arith, c.all);
  }
  shaped-Counted none (some parse_failed) h = record {
    unparsed = omega (arith, c.unparsed);
    all = omega (arith, c.all);
  }
  shaped-Counted none (some provider_error) h = record {
    unparsed = omega (arith, c.unparsed);
    all = omega (arith, c.all);
  }
  shaped-Counted none (some circuit_open) h = record {
    unparsed = omega (arith, c.unparsed);
    all = omega (arith, c.all);
  }
  shaped-Counted none none (i, g, inl (l, e, f)) = ground arith
  shaped-Counted none none (i, g, inr (reason, e, f)) = ground arith
  shaped-Counted (some l) (some reason) (i, g, inl (l', e, f)) = ground arith
  shaped-Counted (some l) (some reason) (i, g, inr (reason', e, f)) = ground arith

count_result-Counted :
    (row : EvalRow) (r : RowResult) (t : Tally)
    → Reports r row
    → Counted t.results t.provider_errors t.parse_failures
    → let u = count_result r t in Counted u.results u.provider_errors u.parse_failures
count_result-Counted row r t h c = shaped-Counted row r.external_id r.gold t c r.pred r.failure h

then_count-some :
    (first : Option RowResult) (later : Option Tally) (t : Tally)
    → then_count first later ≡ some t
    → (r : RowResult) × (u : Tally) × (first ≡ some r) × (later ≡ some u) × (count_result r u ≡ t)
unfolding then_count
then_count-some none none t h = ground arith
then_count-some none (some u) t h = ground arith
then_count-some (some r) none t h = ground arith
then_count-some (some r) (some u) t h = (r, u, refl, refl, ap (some_or t) h)

-- The report of a complete loop.
pub record IsAccount (rows : List EvalRow) (t : Tally) : Type 0 where
  pub reports : ReportsAll t.results rows
  pub counted : Counted t.results t.provider_errors t.parse_failures

count_result-IsAccount :
    (row : EvalRow) (rows : List EvalRow) (r : RowResult) (t : Tally)
    → Reports r row
    → IsAccount rows t
    → IsAccount (row ∷ rows) (count_result r t)
unfolding count_result
count_result-IsAccount row rows r t h a = record {
  reports = (h, a.reports);
  counted = count_result-Counted row r t h a.counted;
}

abbrev pub Reported : List EvalRow → RunOutput → Type 0
Reported rows output =
    ReportsAll output.results rows
    × Counted output.results output.provider_errors output.parse_failures

summarize-Reported :
    (rows : List EvalRow) (o : Option Tally) (output : RunOutput)
    → ((t : Tally) → o ≡ some t → IsAccount rows t)
    → elim o as (λ x. Option RunOutput) [ none ↦ none | some t ↦ some (summarize t) ] ≡ some output
    → Reported rows output
unfolding summarize
summarize-Reported rows none output f h = ground arith
summarize-Reported rows (some t) output f h =
    let a = f t refl in subst (Reported rows) (ap (some_or output) h) (a.reports, a.counted)

module _ (d : Decoder) (settings : Settings) (fixtures : Option (List Fixture))
    (around : Surroundings) where
  pub run_rows-IsAccount :
      (i : ℕ) (rows : List EvalRow) (w : World) (t : Tally)
      → run_rows d settings fixtures around i rows w ≡ some t
      → IsAccount rows t
  unfolding run_rows
  run_rows-IsAccount i [] w t h =
      subst (IsAccount []) (ap (some_or t) h)
        (record { reports = tt; counted = record { unparsed = refl; all = refl } })
  run_rows-IsAccount i (row ∷ rows) w t h =
      let (outcome, w') = classify_row d settings fixtures around i row w in
      let (r, u, e, f, g) =
        then_count-some (row_result row outcome)
          (run_rows d settings fixtures around (suc i) rows w') t h in
      subst (IsAccount (row ∷ rows)) g (
        count_result-IsAccount row rows r u (row_result-Reports row outcome r e)
          (run_rows-IsAccount (suc i) rows w' u f))

  -- A run that returns reports, for each row that it was to classify and in their order, either a
  -- prediction or why there is none, under the row's id and gold labels; its parse failures are those of
  -- the results, and with the predictions and the provider errors they are all results.
  pub run_pipeline-IsAccount :
      (limit : Option ℕ) (rows : List EvalRow) (output : RunOutput)
      → run_pipeline d settings fixtures around limit rows ≡ some output
      → Reported (selected_rows limit rows) output
  unfolding run_pipeline
  run_pipeline-IsAccount limit rows output h =
      let start : World = record { db = empty_db; breaker = new_client settings } in
      let selected = selected_rows limit rows in
      summarize-Reported selected (run_rows d settings fixtures around 0 selected start) output
        (run_rows-IsAccount 0 selected start) h
