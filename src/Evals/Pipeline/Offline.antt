-- ===== src/Evals/Pipeline/Offline.antt =====
-- A run on recorded replies: no request can fail, so the fixtures decide the results.
use mathlib.Core.Path.{subst}
use ticket_triage.Base.{
  ℕ, suc, ◌+◌, ◌*◌, ◌≡◌, refl, ap, ◌∙◌, ◌⊎◌, true, Option, none, some, List, [], ◌∷◌, map, arith,
}
use ticket_triage.Text.{Text, text_eq}
use ticket_triage.Labels.{parse_failed, intent_name, priority_name, sentiment_name}
use ticket_triage.Model.{Settings}
use ticket_triage.Breaker.{new_breaker}
use ticket_triage.Client.{World}
use ticket_triage.Schema.{
  Decoder, Parsed, parsed, refused, parse_raised, TriageResult, parse_triage,
}
use ticket_triage.Classifier.Answers.{is_returned, IsReadable, parse_triage-returned}
use ticket_triage.Evals.Pipeline.Calls.{Below}
use ticket_triage.Evals.Metrics.{RowResult, RunOutput}
use ticket_triage.Evals.Pipeline.{
  EvalRow, Fixture, fixture_content, or_empty, Surroundings, fixture_exchange, selected_rows,
  empty_db, new_client, predicted_row, failed_row, row_result, Tally, count_result, then_count,
  summarize, classify_row, run_rows, run_pipeline,
}
use ticket_triage.Evals.Pipeline.Replies.{outcome_of, offline_outcome, Ends, classify_ticket-Ends}

-- What a parsed reply means for a row, and what the fixtures say of it; a parser that raises gives no
-- row, and is excluded below.
abbrev pub parsed_row : EvalRow → Parsed TriageResult → RowResult
parsed_row row (parsed r) = predicted_row row r
parsed_row row _ = failed_row row parse_failed

abbrev pub offline_row : Decoder → List Fixture → EvalRow → RowResult
offline_row d fs row =
    parsed_row row (parse_triage d (or_empty (fixture_content row.external_id fs)))

row_result-parsed_row :
    (row : EvalRow) (q : Parsed TriageResult)
    → is_returned q ≡ true
    → row_result row (outcome_of q) ≡ some (parsed_row row q)
unfolding row_result
row_result-parsed_row row (parsed r) h = refl
row_result-parsed_row row (refused errors) h = refl
row_result-parsed_row row parse_raised h = absurd (cc h)

count_result-parsed_row :
    (row : EvalRow) (q : Parsed TriageResult) (t : Tally)
    → (count_result (parsed_row row q) t).provider_errors ≡ t.provider_errors
unfolding count_result
count_result-parsed_row row (parsed r) t = refl
count_result-parsed_row row (refused errors) t = refl
count_result-parsed_row row parse_raised t = refl

-- The result of a row, from the text recorded for it: the labels that the text parses to, or a parse
-- failure if the parser refuses it; the id and the gold labels are the row's.
pub record FollowsFixture (d : Decoder) (text : Text) (r : RowResult) (row : EvalRow) : Type 0 where
  pub same_id : r.external_id ≡ row.external_id
  pub same_gold : r.gold ≡ row.gold
  pub outcome :
      ((t : TriageResult) × (parse_triage d text ≡ parsed t)
        × (r.pred
            ≡ some (record {
              intent = intent_name t.intent;
              priority = priority_name t.priority;
              sentiment = sentiment_name t.sentiment;
            }))
        × (r.failure ≡ none))
      ⊎ ((errors : Text) × (parse_triage d text ≡ refused errors)
          × (r.pred ≡ none)
          × (r.failure ≡ some parse_failed))

-- One result for each row, in the same order.
abbrev pub FollowFixtures : Decoder → List Fixture → List RowResult → List EvalRow → Type 0
FollowFixtures d fs [] [] = Unit
FollowFixtures d fs (r ∷ rs) (row ∷ rows) =
    FollowsFixture d (or_empty (fixture_content row.external_id fs)) r row
    × FollowFixtures d fs rs rows
FollowFixtures d fs _ _ = ⊥

-- The ids of the calls are all different: each has a number of its own.
pub record Numbered (number : Text → ℕ) (around : Surroundings) : Type 0 where
  pub first : (i : ℕ) → number (around.first i).call_id ≡ 2 * i
  pub second : (i : ℕ) → number (around.second i).call_id ≡ 2 * i + 1

module _ (d : Decoder) (settings : Settings) (fs : List Fixture) (around : Surroundings)
    (number : Text → ℕ) (numbered : Numbered number around)
    (readable : (key : Text) → IsReadable d (or_empty (fixture_content key fs))) where
  abbrev reply : EvalRow → Parsed TriageResult
  reply row = parse_triage d (or_empty (fixture_content row.external_id fs))

  reply-returned : (row : EvalRow) → is_returned (reply row) ≡ true
  reply-returned row =
      parse_triage-returned d (or_empty (fixture_content row.external_id fs))
        (readable row.external_id)

  classify_row-Ends :
      (i : ℕ) (row : EvalRow) (w : World)
      → Below number (2 * i) w.db.llm_calls
      → Ends d settings number around.size
          (or_empty (fixture_content row.external_id fs))
          (2 * suc i)
          (offline_outcome d (or_empty (fixture_content row.external_id fs)))
          (classify_row d settings (some fs) around i row w)
  unfolding classify_row fixture_exchange new_breaker
  classify_row-Ends i row w below =
      let content = fixture_content row.external_id fs in
      let step : suc (suc (2 * i)) ≡ 2 * suc i = omega arith in
      subst
        (λ k.
          Ends d settings number around.size (or_empty content) k
            (offline_outcome d (or_empty content))
            (classify_row d settings (some fs) around i row w))
        step
        (classify_ticket-Ends d settings number around.size (or_empty content)
          (fixture_exchange around content (around.first i))
          (fixture_exchange around content (around.second i)) row.letter (2 * i) (λ payload. refl)
          (λ payload. refl) (numbered.first i) (omega (arith, numbered.second i))
          (record { db = w.db; breaker = new_client settings }) below refl)

  run_rows-offline :
      (i : ℕ) (rows : List EvalRow) (w : World)
      → Below number (2 * i) w.db.llm_calls
      → (t : Tally) × (run_rows d settings (some fs) around i rows w ≡ some t)
        × (t.results ≡ map (offline_row d fs) rows)
        × (t.provider_errors ≡ 0)
  unfolding run_rows then_count count_result
  run_rows-offline i [] w below = (_, refl, refl, refl)
  run_rows-offline i (row ∷ rows) w below =
      let (e, next) = classify_row-Ends i row w below in
      let w' = (classify_row d settings (some fs) around i row w).1 in
      let (t, run, results, errors) = run_rows-offline (suc i) rows w' next in
      let r = offline_row d fs row in
      (
        count_result r t,
        ap (λ a. then_count a (run_rows d settings (some fs) around (suc i) rows w'))
              (ap (row_result row) e ∙ row_result-parsed_row row (reply row) (reply-returned row))
            ∙ ap (then_count (some r)) run,
        ap (λ rs. r ∷ rs) results,
        count_result-parsed_row row (reply row) t ∙ errors,
      )

  pub run_pipeline-rows :
      (limit : Option ℕ) (rows : List EvalRow)
      → (output : RunOutput) × (run_pipeline d settings (some fs) around limit rows ≡ some output)
        × (output.results ≡ map (offline_row d fs) (selected_rows limit rows))
        × (output.provider_errors ≡ 0)
  unfolding run_pipeline summarize
  run_pipeline-rows limit rows =
      let (t, run, results, errors) =
        run_rows-offline 0 (selected_rows limit rows)
          (record { db = empty_db; breaker = new_client settings }) tt in
      (
        summarize t,
        ap (λ o. elim o as (λ x. Option RunOutput) [ none ↦ none | some u ↦ some (summarize u) ])
            run,
        results,
        errors,
      )
