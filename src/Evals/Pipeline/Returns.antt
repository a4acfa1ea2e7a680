-- ===== src/Evals/Pipeline/Returns.antt =====
-- A run returns: no row raises, with recorded replies and with a documented provider.
use mathlib.Core.Path.{subst, sym}
use ticket_triage.Base.{
  ℕ, suc, ◌*◌, ◌≡◌, ◌/◌, refl, ap, ◌∙◌, true, Option, none, some, List, [], ◌∷◌, arith,
}
use ticket_triage.Text.{Text, text_eq, same}
use ticket_triage.Model.{Settings}
use ticket_triage.Provider.{Exchange}
use ticket_triage.Json.{get}
use ticket_triage.Client.{World, content_text, usage_tokens, token_count}
use ticket_triage.Client.Answers.{Documented, Shaped, Provides, OfVerdict}
use ticket_triage.Schema.{Decoder, TriageResult}
use ticket_triage.Classifier.{Produced, produced, failed, unexpected}
use ticket_triage.Classifier.Answers.{is_expected, IsReadable}
use ticket_triage.Evals.Pipeline.Calls.{judge_fixture, Below}
use ticket_triage.Evals.Pipeline.{
  EvalRow, Fixture, fixture_content, or_empty, Surroundings, fixture_exchange, selected_rows,
  empty_db, new_client, row_result, Tally, count_result, then_count, summarize, classify_row,
  run_rows, run_pipeline,
}
use ticket_triage.Evals.Metrics.{RowResult, RunOutput}
use ticket_triage.Evals.Pipeline.Account.{Reported, run_pipeline-IsAccount}
use ticket_triage.Evals.Pipeline.Offline.{Numbered}
use ticket_triage.Evals.Pipeline.Results.{classify_ticket-returns}

-- The mock transport keeps to the provider's documents.
fixture_exchange-Documented :
    (around : Surroundings) (content : Option Text) (x : Exchange)
    → Documented (fixture_exchange around content x)
unfolding fixture_exchange usage_tokens token_count get same
fixture_exchange-Documented around content x = λ payload n.
    subst Shaped (sym (judge_fixture (around.size payload) (or_empty content)))
      (some (around.size payload / 4), some 40, refl, refl)

fixture_exchange-Provides :
    (P : Text → Type 0) (around : Surroundings) (content : Option Text) (x : Exchange)
    → P (or_empty content)
    → Provides P (fixture_exchange around content x)
unfolding fixture_exchange content_text
fixture_exchange-Provides P around content x h = λ payload n.
    subst (OfVerdict P x.repr) (sym (judge_fixture (around.size payload) (or_empty content))) h

-- The texts of the fixtures, or of a provider that keeps to its documents, are such that json.loads
-- gives a value or a JSONDecodeError.
abbrev pub Provided : Decoder → Option (List Fixture) → Surroundings → Type 0
Provided d none around =
    (i : ℕ)
    → Documented (around.first i)
      × Documented (around.second i)
      × Provides (IsReadable d) (around.first i)
      × Provides (IsReadable d) (around.second i)
Provided d (some fs) around = (key : Text) → IsReadable d (or_empty (fixture_content key fs))

module _ (d : Decoder) (settings : Settings) (around : Surroundings) (number : Text → ℕ)
    (numbered : Numbered number around) where
  abbrev Settled : ℕ → Produced TriageResult × World → Type 0
  Settled k (p, w) = (is_expected p ≡ true) × Below number k w.db.llm_calls

  classify_row-returns :
      (fixtures : Option (List Fixture)) (i : ℕ) (row : EvalRow) (w : World)
      → Provided d fixtures around
      → Below number (2 * i) w.db.llm_calls
      → Settled (2 * suc i) (classify_row d settings fixtures around i row w)
  unfolding classify_row fixture_exchange
  classify_row-returns none i row w good h =
      subst (λ k. Settled k (classify_row d settings none around i row w)) (omega arith)
        (classify_ticket-returns number d settings (around.first i) (around.second i) row.letter
          (2 * i) (numbered.first i) (omega (arith, numbered.second i)) (good i).0 (good i).1
          (good i).2 (good i).3 w h)
  classify_row-returns (some fs) i row w good h =
      let content = fixture_content row.external_id fs in
      subst (λ k. Settled k (classify_row d settings (some fs) around i row w)) (omega arith)
        (classify_ticket-returns number d settings
          (fixture_exchange around content (around.first i))
          (fixture_exchange around content (around.second i)) row.letter (2 * i) (numbered.first i)
          (omega (arith, numbered.second i))
          (fixture_exchange-Documented around content (around.first i))
          (fixture_exchange-Documented around content (around.second i))
          (fixture_exchange-Provides (IsReadable d) around content (around.first i)
            (good row.external_id))
          (fixture_exchange-Provides (IsReadable d) around content (around.second i)
            (good row.external_id))
          (record { db = w.db; breaker = new_client settings }) h)

  row_result-expected :
      (row : EvalRow) (p : Produced TriageResult)
      → is_expected p ≡ true
      → (r : RowResult) × (row_result row p ≡ some r)
  unfolding row_result
  row_result-expected row (produced a n) h = (_, refl)
  row_result-expected row (failed reason) h = (_, refl)
  row_result-expected row unexpected h = absurd (cc h)

  run_rows-returns :
      (fixtures : Option (List Fixture)) (i : ℕ) (rows : List EvalRow) (w : World)
      → Provided d fixtures around
      → Below number (2 * i) w.db.llm_calls
      → (t : Tally) × (run_rows d settings fixtures around i rows w ≡ some t)
  unfolding run_rows then_count
  run_rows-returns fixtures i [] w good h = (_, refl)
  run_rows-returns fixtures i (row ∷ rows) w good h =
      let (expected, next) = classify_row-returns fixtures i row w good h in
      let w' = (classify_row d settings fixtures around i row w).1 in
      let (r, e) =
        row_result-expected row (classify_row d settings fixtures around i row w).0 expected in
      let (t, run) = run_rows-returns fixtures (suc i) rows w' good next in
      (
        count_result r t,
        ap (λ a. then_count a (run_rows d settings fixtures around (suc i) rows w')) e
            ∙ ap (then_count (some r)) run,
      )

  -- A run returns, and reports, for each row that it was to classify and in their order, either
  -- a prediction or why there is none, under the row's id and gold labels; its parse failures are those
  -- of the results, and with the predictions and the provider errors they are all results. The ids of
  -- the calls are all different, json.loads gives a value or a JSONDecodeError for the texts of the
  -- fixtures or of the provider, and without fixtures a request raises no other exception than a
  -- transport error and a 200 of the provider is a document of its API.
  pub run_pipeline-Reported :
      (fixtures : Option (List Fixture)) (limit : Option ℕ) (rows : List EvalRow)
      → Provided d fixtures around
      → (output : RunOutput) × (run_pipeline d settings fixtures around limit rows ≡ some output)
        × Reported (selected_rows limit rows) output
  unfolding run_pipeline
  run_pipeline-Reported fixtures limit rows good =
      let (t, run) =
        run_rows-returns fixtures 0 (selected_rows limit rows)
          (record { db = empty_db; breaker = new_client settings }) good tt in
      let returned : run_pipeline d settings fixtures around limit rows ≡ some (summarize t) =
        ap (λ o. elim o as (λ x. Option RunOutput) [ none ↦ none | some u ↦ some (summarize u) ])
          run in
      (
        summarize t,
        returned,
        run_pipeline-IsAccount d settings fixtures around limit rows (summarize t) returned,
      )
