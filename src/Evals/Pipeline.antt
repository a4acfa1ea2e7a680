-- ===== src/Evals/Pipeline.antt =====
-- `run_pipeline` of evals/run.py, with `_fixture_client` and `_aggregate_calls`: every row of the data
-- set through the classifier, over an empty database. The channel of a row is one of the service's.
pub mod Account
pub mod Calls
pub mod Replies
pub mod Offline
pub mod Results
pub mod Returns
use ticket_triage.Base.{
  ℕ, zero, suc, ◌+◌, ◌*◌, ◌/◌, Bool, true, false, ◌==◌, Option, none, some, List, [], ◌∷◌, ◌++◌,
  length, take, if◌then◌else◌,
}
use ticket_triage.Text.{Text, codes, text_eq}
use ticket_triage.Labels.{
  Channel, TriageError, parse_failed, provider_error, circuit_open, intent_name, priority_name,
  sentiment_name,
}
use ticket_triage.Model.{LlmCall, Db, Settings}
use ticket_triage.Breaker.{CircuitBreaker, new_breaker}
use ticket_triage.Json.{Json, int, str, arr, obj, nil, cons, field, end}
use ticket_triage.Provider.{Payload, Response, response, document, Exchange}
use ticket_triage.Prompts.{Letter}
use ticket_triage.Schema.{Decoder, TriageResult}
use ticket_triage.Client.{World, tokens_or_zero}
use ticket_triage.Classifier.{Produced, produced, failed, unexpected, classify_ticket}
use ticket_triage.Counts.{total_by}
use ticket_triage.Evals.Metrics.{Labelled, RowResult, RunOutput}

-- A row of the data set.
pub record EvalRow : Type 0 where
  pub external_id : Text
  pub letter : Letter
  pub gold : Labelled

-- A recorded reply.
pub record Fixture : Type 0 where
  pub external_id : Text
  pub content : Text

-- `fixtures.get`: of two entries with one key, a dict keeps the later.
unfoldable pub fixture_content : Text → List Fixture → Option Text
fixture_content key [] = none
fixture_content key (f ∷ fs) =
    let later = fixture_content key fs in
    elim later [ some c ↦ some c | none ↦ if f.external_id == key then some f.content else none ]

abbrev pub or_empty : Option Text → Text
or_empty none = []
or_empty (some c) = c

-- The response of the mock transport to a request of this size.
unfoldable pub fixture_document : ℕ → Text → Json
fixture_document size text = obj (
    field (codes "choices")
      (arr (
        cons (obj (field (codes "message") (obj (field (codes "content") (str text) end)) end))
          nil))
      (field (codes "usage")
        (obj (
          field (codes "prompt_tokens") (int (size / 4))
            (field (codes "completion_tokens") (int 40) end)))
        end))

-- What a run finds outside: the provider, clocks and new ids of the calls for each row, and how many
-- bytes a request has.
pub record Surroundings : Type 0 where
  pub first : ℕ → Exchange
  pub second : ℕ → Exchange
  pub size : Payload → ℕ

-- `_fixture_client`
unfoldable pub fixture_exchange : Surroundings → Option Text → Exchange → Exchange
unfolding fixture_document
fixture_exchange around content x = record x {
  post = λ payload attempt.
      response 200 (document (fixture_document (around.size payload) (or_empty content)));
}

-- `rows[:limit] if limit else rows`
abbrev pub selected_rows : Option ℕ → List EvalRow → List EvalRow
selected_rows none rows = rows
selected_rows (some zero) rows = rows
selected_rows (some (suc n)) rows = take (suc n) rows

abbrev pub empty_db : Db
empty_db = record {
  tickets = [];
  triages = [];
  llm_calls = [];
  corrections = [];
  reply_drafts = [];
  routing_rules = [];
}

abbrev pub new_client : Settings → CircuitBreaker
new_client settings =
    new_breaker settings.circuit_failure_threshold settings.circuit_cooldown_seconds

abbrev pub predicted_row : EvalRow → TriageResult → RowResult
predicted_row row r = record {
  external_id = row.external_id;
  gold = row.gold;
  pred = some (record {
    intent = intent_name r.intent;
    priority = priority_name r.priority;
    sentiment = sentiment_name r.sentiment;
  });
  failure = none;
}

abbrev pub failed_row : EvalRow → TriageError → RowResult
failed_row row reason = record {
  external_id = row.external_id;
  gold = row.gold;
  pred = none;
  failure = some reason;
}

-- The prediction and the failure of a row; another exception leaves the run.
unfoldable pub row_result : EvalRow → Produced TriageResult → Option RowResult
unfolding intent_name priority_name sentiment_name
row_result row (produced r attempts) = some (predicted_row row r)
row_result row (failed reason) = some (failed_row row reason)
row_result row unexpected = none

-- The loop's counters and results.
pub record Tally : Type 0 where
  pub results : List RowResult
  pub provider_errors : ℕ
  pub parse_failures : ℕ
  pub world : World

abbrev pub parse_failures_after : Option TriageError → ℕ → ℕ
parse_failures_after (some parse_failed) n = suc n
parse_failures_after other n = n

abbrev pub provider_errors_after : Option TriageError → ℕ → ℕ
provider_errors_after (some provider_error) n = suc n
provider_errors_after (some circuit_open) n = suc n
provider_errors_after other n = n

unfoldable pub count_result : RowResult → Tally → Tally
count_result r t = record t {
  results = r ∷ t.results;
  provider_errors = provider_errors_after r.failure t.provider_errors;
  parse_failures = parse_failures_after r.failure t.parse_failures;
}

-- The result of a row before those of the later rows, if none of them raises.
unfoldable pub then_count : Option RowResult → Option Tally → Option Tally
unfolding count_result
then_count (some r) (some t) = some (count_result r t)
then_count first later = none

-- `_aggregate_calls`, and the end of `run_pipeline`.
unfoldable pub summarize : Tally → RunOutput
summarize t =
    let calls = t.world.db.llm_calls in
    record {
      results = t.results;
      calls = length calls;
      input_tokens = total_by (λ (c : LlmCall). tokens_or_zero c.input_tokens) calls;
      output_tokens = total_by (λ (c : LlmCall). tokens_or_zero c.output_tokens) calls;
      cost_usd = total_by (λ (c : LlmCall). c.cost_usd) calls;
      provider_errors = t.provider_errors;
      parse_failures = t.parse_failures;
    }

module _ (d : Decoder) (settings : Settings) (fixtures : Option (List Fixture))
    (around : Surroundings) where
  -- One row: the client is the shared one, or a new one on the row's fixture.
  unfoldable pub classify_row : ℕ → EvalRow → World → Produced TriageResult × World
  unfolding fixture_exchange fixture_content
  classify_row i row w = elim fixtures [
    | none ↦ classify_ticket d settings (around.first i) (around.second i) none row.letter w
    | some fs ↦
        let content = fixture_content row.external_id fs in
        classify_ticket d settings (fixture_exchange around content (around.first i))
          (fixture_exchange around content (around.second i)) none row.letter
          (record { db = w.db; breaker = new_client settings })
  ]

  -- The rows from number `i` on.
  unfoldable pub run_rows : ℕ → List EvalRow → World → Option Tally
  unfolding row_result then_count
  run_rows i [] w =
      some (record { results = []; provider_errors = 0; parse_failures = 0; world = w })
  run_rows i (row ∷ rows) w =
      let (outcome, w') = classify_row i row w in
      then_count (row_result row outcome) (run_rows (suc i) rows w')

  -- `run_pipeline`, or `none` where it raises.
  unfoldable pub run_pipeline : Option ℕ → List EvalRow → Option RunOutput
  unfolding run_rows summarize
  run_pipeline limit rows =
      elim (run_rows 0 (selected_rows limit rows)
        (record { db = empty_db; breaker = new_client settings })) [
          | none ↦ none
          | some t ↦ some (summarize t)
        ]
