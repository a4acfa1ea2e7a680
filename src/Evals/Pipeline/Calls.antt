-- ===== src/Evals/Pipeline/Calls.antt =====
-- A provider call on a recorded reply: it sends one request, which succeeds.
use ticket_triage.Base.{
  ℕ, suc, ◌+◌, ◌/◌, ◌<◌, ◌≤◌, ◌≡◌, refl, ap, ◌∙◌, inl, inr, Bool-cases, true, false, ◌||◌, ◌==◌,
  none, some, List, [], ◌∷◌, ◌++◌, All, arith, if◌then◌else◌,
}
use ticket_triage.Text.{Text, codes, same, text_eq}
use ticket_triage.Labels.{Purpose, ok, parse_error, api_error}
use ticket_triage.Table
use ticket_triage.Model.{LlmCall, Db, Settings, insert_call}
use ticket_triage.Json.{Json, str, int, obj, field, end, get, truthy}
use ticket_triage.Breaker.{allow, record_success}
use ticket_triage.Provider.{
  Message, Payload, response, document, Exchange, returned, judge, judge_body, judge_document,
  extract, choices_content, first_choice, message_content, success, attempt_with_retries,
  attempt_loop,
}
use ticket_triage.Provider.Retries.{loop_stops, decided, is_transient}
use ticket_triage.Client.{
  World, LlmResult, Completed, completed, circuit_open_error, other_error, complete, record_attempt,
  read_usage, flush_call, settle, call_row, usage_tokens, token_count, content_text,
}
use ticket_triage.Client.Effect.{with_call}
use ticket_triage.Classifier.{mark_rows}
use ticket_triage.Evals.Pipeline.{fixture_document}

abbrev pub usage_of : ℕ → Json
usage_of size = obj (
    field (codes "prompt_tokens") (int (size / 4)) (field (codes "completion_tokens") (int 40) end))

-- The document decodes to its text.
pub judge_fixture :
    (size : ℕ) (text : Text)
    → judge (response 200 (document (fixture_document size text)))
      ≡ success (str text) (usage_of size)
unfolding judge judge_body judge_document extract choices_content first_choice message_content
    fixture_document get truthy same
judge_fixture size text = refl

abbrev pub payload_of : Settings → List Message → Payload
payload_of settings messages = record {
  model = settings.llm_model;
  messages = messages;
  temperature = 0;
}

-- The row, the result and the world after a call.
abbrev pub row_of : Settings → Purpose → Exchange → ℕ → LlmCall
row_of settings purpose x n = call_row settings purpose none x ok (some n) (some 40)

abbrev pub fixture_result : Exchange → Text → ℕ → LlmResult
fixture_result x text n = record {
  content = text;
  input_tokens = some n;
  output_tokens = some 40;
  call = x.call_id;
}

abbrev pub fixture_world : Settings → Purpose → Exchange → ℕ → World → World
fixture_world settings purpose x n w = record {
  db = with_call (row_of settings purpose x n) w.db;
  breaker = record_success w.breaker;
}

module _ (settings : Settings) (purpose : Purpose) (x : Exchange) (size : Payload → ℕ) (text : Text)
    (answers : (payload : Payload)
      → x.post payload
        ≡ (λ attempt. response 200 (document (fixture_document (size payload) text)))) where
  first_attempt :
      (payload : Payload)
      → (attempt_with_retries settings (x.post payload) x.jitter).result
        ≡ returned ok (str text) (usage_of (size payload)) []
  unfolding attempt_with_retries
  first_attempt payload =
      let e : settings.llm_max_retries + 1 ≡ suc settings.llm_max_retries = omega arith in
      let judged : judge (x.post payload 0) ≡ success (str text) (usage_of (size payload)) =
        ap (λ f. judge (f 0)) (answers payload) ∙ judge_fixture (size payload) text in
      ap (λ n. (attempt_loop (x.post payload) x.jitter n 0 api_error []).result) e
      ∙ ap (λ a. a.result)
          (loop_stops (x.post payload) x.jitter settings.llm_max_retries 0 api_error []
            (inr (ap is_transient judged)))
      ∙ ap decided judged

  insert_call-fixture :
      (n : ℕ) (db : Db)
      → Table.contains (λ (c : LlmCall). c.id) x.call_id db.llm_calls ≡ false
      → insert_call (row_of settings purpose x n) db
        ≡ some (with_call (row_of settings purpose x n) db)
  unfolding insert_call
  insert_call-fixture n db k =
      ap (λ b. if b || false then none else some (with_call (row_of settings purpose x n) db)) k

  flush_call-fixture :
      (n : ℕ) (w : World)
      → Table.contains (λ (c : LlmCall). c.id) x.call_id w.db.llm_calls ≡ false
      → flush_call settings purpose none x ok (str text) [] (some n) (some 40) w
        ≡ (completed (fixture_result x text n), fixture_world settings purpose x n w)
  unfolding flush_call settle content_text
  flush_call-fixture n w k =
      ap
        (λ o. elim o as (λ u. Completed × World) [
          | none ↦ (other_error, w)
          | some db ↦
              settle settings purpose none x ok (str text) [] (some n) (some 40) db w.breaker
        ])
        (insert_call-fixture n w.db k)

  record_attempt-fixture :
      (n : ℕ) (w : World)
      → record_attempt settings purpose none x (returned ok (str text) (usage_of n) []) w
        ≡ flush_call settings purpose none x ok (str text) [] (some (n / 4)) (some 40) w
  unfolding record_attempt read_usage usage_tokens token_count get same
  record_attempt-fixture n w = refl

  -- A call appends its row and comes back with the text.
  pub complete-fixture :
      (messages : List Message) (w : World)
      → allow x.allow_at w.breaker ≡ true
      → Table.contains (λ (c : LlmCall). c.id) x.call_id w.db.llm_calls ≡ false
      → let n = size (payload_of settings messages) / 4 in
        complete settings purpose none x messages w
        ≡ (completed (fixture_result x text n), fixture_world settings purpose x n w)
  unfolding complete
  complete-fixture messages w h k =
      let payload = payload_of settings messages in
      ap
        (λ b.
          if b
          then record_attempt settings purpose none x
              (attempt_with_retries settings (x.post payload) x.jitter).result w
          else (circuit_open_error, w))
        h
      ∙ ap (λ a. record_attempt settings purpose none x a w) (first_attempt payload)
      ∙ record_attempt-fixture (size payload) w
      ∙ flush_call-fixture (size payload / 4) w k

-- The rows whose ids have numbers below `k`.
abbrev pub Below : (Text → ℕ) → ℕ → List LlmCall → Type 0
Below number k = All (λ (c : LlmCall). number c.id < k)

module _ (number : Text → ℕ) where
  pub contains-Below :
      (id : Text) (k : ℕ) (cs : List LlmCall)
      → Below number k cs
      → k ≤ number id
      → Table.contains (λ (c : LlmCall). c.id) id cs ≡ false
  unfolding Table.contains
  contains-Below id k [] h le = refl
  contains-Below id k (c ∷ cs) h le = elim (Bool-cases (c.id == id)) [
    | inl e ↦
        let same_number = ap number ((text_eq.beq_iff c.id id).0 e) in
        absurd (omega (arith, same_number, h.0, le))
    | inr e ↦ rw e (contains-Below id k cs h.1 le)
  ]

  pub mark_rows-Below :
      (id : Text) (k : ℕ) (cs : List LlmCall) → Below number k cs → Below number k (mark_rows id cs)
  unfolding mark_rows
  mark_rows-Below id k [] h = tt
  mark_rows-Below id k (c ∷ cs) h =
      let rest : Below number k (mark_rows id cs) = mark_rows-Below id k cs h.1 in
      elim (c.id == id)
        as (λ b. Below number k (
          if b
          then record c { outcome = parse_error } ∷ mark_rows id cs
          else c ∷ mark_rows id cs)) [ true ↦ (h.0, rest) | false ↦ (h.0, rest) ]

  pub Below-step :
      (k : ℕ) (cs : List LlmCall) (c : LlmCall)
      → number c.id ≡ k
      → Below number k cs
      → Below number (suc k) (cs ++ c ∷ [])
  Below-step k [] c e h = (omega arith, tt)
  Below-step k (c' ∷ cs) c e h = (omega (arith, h.0), Below-step k cs c e h.1)
