-- ===== src/Client.antt =====
-- `LlmClient.complete` of app/services/llm_client.py: one provider call behind the breaker, with one
-- row in llm_calls. The rows are written to the session; its commit is the caller's.
pub mod Effect
pub mod Answers
use ticket_triage.Base.{
  ℕ, suc, ◌+◌, ◌-◌, ◌*◌, ◌/◌, ◌%◌, Bool, true, false, ◌==◌, Option, none, some, List, ltb, eqb,
  if◌then◌else◌,
}
use ticket_triage.Text.{Text, codes}
use ticket_triage.Labels.{Purpose, Outcome, ok, outcome_eq}
use ticket_triage.Model.{LlmCall, Db, Settings, insert_call}
use ticket_triage.Json.{Json, null, bool, int, str, obj, get, truthy}
use ticket_triage.Breaker.{CircuitBreaker, allow, record_success, record_failure}
use ticket_triage.Provider.{
  Message, Payload, Exchange, Attempted, returned, crashed, attempt_with_retries,
}

-- What a call reads and writes: the session's database, and the breaker of the shared client.
pub record World : Type 0 where
  pub db : Db
  pub breaker : CircuitBreaker

pub record LlmResult : Type 0 where
  pub content : Text
  pub input_tokens : Option ℕ
  pub output_tokens : Option ℕ
  pub call : Text

-- A result, CircuitOpenError, ProviderError, or any other exception.
pub data Completed : Type 0 where
  completed : LlmResult → Completed
  circuit_open_error : Completed
  provider_error : Outcome → Text → Completed
  other_error : Completed

-- `round` of a quotient to the nearest whole number, a half to the even one.
unfoldable pub round_div : ℕ → ℕ → ℕ
round_div n d =
    let q = n / d in
    let twice = 2 * (n % d) in if ltb twice d then q else if ltb d twice then q + 1 else q + q % 2

abbrev pub tokens_or_zero : Option ℕ → ℕ
tokens_or_zero none = 0
tokens_or_zero (some n) = n

-- `_cost`, in micro-dollars, from prices in micro-dollars for a million tokens.
unfoldable pub cost : Settings → Option ℕ → Option ℕ → ℕ
unfolding round_div
cost settings input_tokens output_tokens =
    round_div
      (tokens_or_zero input_tokens * settings.llm_price_input_per_mtok
        + tokens_or_zero output_tokens * settings.llm_price_output_per_mtok)
      1000000

-- A token count of the usage document; no number raises in `_cost` or in the database.
unfoldable pub token_count : Json → Option (Option ℕ)
token_count null = some none
token_count (int n) = some (some n)
token_count (bool true) = some (some 1)
token_count (bool false) = some (some 0)
token_count other = none

-- `usage.get(key) if usage else None`
unfoldable pub usage_tokens : Text → Json → Option (Option ℕ)
unfolding token_count
usage_tokens key (obj fs) = token_count (get key fs)
usage_tokens key usage = if truthy usage then none else some none

-- The provider's content as text.
unfoldable pub content_text : (Json → Text) → Json → Text
content_text repr (str s) = s
content_text repr null = codes ""
content_text repr other = repr other

module _ (settings : Settings) (purpose : Purpose) (ticket_id : Option Text) (x : Exchange) where
  abbrev pub call_row : Outcome → Option ℕ → Option ℕ → LlmCall
  call_row outcome input_tokens output_tokens = record {
    id = x.call_id;
    ticket_id = ticket_id;
    purpose = purpose;
    model = settings.llm_model;
    input_tokens = input_tokens;
    output_tokens = output_tokens;
    cost_usd = cost settings input_tokens output_tokens;
    latency_ms = x.ended - x.started;
    outcome = outcome;
    created_at = x.created_at;
  }

  -- After `db.flush()`: the breaker, and the result or the error.
  unfoldable pub settle :
      Outcome → Json → Text → Option ℕ → Option ℕ → Db → CircuitBreaker → Completed × World
  settle outcome content detail input_tokens output_tokens db breaker =
      if outcome == ok
      then (
        completed (record {
          content = content_text x.repr content;
          input_tokens = input_tokens;
          output_tokens = output_tokens;
          call = x.call_id;
        }),
        record { db = db; breaker = record_success breaker },
      )
      else (
        provider_error outcome detail,
        record { db = db; breaker = record_failure x.failed_at breaker },
      )

  unfoldable pub flush_call :
      Outcome → Json → Text → Option ℕ → Option ℕ → World → Completed × World
  unfolding settle
  flush_call outcome content detail i o w = elim (insert_call (call_row outcome i o) w.db) [
    | none ↦ (other_error, w)
    | some db ↦ settle outcome content detail i o db w.breaker
  ]

  unfoldable pub read_usage : Outcome → Json → Json → Text → World → Completed × World
  unfolding flush_call
  read_usage outcome content usage detail w = elim (usage_tokens (codes "prompt_tokens") usage) [
    | none ↦ (other_error, w)
    | some i ↦ elim (usage_tokens (codes "completion_tokens") usage) [
      | none ↦ (other_error, w)
      | some o ↦ flush_call outcome content detail i o w
    ]
  ]

  unfoldable pub record_attempt : Attempted → World → Completed × World
  unfolding read_usage
  record_attempt crashed w = (other_error, w)
  record_attempt (returned outcome content usage detail) w =
      read_usage outcome content usage detail w

  unfoldable pub complete : List Message → World → Completed × World
  unfolding record_attempt
  complete messages w =
      let payload : Payload = record {
        model = settings.llm_model;
        messages = messages;
        temperature = 0;
      } in
      if allow x.allow_at w.breaker
      then record_attempt (attempt_with_retries settings (x.post payload) x.jitter).result w
      else (circuit_open_error, w)
