-- ===== src/Provider.antt =====
-- `LlmClient` of app/services/llm_client.py. The HTTP client (httpx), the clock, the random jitter
-- and the ids of new rows are outside the repository: what they answer during one call of
-- `complete` is the record `Exchange`.
pub mod Retries
pub mod Setup
use ticket_triage.Base.{
  ℕ, zero, suc, ◌+◌, ◌-◌, ◌*◌, ◌/◌, ◌%◌, ◌^◌, Bool, true, false, ◌&&◌, ◌||◌, not, Option, none,
  some, List, [], ◌∷◌, ◌++◌, ltb, leb, eqb, ◌==◌, if◌then◌else◌, ◌≡◌,
}
use ticket_triage.Text.{Text, codes, text_eq, decimal}
use ticket_triage.Labels.{Purpose, Outcome, ok, parse_error, timeout, api_error}
use ticket_triage.Table
use ticket_triage.Model.{Ticket, LlmCall, Db, Settings, ticket_key}
use ticket_triage.Json.{Json, null, bool, int, str, arr, obj, nil, cons, Fields, end, get, truthy}
use ticket_triage.Breaker.{CircuitBreaker, allow, record_success, record_failure}

pub record Message : Type 0 where
  pub role : Text
  pub content : Text

pub record Payload : Type 0 where
  pub model : Text
  pub messages : List Message
  pub temperature : ℕ

-- The body of a response: `response.json()` raises one of the two decoding errors, by its name, or
-- another exception, or decodes.
pub data Body : Type 0 where
  malformed : Text → Body
  unreadable : Body
  document : Json → Body

-- What `post` does: it raises a timeout or a transport error, by its name, or another exception, or a
-- response comes back.
pub data Response : Type 0 where
  raised : Text → Response
  broken : Response
  response : ℕ → Body → Response

pub record Exchange : Type 0 where
  pub post : Payload → ℕ → Response
  pub jitter : ℕ → ℕ
  pub allow_at : ℕ
  pub started : ℕ
  pub ended : ℕ
  pub failed_at : ℕ
  pub call_id : Text
  pub created_at : ℕ
  pub repr : Json → Text

-- `_extract`, or `none` where it raises an AttributeError, a TypeError or a KeyError because the
-- document has another shape.
unfoldable pub first_choice : Json → Option Json
first_choice (arr (cons (obj fs) rest)) = some (get (codes "message") fs)
first_choice other = none

unfoldable pub message_content : Json → Option Json
message_content (obj fs) = some (get (codes "content") fs)
message_content other = if truthy other then none else some null

unfoldable pub choices_content : Json → Option Json
unfolding first_choice message_content
choices_content choices =
    if truthy choices
    then elim (first_choice choices) [ none ↦ none | some message ↦ message_content message ]
    else some null

unfoldable pub extract : Json → Option (Json × Json)
unfolding choices_content
extract (obj fs) = elim (choices_content (get (codes "choices") fs)) [
  | none ↦ none
  | some content ↦ some (content, get (codes "usage") fs)
]
extract other = none

-- What one response means for the loop of `_attempt_with_retries`.
pub data Verdict : Type 0 where
  success : Json → Json → Verdict
  transient : Outcome → Text → Verdict
  final : Outcome → Text → Verdict
  crash : Verdict

-- `_RETRYABLE_STATUS`
unfoldable pub retryable_status : ℕ → Bool
retryable_status s = eqb s 429 || eqb s 500 || eqb s 502 || eqb s 503 || eqb s 504

unfoldable pub judge_document : Json → Verdict
unfolding extract
judge_document j = elim (extract j) [ none ↦ crash | some (content, usage) ↦ success content usage ]

unfoldable pub judge_body : Body → Verdict
unfolding judge_document
judge_body (malformed name) = transient api_error (codes "malformed body: " ++ name)
judge_body unreadable = crash
judge_body (document j) = judge_document j

unfoldable pub status_detail : ℕ → Text
status_detail s = codes "status=" ++ decimal s

unfoldable pub judge_status : ℕ → Verdict
unfolding retryable_status
judge_status s =
    let outcome : Outcome = if eqb s 408 then timeout else api_error in
    if retryable_status s
    then transient outcome (status_detail s)
    else final outcome (status_detail s)

unfoldable pub judge : Response → Verdict
unfolding judge_body judge_status
judge (raised name) = transient timeout name
judge broken = crash
judge (response s body) = if eqb s 200 then judge_body body else judge_status s

-- What the loop returns, the requests that it sent and the pauses that it made, in milliseconds.
pub data Attempted : Type 0 where
  returned : Outcome → Json → Json → Text → Attempted
  crashed : Attempted

pub record Attempts : Type 0 where
  pub result : Attempted
  pub posts : ℕ
  pub pauses : List ℕ

-- `_sleep_backoff`
unfoldable pub backoff : (ℕ → ℕ) → ℕ → ℕ
backoff jitter attempt = 500 * 4 ^ attempt + jitter attempt

abbrev pub stop : Attempted → Attempts
stop r = record { result = r; posts = 1; pauses = [] }

abbrev pub pause_then : ℕ → Attempts → Attempts
pause_then p a = record { result = a.result; posts = suc a.posts; pauses = p ∷ a.pauses }

-- The loop with `left` rounds to go; `attempt < attempts - 1` is `0 < left` in its body.
unfoldable pub attempt_loop : (ℕ → Response) → (ℕ → ℕ) → ℕ → ℕ → Outcome → Text → Attempts
attempt_loop post jitter zero attempt last_outcome last_detail = record {
  result = returned last_outcome null null last_detail;
  posts = 0;
  pauses = [];
}
attempt_loop post jitter (suc left) attempt last_outcome last_detail = elim (judge (post attempt)) [
  | success content usage ↦ stop (returned ok content usage [])
  | transient o d ↦
      let retried =
        pause_then (backoff jitter attempt) (attempt_loop post jitter left (suc attempt) o d) in
      if ltb 0 left then retried else stop (returned o null null d)
  | final o d ↦ stop (returned o null null d)
  | crash ↦ stop crashed
]

unfoldable pub attempt_with_retries : Settings → (ℕ → Response) → (ℕ → ℕ) → Attempts
attempt_with_retries settings post jitter =
    attempt_loop post jitter (settings.llm_max_retries + 1) 0 api_error []
