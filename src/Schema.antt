-- ===== src/Schema.antt =====
-- The gates for provider output: `TriageResult` of app/schemas/triage.py, `ReplyDraftResult` of
-- app/schemas/reply.py, and the parsing in front of them (app/services/classifier.py). `json.loads`
-- and pydantic's error list are outside the repository: the record `Decoder`.
pub mod Fences
pub mod Gate
use ticket_triage.Base.{
  ℕ, ◌-◌, Option, none, some, Bool, true, false, ◌&&◌, ◌==◌, List, [], ◌∷◌, ◌++◌, length, take,
  drop, leb, if◌then◌else◌,
}
use ticket_triage.Text.{Text, codes, text_eq, strip, lower, upper, starts_with, ends_with}
use ticket_triage.Labels.{
  Intent, Priority, Sentiment, parse_intent, parse_priority, parse_sentiment,
}
use ticket_triage.Json.{Json, str, obj, Fields, get}

pub record TriageResult : Type 0 where
  pub intent : Intent
  pub priority : Priority
  pub sentiment : Sentiment
  pub summary : Text

pub record ReplyDraftResult : Type 0 where
  pub reply : Text

-- `json.loads`: a value, a JSONDecodeError with its text, or another exception, which the parsers do
-- not catch (a number of too many digits, or too deep a nesting).
pub data Loaded : Type 0 where
  loaded : Json → Loaded
  decode_error : Text → Loaded
  load_error : Loaded

-- One entry of `exc.errors()`: its location and its message.
pub record SchemaError : Type 0 where
  pub loc : List Text
  pub msg : Text

pub record Decoder : Type 0 where
  pub loads : Text → Loaded
  pub triage_errors : Fields → List SchemaError
  pub reply_errors : Fields → List SchemaError

-- The result, the description of what is wrong, or an exception that leaves the parser.
pub data Parsed (A : Type 0) : Type 0 where
  parsed : A → Parsed A
  refused : Text → Parsed A
  parse_raised : Parsed A

-- A string field of bounded length, stripped first.
unfoldable pub bounded_text : ℕ → Json → Option Text
bounded_text limit (str s) =
    let t = strip s in if leb 1 (length t) && leb (length t) limit then some t else none
bounded_text limit other = none

unfoldable pub intent_field : Json → Option Intent
intent_field (str s) = parse_intent (lower (strip s))
intent_field other = none

unfoldable pub priority_field : Json → Option Priority
priority_field (str s) = parse_priority (upper (strip s))
priority_field other = none

unfoldable pub sentiment_field : Json → Option Sentiment
sentiment_field (str s) = parse_sentiment (lower (strip s))
sentiment_field other = none

abbrev pub all_fields :
    Option Intent → Option Priority → Option Sentiment → Option Text → Option TriageResult
all_fields (some i) (some p) (some s) (some t) =
    some (record { intent = i; priority = p; sentiment = s; summary = t })
all_fields _ _ _ _ = none

-- `TriageResult.model_validate` of an object: a missing key is refused like `null`.
unfoldable pub validate_triage : Fields → Option TriageResult
validate_triage fs =
    all_fields (intent_field (get (codes "intent") fs)) (priority_field (get (codes "priority") fs))
      (sentiment_field (get (codes "sentiment") fs)) (bounded_text 600 (get (codes "summary") fs))

-- `MAX_REPLY_CHARS`
abbrev pub max_reply_chars : ℕ
max_reply_chars = 2000

abbrev pub reply_result : Option Text → Option ReplyDraftResult
reply_result none = none
reply_result (some t) = some (record { reply = t })

unfoldable pub validate_reply : Fields → Option ReplyDraftResult
validate_reply fs = reply_result (bounded_text max_reply_chars (get (codes "reply") fs))

abbrev pub fence : Text
fence = codes "```"

-- The opening fence is cut off: drop the language tag, then the closing fence.
unfoldable pub drop_tag : Text → Text
drop_tag text = if lower (take 4 text) == codes "json" then drop 4 text else text

unfoldable pub drop_closing : Text → Text
drop_closing text = if ends_with text fence then take (length text - 3) text else text

unfoldable pub strip_fences : Text → Text
strip_fences content =
    let text = strip content in
    if starts_with text fence then strip (drop_closing (drop_tag (drop 3 text))) else strip text

unfoldable pub join_with : Text → List Text → Text
join_with sep [] = []
join_with sep (s ∷ []) = s
join_with sep (s ∷ t ∷ rest) = s ++ (sep ++ join_with sep (t ∷ rest))

unfoldable pub error_part : SchemaError → Text
unfolding join_with
error_part e = join_with (codes ".") e.loc ++ (codes ": " ++ e.msg)

unfoldable pub error_parts : List SchemaError → List Text
unfolding error_part
error_parts [] = []
error_parts (e ∷ es) = error_part e ∷ error_parts es

unfoldable pub format_validation_errors : List SchemaError → Text
unfolding error_parts
format_validation_errors errors = join_with (codes "; ") (error_parts errors)

abbrev pub gate : {A : Type 0} → Option A → List SchemaError → Parsed A
gate (some a) errors = parsed a
gate none errors = refused (format_validation_errors errors)

-- What both parsers do after the gate is chosen.
abbrev pub parse_document :
    {A : Type 0} → (Fields → Option A) → (Fields → List SchemaError) → Loaded → Parsed A
parse_document validate errors (decode_error message) = refused (codes "invalid JSON: " ++ message)
parse_document validate errors load_error = parse_raised
parse_document validate errors (loaded (obj fs)) = gate (validate fs) (errors fs)
parse_document validate errors (loaded other) = refused (codes "response was not a JSON object")

unfoldable pub parse_triage : Decoder → Text → Parsed TriageResult
parse_triage d content =
    parse_document validate_triage d.triage_errors (d.loads (strip_fences content))

unfoldable pub parse_reply : Decoder → Text → Parsed ReplyDraftResult
parse_reply d content =
    parse_document validate_reply d.reply_errors (d.loads (strip_fences content))
