-- ===== src/Schema/Gate.antt =====
-- What passes the gates: every parsed result is within the schema, and a well-formed document is
-- accepted however its labels are capitalised.
use ticket_triage.Base.{ℕ, ◌≤◌, ◌≡◌, refl, sym, ap, ◌∙◌, Option, some, List, length, arith}
use ticket_triage.Text.{Text, codes, strip, lower, upper}
use ticket_triage.Text.Strip.{strip_idem}
use ticket_triage.Json.{Json, str, obj, Fields, get}
use ticket_triage.Labels.{Intent, Priority, Sentiment, intent_name, priority_name, sentiment_name}
use ticket_triage.Labels.Names.{
  parse_intent-name, parse_priority-name, parse_sentiment-name, parse_intent-eq, parse_priority-eq,
  parse_sentiment-eq,
}
use ticket_triage.Schema.{
  TriageResult, ReplyDraftResult, Decoder, Loaded, loaded, decode_error, load_error, parsed,
  bounded_text, intent_field, priority_field, sentiment_field, validate_triage, validate_reply,
  strip_fences, parse_triage, parse_reply, parse_document, all_fields, SchemaError,
}

-- Stripped, not empty, and of at most `limit` characters.
pub record IsBounded (limit : ℕ) (t : Text) : Type 0 where
  pub stripped : strip t ≡ t
  pub not_empty : 1 ≤ length t
  pub short : length t ≤ limit

bounded_text-IsBounded :
    (limit : ℕ) (j : Json) {t : Text} → bounded_text limit j ≡ some t → IsBounded limit t
unfolding bounded_text
bounded_text-IsBounded limit (str s) {t} h =
    let e : strip s ≡ t = ground arith in
    record {
      stripped = sym (ap strip e) ∙ strip_idem s ∙ e;
      not_empty = ground arith;
      short = ground arith;
    }
bounded_text-IsBounded limit _ h = cc

-- The document's field is a string that reads, stripped and in the case of the set, as the name.
abbrev pub Reads : (Text → Text) → Json → Text → Type 0
Reads fold j name = (s : Text) × (j ≡ str s) × (fold (strip s) ≡ name)

-- What a document must hold to be the result `r`.
pub record Describes (fs : Fields) (r : TriageResult) : Type 0 where
  pub intent : Reads lower (get (codes "intent") fs) (intent_name r.intent)
  pub priority : Reads upper (get (codes "priority") fs) (priority_name r.priority)
  pub sentiment : Reads lower (get (codes "sentiment") fs) (sentiment_name r.sentiment)
  pub summary : Reads (λ t. t) (get (codes "summary") fs) r.summary
  pub not_empty : 1 ≤ length r.summary
  pub short : length r.summary ≤ 600

intent_field-Reads :
    (j : Json) (a : Intent) → intent_field j ≡ some a → Reads lower j (intent_name a)
unfolding intent_field
intent_field-Reads (str s) a h = (s, refl, parse_intent-eq (lower (strip s)) h)
intent_field-Reads _ a h = cc

priority_field-Reads :
    (j : Json) (a : Priority) → priority_field j ≡ some a → Reads upper j (priority_name a)
unfolding priority_field
priority_field-Reads (str s) a h = (s, refl, parse_priority-eq (upper (strip s)) h)
priority_field-Reads _ a h = cc

sentiment_field-Reads :
    (j : Json) (a : Sentiment) → sentiment_field j ≡ some a → Reads lower j (sentiment_name a)
unfolding sentiment_field
sentiment_field-Reads (str s) a h = (s, refl, parse_sentiment-eq (lower (strip s)) h)
sentiment_field-Reads _ a h = cc

bounded_text-Reads :
    (limit : ℕ) (j : Json) (t : Text) → bounded_text limit j ≡ some t → Reads (λ t. t) j t
unfolding bounded_text
bounded_text-Reads limit (str s) t h = (s, refl, ground arith)
bounded_text-Reads limit _ t h = cc

Reads-intent_field :
    (j : Json) (a : Intent) → Reads lower j (intent_name a) → intent_field j ≡ some a
unfolding intent_field
Reads-intent_field j a (s, e, f) = rw (e, intent_field, f) (parse_intent-name a)

Reads-priority_field :
    (j : Json) (a : Priority) → Reads upper j (priority_name a) → priority_field j ≡ some a
unfolding priority_field
Reads-priority_field j a (s, e, f) = rw (e, priority_field, f) (parse_priority-name a)

Reads-sentiment_field :
    (j : Json) (a : Sentiment) → Reads lower j (sentiment_name a) → sentiment_field j ≡ some a
unfolding sentiment_field
Reads-sentiment_field j a (s, e, f) = rw (e, sentiment_field, f) (parse_sentiment-name a)

Reads-bounded_text :
    (limit : ℕ) (j : Json) (t : Text)
    → Reads (λ t. t) j t
    → 1 ≤ length t
    → length t ≤ limit
    → bounded_text limit j ≡ some t
unfolding bounded_text
Reads-bounded_text limit j t (s, e, f) lo hi = rw (e, bounded_text, f) (ground arith)

-- The four parts of an accepted document.
all_fields-some :
    (i : Option Intent) (p : Option Priority) (s : Option Sentiment) (t : Option Text)
    {r : TriageResult}
    → all_fields i p s t ≡ some r
    → (i ≡ some r.intent) × (p ≡ some r.priority) × (s ≡ some r.sentiment) × (t ≡ some r.summary)
all_fields-some i p s t h = ground arith

validate_triage-Describes :
    (fs : Fields) (r : TriageResult) → validate_triage fs ≡ some r → Describes fs r
unfolding validate_triage
validate_triage-Describes fs r h =
    let (i, p, s, t) = all_fields-some _ _ _ _ h in
    let bounds = bounded_text-IsBounded 600 (get (codes "summary") fs) t in
    record {
      intent = intent_field-Reads _ _ i;
      priority = priority_field-Reads _ _ p;
      sentiment = sentiment_field-Reads _ _ s;
      summary = bounded_text-Reads 600 _ _ t;
      not_empty = bounds.not_empty;
      short = bounds.short;
    }

Describes-validate_triage :
    (fs : Fields) (r : TriageResult) → Describes fs r → validate_triage fs ≡ some r
unfolding validate_triage
Describes-validate_triage fs r d = rw (
  Reads-intent_field _ _ d.intent,
  Reads-priority_field _ _ d.priority,
  Reads-sentiment_field _ _ d.sentiment,
  Reads-bounded_text 600 _ _ d.summary d.not_empty d.short,
)

parse_document-parsed :
    {A : Type 0} (validate : Fields → Option A) (errors : Fields → List SchemaError) (l : Loaded)
    {a : A}
    → parse_document validate errors l ≡ parsed a
    → (fs : Fields) × (l ≡ loaded (obj fs)) × (validate fs ≡ some a)
parse_document-parsed validate errors (decode_error m) h = cc
parse_document-parsed validate errors load_error h = cc
parse_document-parsed validate errors (loaded (obj fs)) h = (fs, refl, ground arith)
parse_document-parsed validate errors (loaded _) h = cc

-- Provider text becomes the triage `r` exactly when what is left of it without fences decodes to an
-- object whose intent, priority and sentiment are strings that read, without blanks and in any
-- case, as the labels of `r`, and whose summary, stripped, is that of `r` and has 1 to 600
-- characters.
pub parse_triage_iff :
    (d : Decoder) (content : Text) (r : TriageResult)
    → (parse_triage d content ≡ parsed r
        → (fs : Fields) × (d.loads (strip_fences content) ≡ loaded (obj fs)) × Describes fs r)
      × ((fs : Fields)
          → d.loads (strip_fences content) ≡ loaded (obj fs)
          → Describes fs r
          → parse_triage d content ≡ parsed r)
unfolding parse_triage
parse_triage_iff d content r = (
  λ h.
      let (fs, e, v) = parse_document-parsed validate_triage d.triage_errors _ h in
      (fs, e, validate_triage-Describes fs r v),
  λ fs e g. rw (e, Describes-validate_triage fs r g),
)

-- A reply draft that is parsed is stripped and has 1 to 2000 characters.
pub parse_reply-IsBounded :
    (d : Decoder) (content : Text) (r : ReplyDraftResult)
    → parse_reply d content ≡ parsed r
    → IsBounded 2000 r.reply
unfolding parse_reply validate_reply
parse_reply-IsBounded d content r h =
    let (fs, e, v) = parse_document-parsed validate_reply d.reply_errors _ h in
    bounded_text-IsBounded 2000 (get (codes "reply") fs) (ground arith)
