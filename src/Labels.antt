-- ===== src/Labels.antt =====
-- The label sets of app/schemas/triage.py and the enumerations of app/models.py. Each is a data
-- type with the source's words as `name`; a text outside the set has no value, which is what the
-- `Literal` types and the CHECK constraints demand.
pub mod Names
use ticket_triage.Base.{
  ℕ, ◌≡◌, ◌↔◌, true, Option, none, some, List, [], ◌∷◌, arith, Eq, rank_eq, if◌then◌else◌,
}
use ticket_triage.Text.{Text, codes, same}

pub data Intent : Type 0 where
  billing bug how_to feature_request account_access refund other : Intent

pub data Priority : Type 0 where
  p1 p2 p3 p4 : Priority

pub data Sentiment : Type 0 where
  negative neutral positive : Sentiment

pub data Channel : Type 0 where
  email web api : Channel

pub data Status : Type 0 where
  received triaged needs_human approved corrected : Status

pub data TriageError : Type 0 where
  parse_failed provider_error circuit_open : TriageError

pub data Purpose : Type 0 where
  classify repair reply_draft reply_repair : Purpose

pub data Outcome : Type 0 where
  ok parse_error timeout api_error : Outcome

pub data ReplyState : Type 0 where
  draft approved discarded : ReplyState

-- Equality of the stored words.
abbrev pub intent_rank : Intent → ℕ
intent_rank Intent.billing = 0
intent_rank Intent.bug = 1
intent_rank Intent.how_to = 2
intent_rank Intent.feature_request = 3
intent_rank Intent.account_access = 4
intent_rank Intent.refund = 5
intent_rank Intent.other = 6

pub intent_rank_iff : (a b : Intent) → (rank_eq intent_rank a b ≡ true) ↔ (a ≡ b)
intent_rank_iff a b = ground arith

instance abbrev pub intent_eq : Eq Intent
intent_eq = record { beq = rank_eq intent_rank; beq_iff = intent_rank_iff }

abbrev pub priority_rank : Priority → ℕ
priority_rank Priority.p1 = 0
priority_rank Priority.p2 = 1
priority_rank Priority.p3 = 2
priority_rank Priority.p4 = 3

pub priority_rank_iff : (a b : Priority) → (rank_eq priority_rank a b ≡ true) ↔ (a ≡ b)
priority_rank_iff a b = ground arith

instance abbrev pub priority_eq : Eq Priority
priority_eq = record { beq = rank_eq priority_rank; beq_iff = priority_rank_iff }

abbrev pub sentiment_rank : Sentiment → ℕ
sentiment_rank Sentiment.negative = 0
sentiment_rank Sentiment.neutral = 1
sentiment_rank Sentiment.positive = 2

pub sentiment_rank_iff : (a b : Sentiment) → (rank_eq sentiment_rank a b ≡ true) ↔ (a ≡ b)
sentiment_rank_iff a b = ground arith

instance abbrev pub sentiment_eq : Eq Sentiment
sentiment_eq = record { beq = rank_eq sentiment_rank; beq_iff = sentiment_rank_iff }

abbrev pub status_rank : Status → ℕ
status_rank Status.received = 0
status_rank Status.triaged = 1
status_rank Status.needs_human = 2
status_rank Status.approved = 3
status_rank Status.corrected = 4

pub status_rank_iff : (a b : Status) → (rank_eq status_rank a b ≡ true) ↔ (a ≡ b)
status_rank_iff a b = ground arith

instance abbrev pub status_eq : Eq Status
status_eq = record { beq = rank_eq status_rank; beq_iff = status_rank_iff }

abbrev pub purpose_rank : Purpose → ℕ
purpose_rank Purpose.classify = 0
purpose_rank Purpose.repair = 1
purpose_rank Purpose.reply_draft = 2
purpose_rank Purpose.reply_repair = 3

pub purpose_rank_iff : (a b : Purpose) → (rank_eq purpose_rank a b ≡ true) ↔ (a ≡ b)
purpose_rank_iff a b = ground arith

instance abbrev pub purpose_eq : Eq Purpose
purpose_eq = record { beq = rank_eq purpose_rank; beq_iff = purpose_rank_iff }

abbrev pub outcome_rank : Outcome → ℕ
outcome_rank Outcome.ok = 0
outcome_rank Outcome.parse_error = 1
outcome_rank Outcome.timeout = 2
outcome_rank Outcome.api_error = 3

pub outcome_rank_iff : (a b : Outcome) → (rank_eq outcome_rank a b ≡ true) ↔ (a ≡ b)
outcome_rank_iff a b = ground arith

instance abbrev pub outcome_eq : Eq Outcome
outcome_eq = record { beq = rank_eq outcome_rank; beq_iff = outcome_rank_iff }

abbrev pub reply_state_rank : ReplyState → ℕ
reply_state_rank ReplyState.draft = 0
reply_state_rank ReplyState.approved = 1
reply_state_rank ReplyState.discarded = 2

pub reply_state_rank_iff : (a b : ReplyState) → (rank_eq reply_state_rank a b ≡ true) ↔ (a ≡ b)
reply_state_rank_iff a b = ground arith

instance abbrev pub reply_state_eq : Eq ReplyState
reply_state_eq = record { beq = rank_eq reply_state_rank; beq_iff = reply_state_rank_iff }

unfoldable pub intent_name : Intent → Text
intent_name billing = codes "billing"
intent_name bug = codes "bug"
intent_name how_to = codes "how_to"
intent_name feature_request = codes "feature_request"
intent_name account_access = codes "account_access"
intent_name refund = codes "refund"
intent_name other = codes "other"

unfoldable pub priority_name : Priority → Text
priority_name p1 = codes "P1"
priority_name p2 = codes "P2"
priority_name p3 = codes "P3"
priority_name p4 = codes "P4"

unfoldable pub sentiment_name : Sentiment → Text
sentiment_name negative = codes "negative"
sentiment_name neutral = codes "neutral"
sentiment_name positive = codes "positive"

abbrev pub intents : List Intent
intents = billing ∷ bug ∷ how_to ∷ feature_request ∷ account_access ∷ refund ∷ other ∷ []

abbrev pub priorities : List Priority
priorities = p1 ∷ p2 ∷ p3 ∷ p4 ∷ []

abbrev pub sentiments : List Sentiment
sentiments = negative ∷ neutral ∷ positive ∷ []

-- The member of the set that is spelled as the text.
abbrev pub named : {A : Type 0} → (A → Text) → List A → Text → Option A
named name [] s = none
named name (a ∷ as') s = if same s (name a) then some a else named name as' s

unfoldable pub parse_intent : Text → Option Intent
unfolding intent_name same
parse_intent = named intent_name intents

unfoldable pub parse_priority : Text → Option Priority
unfolding priority_name same
parse_priority = named priority_name priorities

unfoldable pub parse_sentiment : Text → Option Sentiment
unfolding sentiment_name same
parse_sentiment = named sentiment_name sentiments
