-- ===== src/Labels/Names.antt =====
-- The words of the label sets name their members, and `==` on the enumerations.
use ticket_triage.Base.{◌≡◌, refl, some, List, [], ◌∷◌, arith}
use ticket_triage.Text.{Text, same_iff}
use ticket_triage.Labels.{
  Intent, Priority, Sentiment, intent_name, priority_name, sentiment_name, parse_intent,
  parse_priority, parse_sentiment, named, intents, priorities, sentiments, billing, p1, negative,
}

pub parse_intent-name : (a : Intent) → parse_intent (intent_name a) ≡ some a
unfolding parse_intent
parse_intent-name billing = refl
parse_intent-name _ = refl

pub parse_priority-name : (a : Priority) → parse_priority (priority_name a) ≡ some a
unfolding parse_priority
parse_priority-name p1 = refl
parse_priority-name _ = refl

pub parse_sentiment-name : (a : Sentiment) → parse_sentiment (sentiment_name a) ≡ some a
unfolding parse_sentiment
parse_sentiment-name negative = refl
parse_sentiment-name _ = refl

-- A text names at most the member that is spelled so.
named-name :
    {A : Type 0} (name : A → Text) (members : List A) (s : Text) {a : A}
    → named name members s ≡ some a
    → s ≡ name a
named-name name [] s h = cc
named-name name (b ∷ bs) s {a} h = ground (arith, named-name name bs s {a = a}, same_iff s (name b))

pub parse_intent-eq : (s : Text) {a : Intent} → parse_intent s ≡ some a → s ≡ intent_name a
unfolding parse_intent
parse_intent-eq s h = named-name intent_name intents s h

pub parse_priority-eq : (s : Text) {a : Priority} → parse_priority s ≡ some a → s ≡ priority_name a
unfolding parse_priority
parse_priority-eq s h = named-name priority_name priorities s h

pub parse_sentiment-eq :
    (s : Text) {a : Sentiment} → parse_sentiment s ≡ some a → s ≡ sentiment_name a
unfolding parse_sentiment
parse_sentiment-eq s h = named-name sentiment_name sentiments s h
