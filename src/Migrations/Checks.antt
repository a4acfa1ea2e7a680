-- ===== src/Migrations/Checks.antt =====
-- The CHECK constraints of the tables hold for every row of the models: their words are those of
-- the enumerations. And how the constraints of a table add up.
use ticket_triage.Base.{
  ◌≡◌, refl, Bool, true, false, ◌||◌, Option, none, some, List, [], ◌∷◌, map, exists,
}
use ticket_triage.Text.{codes, same, text_eq}
use ticket_triage.Labels.{
  Channel, email, Status, received, TriageError, parse_failed, Intent, billing, Priority, p1,
  Sentiment, negative, Purpose, classify, Outcome, ok, ReplyState, intent_name, priority_name,
  sentiment_name,
}
use ticket_triage.Model.{Ticket, Triage, LlmCall, Correction, ReplyDraft}
use ticket_triage.Migrations.Ddl.{is_false, is_in}
use ticket_triage.Migrations.Init
use ticket_triage.Migrations.Init.{
  channel_words, status_words, triage_error_words, intent_words, priority_words, sentiment_words,
}
use ticket_triage.Migrations.Drafts
use ticket_triage.Migrations.Rows.{
  ticket_values, triage_values, correction_values, draft_values, call_values,
}

pub or_both : {x y a b : Bool} → x ≡ a → y ≡ b → (x || y) ≡ (a || b)
or_both p q = rw (p, q) refl

pub or_left : {x y a : Bool} → x ≡ a → y ≡ false → (x || y) ≡ a
or_left {a} p q = rw (p, q) (elim a as (λ b. (b || false) ≡ b) [ true ↦ refl | false ↦ refl ])

pub or_right : {x y b : Bool} → x ≡ false → y ≡ b → (x || y) ≡ b
or_right p q = rw (p, q) refl

-- The constraints of a table whose rows belong to a ticket: key, reference, unique ticket, CHECKs.
pub or_owned :
    {x y z w a b c : Bool}
    → x ≡ a
    → y ≡ c
    → z ≡ b
    → w ≡ false
    → (x || (y || (z || w))) ≡ (a || b || c)
or_owned {a} {b} {c} p q r s = rw (p, q, r, s) (or_order a b c)
  where
    or_order : (a b c : Bool) → (a || (c || (b || false))) ≡ (a || b || c)
    or_order true b c = refl
    or_order false true true = refl
    or_order false true false = refl
    or_order false false true = refl
    or_order false false false = refl

pub exists-map :
    {A B : Type 0} (f : B → Bool) (g : A → B) (h : A → Bool) (xs : List A)
    → ((x : A) → f (g x) ≡ h x)
    → exists f (map g xs) ≡ exists h xs
exists-map f g h [] e = refl
exists-map f g h (x ∷ xs) e = rw (e x, exists-map f g h xs e) refl

pub ticket_channel :
    (t : Ticket) (c : Channel)
    → is_false (is_in (codes "channel") channel_words) (ticket_values (record t { channel = c }))
      ≡ false
unfolding is_false same
ticket_channel t email = refl
ticket_channel t _ = refl

pub ticket_status :
    (t : Ticket) (s : Status)
    → is_false (is_in (codes "status") status_words) (ticket_values (record t { status = s }))
      ≡ false
unfolding is_false same
ticket_status t received = refl
ticket_status t _ = refl

pub ticket_error :
    (t : Ticket) (e : Option TriageError)
    → is_false
        (Init.or_null (codes "triage_error") triage_error_words)
        (ticket_values (record t { triage_error = e }))
      ≡ false
unfolding is_false same
ticket_error t none = refl
ticket_error t (some parse_failed) = refl
ticket_error t (some _) = refl

module _ (r : Triage) where
  pub triage_intent :
      (x : Intent)
      → is_false (is_in (codes "intent") intent_words) (triage_values (record r { intent = x }))
        ≡ false
  unfolding is_false same intent_name
  triage_intent billing = refl
  triage_intent _ = refl

  pub triage_priority :
      (x : Priority)
      → is_false
          (is_in (codes "priority") priority_words)
          (triage_values (record r { priority = x }))
        ≡ false
  unfolding is_false same priority_name
  triage_priority p1 = refl
  triage_priority _ = refl

  pub triage_sentiment :
      (x : Sentiment)
      → is_false
          (is_in (codes "sentiment") sentiment_words)
          (triage_values (record r { sentiment = x }))
        ≡ false
  unfolding is_false same sentiment_name
  triage_sentiment negative = refl
  triage_sentiment _ = refl

module _ (r : Correction) where
  pub correction_intent :
      (x : Intent)
      → is_false (is_in (codes "intent") intent_words) (correction_values (record r { intent = x }))
        ≡ false
  unfolding is_false same intent_name
  correction_intent billing = refl
  correction_intent _ = refl

  pub correction_priority :
      (x : Priority)
      → is_false
          (is_in (codes "priority") priority_words)
          (correction_values (record r { priority = x }))
        ≡ false
  unfolding is_false same priority_name
  correction_priority p1 = refl
  correction_priority _ = refl

  pub correction_sentiment :
      (x : Sentiment)
      → is_false
          (is_in (codes "sentiment") sentiment_words)
          (correction_values (record r { sentiment = x }))
        ≡ false
  unfolding is_false same sentiment_name
  correction_sentiment negative = refl
  correction_sentiment _ = refl

pub draft_state :
    (r : ReplyDraft) (x : ReplyState)
    → is_false (is_in (codes "state") Drafts.state_words) (draft_values (record r { state = x }))
      ≡ false
unfolding is_false same
draft_state r ReplyState.draft = refl
draft_state r _ = refl

pub call_purpose :
    (c : LlmCall) (x : Purpose)
    → is_false
        (is_in (codes "purpose") Drafts.new_purpose_words)
        (call_values (record c { purpose = x }))
      ≡ false
unfolding is_false same
call_purpose c classify = refl
call_purpose c _ = refl

pub call_outcome :
    (c : LlmCall) (x : Outcome)
    → is_false (is_in (codes "outcome") Init.outcome_words) (call_values (record c { outcome = x }))
      ≡ false
unfolding is_false same
call_outcome c ok = refl
call_outcome c _ = refl
