-- ===== src/Migrations/Typed.antt =====
-- The values that the service writes have the types of their columns: a text is no longer than its
-- column says. Numbers and times are not bounded here.
use mathlib.Core.Path.{subst}
use ticket_triage.Base.{
  ℕ, ◌≤◌, ◌≡◌, refl, Option, none, some, [], ◌∷◌, All, length, arith, leb, if◌then◌else◌,
}
use ticket_triage.Text.{Text, codes, same, trim}
use ticket_triage.Labels.{
  Channel, email, Intent, billing, Priority, p1, Sentiment, negative, intent_name, priority_name,
  sentiment_name,
}
use ticket_triage.Model.{Settings}
use ticket_triage.Tickets.{
  NewTicket, Stamp, ticket_row, TicketCreateRequest, EmailWebhookRequest, validate_create,
  validate_email, field_text, email_subject, all_present,
}
use ticket_triage.Worker.{Poll, triage_row}
use ticket_triage.Schema.{Decoder, TriageResult, parse_triage, parsed}
use ticket_triage.Schema.Gate.{parse_triage_iff}
use ticket_triage.Migrations.Ddl.{
  Kind, string, long_text, Column, Row, Value, null, text, number, value_of, TableDef,
}
use ticket_triage.Migrations.Init.{tickets_def, triages_def}
use ticket_triage.Migrations.Rows.{ticket_values, triage_values, channel_word}

-- A value of a column's type; NULL is of every type.
abbrev pub HasKind : Kind → Value → Type 0
HasKind (string n) null = Unit
HasKind (string n) (text s) = length s ≤ n
HasKind (string n) (number m) = ⊥
HasKind long_text null = Unit
HasKind long_text (text s) = Unit
HasKind long_text (number m) = ⊥
HasKind _ (text s) = ⊥
HasKind _ _ = Unit

abbrev pub IsTyped : TableDef → Row → Type 0
IsTyped d row = All (λ (c : Column). HasKind c.kind (value_of c.name row)) d.columns

-- What the two routes of ingestion accept.
pub data Accepted (n : NewTicket) : Type 0 where
  created : (r : TicketCreateRequest) → validate_create r ≡ some n → Accepted n
  emailed : (r : EmailWebhookRequest) → validate_email r ≡ some n → Accepted n

pub record Bounded (n : NewTicket) : Type 0 where
  pub external_id : length n.external_id ≤ 128
  pub sender : length n.sender ≤ 320
  pub subject : length n.subject ≤ 500

field_text-short :
    (limit : ℕ) (s : Text) {t : Text} → field_text limit s ≡ some t → length t ≤ limit
unfolding field_text
field_text-short limit s h = ground arith

-- The default for a subject that is empty.
abbrev or_default : Text → Text
or_default [] = codes "(no subject)"
or_default (c ∷ rest) = c ∷ rest

or_default-short : (u : Text) → length u ≤ 500 → length (or_default u) ≤ 500
or_default-short [] h = omega arith
or_default-short (c ∷ rest) h = h

email_subject-or_default :
    (s : Text)
    → email_subject (some s)
      ≡ (if leb (length (trim s)) 500 then some (or_default (trim s)) else none)
unfolding email_subject
email_subject-or_default s = refl

email_subject-short : (s : Option Text) {t : Text} → email_subject s ≡ some t → length t ≤ 500
unfolding email_subject
email_subject-short none {t} h =
    let e : codes "(no subject)" ≡ t = ground arith in subst (λ u. length u ≤ 500) e (omega arith)
email_subject-short (some s) h =
    ground (arith, email_subject-or_default s, or_default-short (trim s))

all_present-parts :
    (e s b f : Option Text) (c : Option Channel) {n : NewTicket}
    → all_present e s b f c ≡ some n
    → (e ≡ some n.external_id) × (s ≡ some n.subject) × (f ≡ some n.sender)
all_present-parts e s b f c h = ground arith

Accepted-Bounded : (n : NewTicket) → Accepted n → Bounded n
unfolding validate_create validate_email
Accepted-Bounded n (created r h) =
    let (e, s, f) = all_present-parts _ _ _ _ _ h in
    record {
      external_id = field_text-short 128 r.external_id e;
      sender = field_text-short 320 r.sender f;
      subject = field_text-short 500 r.subject s;
    }
Accepted-Bounded n (emailed r h) =
    let (e, s, f) = all_present-parts _ _ _ _ _ h in
    record {
      external_id = field_text-short 128 r.message_id e;
      sender = field_text-short 320 r.sender f;
      subject = email_subject-short r.subject s;
    }

channel_word-short : (c : Channel) → length (channel_word c) ≤ 16
channel_word-short email = omega arith
channel_word-short _ = omega arith

-- A request that either route of ingestion accepts gives a row of the type of the table: with an id
-- of at most 32 characters every text fits its column, and no column holds a value of another type.
pub ticket_row-IsTyped :
    (stamp : Stamp) (n : NewTicket)
    → Accepted n
    → length stamp.id ≤ 32
    → IsTyped tickets_def (ticket_values (ticket_row stamp n))
unfolding value_of same
ticket_row-IsTyped stamp n ok h =
    let b = Accepted-Bounded n ok in
    (
      h,
      (
        b.external_id,
        (
          channel_word-short n.channel,
          (b.sender, (b.subject, (tt, (omega arith, (tt, (tt, (tt, (tt, tt)))))))),
        ),
      ),
    )

pub intent_name-short : (i : Intent) → length (intent_name i) ≤ 32
unfolding intent_name
intent_name-short billing = omega arith
intent_name-short _ = omega arith

pub priority_name-short : (p : Priority) → length (priority_name p) ≤ 8
unfolding priority_name
priority_name-short p1 = omega arith
priority_name-short _ = omega arith

pub sentiment_name-short : (s : Sentiment) → length (sentiment_name s) ≤ 16
unfolding sentiment_name
sentiment_name-short negative = omega arith
sentiment_name-short _ = omega arith

-- What the triage gate accepts gives a row of the type of its table, with ids of at most 32 characters
-- and a model's name of at most 128.
pub triage_row-IsTyped :
    (d : Decoder) (settings : Settings) (poll : Poll) (content ticket_id : Text) (r : TriageResult)
    (attempts : ℕ)
    → parse_triage d content ≡ parsed r
    → length poll.triage_id ≤ 32
    → length ticket_id ≤ 32
    → length settings.llm_model ≤ 128
    → IsTyped triages_def (triage_values (triage_row d settings poll ticket_id r attempts))
unfolding value_of same
triage_row-IsTyped d settings poll content ticket_id r attempts h id ticket model =
    let (fs, _, describes) = (parse_triage_iff d content r).0 h in
    (
      id,
      (
        ticket,
        (
          intent_name-short r.intent,
          (
            priority_name-short r.priority,
            (
              sentiment_name-short r.sentiment,
              (describes.short, (model, (omega arith, (tt, (tt, tt))))),
            ),
          ),
        ),
      ),
    )
