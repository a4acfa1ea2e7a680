-- ===== src/Tests.antt =====
-- Sample data for the runs below: three tickets in different statuses, a provider that answers
-- with a fixed document, and a decoder that reads every text as a fixed object.
mod Service
mod Calls
mod Requests
mod Evals
mod Platform
use ticket_triage.Base.{ℕ, Option, none, some, List, [], ◌∷◌, true, ◌≡◌, refl, arith}
use ticket_triage.Text.{Text, codes, text_eq, same}
use ticket_triage.Labels.{
  billing, how_to, p2, p3, positive, neutral, negative, web, Status, received, triaged, ReplyState,
}
use ticket_triage.Table
use ticket_triage.Model.{Ticket, Triage, ReplyDraft, RoutingRule, Settings, Db, ticket_of}
use ticket_triage.Model.Lifecycle.{Lifecycle}
use ticket_triage.Json.{Json, int, str, arr, obj, nil, cons, Fields, end, field}
use ticket_triage.Breaker.{CircuitBreaker}
use ticket_triage.Provider.{Response, response, document, Exchange}
use ticket_triage.Json
use ticket_triage.Provider
use ticket_triage.Client
use ticket_triage.Client.Answers.{Documented, Provides}
use ticket_triage.Classifier.Answers.{IsReadable}
use ticket_triage.Client.{World}
use ticket_triage.Schema.{Decoder, Loaded, loaded, TriageResult}
use ticket_triage.Worker.{Poll}

abbrev pub settings_a : Settings
settings_a = record {
  llm_model = codes "small";
  llm_max_retries = 2;
  llm_price_input_per_mtok = 150000;
  llm_price_output_per_mtok = 600000;
  api_key = codes "key";
  default_queue = codes "general";
  circuit_failure_threshold = 5;
  circuit_cooldown_seconds = 30;
}

abbrev sample_ticket : Text → Text → Status → Option Text → ℕ → Ticket
sample_ticket id external_id status queue now = record {
  id = id;
  external_id = external_id;
  channel = web;
  sender = codes "ann@example.org";
  subject = codes "Invoice";
  body = codes "I was charged twice.";
  status = status;
  queue = queue;
  triage_error = none;
  created_at = now;
  updated_at = now;
}

abbrev pub ticket_a : Ticket
ticket_a = sample_ticket (codes "a") (codes "xa") Status.approved (some (codes "money")) 1

abbrev pub ticket_b : Ticket
ticket_b = sample_ticket (codes "b") (codes "xb") triaged (some (codes "money")) 2

abbrev pub ticket_c : Ticket
ticket_c = sample_ticket (codes "c") (codes "xc") received none 3

abbrev sample_triage : Text → Text → Triage
sample_triage id ticket_id = record {
  id = id;
  ticket_id = ticket_id;
  intent = billing;
  priority = p2;
  sentiment = negative;
  summary = codes "Charged twice.";
  model = codes "small";
  prompt_version = codes "v1";
  attempts = 1;
  created_at = 4;
}

abbrev pub draft_b : ReplyDraft
draft_b = record {
  id = codes "d";
  ticket_id = codes "b";
  body = codes "Sorry about that.";
  state = ReplyState.draft;
  model = codes "small";
  prompt_version = codes "v1";
  attempts = 1;
  created_at = 5;
  updated_at = 5;
}

abbrev pub rule_money : RoutingRule
rule_money = record {
  id = 1;
  position = 1;
  intent = some billing;
  priority = none;
  sentiment = none;
  queue = codes "money";
}

abbrev pub db_a : Db
db_a = record {
  tickets = ticket_a ∷ ticket_b ∷ ticket_c ∷ [];
  triages = sample_triage (codes "r1") (codes "a") ∷ sample_triage (codes "r2") (codes "b") ∷ [];
  llm_calls = [];
  corrections = [];
  reply_drafts = draft_b ∷ [];
  routing_rules = rule_money ∷ [];
}

abbrev pub breaker_a : CircuitBreaker
breaker_a = record { threshold = 5; cooldown = 30000; consecutive_failures = 0; open_until = 0 }

abbrev pub world_a : World
world_a = record { db = db_a; breaker = breaker_a }

pub db_a-Lifecycle : Lifecycle db_a
unfolding Table.lookup same
db_a-Lifecycle = record {
  fits = λ k t h. ground arith;
  triage_ticket = λ k h. ground arith;
  correction_ticket = λ k h. refl;
  draft_ticket = λ k h. ground arith;
  distinct_ids = (refl, (refl, (refl, tt)));
  distinct_external = (refl, (refl, (refl, tt)));
}

-- The document of a classification, as the provider's message holds it.
abbrev pub triage_fields : Fields
triage_fields = field (codes "intent") (str (codes "Billing")) (
    field (codes "priority") (str (codes "p2")) (
      field (codes "sentiment") (str (codes " negative "))
        (field (codes "summary") (str (codes "Charged twice.")) end)))

abbrev pub triage_a : TriageResult
triage_a = record {
  intent = billing;
  priority = p2;
  sentiment = negative;
  summary = codes "Charged twice.";
}

abbrev pub reply_fields : Fields
reply_fields = field (codes "reply") (str (codes " We are looking into it. ")) end

abbrev pub decoder_of : Fields → Decoder
decoder_of fs = record {
  loads = λ t. loaded (obj fs);
  triage_errors = λ f. [];
  reply_errors = λ f. [];
}

abbrev pub decoder_a : Decoder
decoder_a = decoder_of triage_fields

-- A provider document with one choice and the usage of its tokens.
abbrev pub provider_fields : Fields
provider_fields =
    field (codes "choices")
      (arr (
        cons
          (obj (field (codes "message") (obj (field (codes "content") (str (codes "{}")) end)) end))
          nil))
      (field (codes "usage")
        (obj (
          field (codes "prompt_tokens") (int 120) (field (codes "completion_tokens") (int 30) end)))
        end)

abbrev pub exchange_of : Text → (ℕ → Response) → Exchange
exchange_of id post = record {
  post = λ payload. post;
  jitter = λ n. 7;
  allow_at = 10;
  started = 10;
  ended = 60;
  failed_at = 60;
  call_id = id;
  created_at = 9;
  repr = λ j. [];
}

abbrev pub answers : ℕ → Response
answers n = response 200 (document (obj provider_fields))

abbrev pub poll_a : Poll
poll_a = record {
  classify_call = exchange_of (codes "c1") answers;
  repair_call = exchange_of (codes "c2") answers;
  draft_call = exchange_of (codes "c3") answers;
  draft_repair_call = exchange_of (codes "c4") answers;
  triage_id = codes "r3";
  draft_id = codes "d3";
  triaged_at = 10;
  updated_at = 11;
  drafted_at = 12;
}

pub documented : (id : Text) → Documented (exchange_of id answers)
unfolding Provider.judge Provider.judge_body Provider.judge_document Provider.extract
    Provider.choices_content Provider.first_choice Provider.message_content Json.get Json.truthy
    Client.usage_tokens Client.token_count same
documented id = λ payload n. (some 120, some 30, refl, refl)

pub readable : (id : Text) → Provides (IsReadable decoder_a) (exchange_of id answers)
unfolding Provider.judge Provider.judge_body Provider.judge_document Provider.extract
    Provider.choices_content Provider.first_choice Provider.message_content Json.get Json.truthy
    same
readable id = λ payload n. refl
