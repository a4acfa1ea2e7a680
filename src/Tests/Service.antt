-- ===== src/Tests/Service.antt =====
-- Runs of the worker and of the whole service on the sample data.
use ticket_triage.Base.{◌≡◌, refl, ◌⊎◌, inl, some, none, ◌==◌, ◌≤◌, List, [], ◌∷◌, true, false, All}
use ticket_triage.Json
use ticket_triage.Model
use ticket_triage.Schema
use ticket_triage.Labels
use ticket_triage.Text.{
  strip, strip_of, rstrip, lstrip, is_space, trim_cons, lower, upper, lower_char, upper_char, codes,
  text_eq, same,
}
use ticket_triage.Labels.{web, received, classify, repair, reply_draft, reply_repair, status_eq}
use ticket_triage.Table
use ticket_triage.Model.{Ticket, ticket_of}
use ticket_triage.Model.Frame.{Kept}
use ticket_triage.Client.{World}
use ticket_triage.Json.{arr, nil}
use ticket_triage.Provider.{response, document}
use ticket_triage.Classifier.{classify_ticket, generate_reply_draft, unexpected}
use ticket_triage.Classifier.Protocol.{Origin, classify_ticket-Origin}
use ticket_triage.Prompts.{build_classify_messages, build_repair_messages}
use ticket_triage.Schema.{Decoder, parse_triage, parse_reply}
use ticket_triage.Worker.{Poll, idle, oldest_received, letter, process_next_ticket, generate_draft}
use ticket_triage.Worker.Step.{Moved}
use ticket_triage.Worker.Queue.{oldest_received-some}
use ticket_triage.Worker.Polls.{process_next_ticket-Kept, generate_draft-best_effort}
use ticket_triage.Classifier
use ticket_triage.Client
use ticket_triage.Breaker
use ticket_triage.Provider
use ticket_triage.System.Interleaved.{Step, Service, resting, steps}
use ticket_triage.Tickets.{NewTicket, ingested, ingest_ticket}
use ticket_triage.System.Interleaved.Replay.{ingest_ticket-replay}
use ticket_triage.System.Interleaved.Sound.{IsSound, steps-IsSound, steps-decided}
use ticket_triage.System.{Request, empty_db}
use ticket_triage.Provider
use ticket_triage.Client
use ticket_triage.Tests.{
  reply_fields, decoder_of, settings_a, ticket_a, ticket_b, ticket_c, rule_money, db_a, breaker_a,
  world_a, db_a-Lifecycle, triage_a, decoder_a, poll_a, exchange_of,
}

-- A ticket comes in and is read by the worker; while it is classified it cannot be approved, and
-- while its reply is drafted it is.
abbrev day : List Step
day =
    Step.request (
      Request.create (record { id = codes "n1"; now = 20 })
        (record {
          external_id = codes "web-1";
          subject = codes "Refund";
          body = codes "Please refund me.";
          sender = codes "bob";
          channel = codes "web";
        }))
    ∷ Step.read
    ∷ Step.request (Request.approve 25 (codes "n1"))
    ∷ Step.triage poll_a
    ∷ Step.request (Request.approve 30 (codes "n1"))
    ∷ Step.reply poll_a
    ∷ Step.request (Request.discard_reply 31 (codes "n1"))
    ∷ []

abbrev new_world : World
new_world = record { db = empty_db (rule_money ∷ []); breaker = breaker_a }

abbrev new_service : Service
new_service = record { world = new_world; phase = resting }

steps-IsSound_example : IsSound (steps decoder_a settings_a day new_service)
steps-IsSound_example =
    steps-IsSound decoder_a settings_a day new_service (rule_money ∷ []) refl refl

abbrev service_a : Service
service_a = record { world = world_a; phase = resting }

steps-decided_example :
    ticket_of (codes "a") (steps decoder_a settings_a day service_a).world.db ≡ some ticket_a
unfolding Table.lookup same
steps-decided_example =
    steps-decided decoder_a settings_a day service_a (codes "a") ticket_a
      (record { valid = db_a-Lifecycle; holds = tt }) refl (inl refl)

process_next_ticket-Kept_example :
    ((oldest_received db_a ≡ none)
      × (process_next_ticket decoder_a settings_a poll_a world_a ≡ (idle, world_a)))
    ⊎ ((t : Ticket) × (oldest_received db_a ≡ some t)
        × Kept t.id db_a (process_next_ticket decoder_a settings_a poll_a world_a).1.db
        × Moved settings_a poll_a decoder_a db_a
            (classify_ticket decoder_a settings_a poll_a.classify_call poll_a.repair_call
              (some t.id)
              (letter t)
              world_a).0
            t
            (process_next_ticket decoder_a settings_a poll_a world_a).1.db)
process_next_ticket-Kept_example =
    process_next_ticket-Kept decoder_a settings_a poll_a world_a db_a-Lifecycle

generate_draft-best_effort_example :
    Kept
      (codes "b")
      db_a
      (generate_draft decoder_a settings_a poll_a ticket_b triage_a world_a).1.db
    × (ticket_of
          (codes "b")
          (generate_draft decoder_a settings_a poll_a ticket_b triage_a world_a).1.db
        ≡ some ticket_b)
    × ((generate_draft decoder_a settings_a poll_a ticket_b triage_a world_a).1.db.triages
        ≡ db_a.triages)
unfolding Table.lookup same
generate_draft-best_effort_example =
    generate_draft-best_effort decoder_a settings_a poll_a ticket_b triage_a world_a db_a-Lifecycle
      refl refl

oldest_received-some_example :
    (ticket_of (codes "c") db_a ≡ some ticket_c)
    × (ticket_c.status ≡ received)
    × All
        (λ (u : Ticket). (u.status == received) ≡ true → ticket_c.created_at ≤ u.created_at)
        db_a.tickets
unfolding oldest_received Table.order_by Table.insert_by
oldest_received-some_example = oldest_received-some db_a db_a-Lifecycle.distinct_ids refl

-- A provider whose document is a list, which `_extract` does not survive.
abbrev broken_poll : Poll
broken_poll = record poll_a {
  classify_call = exchange_of (codes "c1") (λ n. response 200 (document (arr nil)));
}

-- The provider's answer passes the gate at the first attempt.
abbrev reply_decoder : Decoder
reply_decoder = decoder_of reply_fields

classify_ticket-Origin_example :
    Origin settings_a
      (parse_triage decoder_a)
      (some (codes "c"))
      (build_classify_messages (letter ticket_c))
      (build_repair_messages (letter ticket_c))
      classify
      repair
      poll_a.classify_call
      poll_a.repair_call
      world_a
      triage_a
      1
unfolding classify_ticket Classifier.structured_output Classifier.answer_of Client.complete
    Breaker.allow Provider.attempt_with_retries Provider.attempt_loop Provider.judge Json.truthy
    Json.get same Client.usage_tokens Model.insert_call Table.contains parse_triage
    Schema.validate_triage Schema.intent_field Schema.priority_field Schema.sentiment_field
    Schema.bounded_text Labels.parse_intent Labels.parse_priority Labels.parse_sentiment strip
    strip_of rstrip lstrip is_space trim_cons lower upper lower_char upper_char
classify_ticket-Origin_example =
    classify_ticket-Origin decoder_a settings_a poll_a.classify_call poll_a.repair_call
      (some (codes "c")) (letter ticket_c) world_a triage_a 1 refl

-- The message of the received ticket comes again, after a day.
abbrev again : NewTicket
again = record {
  external_id = ticket_c.external_id;
  channel = web;
  sender = codes "s";
  subject = codes "t";
  body = codes "u";
}

ingest_ticket-replay_example :
    let db' = (steps decoder_a settings_a day service_a).world.db in
    (u : Ticket) × (u.id ≡ ticket_c.id)
    × (ticket_of ticket_c.id db' ≡ some u)
    × (ingest_ticket (λ x. x) (record { id = codes "m"; now = 8 }) again db'
        ≡ (ingested u false, db'))
unfolding ingest_ticket Table.lookup same
ingest_ticket-replay_example =
    ingest_ticket-replay decoder_a settings_a (λ x. x) (λ x. x) (record { id = codes "l"; now = 7 })
      (record { id = codes "m"; now = 8 }) again again db_a ticket_c false service_a day
      (record { valid = db_a-Lifecycle; holds = tt }) refl refl
