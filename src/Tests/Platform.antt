-- ===== src/Tests/Platform.antt =====
-- Runs of the migrations, the middleware and the worker's thread on the sample data.
use mathlib.Core.Option
use ticket_triage.Base.{
  ◌≡◌, refl, none, some, List, [], ◌∷◌, ◌++◌, true, false, All, exists, if◌then◌else◌, arith,
}
use ticket_triage.Text.{Text, codes, same}
use ticket_triage.Labels.{web, ok, reply_draft}
use ticket_triage.Table
use ticket_triage.Json.{str}
use ticket_triage.Model.{LlmCall, Db, insert_draft}
use ticket_triage.Tickets.{NewTicket, Stamp, TicketCreateRequest, ticket_row}
use ticket_triage.Tickets
use ticket_triage.Text
use ticket_triage.Migrations.Ddl.{insert, run}
use ticket_triage.Migrations.Init
use ticket_triage.Migrations.Drafts
use ticket_triage.Migrations.Rows.{dump, base_tables, draft_values, ticket_values}
use ticket_triage.Migrations.Revisions.{init-downgrade-upgrade, drafts_revision, is_reply}
use ticket_triage.Migrations.Inserts.{new_draft, insert-store_row}
use ticket_triage.Migrations.Typed.{IsTyped, created, ticket_row-IsTyped}
use ticket_triage.System.{empty_db}
use ticket_triage.Logging
use ticket_triage.App
use ticket_triage.Logging.{Dict, LogRecord, get}
use ticket_triage.App.{Request, Moment, Server, Response, responded, raised, request_context, serve}
use ticket_triage.App.Traced.{
  Echoes, request_id, x_request_id, request_context-Traced, serve-untraced,
}
use ticket_triage.Worker.{Poll, oldest_received}
use ticket_triage.Worker
use ticket_triage.Worker.Thread.{Round, polls_of, run_thread, run_thread-run, run_thread-drains}
use ticket_triage.Tests.{
  settings_a, db_a, draft_b, world_a, db_a-Lifecycle, decoder_a, poll_a, documented, readable,
}

-- A second draft for the same ticket is refused by both.
insert-store_row_example :
    insert (codes "reply_drafts") (draft_values draft_b) (dump db_a)
    ≡ Option.map dump (insert_draft draft_b db_a)
insert-store_row_example = insert-store_row (new_draft draft_b) db_a

init-downgrade-upgrade_example :
    run Init.downgrade (base_tables Init.purpose_words (empty_db [])) ≡ some []
unfolding run Init.upgrade same
init-downgrade-upgrade_example =
    init-downgrade-upgrade [] (base_tables Init.purpose_words (empty_db [])) (λ n h. refl) refl

abbrev reply_call : LlmCall
reply_call = record {
  id = codes "c9";
  ticket_id = some (codes "b");
  purpose = reply_draft;
  model = codes "small";
  input_tokens = none;
  output_tokens = none;
  cost_usd = 0;
  latency_ms = 12;
  outcome = ok;
  created_at = 5;
}

abbrev db_drafted : Db
db_drafted = record db_a { llm_calls = reply_call ∷ [] }

drafts_revision_example :
    (run Drafts.upgrade (base_tables Init.purpose_words db_drafted)
      ≡ some (dump (record db_drafted { reply_drafts = [] })))
    × (run Drafts.downgrade (dump db_drafted) ≡ (
        if exists is_reply db_drafted.llm_calls
        then none
        else some (base_tables Init.purpose_words db_drafted)))
drafts_revision_example = drafts_revision db_drafted

abbrev payload : TicketCreateRequest
payload = record {
  external_id = codes "web-1";
  subject = codes " Refund";
  body = codes "Please refund me.";
  sender = codes "bob";
  channel = codes "web";
}

abbrev accepted : NewTicket
accepted = record {
  external_id = codes "web-1";
  channel = web;
  sender = codes "bob";
  subject = codes "Refund";
  body = codes "Please refund me.";
}

abbrev stamp_a : Stamp
stamp_a = record { id = codes "n1"; now = 20 }

ticket_row-IsTyped_example : IsTyped Init.tickets_def (ticket_values (ticket_row stamp_a accepted))
unfolding Tickets.validate_create same Text.strip Text.trim Text.strip_of Text.rstrip Text.lstrip
    Text.is_space Text.is_white Text.trim_cons
ticket_row-IsTyped_example =
    ticket_row-IsTyped stamp_a accepted (created payload refl) (omega arith)

abbrev request_a : Request
request_a = record {
  request_id_header = some (codes "r-7");
  path = codes "/tickets";
  method = codes "GET";
}

abbrev moment_a : Moment
moment_a = record {
  fresh = codes "f0";
  duration_ms = 3;
  completed_at = codes "2026-07-18T10:00:00+0000";
  failed_at = codes "2026-07-18T10:00:00+0000";
}

abbrev line_a : LogRecord
line_a = record {
  time = codes "2026-07-18T10:00:00+0000";
  levelname = codes "INFO";
  name = codes "app.tickets";
  message = codes "ticket ingested";
  attributes = (codes "ticket_id", str (codes "a")) ∷ [];
  exc_info = none;
}

abbrev response_a : Response
response_a = record { status_code = 200; headers = [] }

abbrev server_a : Server
server_a = record { context = none; lines = [] }

request_context-Traced_example :
    let result = request_context request_a moment_a (line_a ∷ [], responded response_a) server_a in
    Echoes (codes "r-7") result.0
    × (result.1.context ≡ none)
    × ((new : List Dict) × (result.1.lines ≡ new)
        × All (λ line. get request_id line ≡ some (str (codes "r-7"))) new)
unfolding get same Logging.extras App.request_id_of
request_context-Traced_example =
    request_context-Traced request_a moment_a (line_a ∷ [], responded response_a) server_a tt
      (refl, tt)

serve-untraced_example :
    let result = serve request_a moment_a (line_a ∷ [], raised (codes "KeyError")) server_a in
    (get x_request_id result.0.headers ≡ none)
    × (result.0.status_code ≡ 500)
    × ((before : List Dict) × (line : Dict) × (result.1.lines ≡ before ++ line ∷ [])
        × (get request_id line ≡ none))
serve-untraced_example =
    serve-untraced request_a moment_a (line_a ∷ []) (codes "KeyError") server_a refl

-- The database is away for a round, then a ticket is taken, and the third round sees the event.
abbrev rounds_a : List Round
rounds_a =
    record { is_set = false; reachable = false; poll = poll_a }
    ∷ record { is_set = false; reachable = true; poll = poll_a }
    ∷ record { is_set = true; reachable = true; poll = poll_a }
    ∷ []

run_thread-run_example :
    ((run_thread decoder_a settings_a rounds_a world_a).world
      ≡ Worker.run decoder_a settings_a (poll_a ∷ []) world_a)
    × ((run_thread decoder_a settings_a rounds_a world_a).ended ≡ true)
unfolding polls_of
run_thread-run_example = run_thread-run decoder_a settings_a rounds_a world_a

run_thread-drains_example :
    oldest_received (run_thread decoder_a settings_a rounds_a world_a).world.db ≡ none
unfolding Table.contains same polls_of
run_thread-drains_example =
    run_thread-drains decoder_a settings_a rounds_a world_a db_a-Lifecycle
      (
        documented (codes "c1"),
        documented (codes "c2"),
        readable (codes "c1"),
        readable (codes "c2"),
        record { first_call = refl; second_call = refl; different = refl; triage = refl },
        tt,
      )
      (omega arith)
