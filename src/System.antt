-- ===== src/System.antt =====
-- The service as a whole: the worker's polls and the changing requests of the API, one at a time, on
-- one database. The routes are those of app/routers; a read changes nothing and is left out.
pub mod Lifetime
pub mod Requests
pub mod Interleaved
use ticket_triage.Base.{ℕ, Option, none, some, List, [], ◌∷◌}
use ticket_triage.Text.{Text}
use ticket_triage.Labels.{Intent, Priority, Sentiment}
use ticket_triage.Model.{Db, RoutingRule, Settings}
use ticket_triage.Routing.{RuleIn, RulesOut, put_rules}
use ticket_triage.Client.{World}
use ticket_triage.Schema.{Decoder}
use ticket_triage.Worker.{Poll, process_next_ticket}
use ticket_triage.Tickets.{
  Stamp, TicketCreateRequest, EmailWebhookRequest, create_ticket, ingest_email,
}
use ticket_triage.Reviews.{approve_ticket, validate_correct, correct_validated}
use ticket_triage.Reply.{edit_reply_draft, approve_reply_draft, discard_reply_draft}

-- The changing requests of the API.
pub data Request : Type 0 where
  create : Stamp → TicketCreateRequest → Request
  email : Stamp → EmailWebhookRequest → Request
  approve : ℕ → Text → Request
  correct : Text → ℕ → Intent → Priority → Sentiment → Option Text → Text → Request
  edit_reply : ℕ → Text → Text → Request
  approve_reply : ℕ → Text → Request
  discard_reply : ℕ → Text → Request
  replace_rules : (ℕ → ℕ) → List RuleIn → Request

pub data Operation : Type 0 where
  poll : Poll → Operation
  request : Request → Operation

-- The database after `PUT /rules`; a refused body changes nothing.
abbrev pub rules_stored : Db → Option (RulesOut × Db) → Db
rules_stored db none = db
rules_stored db (some (out, db')) = db'

-- The database after a request.
unfoldable pub respond : Settings → Request → Db → Db
respond settings (create stamp payload) db = (create_ticket (λ x. x) stamp payload db).1
respond settings (email stamp payload) db = (ingest_email (λ x. x) stamp payload db).1
respond settings (approve now k) db = (approve_ticket now k db).1
respond settings (correct id now i p s note k) db =
    (correct_validated settings id now (validate_correct i p s note) k db).1
respond settings (edit_reply now body k) db = (edit_reply_draft now body k db).1
respond settings (approve_reply now k) db = (approve_reply_draft now k db).1
respond settings (discard_reply now k) db = (discard_reply_draft now k db).1
respond settings (replace_rules ids rules) db = rules_stored db (put_rules ids settings rules db)

abbrev pub with_db : World → Db → World
with_db w db = record w { db = db }

unfoldable pub perform : Decoder → Settings → Operation → World → World
unfolding respond
perform d settings (poll p) w = (process_next_ticket d settings p w).1
perform d settings (request r) w = with_db w (respond settings r w.db)

unfoldable pub perform_all : Decoder → Settings → List Operation → World → World
perform_all d settings [] w = w
perform_all d settings (op ∷ ops) w = perform_all d settings ops (perform d settings op w)

-- The database of a new installation, with the rules that the migrations seed.
abbrev pub empty_db : List RoutingRule → Db
empty_db rules = record {
  tickets = [];
  triages = [];
  llm_calls = [];
  corrections = [];
  reply_drafts = [];
  routing_rules = rules;
}
