-- ===== src/Worker.antt =====
-- `process_next_ticket` and `_generate_draft` of app/services/worker.py. The session of one poll is
-- the database of the `World`; a rollback goes back to the last commit, while the breaker, which
-- lives in memory, keeps what it has counted. `uuid4` and `utcnow` are read from a `Poll`.
pub mod Drafted
pub mod Step
pub mod Queue
pub mod Polls
pub mod Open
pub mod Drain
pub mod Thread
use ticket_triage.Base.{ℕ, ◌==◌, Bool, Option, none, some, List, [], ◌∷◌, select, if◌then◌else◌}
use ticket_triage.Text.{Text}
use ticket_triage.Labels.{
  Status, received, triaged, needs_human, status_eq, TriageError, ReplyState,
}
use ticket_triage.Table.{order_by}
use ticket_triage.Model.{
  Ticket, Triage, ReplyDraft, Db, Settings, insert_triage, insert_draft, save_ticket,
}
use ticket_triage.Routing.{resolve_queue, load_rules}
use ticket_triage.Provider.{Exchange}
use ticket_triage.Client.{World}
use ticket_triage.Prompts.{Letter, Grounding, prompt_version, reply_prompt_version}
use ticket_triage.Schema.{Decoder, TriageResult, ReplyDraftResult}
use ticket_triage.Classifier.{
  Produced, produced, failed, unexpected, classify_ticket, generate_reply_draft,
}

-- What one poll reads from outside: up to four provider calls, two new ids, and the clock.
pub record Poll : Type 0 where
  pub classify_call : Exchange
  pub repair_call : Exchange
  pub draft_call : Exchange
  pub draft_repair_call : Exchange
  pub triage_id : Text
  pub draft_id : Text
  pub triaged_at : ℕ
  pub updated_at : ℕ
  pub drafted_at : ℕ

-- False, True, or an IntegrityError of a commit, which ends the poll in the handler of `_run`.
pub data Polled : Type 0 where
  idle : Polled
  processed : Polled
  raised : Polled

-- The received tickets, oldest first.
unfoldable pub waiting : Db → List Ticket
waiting db =
    order_by (λ (t : Ticket). t.created_at)
      (select (λ (t : Ticket). t.status == received) db.tickets)

abbrev pub first : {A : Type 0} → List A → Option A
first [] = none
first (x ∷ xs) = some x

unfoldable pub oldest_received : Db → Option Ticket
unfolding waiting
oldest_received db = first (waiting db)

abbrev pub letter : Ticket → Letter
letter t = record { subject = t.subject; sender = t.sender; channel = t.channel; body = t.body }

abbrev pub grounding : TriageResult → Grounding
grounding r = record {
  intent = r.intent;
  priority = r.priority;
  sentiment = r.sentiment;
  summary = r.summary;
}

module _ (d : Decoder) (settings : Settings) (poll : Poll) where
  abbrev pub draft_row : Text → ReplyDraftResult → ℕ → ReplyDraft
  draft_row ticket_id r attempts = record {
    id = poll.draft_id;
    ticket_id = ticket_id;
    body = r.reply;
    state = ReplyState.draft;
    model = settings.llm_model;
    prompt_version = reply_prompt_version;
    attempts = attempts;
    created_at = poll.drafted_at;
    updated_at = poll.drafted_at;
  }

  -- The end of `_generate_draft`, from the database `saved` of the last commit.
  unfoldable pub store_draft : Text → Db → Produced ReplyDraftResult × World → Polled × World
  store_draft ticket_id saved (failed reason, w) = (processed, w)
  store_draft ticket_id saved (unexpected, w) = (processed, record w { db = saved })
  store_draft ticket_id saved (produced r attempts, w) =
      elim (insert_draft (draft_row ticket_id r attempts) w.db) [
        | none ↦ (raised, record w { db = saved })
        | some db ↦ (processed, record w { db = db })
      ]

  unfoldable pub generate_draft : Ticket → TriageResult → World → Polled × World
  unfolding store_draft
  generate_draft t r w = store_draft t.id w.db (
      generate_reply_draft d settings poll.draft_call poll.draft_repair_call (some t.id) (letter t)
        (grounding r) w)

  abbrev pub triage_row : Text → TriageResult → ℕ → Triage
  triage_row ticket_id r attempts = record {
    id = poll.triage_id;
    ticket_id = ticket_id;
    intent = r.intent;
    priority = r.priority;
    sentiment = r.sentiment;
    summary = r.summary;
    model = settings.llm_model;
    prompt_version = prompt_version;
    attempts = attempts;
    created_at = poll.triaged_at;
  }

  -- The ticket after a triage, and after a failure.
  abbrev pub triaged_ticket : Ticket → TriageResult → Db → Ticket
  triaged_ticket t r db = record t {
    status = triaged;
    queue =
        some (resolve_queue (load_rules db) r.intent r.priority r.sentiment settings.default_queue);
    triage_error = none;
    updated_at = poll.updated_at;
  }

  abbrev pub failed_ticket : Ticket → TriageError → Ticket
  failed_ticket t reason = record t {
    status = needs_human;
    queue = some settings.default_queue;
    triage_error = some reason;
    updated_at = poll.updated_at;
  }

  -- The first commit of a triage, and the draft after it.
  unfoldable pub store_triage : Ticket → Db → TriageResult → ℕ → World → Polled × World
  unfolding generate_draft
  store_triage t saved r attempts w = elim (insert_triage (triage_row t.id r attempts) w.db) [
    | none ↦ (raised, record w { db = saved })
    | some db ↦
        let t' = triaged_ticket t r db in generate_draft t' r (record w { db = save_ticket t' db })
  ]

  unfoldable pub after_classify : Ticket → Db → Produced TriageResult × World → Polled × World
  unfolding store_triage
  after_classify t saved (failed reason, w) =
      (processed, record w { db = save_ticket (failed_ticket t reason) w.db })
  after_classify t saved (unexpected, w) = (processed, record w { db = saved })
  after_classify t saved (produced r attempts, w) = store_triage t saved r attempts w

  unfoldable pub process_ticket : Ticket → World → Polled × World
  unfolding after_classify
  process_ticket t w =
      after_classify t w.db
        (classify_ticket d settings poll.classify_call poll.repair_call (some t.id) (letter t) w)

  unfoldable pub process_next_ticket : World → Polled × World
  unfolding process_ticket
  process_next_ticket w = elim (oldest_received w.db) [
    | none ↦ (idle, w)
    | some t ↦ process_ticket t w
  ]

-- The polls of `Worker._run`, one after another. A poll that raises is logged; the loop goes on.
unfoldable pub run : Decoder → Settings → List Poll → World → World
run d settings [] w = w
run d settings (poll ∷ polls) w = run d settings polls (process_next_ticket d settings poll w).1
