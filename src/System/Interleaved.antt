-- ===== src/System/Interleaved.antt =====
-- `process_next_ticket` of app/services/worker.py beside the requests of the API. A poll commits up to
-- twice, and the provider calls before each commit take seconds in which requests commit: the poll is
-- taken apart into reading the ticket, committing its classification, and committing the draft, with
-- any requests in between. A session keeps the objects that it has read (`expire_on_commit=False`),
-- and what it has flushed, the rows of llm_calls, is not seen by others before the commit.
pub mod Sound
pub mod Replay
pub mod Alone
use ticket_triage.Base.{ℕ, ◌≡◌, Option, none, some, List, [], ◌∷◌}
use ticket_triage.Model.{Ticket, Db, Settings, insert_triage, save_ticket}
use ticket_triage.Client.{World}
use ticket_triage.Schema.{Decoder, TriageResult}
use ticket_triage.Classifier.{Produced, produced, failed, unexpected, classify_ticket}
use ticket_triage.Worker.{
  Poll, letter, oldest_received, triage_row, triaged_ticket, failed_ticket, generate_draft,
}
use ticket_triage.System.{Request, respond, with_db}

-- Where the worker stands: between two polls, with the ticket that it has read, or with the ticket
-- that it has triaged and whose reply it drafts.
pub data Phase : Type 0 where
  resting : Phase
  reading : Ticket → Phase
  drafting : Ticket → TriageResult → Phase

pub record Service : Type 0 where
  pub world : World
  pub phase : Phase

-- A request that is answered, or one of the worker's three steps.
pub data Step : Type 0 where
  request : Request → Step
  read : Step
  triage : Poll → Step
  reply : Poll → Step

module _ (d : Decoder) (settings : Settings) where
  unfoldable pub read_ticket : World → Service
  read_ticket w = elim (oldest_received w.db) [
    | none ↦ record { world = w; phase = resting }
    | some t ↦ record { world = w; phase = reading t }
  ]

  -- The first commit, or the rollback, after the classification of `t`.
  unfoldable pub commit_triage : Poll → Ticket → Db → Produced TriageResult × World → Service
  commit_triage poll t saved (failed reason, w) = record {
    world = with_db w (save_ticket (failed_ticket d settings poll t reason) w.db);
    phase = resting;
  }
  commit_triage poll t saved (unexpected, w) = record { world = with_db w saved; phase = resting }
  commit_triage poll t saved (produced r attempts, w) =
      elim (insert_triage (triage_row d settings poll t.id r attempts) w.db) [
        | none ↦ record { world = with_db w saved; phase = resting }
        | some db ↦
            let t' = triaged_ticket d settings poll t r db in
            record { world = with_db w (save_ticket t' db); phase = drafting t' r }
      ]

  unfoldable pub triage_step : Poll → Phase → World → Service
  unfolding commit_triage
  triage_step poll (reading t) w =
      commit_triage poll t w.db
        (classify_ticket d settings poll.classify_call poll.repair_call (some t.id) (letter t) w)
  triage_step poll phase w = record { world = w; phase = phase }

  unfoldable pub reply_step : Poll → Phase → World → Service
  reply_step poll (drafting t r) w = record {
    world = (generate_draft d settings poll t r w).1;
    phase = resting;
  }
  reply_step poll phase w = record { world = w; phase = phase }

  unfoldable pub read_step : Phase → World → Service
  unfolding read_ticket
  read_step resting w = read_ticket w
  read_step phase w = record { world = w; phase = phase }

  unfoldable pub step : Step → Service → Service
  unfolding triage_step reply_step read_step
  step (request r) s = record s { world = with_db s.world (respond settings r s.world.db) }
  step read s = read_step s.phase s.world
  step (triage poll) s = triage_step poll s.phase s.world
  step (reply poll) s = reply_step poll s.phase s.world

  unfoldable pub steps : List Step → Service → Service
  unfolding step
  steps [] s = s
  steps (x ∷ xs) s = steps xs (step x s)
