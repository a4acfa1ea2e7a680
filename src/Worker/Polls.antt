-- ===== src/Worker/Polls.antt =====
-- Whole polls, and any number of them.
use ticket_triage.Base.{◌≡◌, refl, ◌⊎◌, inl, inr, none, some, Option-cases, List, [], ◌∷◌}
use ticket_triage.Labels.{triaged}
use ticket_triage.Model.{Ticket, Settings, ticket_of}
use ticket_triage.Model.Lifecycle.{Lifecycle}
use ticket_triage.Model.Frame.{Kept}
use ticket_triage.Client.{World}
use ticket_triage.Schema.{Decoder, TriageResult}
use ticket_triage.Worker.{
  Poll, idle, letter, oldest_received, process_next_ticket, generate_draft, run,
}
use ticket_triage.Classifier.{classify_ticket}
use ticket_triage.Worker.Drafted.{generate_draft-Kept}
use ticket_triage.Worker.Step.{Moved, process_ticket-Kept}
use ticket_triage.Worker.Queue.{oldest_received-some}

-- From a database that satisfies the invariant, one poll either finds no received ticket and changes
-- nothing, or takes the oldest one: then the invariant holds again, and the rules and every other
-- ticket, with its triage, its correction and its draft, are as before. If the classification fails,
-- the ticket needs a human, with the reason of the failure and the default queue; if it raises, the
-- database is what it was. If it produces a triage, the ticket is triaged, in the queue that the
-- rules assign, and the triage is stored with the number of its attempts; only a taken id of the
-- triage's row leaves the database as it was.
pub process_next_ticket-Kept :
    (d : Decoder) (settings : Settings) (poll : Poll) (w : World)
    → Lifecycle w.db
    → ((oldest_received w.db ≡ none) × (process_next_ticket d settings poll w ≡ (idle, w)))
      ⊎ ((t : Ticket) × (oldest_received w.db ≡ some t)
          × Kept t.id w.db (process_next_ticket d settings poll w).1.db
          × Moved settings poll d w.db
              (classify_ticket d settings poll.classify_call poll.repair_call
                (some t.id)
                (letter t)
                w).0
              t
              (process_next_ticket d settings poll w).1.db)
unfolding process_next_ticket
process_next_ticket-Kept d settings poll w v = elim (Option-cases (oldest_received w.db)) [
  | inl h ↦ inl (h, rw (h, process_next_ticket) refl)
  | inr (t, h) ↦
      let (here, st, _) = oldest_received-some w.db v.distinct_ids h in
      let (kept, moved) = process_ticket-Kept settings poll d t w v here st in
      inr (t, h, rw (h, process_next_ticket) kept, rw (h, process_next_ticket) moved)
]

-- The invariant survives any number of polls, whatever the provider, the clock and the ids are.
run-Lifecycle :
    (d : Decoder) (settings : Settings) (polls : List Poll) (w : World)
    → Lifecycle w.db
    → Lifecycle (run d settings polls w).db
unfolding run
run-Lifecycle d settings [] w v = v
run-Lifecycle d settings (poll ∷ polls) w v =
    run-Lifecycle d settings polls (process_next_ticket d settings poll w).1
      (elim (process_next_ticket-Kept d settings poll w v) [
        | inl (_, e) ↦ rw e v
        | inr (t, _, kept, _) ↦ kept.valid
      ])

-- The draft is best effort: once a ticket is triaged and committed, the attempt to draft a reply
-- leaves its row in the tickets and all triages as they are, keeps the invariant and touches no other
-- ticket, also where the draft fails, raises or violates a constraint.
pub generate_draft-best_effort :
    (d : Decoder) (settings : Settings) (poll : Poll) (t : Ticket) (r : TriageResult) (w : World)
    → Lifecycle w.db
    → ticket_of t.id w.db ≡ some t
    → t.status ≡ triaged
    → Kept t.id w.db (generate_draft d settings poll t r w).1.db
      × (ticket_of t.id (generate_draft d settings poll t r w).1.db ≡ some t)
      × ((generate_draft d settings poll t r w).1.db.triages ≡ w.db.triages)
generate_draft-best_effort d settings poll t r w v here st =
    generate_draft-Kept settings poll d t t r w v here (inl st)
