-- ===== src/System/Interleaved/Sound.antt =====
-- Requests during a poll do no harm.
use mathlib.Core.Path.{subst}
use ticket_triage.Base.{
  ◌≡◌, refl, sym, ◌∙◌, inl, inr, some, Option-cases, Bool-cases, ◌==◌, List, [], ◌∷◌,
}
use ticket_triage.Text.{Text, text_eq, same_iff}
use ticket_triage.Labels.{received}
use ticket_triage.Model.{Ticket, LlmCall, Db, RoutingRule, Settings, ticket_of, insert_triage}
use ticket_triage.Model.Lifecycle.{Lifecycle}
use ticket_triage.Model.Frame.{Kept, Kept-trans, ticket_of-save_ticket}
use ticket_triage.Client.{World}
use ticket_triage.Schema.{Decoder, TriageResult}
use ticket_triage.Classifier.{Produced, produced, failed, unexpected, classify_ticket}
use ticket_triage.Classifier.Ledger.{with_calls, classify_ticket-Account}
use ticket_triage.Worker.{Poll, failed_ticket, letter, oldest_received, triage_row, triaged_ticket}
use ticket_triage.Worker.Queue.{oldest_received-some}
use ticket_triage.Worker.Drafted.{Kept-with_calls, Settled, generate_draft-Kept}
use ticket_triage.Worker.Step.{triaged-Kept, failed-Kept}
use ticket_triage.System.{Request, empty_db}
use ticket_triage.System.Lifetime.{
  IsFinal, Steady, respond-Steady, Steady-of_Kept, Steady-refl, Steady-trans, empty_db-Lifecycle,
}
use ticket_triage.System.Requests.{Courteous, respond-Courteous}
use ticket_triage.System.Interleaved.{
  Phase, resting, reading, drafting, Service, Step, request, read, triage, reply, commit_triage,
  read_ticket, read_step, triage_step, reply_step, step, steps,
}

-- What the worker holds is still so in the database.
abbrev pub Holds : Phase → Db → Type 0
Holds resting db = Unit
Holds (reading t) db = (ticket_of t.id db ≡ some t) × (t.status ≡ received)
Holds (drafting t r) db = (u : Ticket) × (ticket_of t.id db ≡ some u) × Settled u.status

pub record IsSound (s : Service) : Type 0 where
  pub valid : Lifecycle s.world.db
  pub holds : Holds s.phase s.world.db

-- A step keeps the invariant and every decision.
abbrev pub Safe : Db → Service → Type 0
Safe db s = IsSound s × Steady db s.world.db

Holds-Courteous : (p : Phase) (db db' : Db) → Courteous db db' → Holds p db → Holds p db'
Holds-Courteous resting db db' c h = tt
Holds-Courteous (reading t) db db' c (here, st) = (c.received_kept t.id t here st, st)
Holds-Courteous (drafting t r) db db' c (u, here, st) = c.settled_kept t.id u here st

not-IsFinal : (t : Ticket) → t.status ≡ received → ¬ IsFinal t
not-IsFinal t st f = elim f [ inl e ↦ cc (st, e) | inr e ↦ cc (st, e) ]

-- An operation for one ticket that leaves its row as it is.
Steady-of_row :
    (j : Text) (db db' : Db) → ticket_of j db' ≡ ticket_of j db → Kept j db db' → Steady db db'
Steady-of_row j db db' row kept = record {
  valid = kept.valid;
  decided = λ k t h f. elim (Bool-cases (j == k)) [
    | inr other ↦ kept.only.tickets_kept k other ∙ h
    | inl same_key ↦
        subst (λ i. ticket_of i db' ≡ ticket_of i db) ((same_iff j k).0 same_key) row ∙ h
  ];
  named = λ k t h. elim (Bool-cases (j == k)) [
    | inr other ↦ (t, kept.only.tickets_kept k other ∙ h, refl)
    | inl same_key ↦
        (t, subst (λ i. ticket_of i db' ≡ ticket_of i db) ((same_iff j k).0 same_key) row ∙ h, refl)
  ];
}

module _ (d : Decoder) (settings : Settings) where
  request-Safe :
      (r : Request) (s : Service) → IsSound s → Safe s.world.db (step d settings (request r) s)
  unfolding step
  request-Safe r s sound =
      let steady = respond-Steady settings r s.world.db sound.valid in
      (
        record {
          valid = steady.valid;
          holds =
              Holds-Courteous s.phase s.world.db _
                (respond-Courteous settings r s.world.db sound.valid) sound.holds;
        },
        steady,
      )

  read_ticket-Safe : (w : World) → Lifecycle w.db → Safe w.db (read_ticket d settings w)
  unfolding read_ticket
  read_ticket-Safe w v = elim (Option-cases (oldest_received w.db)) [
    | inl e ↦ rw (e, read_ticket) (record { valid = v; holds = tt }, Steady-refl w.db v)
    | inr (t, e) ↦
        let (here, st, _) = oldest_received-some w.db v.distinct_ids e in
        rw (e, read_ticket) (record { valid = v; holds = (here, st) }, Steady-refl w.db v)
  ]

  commit_triage-Safe :
      (poll : Poll) (t : Ticket) (saved : Db) (rows : List LlmCall) (result : Produced TriageResult)
      (w : World)
      → Lifecycle saved
      → ticket_of t.id saved ≡ some t
      → t.status ≡ received
      → w.db ≡ with_calls rows saved
      → Safe saved (commit_triage d settings poll t saved (result, w))
  unfolding commit_triage
  commit_triage-Safe poll t saved rows (failed reason) w v here st e =
      let grown = Kept-with_calls t.id rows saved w.db v e in
      let kept =
        Kept-trans t.id grown
          (failed-Kept settings poll d t reason w.db grown.valid (rw e here) st) in
      (
        record { valid = kept.valid; holds = tt },
        Steady-of_Kept t.id t _ saved _ here (not-IsFinal t st)
            (ticket_of-save_ticket (failed_ticket d settings poll t reason) w.db t (rw e here)) refl
            kept,
      )
  commit_triage-Safe poll t saved rows unexpected w v here st e =
      (record { valid = v; holds = tt }, Steady-refl saved v)
  commit_triage-Safe poll t saved rows (produced r n) w v here st e =
      elim (Option-cases (insert_triage (triage_row d settings poll t.id r n) w.db)) [
        | inl f ↦ rw (f, commit_triage) (record { valid = v; holds = tt }, Steady-refl saved v)
        | inr (db, f) ↦
            let grown = Kept-with_calls t.id rows saved w.db v e in
            let (kept, now, has) =
              triaged-Kept settings poll d t r n w.db db grown.valid (rw e here) st f in
            let all_kept = Kept-trans t.id grown kept in
            rw (f, commit_triage)
              (
                record {
                  valid = all_kept.valid;
                  holds = (triaged_ticket d settings poll t r db, now, inl refl);
                },
                Steady-of_Kept t.id t _ saved _ here (not-IsFinal t st) now refl all_kept,
              )
      ]

  triage-Safe :
      (poll : Poll) (p : Phase) (w : World)
      → Lifecycle w.db
      → Holds p w.db
      → Safe w.db (triage_step d settings poll p w)
  unfolding triage_step
  triage-Safe poll resting w v h = (record { valid = v; holds = h }, Steady-refl w.db v)
  triage-Safe poll (drafting t r) w v h = (record { valid = v; holds = h }, Steady-refl w.db v)
  triage-Safe poll (reading t) w v (here, st) =
      let (rows, e, _) =
        classify_ticket-Account d settings poll.classify_call poll.repair_call (some t.id)
          (letter t) w in
      let after =
        classify_ticket d settings poll.classify_call poll.repair_call (some t.id) (letter t) w in
      commit_triage-Safe poll t w.db rows after.0 after.1 v here st e

  reply-Safe :
      (poll : Poll) (p : Phase) (w : World)
      → Lifecycle w.db
      → Holds p w.db
      → Safe w.db (reply_step d settings poll p w)
  unfolding reply_step
  reply-Safe poll resting w v h = (record { valid = v; holds = h }, Steady-refl w.db v)
  reply-Safe poll (reading t) w v h = (record { valid = v; holds = h }, Steady-refl w.db v)
  reply-Safe poll (drafting t r) w v (u, here, st) =
      let (kept, same_row, _) = generate_draft-Kept settings poll d t u r w v here st in
      (
        record { valid = kept.valid; holds = tt },
        Steady-of_row t.id w.db _ (same_row ∙ sym here) kept,
      )

  step-Safe : (x : Step) (s : Service) → IsSound s → Safe s.world.db (step d settings x s)
  unfolding step read_step
  step-Safe (request r) s sound = request-Safe r s sound
  step-Safe (triage poll) s sound = triage-Safe poll s.phase s.world sound.valid sound.holds
  step-Safe (reply poll) s sound = reply-Safe poll s.phase s.world sound.valid sound.holds
  step-Safe read s sound = from_phase s.phase s.world sound.valid sound.holds
    where
      from_phase :
          (p : Phase) (w : World)
          → Lifecycle w.db
          → Holds p w.db
          → Safe w.db (read_step d settings p w)
      from_phase resting w v h = read_ticket-Safe w v
      from_phase (reading t) w v h = (record { valid = v; holds = h }, Steady-refl w.db v)
      from_phase (drafting t r) w v h = (record { valid = v; holds = h }, Steady-refl w.db v)

  pub steps-Safe :
      (xs : List Step) (s : Service) → IsSound s → Safe s.world.db (steps d settings xs s)
  unfolding steps
  steps-Safe [] s sound = (sound, Steady-refl s.world.db sound.valid)
  steps-Safe (x ∷ xs) s sound =
      let (here, first) = step-Safe x s sound in
      let (there, rest) = steps-Safe xs (step d settings x s) here in
      (there, Steady-trans s.world.db _ _ first rest)

  -- Requests may commit while the worker waits for the provider: however they come between the
  -- worker's reading of a ticket, the commit of its triage and the commit of its draft, every state
  -- that a new installation reaches is in the invariant, and what the worker holds is still so: the
  -- ticket that it has read is received and unchanged, and the ticket to which it drafts a reply is
  -- triaged, approved or corrected.
  pub steps-IsSound :
      (xs : List Step) (s : Service) (rules : List RoutingRule)
      → s.world.db ≡ empty_db rules
      → s.phase ≡ resting
      → IsSound (steps d settings xs s)
  steps-IsSound xs s rules e rest =
      (steps-Safe xs s (record { valid = rw e (empty_db-Lifecycle rules); holds = rw rest tt })).0

  -- A decision stands: a ticket that is approved or corrected, also while the worker drafts a reply to
  -- it, keeps its row in every interleaving of the worker's steps with requests.
  pub steps-decided :
      (xs : List Step) (s : Service) (k : Text) (t : Ticket)
      → IsSound s
      → ticket_of k s.world.db ≡ some t
      → IsFinal t
      → ticket_of k (steps d settings xs s).world.db ≡ some t
  steps-decided xs s k t sound h f = (steps-Safe xs s sound).1.decided k t h f
