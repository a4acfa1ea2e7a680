-- ===== src/System/Interleaved/Alone.antt =====
-- The worker's three steps are `process_next_ticket` of app/services/worker.py.
use ticket_triage.Base.{◌≡◌, refl, sym, ap, ◌∙◌, inl, inr, some, Option-cases, [], ◌∷◌}
use ticket_triage.Text.{text_eq}
use ticket_triage.Model.{Ticket, Db, Settings, insert_triage}
use ticket_triage.Client.{World}
use ticket_triage.Schema.{Decoder, TriageResult}
use ticket_triage.Classifier.{Produced, produced, failed, unexpected, classify_ticket}
use ticket_triage.Worker.{
  Poll, letter, oldest_received, triage_row, process_next_ticket, process_ticket, after_classify,
  store_triage, idle,
}
use ticket_triage.System.Interleaved.{
  resting, reading, Service, read, triage, reply, commit_triage, read_ticket, read_step,
  triage_step, reply_step, step, steps,
}

module _ (d : Decoder) (settings : Settings) where
  abbrev pub at_rest : World → Service
  at_rest w = record { world = w; phase = resting }

  -- The two later steps, from where the first one leaves the worker.
  abbrev then_reply : Poll → Service → Service
  then_reply poll s = reply_step d settings poll s.phase s.world

  abbrev then_triage : Poll → Service → Service
  then_triage poll s = then_reply poll (triage_step d settings poll s.phase s.world)

  commit_triage-reply :
      (poll : Poll) (t : Ticket) (saved : Db) (result : Produced TriageResult × World)
      → then_reply poll (commit_triage d settings poll t saved result)
        ≡ at_rest (after_classify d settings poll t saved result).1
  unfolding commit_triage reply_step after_classify store_triage
  commit_triage-reply poll t saved (failed reason, w) = refl
  commit_triage-reply poll t saved (unexpected, w) = refl
  commit_triage-reply poll t saved (produced r n, w) =
      elim (Option-cases (insert_triage (triage_row d settings poll t.id r n) w.db)) [
        | inl f ↦ rw (f, commit_triage, store_triage) refl
        | inr (db, f) ↦ rw (f, commit_triage, store_triage) refl
      ]

  -- With no request in between, the three steps of the worker are `process_next_ticket`, and leave it
  -- at rest.
  pub steps-alone :
      (poll : Poll) (w : World)
      → steps d settings (read ∷ triage poll ∷ reply poll ∷ []) (at_rest w)
        ≡ at_rest (process_next_ticket d settings poll w).1
  unfolding steps step read_step process_next_ticket triage_step reply_step process_ticket
  steps-alone poll w = elim (Option-cases (oldest_received w.db)) [
    | inl e ↦
        let nothing : read_ticket d settings w ≡ at_rest w =
          unfold read_ticket in rw (e, read_ticket) refl in
        let idles : process_next_ticket d settings poll w ≡ (idle, w) =
          rw (e, process_next_ticket) refl in
        ap (then_triage poll) nothing ∙ ap (λ r. at_rest r.1) (sym idles)
    | inr (t, e) ↦
        let taken : read_ticket d settings w ≡ record { world = w; phase = reading t } =
          unfold read_ticket in rw (e, read_ticket) refl in
        let takes : process_next_ticket d settings poll w ≡ process_ticket d settings poll t w =
          rw (e, process_next_ticket) refl in
        ap (then_triage poll) taken
        ∙ commit_triage-reply poll t w.db (
            classify_ticket d settings poll.classify_call poll.repair_call (some t.id) (letter t) w)
        ∙ ap (λ r. at_rest r.1) (sym takes)
  ]
