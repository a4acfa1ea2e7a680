-- ===== src/Worker/Step.antt =====
-- One poll against the invariant of the database: it changes one ticket, and leaves it with the rows
-- of its new status, whatever the provider answers.
use mathlib.Core.Path.{subst}
use ticket_triage.Base.{
  ℕ, ◌≡◌, refl, ap, ◌∙◌, ◌⊎◌, inl, inr, true, Bool-cases, none, some, Option-cases, List, arith,
}
use ticket_triage.Table
use ticket_triage.Table.Laws
use ticket_triage.Routing.{resolve_queue, load_rules}
use ticket_triage.Prompts.{prompt_version}
use ticket_triage.Text.{Text, text_eq}
use ticket_triage.Labels.{received, triaged, needs_human, TriageError}
use ticket_triage.Model.{
  Ticket, Triage, LlmCall, Db, Settings, ticket_key, triage_key, ticket_of, triage_of,
  correction_of, draft_of, insert_triage, save_ticket,
}
use ticket_triage.Model.Lifecycle.{Lifecycle, OnlyAt, OnlyAt-trans, OnlyAt-Lifecycle, Fits}
use ticket_triage.Model.Frame.{
  Kept, Kept-refl, Kept-trans, save_ticket-Kept, save_ticket-OnlyAt, ticket_of-save_ticket,
  save_ticket-Distinct_ids, save_ticket-Distinct_external, insert_triage-OnlyAt,
  triage_of-insert_triage, insert_triage-others,
}
use ticket_triage.Client.{World}
use ticket_triage.Schema.{Decoder, TriageResult}
use ticket_triage.Classifier.{Produced, produced, failed, unexpected, classify_ticket}
use ticket_triage.Classifier.Ledger.{with_calls, classify_ticket-Account}
use ticket_triage.Worker.{
  Poll, letter, triage_row, triaged_ticket, failed_ticket, store_triage, after_classify,
  process_ticket,
}
use ticket_triage.Worker.Drafted.{Kept-with_calls, generate_draft-Kept}

abbrev pub triage_id : Triage → Text
triage_id r = r.id

module _ (settings : Settings) (poll : Poll) (d : Decoder) where
  -- What a received ticket has.
  received_rows :
      (k : Text) (t : Ticket) (db : Db)
      → Lifecycle db
      → ticket_of k db ≡ some t
      → t.status ≡ received
      → (triage_of k db ≡ none) × (correction_of k db ≡ none) × (draft_of k db ≡ none)
  received_rows k t db v here st =
      let (_, _, no_triage, no_correction, no_draft) =
        subst
          (λ s. Fits s t.queue t.triage_error (triage_of k db) (correction_of k db) (draft_of k db))
          st (v.fits k t here) in
      (no_triage, no_correction, no_draft)

  -- The first commit: the triage row and the ticket's new columns.
  pub triaged-Kept :
      (t : Ticket) (r : TriageResult) (n : ℕ) (db db' : Db)
      → Lifecycle db
      → ticket_of t.id db ≡ some t
      → t.status ≡ received
      → insert_triage (triage_row d settings poll t.id r n) db ≡ some db'
      → Kept t.id db (save_ticket (triaged_ticket d settings poll t r db') db')
        × (ticket_of t.id (save_ticket (triaged_ticket d settings poll t r db') db')
            ≡ some (triaged_ticket d settings poll t r db'))
        × (triage_of t.id (save_ticket (triaged_ticket d settings poll t r db') db')
            ≡ some (triage_row d settings poll t.id r n))
  unfolding save_ticket
  triaged-Kept t r n db db' v here st done =
      let row = triage_row d settings poll t.id r n in
      let t' = triaged_ticket d settings poll t r db' in
      let (tickets, corrections, drafts) = insert_triage-others row db done in
      let there : ticket_of t.id db' ≡ some t = rw tickets here in
      let now : ticket_of t.id (save_ticket t' db') ≡ some t' =
        ticket_of-save_ticket t' db' t there in
      let has : triage_of t.id db' ≡ some row = triage_of-insert_triage row db done in
      let only : OnlyAt t.id db (save_ticket t' db') =
        OnlyAt-trans t.id (insert_triage-OnlyAt row db done) (save_ticket-OnlyAt t' db') in
      (
        record {
          valid =
              OnlyAt-Lifecycle t.id v only t' now
                (
                  λ e. cc,
                  refl,
                  λ e. cc (e, has),
                  rw corrections (received_rows t.id t db v here st).1,
                )
                (save_ticket-Distinct_ids t' db' t there (rw tickets v.distinct_ids))
                (save_ticket-Distinct_external t' db' t there refl (rw tickets v.distinct_ids)
                  (rw tickets v.distinct_external));
          only = only;
        },
        now,
        has,
      )

  -- How a poll leaves the ticket `t`, by the result of its classification.
  abbrev pub Moved : Db → Produced TriageResult → Ticket → Db → Type 0
  Moved saved (failed reason) t db =
      ticket_of t.id db
      ≡ some (record t {
        status = needs_human;
        queue = some settings.default_queue;
        triage_error = some reason;
        updated_at = poll.updated_at;
      })
  Moved saved unexpected t db = db ≡ saved
  Moved saved (produced r n) t db =
      ((Table.contains triage_id poll.triage_id saved.triages ≡ true) × (db ≡ saved))
      ⊎ ((ticket_of t.id db
            ≡ some (record t {
              status = triaged;
              queue = some (
                  resolve_queue (load_rules saved) r.intent r.priority r.sentiment
                    settings.default_queue);
              triage_error = none;
              updated_at = poll.updated_at;
            }))
          × (triage_of t.id db
              ≡ some (record {
                id = poll.triage_id;
                ticket_id = t.id;
                intent = r.intent;
                priority = r.priority;
                sentiment = r.sentiment;
                summary = r.summary;
                model = settings.llm_model;
                prompt_version = prompt_version;
                attempts = n;
                created_at = poll.triaged_at;
              })))

  -- The routing reads the same rules after the new rows.
  triaged_ticket-rules :
      (t : Ticket) (r : TriageResult) (db db' : Db)
      → db'.routing_rules ≡ db.routing_rules
      → triaged_ticket d settings poll t r db' ≡ triaged_ticket d settings poll t r db
  triaged_ticket-rules t r db db' e = unfold load_rules in rw e refl

  -- A refused triage row, of a ticket that has none: its id is taken.
  insert_triage-refused :
      (t : Ticket) (r : TriageResult) (n : ℕ) (db : Db)
      → triage_of t.id db ≡ none
      → ticket_of t.id db ≡ some t
      → insert_triage (triage_row d settings poll t.id r n) db ≡ none
      → Table.contains triage_id poll.triage_id db.triages ≡ true
  unfolding insert_triage
  insert_triage-refused t r n db no_triage here f =
      let free = Laws.lookup-contains triage_key t.id db.triages no_triage in
      elim (Bool-cases (Table.contains ticket_key t.id db.tickets)) [
        | inl known ↦ ground (arith, free, known)
        | inr gone ↦ cc (Laws.contains-lookup ticket_key t.id db.tickets gone, here)
      ]

  store_triage-Kept :
      (t : Ticket) (saved : Db) (rows : List LlmCall) (r : TriageResult) (n : ℕ) (w : World)
      → Lifecycle saved
      → ticket_of t.id saved ≡ some t
      → t.status ≡ received
      → w.db ≡ with_calls rows saved
      → Kept t.id saved (store_triage d settings poll t saved r n w).1.db
        × Moved saved (produced r n) t (store_triage d settings poll t saved r n w).1.db
  unfolding store_triage
  store_triage-Kept t saved rows r n w v here st e =
      elim (Option-cases (insert_triage (triage_row d settings poll t.id r n) w.db)) [
        | inl f ↦
            let f' : insert_triage (triage_row d settings poll t.id r n) (with_calls rows saved)
                ≡ none =
              subst (λ db. insert_triage (triage_row d settings poll t.id r n) db ≡ none) e f in
            let taken =
              insert_triage-refused t r n (with_calls rows saved)
                (received_rows t.id t saved v here st).0 here f' in
            rw (f, store_triage) (Kept-refl t.id saved v, inl (taken, refl))
        | inr (db, f) ↦
            let grown = Kept-with_calls t.id rows saved w.db v e in
            let t' = triaged_ticket d settings poll t r db in
            let (kept, now, has) = triaged-Kept t r n w.db db grown.valid (rw e here) st f in
            let (kept', now', same_triages) =
              generate_draft-Kept settings poll d t' t' r (record w { db = save_ticket t' db })
                kept.valid now (inl refl) in
            let all_kept = Kept-trans t.id (Kept-trans t.id grown kept) kept' in
            let same_rules =
              (insert_triage-OnlyAt (triage_row d settings poll t.id r n) w.db f).rules_kept
              ∙ grown.only.rules_kept in
            rw (f, store_triage)
              (
                all_kept,
                inr (
                  now' ∙ ap some (triaged_ticket-rules t r saved db same_rules),
                  rw same_triages has,
                ),
              )
      ]

  pub failed-Kept :
      (t : Ticket) (reason : TriageError) (db : Db)
      → Lifecycle db
      → ticket_of t.id db ≡ some t
      → t.status ≡ received
      → Kept t.id db (save_ticket (failed_ticket d settings poll t reason) db)
  failed-Kept t reason db v here st =
      let (no_triage, no_correction, no_draft) = received_rows t.id t db v here st in
      save_ticket-Kept (failed_ticket d settings poll t reason) t db v here refl
        (λ e. cc, λ e. cc, no_triage, no_correction, no_draft)

  after_classify-Kept :
      (t : Ticket) (saved : Db) (rows : List LlmCall) (result : Produced TriageResult) (w : World)
      → Lifecycle saved
      → ticket_of t.id saved ≡ some t
      → t.status ≡ received
      → w.db ≡ with_calls rows saved
      → Kept t.id saved (after_classify d settings poll t saved (result, w)).1.db
        × Moved saved result t (after_classify d settings poll t saved (result, w)).1.db
  unfolding after_classify
  after_classify-Kept t saved rows (failed reason) w v here st e =
      let grown = Kept-with_calls t.id rows saved w.db v e in
      let there : ticket_of t.id w.db ≡ some t = rw e here in
      (
        Kept-trans t.id grown (failed-Kept t reason w.db grown.valid there st),
        ticket_of-save_ticket (failed_ticket d settings poll t reason) w.db t there,
      )
  after_classify-Kept t saved rows unexpected w v here st e = (Kept-refl t.id saved v, refl)
  after_classify-Kept t saved rows (produced r n) w v here st e =
      store_triage-Kept t saved rows r n w v here st e

  pub process_ticket-Kept :
      (t : Ticket) (w : World)
      → Lifecycle w.db
      → ticket_of t.id w.db ≡ some t
      → t.status ≡ received
      → Kept t.id w.db (process_ticket d settings poll t w).1.db
        × Moved w.db
            (classify_ticket d settings poll.classify_call poll.repair_call
              (some t.id)
              (letter t)
              w).0
            t
            (process_ticket d settings poll t w).1.db
  unfolding process_ticket
  process_ticket-Kept t w v here st =
      let (rows, e, _) =
        classify_ticket-Account d settings poll.classify_call poll.repair_call (some t.id)
          (letter t) w in
      let after =
        classify_ticket d settings poll.classify_call poll.repair_call (some t.id) (letter t) w in
      after_classify-Kept t w.db rows after.0 after.1 v here st e
