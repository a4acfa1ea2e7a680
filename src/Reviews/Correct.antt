-- ===== src/Reviews/Correct.antt =====
-- A human's correction of a ticket: when it is accepted, and what it changes.
use mathlib.Core.Path.{subst}
use ticket_triage.Base.{
  ℕ, ◌≡◌, refl, ◌⊎◌, inl, inr, true, Bool-cases, Option, none, some, Option-cases, arith,
}
use ticket_triage.Text.{Text, codes, text_eq}
use ticket_triage.Table
use ticket_triage.Table.Laws
use ticket_triage.Labels.{TriageError, Status, triaged, needs_human, status_eq}
use ticket_triage.Model.{
  Ticket, Triage, Correction, ReplyDraft, Db, Settings, ticket_key, correction_key, triage_of,
  draft_of, ticket_of, correction_of, insert_correction, save_ticket,
}
use ticket_triage.Model.Lifecycle.{Lifecycle, Fits, OnlyAt, OnlyAt-trans, OnlyAt-Lifecycle}
use ticket_triage.Model.Frame.{
  ticket_of-id, ticket_of-own, save_ticket-OnlyAt, ticket_of-save_ticket, save_ticket-Distinct_ids,
  save_ticket-Distinct_external, insert_correction-OnlyAt, correction_of-insert_correction,
  insert_correction-others,
}
use ticket_triage.Routing.{resolve_queue, load_rules}
use ticket_triage.Errors.{Answer, not_found, invalid_state, internal_error}
use ticket_triage.Tickets.{TicketOut}
use ticket_triage.Reviews.{
  CorrectRequest, correctable, correction_row, gold_queue, corrected_ticket, store_correction,
  correct_ticket,
}
use ticket_triage.Reviews.Approve.{no_such_ticket, Refused, Accepted}

-- The two statuses from which a correction is taken.
abbrev pub IsPending : Status → Type 0
IsPending s = (s ≡ triaged) ⊎ (s ≡ needs_human)

correctable-IsPending : (s : Status) → correctable s ≡ true → IsPending s
correctable-IsPending s h = ground arith

IsPending-correctable : (s : Status) → IsPending s → correctable s ≡ true
IsPending-correctable s h = ground arith

-- The row of a correction: the gold labels and the note of the request.
abbrev pub gold_row : Text → ℕ → Text → CorrectRequest → Correction
gold_row id now k payload = record {
  id = id;
  ticket_id = k;
  intent = payload.intent;
  priority = payload.priority;
  sentiment = payload.sentiment;
  note = payload.note;
  created_at = now;
}

-- The ticket after a correction.
abbrev pub corrected_row : Settings → ℕ → CorrectRequest → Db → Ticket → Ticket
corrected_row settings now payload db t = record t {
  status = Status.corrected;
  queue = some (
      resolve_queue (load_rules db) payload.intent payload.priority payload.sentiment
        settings.default_queue);
  triage_error = none;
  updated_at = now;
}

abbrev pub correction_id : Correction → Text
correction_id r = r.id

pending-correction :
    (s : Status) (queue : Option Text) (reason : Option TriageError) (triage : Option Triage)
    (correction : Option Correction) (draft : Option ReplyDraft)
    → correctable s ≡ true
    → Fits s queue reason triage correction draft
    → correction ≡ none
pending-correction triaged queue reason triage correction draft h fit = fit.3
pending-correction needs_human queue reason triage correction draft h fit = fit.3
pending-correction _ queue reason triage correction draft h fit = absurd (cc h)

-- A refused row, of a ticket that has no correction: its id is taken.
insert_correction-refused :
    (t : Ticket) (r : Correction) (db : Db)
    → r.ticket_id ≡ t.id
    → correction_of t.id db ≡ none
    → ticket_of t.id db ≡ some t
    → insert_correction r db ≡ none
    → Table.contains correction_id r.id db.corrections ≡ true
unfolding insert_correction
insert_correction-refused t r db own no_correction here f =
    let free = Laws.lookup-contains correction_key t.id db.corrections no_correction in
    elim (Bool-cases (Table.contains ticket_key t.id db.tickets)) [
      | inl known ↦ ground (arith, free, known, own)
      | inr gone ↦ cc (Laws.contains-lookup ticket_key t.id db.tickets gone, here)
    ]

module _ (settings : Settings) (id : Text) (now : ℕ) (payload : CorrectRequest) where
  gold_queue-insert_correction :
      (r : Correction) (db : Db) {db' : Db}
      → insert_correction r db ≡ some db'
      → gold_queue settings payload db' ≡ gold_queue settings payload db
  unfolding gold_queue load_rules
  gold_queue-insert_correction r db done = rw (insert_correction-OnlyAt r db done).rules_kept

  store_correction-Accepted :
      (t : Ticket) (db db' : Db)
      → Lifecycle db
      → ticket_of t.id db ≡ some t
      → insert_correction (correction_row id now t.id payload) db ≡ some db'
      → Accepted t.id
          (corrected_row settings now payload db t)
          db
          (store_correction settings id now payload t db)
        × (correction_of t.id (store_correction settings id now payload t db).1
            ≡ some (gold_row id now t.id payload))
  unfolding gold_queue store_correction save_ticket
  store_correction-Accepted t db db' v here done =
      let row = correction_row id now t.id payload in
      let t' = corrected_row settings now payload db t in
      let (tickets, triages, drafts) = insert_correction-others row db done in
      let there : ticket_of t.id db' ≡ some t = rw tickets here in
      let stored : ticket_of t.id (save_ticket t' db') ≡ some t' =
        ticket_of-save_ticket t' db' t there in
      let has : correction_of t.id db' ≡ some row = correction_of-insert_correction row db done in
      let only : OnlyAt t.id db (save_ticket t' db') =
        OnlyAt-trans t.id (insert_correction-OnlyAt row db done) (save_ticket-OnlyAt t' db') in
      rw (done, store_correction)
        (rw (gold_queue-insert_correction row db done) (
          record {
            answer = refl;
            stored = stored;
            kept = record {
              valid =
                  OnlyAt-Lifecycle t.id v only t' stored (λ e. cc, refl, λ e. cc (e, has))
                    (save_ticket-Distinct_ids t' db' t there (rw tickets v.distinct_ids))
                    (save_ticket-Distinct_external t' db' t there refl (rw tickets v.distinct_ids)
                      (rw tickets v.distinct_external));
              only = only;
            };
          },
          has,
        ))

-- Correction, branch by branch: 404 for an unknown ticket and 409 for one that is neither triaged nor
-- in need of a human, with no change. Otherwise the ticket becomes corrected, without an error and in
-- the queue that the rules assign to the gold labels, which are stored beside it; only a taken id of
-- the correction's row is an internal error, with no change.
pub correct_ticket-branches :
    (settings : Settings) (id : Text) (now : ℕ) (payload : CorrectRequest) (k : Text) (db : Db)
    → Lifecycle db
    → ((ticket_of k db ≡ none) × Refused not_found db (correct_ticket settings id now payload k db))
      ⊎ ((t : Ticket) × (ticket_of k db ≡ some t)
          × (((¬ IsPending t.status)
                × Refused invalid_state db (correct_ticket settings id now payload k db))
              ⊎ (IsPending t.status
                  × ((Refused internal_error db (correct_ticket settings id now payload k db)
                        × (Table.contains correction_id id db.corrections ≡ true))
                      ⊎ (Accepted k
                            (corrected_row settings now payload db t)
                            db
                            (correct_ticket settings id now payload k db)
                          × (correction_of k (correct_ticket settings id now payload k db).1
                              ≡ some (gold_row id now k payload)))))))
unfolding correct_ticket corrected_ticket
correct_ticket-branches settings id now payload k db v = elim (Option-cases (ticket_of k db)) [
  | inl h ↦ inl (h, (no_such_ticket, rw (h, correct_ticket) refl))
  | inr (t, h) ↦ inr (
    t,
    h,
    elim (Bool-cases (correctable t.status)) [
      | inr e ↦ inl (
        λ p. cc (e, IsPending-correctable t.status p),
        (
          codes "Only triaged or needs_human tickets can be corrected.",
          rw (h, correct_ticket) (rw (e, correct_ticket) refl),
        ),
      )
      | inl e ↦ inr (correctable-IsPending t.status e, pending t h e)
    ],
  )
]
  where
    result : Answer TicketOut × Db
    result = correct_ticket settings id now payload k db

    pending :
        (t : Ticket)
        → ticket_of k db ≡ some t
        → correctable t.status ≡ true
        → (Refused internal_error db result
            × (Table.contains correction_id id db.corrections ≡ true))
          ⊎ (Accepted k (corrected_row settings now payload db t) db result
              × (correction_of k result.1 ≡ some (gold_row id now k payload)))
    pending t h e =
        let same_id : t.id ≡ k = ticket_of-id k db h in
        elim (Option-cases (insert_correction (correction_row id now t.id payload) db)) [
          | inl f ↦ inl (
            (
              codes "An unexpected error occurred.",
              rw (h, correct_ticket) (rw (e, correct_ticket) (rw (f, store_correction) refl)),
            ),
            insert_correction-refused t (correction_row id now t.id payload) db refl
                (pending-correction t.status t.queue t.triage_error (triage_of t.id db)
                  (correction_of t.id db) (draft_of t.id db) e
                  (v.fits t.id t (ticket_of-own k db h)))
                (ticket_of-own k db h) f,
          )
          | inr (db', f) ↦ inr (
              rw (h, correct_ticket)
                (rw (e, correct_ticket)
                  (subst
                    (λ i.
                      Accepted i (corrected_row settings now payload db t) db
                        (store_correction settings id now payload t db)
                      × (correction_of i (store_correction settings id now payload t db).1
                          ≡ some (gold_row id now i payload)))
                    same_id
                    (store_correction-Accepted settings id now payload t db db' v
                      (ticket_of-own k db h) f))))
        ]
