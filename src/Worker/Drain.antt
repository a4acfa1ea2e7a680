-- ===== src/Worker/Drain.antt =====
-- The received tickets are taken: how many there are, poll by poll.
use mathlib.Core.Path.{subst, sym}
use ticket_triage.Base.{
  ◌≤◌, ◌<◌, ◌≡◌, refl, ap, ◌∙◌, ◌⊎◌, inl, inr, true, false, Bool-cases, ◌==◌, not, none, some,
  Option-cases, List, [], ◌∷◌, length, map, exists, arith,
}
use ticket_triage.Text.{Text, text_eq}
use ticket_triage.Table
use ticket_triage.Table.Laws
use ticket_triage.Labels.{status_eq}
use ticket_triage.Model.{Ticket, LlmCall, Db, Settings, ticket_key, ticket_of}
use ticket_triage.Model.Lifecycle.{Lifecycle}
use ticket_triage.Model.Frame.{Kept}
use ticket_triage.Counts.{count_if}
use ticket_triage.Client.{World}
use ticket_triage.Client.Answers.{Documented, Provides}
use ticket_triage.Schema.{Decoder, TriageResult}
use ticket_triage.Classifier.{Produced, produced, failed, unexpected, classify_ticket}
use ticket_triage.Classifier.Answers.{is_expected, classify_ticket-expected, IsReadable}
use ticket_triage.Worker.{Poll, idle, letter, oldest_received, process_next_ticket, run}
use ticket_triage.Worker.Queue.{oldest_received-some, All-lookup, is_received}
use ticket_triage.Worker.Step.{Moved, triage_id}
use ticket_triage.Worker.Polls.{process_next_ticket-Kept}
use ticket_triage.Worker.Open.{
  opens, is_open, open_count, Covers, count_if-lt_changed, count_if-pos, ids-cover, open-ids,
}

-- New ids for the rows of a poll.
pub record NewIds (poll : Poll) (db : Db) : Type 0 where
  pub first_call :
      Table.contains (λ (c : LlmCall). c.id) poll.classify_call.call_id db.llm_calls ≡ false
  pub second_call :
      Table.contains (λ (c : LlmCall). c.id) poll.repair_call.call_id db.llm_calls ≡ false
  pub different : (poll.classify_call.call_id == poll.repair_call.call_id) ≡ false
  pub triage : Table.contains triage_id poll.triage_id db.triages ≡ false

has_ticket :
    (db : Db) (t : Ticket)
    → ticket_of t.id db ≡ some t
    → not (Table.contains ticket_key t.id db.tickets) ≡ false
has_ticket db t here = elim (Bool-cases (Table.contains ticket_key t.id db.tickets)) [
  | inl known ↦ rw known refl
  | inr gone ↦ absurd (cc (Laws.contains-lookup ticket_key t.id db.tickets gone, here))
]

module _ (d : Decoder) (settings : Settings) where
  -- The classification of the ticket that a poll takes gives a result.
  taken-expected :
      (poll : Poll) (w : World) (t : Ticket)
      → Documented poll.classify_call
      → Documented poll.repair_call
      → Provides (IsReadable d) poll.classify_call
      → Provides (IsReadable d) poll.repair_call
      → NewIds poll w.db
      → ticket_of t.id w.db ≡ some t
      → is_expected
          (classify_ticket d settings poll.classify_call poll.repair_call
            (some t.id)
            (letter t)
            w).0
        ≡ true
  taken-expected poll w t good_x good_y texts_x texts_y new here =
      let known = has_ticket w.db t here in
      classify_ticket-expected d settings poll.classify_call poll.repair_call (some t.id) (letter t)
        w good_x good_y texts_x texts_y (record { new_id = new.first_call; its_ticket = known })
        (record { new_id = new.second_call; its_ticket = known }) new.different

  -- It is no longer received.
  Moved-closed :
      (poll : Poll) (t : Ticket) (saved db : Db) (p : Produced TriageResult)
      → Moved settings poll d saved p t db
      → is_expected p ≡ true
      → Table.contains triage_id poll.triage_id saved.triages ≡ false
      → is_open db t.id ≡ false
  Moved-closed poll t saved db (failed reason) m e new = ap opens m
  Moved-closed poll t saved db unexpected m e new = absurd (cc e)
  Moved-closed poll t saved db (produced r n) (inl (taken, same)) e new = absurd (cc (taken, new))
  Moved-closed poll t saved db (produced r n) (inr (now, has)) e new = ap opens now

  -- A poll that takes a ticket leaves fewer received ones, and no new ticket.
  Kept-Covers :
      (ks : List Text) (t : Ticket) (db db' : Db)
      → ticket_of t.id db ≡ some t
      → Kept t.id db db'
      → Covers ks db
      → Covers ks db'
  Kept-Covers ks t db db' here kept cover k u there = elim (Bool-cases (t.id == k)) [
    | inl e ↦
        subst (λ j. exists (λ i. j == i) ks ≡ true) ((text_eq.beq_iff t.id k).0 e)
          (cover t.id t here)
    | inr e ↦ cover k u (sym (kept.only.tickets_kept k e) ∙ there)
  ]

  -- One poll: nothing is received, or fewer are afterwards.
  process_next_ticket-fewer :
      (ks : List Text) (poll : Poll) (w : World)
      → Lifecycle w.db
      → Covers ks w.db
      → Documented poll.classify_call
      → Documented poll.repair_call
      → Provides (IsReadable d) poll.classify_call
      → Provides (IsReadable d) poll.repair_call
      → NewIds poll w.db
      → let w' = (process_next_ticket d settings poll w).1 in
        Lifecycle w'.db
        × Covers ks w'.db
        × (((oldest_received w.db ≡ none) × (w' ≡ w)) ⊎ (open_count ks w'.db < open_count ks w.db))
  process_next_ticket-fewer ks poll w v cover good_x good_y texts_x texts_y new =
      elim (process_next_ticket-Kept d settings poll w v) [
        | inl (h, e) ↦
            let same : (process_next_ticket d settings poll w).1 ≡ w = ap (λ r. r.1) e in
            (
              subst (λ u. Lifecycle u.db) (sym same) v,
              subst (λ u. Covers ks u.db) (sym same) cover,
              inl (h, same),
            )
        | inr (t, h, kept, moved) ↦
            let (here, st, _) = oldest_received-some w.db v.distinct_ids h in
            let was : is_open w.db t.id ≡ true = ap opens here ∙ rw st refl in
            let now =
              Moved-closed poll t w.db _ _ moved
                (taken-expected poll w t good_x good_y texts_x texts_y new here) new.triage in
            (
              kept.valid,
              Kept-Covers ks t w.db _ here kept cover,
              inr (
                  count_if-lt_changed (is_open w.db)
                    (is_open (process_next_ticket d settings poll w).1.db) t.id
                    (λ j ne. ap opens (kept.only.tickets_kept j ne)) was now ks
                    (cover t.id t here)),
            )
      ]

  -- The polls of a documented provider, whose texts json.loads reads or refuses, each with new ids.
  abbrev pub Calm : List Poll → World → Type 0
  Calm [] w = Unit
  Calm (poll ∷ polls) w =
      Documented poll.classify_call
      × Documented poll.repair_call
      × Provides (IsReadable d) poll.classify_call
      × Provides (IsReadable d) poll.repair_call
      × NewIds poll w.db
      × Calm polls (process_next_ticket d settings poll w).1

  none-open :
      (ks : List Text) (db : Db)
      → Lifecycle db
      → Covers ks db
      → open_count ks db ≡ 0
      → oldest_received db ≡ none
  none-open ks db v cover h = elim (Option-cases (oldest_received db)) [
    | inl e ↦ e
    | inr (t, e) ↦
        let (here, st, _) = oldest_received-some db v.distinct_ids e in
        let some_open =
          count_if-pos (is_open db) t.id ks (ap opens here ∙ rw st refl) (cover t.id t here) in
        absurd (omega (arith, some_open, h))
  ]

  stays-none :
      (polls : List Poll) (w : World)
      → oldest_received w.db ≡ none
      → oldest_received (run d settings polls w).db ≡ none
  unfolding run process_next_ticket
  stays-none [] w h = h
  stays-none (poll ∷ polls) w h =
      let idles : process_next_ticket d settings poll w ≡ (idle, w) =
        rw (h, process_next_ticket) refl in
      subst (λ u. oldest_received (run d settings polls u).db ≡ none) (sym (ap (λ r. r.1) idles))
        (stays-none polls w h)

  drain :
      (ks : List Text) (polls : List Poll) (w : World)
      → Lifecycle w.db
      → Covers ks w.db
      → Calm polls w
      → open_count ks w.db ≤ length polls
      → oldest_received (run d settings polls w).db ≡ none
  unfolding run
  drain ks [] w v cover calm h = none-open ks w.db v cover (omega (arith, h))
  drain ks (poll ∷ polls) w v cover (good_x, good_y, texts_x, texts_y, new, calm) h =
      let (v', cover', step) =
        process_next_ticket-fewer ks poll w v cover good_x good_y texts_x texts_y new in
      elim step [
        | inl (e, same) ↦
            subst (λ u. oldest_received (run d settings polls u).db ≡ none) (sym same)
              (stays-none polls w e)
        | inr fewer ↦
            drain ks polls (process_next_ticket d settings poll w).1 v' cover' calm
              (omega (arith, fewer, h))
      ]

  -- The worker drains the queue: from a database in the invariant, as many polls as there are received
  -- tickets leave none received, whatever the provider answers, if a request
  -- raises no other exception than a transport error, a 200 of the provider is a document of its API
  -- whose text json.loads reads or refuses with a JSONDecodeError, and the rows of each poll get new
  -- ids.
  pub run-drains :
      (polls : List Poll) (w : World)
      → Lifecycle w.db
      → Calm polls w
      → count_if is_received w.db.tickets ≤ length polls
      → oldest_received (run d settings polls w).db ≡ none
  run-drains polls w v calm h =
      let ids = map ticket_key w.db.tickets in
      let counted = open-ids w.db w.db.tickets (All-lookup w.db.tickets v.distinct_ids) in
      drain ids polls w v (λ k t there. ids-cover w.db.tickets k t there) calm
        (omega (arith, counted, h))
