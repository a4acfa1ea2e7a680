-- ===== src/Model/Frame.antt =====
-- The single statements against the invariant: what an INSERT or an UPDATE for one ticket leaves.
use mathlib.Core.Path.{subst}
use ticket_triage.Base.{◌≡◌, refl, sym, none, some, [], ◌∷◌, ◌++◌, arith}
use ticket_triage.Text.{Text, text_eq}
use ticket_triage.Table
use ticket_triage.Table.Laws
use ticket_triage.Model.{
  Ticket, Triage, Correction, ReplyDraft, Db, ticket_key, external_key, triage_key, correction_key,
  draft_key, ticket_of, triage_of, correction_of, draft_of, save_ticket, insert_triage,
  insert_correction, insert_draft,
}
use ticket_triage.Model.Lifecycle.{
  Lifecycle, OnlyAt, OnlyAt-refl, OnlyAt-trans, OnlyAt-Lifecycle, FitsAt,
}

-- A lookup that finds a row finds it under its own key.
pub ticket_of-id : (k : Text) (db : Db) {t : Ticket} → ticket_of k db ≡ some t → t.id ≡ k
ticket_of-id k db h = Laws.lookup-key ticket_key k db.tickets h

pub ticket_of-own :
    (k : Text) (db : Db) {t : Ticket} → ticket_of k db ≡ some t → ticket_of t.id db ≡ some t
ticket_of-own k db {t} h = subst (λ i. ticket_of i db ≡ some t) (sym (ticket_of-id k db h)) h

module _ (t : Ticket) (db : Db) where
  pub save_ticket-OnlyAt : OnlyAt t.id db (save_ticket t db)
  unfolding save_ticket
  save_ticket-OnlyAt = record {
    tickets_kept = λ j h. Laws.lookup-replace_ne ticket_key j t db.tickets h;
    triages_kept = λ j h. refl;
    corrections_kept = λ j h. refl;
    drafts_kept = λ j h. refl;
    rules_kept = refl;
  }

  module _ (u : Ticket) (here : ticket_of t.id db ≡ some u) where
    pub ticket_of-save_ticket : ticket_of t.id (save_ticket t db) ≡ some t
    unfolding save_ticket
    ticket_of-save_ticket = Laws.lookup-replace_self ticket_key t db.tickets here

    pub save_ticket-Distinct_ids :
        Table.Distinct ticket_key db.tickets → Table.Distinct ticket_key (save_ticket t db).tickets
    unfolding save_ticket
    save_ticket-Distinct_ids d = Laws.replace-Distinct ticket_key t db.tickets d

    pub save_ticket-Distinct_external :
        u.external_id ≡ t.external_id
        → Table.Distinct ticket_key db.tickets
        → Table.Distinct external_key db.tickets
        → Table.Distinct external_key (save_ticket t db).tickets
    unfolding save_ticket
    save_ticket-Distinct_external e ids d =
        Laws.replace-Distinct_column ticket_key external_key t db.tickets
          (Laws.SameColumn-lookup ticket_key external_key t u db.tickets ids here e) d

-- The INSERT of a row that belongs to a ticket: what it finds, and what it leaves.
module _ (r : Triage) (db : Db) {db' : Db} (done : insert_triage r db ≡ some db') where
  insert_triage-inserts :
      (triage_of r.ticket_id db ≡ none) × (db' ≡ record db { triages = db.triages ++ r ∷ [] })
  unfolding insert_triage
  insert_triage-inserts =
      (Laws.contains-lookup triage_key r.ticket_id db.triages (ground arith), ground arith)

  pub insert_triage-OnlyAt : OnlyAt r.ticket_id db db'
  insert_triage-OnlyAt = rw insert_triage-inserts.1 (record {
    tickets_kept = λ j h. refl;
    triages_kept = λ j h. Laws.lookup-append_ne triage_key j db.triages r h;
    corrections_kept = λ j h. refl;
    drafts_kept = λ j h. refl;
    rules_kept = refl;
  })

  pub triage_of-insert_triage : triage_of r.ticket_id db' ≡ some r
  triage_of-insert_triage =
      rw insert_triage-inserts.1
        (Laws.lookup-append_new triage_key db.triages r insert_triage-inserts.0)

  pub insert_triage-others :
      (db'.tickets ≡ db.tickets)
      × (db'.corrections ≡ db.corrections)
      × (db'.reply_drafts ≡ db.reply_drafts)
  insert_triage-others = rw insert_triage-inserts.1 (refl, refl, refl)

module _ (r : Correction) (db : Db) {db' : Db} (done : insert_correction r db ≡ some db') where
  insert_correction-inserts :
      (correction_of r.ticket_id db ≡ none)
      × (db' ≡ record db { corrections = db.corrections ++ r ∷ [] })
  unfolding insert_correction
  insert_correction-inserts =
      (Laws.contains-lookup correction_key r.ticket_id db.corrections (ground arith), ground arith)

  pub insert_correction-OnlyAt : OnlyAt r.ticket_id db db'
  insert_correction-OnlyAt = rw insert_correction-inserts.1 (record {
    tickets_kept = λ j h. refl;
    triages_kept = λ j h. refl;
    corrections_kept = λ j h. Laws.lookup-append_ne correction_key j db.corrections r h;
    drafts_kept = λ j h. refl;
    rules_kept = refl;
  })

  pub correction_of-insert_correction : correction_of r.ticket_id db' ≡ some r
  correction_of-insert_correction =
      rw insert_correction-inserts.1
        (Laws.lookup-append_new correction_key db.corrections r insert_correction-inserts.0)

  pub insert_correction-others :
      (db'.tickets ≡ db.tickets) × (db'.triages ≡ db.triages) × (db'.reply_drafts ≡ db.reply_drafts)
  insert_correction-others = rw insert_correction-inserts.1 (refl, refl, refl)

module _ (r : ReplyDraft) (db : Db) {db' : Db} (done : insert_draft r db ≡ some db') where
  insert_draft-inserts :
      (draft_of r.ticket_id db ≡ none)
      × (db' ≡ record db { reply_drafts = db.reply_drafts ++ r ∷ [] })
  unfolding insert_draft
  insert_draft-inserts =
      (Laws.contains-lookup draft_key r.ticket_id db.reply_drafts (ground arith), ground arith)

  pub insert_draft-OnlyAt : OnlyAt r.ticket_id db db'
  insert_draft-OnlyAt = rw insert_draft-inserts.1 (record {
    tickets_kept = λ j h. refl;
    triages_kept = λ j h. refl;
    corrections_kept = λ j h. refl;
    drafts_kept = λ j h. Laws.lookup-append_ne draft_key j db.reply_drafts r h;
    rules_kept = refl;
  })

  pub draft_of-insert_draft : draft_of r.ticket_id db' ≡ some r
  draft_of-insert_draft =
      rw insert_draft-inserts.1
        (Laws.lookup-append_new draft_key db.reply_drafts r insert_draft-inserts.0)

  pub insert_draft-others :
      (db'.tickets ≡ db.tickets) × (db'.triages ≡ db.triages) × (db'.corrections ≡ db.corrections)
  insert_draft-others = rw insert_draft-inserts.1 (refl, refl, refl)

-- What a step for ticket `k` keeps.
pub record Kept (k : Text) (db db' : Db) : Type 0 where
  pub valid : Lifecycle db'
  pub only : OnlyAt k db db'

pub Kept-refl : (k : Text) (db : Db) → Lifecycle db → Kept k db db
Kept-refl k db v = record { valid = v; only = OnlyAt-refl k db }

pub Kept-trans : (k : Text) {a b c : Db} → Kept k a b → Kept k b c → Kept k a c
Kept-trans k p q = record { valid = q.valid; only = OnlyAt-trans k p.only q.only }

-- An update of a ticket's row alone.
pub save_ticket-Kept :
    (t u : Ticket) (db : Db)
    → Lifecycle db
    → ticket_of t.id db ≡ some u
    → u.external_id ≡ t.external_id
    → FitsAt t.id t db
    → Kept t.id db (save_ticket t db)
unfolding save_ticket
save_ticket-Kept t u db v here e fit = record {
  valid =
      OnlyAt-Lifecycle t.id v (save_ticket-OnlyAt t db) t (ticket_of-save_ticket t db u here) fit
        (save_ticket-Distinct_ids t db u here v.distinct_ids)
        (save_ticket-Distinct_external t db u here e v.distinct_ids v.distinct_external);
  only = save_ticket-OnlyAt t db;
}
