-- ===== src/Migrations/Inserts/Owned.antt =====
-- The INSERTs into the tables of app/models.py with one row for a ticket: triages, corrections and
-- reply_drafts.
use mathlib.Core.Option
use mathlib.Core.List.{map-append}
use ticket_triage.Base.{◌≡◌, refl, ap, not, ◌||◌, List, [], ◌∷◌, map, Bool-cases, inl, inr}
use ticket_triage.Text.{codes, same, text_eq}
use ticket_triage.Table
use ticket_triage.Model.{
  Triage, Correction, ReplyDraft, Db, ticket_key, triage_key, correction_key, draft_key,
  insert_triage, insert_correction, insert_draft,
}
use ticket_triage.Migrations.Ddl.{insert, alter, violates, refuses, primary_key, unique}
use ticket_triage.Migrations.Init
use ticket_triage.Migrations.Init.{
  channel_words, status_words, triage_error_words, intent_words, priority_words, sentiment_words,
}
use ticket_triage.Migrations.Drafts
use ticket_triage.Migrations.Rows.{dump, stored, triage_values, correction_values, draft_values}
use ticket_triage.Migrations.Checks.{
  or_left, or_right, or_owned, exists-map, triage_intent, triage_priority, triage_sentiment,
  correction_intent, correction_priority, correction_sentiment, draft_state,
}
use ticket_triage.Migrations.Inserts.Direct.{known_tickets}

module _ (db : Db) (r : Triage) where
  triage_ids :
      (rows : List Triage)
      → violates (dump db) (map triage_values rows) (triage_values r) (primary_key (codes "id"))
        ≡ Table.contains (λ (x : Triage). x.id) r.id rows
  unfolding violates same Table.contains
  triage_ids rows = exists-map _ triage_values (λ x. same x.id r.id) rows (λ x. refl)

  triage_tickets :
      (rows : List Triage)
      → violates
          (dump db)
          (map triage_values rows)
          (triage_values r)
          (unique (codes "uq_triages_ticket_id") (codes "ticket_id"))
        ≡ Table.contains triage_key r.ticket_id rows
  unfolding violates same Table.contains
  triage_tickets rows =
      exists-map _ triage_values (λ x. same x.ticket_id r.ticket_id) rows (λ x. refl)

  triage_refused :
      refuses
        (dump db)
        (stored Init.triages_def [] (map triage_values db.triages))
        (triage_values r)
      ≡ (Table.contains (λ (x : Triage). x.id) r.id db.triages
          || Table.contains triage_key r.ticket_id db.triages
          || not (Table.contains ticket_key r.ticket_id db.tickets))
  unfolding refuses same
  triage_refused =
      or_owned (triage_ids db.triages) (ap not (known_tickets r.ticket_id db.tickets))
        (triage_tickets db.triages)
        (or_right (triage_intent r r.intent)
          (or_right (triage_priority r r.priority) (or_left (triage_sentiment r r.sentiment) refl)))

  pub triage_insert :
      insert (codes "triages") (triage_values r) (dump db) ≡ Option.map dump (insert_triage r db)
  unfolding insert same insert_triage
  triage_insert =
      rw (triage_refused, alter)
        (elim (Bool-cases (
          Table.contains (λ (x : Triage). x.id) r.id db.triages
          || Table.contains triage_key r.ticket_id db.triages
          || not (Table.contains ticket_key r.ticket_id db.tickets))) [
            | inl e ↦ rw e refl
            | inr e ↦ rw (e, map-append triage_values db.triages (r ∷ [])) refl
          ])

module _ (db : Db) (r : Correction) where
  correction_ids :
      (rows : List Correction)
      → violates
          (dump db)
          (map correction_values rows)
          (correction_values r)
          (primary_key (codes "id"))
        ≡ Table.contains (λ (x : Correction). x.id) r.id rows
  unfolding violates same Table.contains
  correction_ids rows = exists-map _ correction_values (λ x. same x.id r.id) rows (λ x. refl)

  correction_tickets :
      (rows : List Correction)
      → violates
          (dump db)
          (map correction_values rows)
          (correction_values r)
          (unique (codes "uq_corrections_ticket_id") (codes "ticket_id"))
        ≡ Table.contains correction_key r.ticket_id rows
  unfolding violates same Table.contains
  correction_tickets rows =
      exists-map _ correction_values (λ x. same x.ticket_id r.ticket_id) rows (λ x. refl)

  correction_refused :
      refuses
        (dump db)
        (stored Init.corrections_def [] (map correction_values db.corrections))
        (correction_values r)
      ≡ (Table.contains (λ (x : Correction). x.id) r.id db.corrections
          || Table.contains correction_key r.ticket_id db.corrections
          || not (Table.contains ticket_key r.ticket_id db.tickets))
  unfolding refuses same
  correction_refused =
      or_owned (correction_ids db.corrections) (ap not (known_tickets r.ticket_id db.tickets))
        (correction_tickets db.corrections)
        (or_right (correction_intent r r.intent) (
          or_right (correction_priority r r.priority)
            (or_left (correction_sentiment r r.sentiment) refl)))

  pub correction_insert :
      insert (codes "corrections") (correction_values r) (dump db)
      ≡ Option.map dump (insert_correction r db)
  unfolding insert same insert_correction
  correction_insert =
      rw (correction_refused, alter)
        (elim (Bool-cases (
          Table.contains (λ (x : Correction). x.id) r.id db.corrections
          || Table.contains correction_key r.ticket_id db.corrections
          || not (Table.contains ticket_key r.ticket_id db.tickets))) [
            | inl e ↦ rw e refl
            | inr e ↦ rw (e, map-append correction_values db.corrections (r ∷ [])) refl
          ])

module _ (db : Db) (r : ReplyDraft) where
  draft_ids :
      (rows : List ReplyDraft)
      → violates (dump db) (map draft_values rows) (draft_values r) (primary_key (codes "id"))
        ≡ Table.contains (λ (x : ReplyDraft). x.id) r.id rows
  unfolding violates same Table.contains
  draft_ids rows = exists-map _ draft_values (λ x. same x.id r.id) rows (λ x. refl)

  draft_tickets :
      (rows : List ReplyDraft)
      → violates
          (dump db)
          (map draft_values rows)
          (draft_values r)
          (unique (codes "uq_reply_drafts_ticket_id") (codes "ticket_id"))
        ≡ Table.contains draft_key r.ticket_id rows
  unfolding violates same Table.contains
  draft_tickets rows =
      exists-map _ draft_values (λ x. same x.ticket_id r.ticket_id) rows (λ x. refl)

  draft_refused :
      refuses
        (dump db)
        (stored Drafts.drafts_def [] (map draft_values db.reply_drafts))
        (draft_values r)
      ≡ (Table.contains (λ (x : ReplyDraft). x.id) r.id db.reply_drafts
          || Table.contains draft_key r.ticket_id db.reply_drafts
          || not (Table.contains ticket_key r.ticket_id db.tickets))
  unfolding refuses same
  draft_refused =
      or_owned (draft_ids db.reply_drafts) (ap not (known_tickets r.ticket_id db.tickets))
        (draft_tickets db.reply_drafts) (or_left (draft_state r r.state) refl)

  pub draft_insert :
      insert (codes "reply_drafts") (draft_values r) (dump db) ≡ Option.map dump (insert_draft r db)
  unfolding insert same insert_draft
  draft_insert =
      rw (draft_refused, alter)
        (elim (Bool-cases (
          Table.contains (λ (x : ReplyDraft). x.id) r.id db.reply_drafts
          || Table.contains draft_key r.ticket_id db.reply_drafts
          || not (Table.contains ticket_key r.ticket_id db.tickets))) [
            | inl e ↦ rw e refl
            | inr e ↦ rw (e, map-append draft_values db.reply_drafts (r ∷ [])) refl
          ])
