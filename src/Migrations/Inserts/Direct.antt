-- ===== src/Migrations/Inserts/Direct.antt =====
-- The INSERTs into tickets and llm_calls of app/models.py.
use mathlib.Core.Option
use mathlib.Core.List.{map-append}
use ticket_triage.Base.{
  ◌≡◌, refl, ap, Bool, false, not, ◌||◌, Option, none, some, List, [], ◌∷◌, map, Bool-cases, inl,
  inr,
}
use ticket_triage.Text.{Text, codes, same, text_eq}
use ticket_triage.Table
use ticket_triage.Model.{Ticket, LlmCall, Db, ticket_key, external_key, insert_ticket, insert_call}
use ticket_triage.Migrations.Ddl.{
  text, insert, has_value, alter, violates, refuses, primary_key, unique, foreign_key,
}
use ticket_triage.Migrations.Init
use ticket_triage.Migrations.Init.{
  channel_words, status_words, triage_error_words, intent_words, priority_words, sentiment_words,
}
use ticket_triage.Migrations.Drafts
use ticket_triage.Migrations.Rows.{
  dump, ticket_values, stored, ticket_indexes, call_values, call_indexes,
}
use ticket_triage.Migrations.Checks.{
  or_both, or_left, or_right, exists-map, ticket_channel, ticket_status, ticket_error, call_purpose,
  call_outcome,
}

module _ (db : Db) (t : Ticket) where
  ticket_ids :
      (rows : List Ticket)
      → violates (dump db) (map ticket_values rows) (ticket_values t) (primary_key (codes "id"))
        ≡ Table.contains ticket_key t.id rows
  unfolding violates same Table.contains
  ticket_ids rows = exists-map _ ticket_values (λ u. same u.id t.id) rows (λ u. refl)

  external_ids :
      (rows : List Ticket)
      → violates
          (dump db)
          (map ticket_values rows)
          (ticket_values t)
          (unique (codes "uq_tickets_external_id") (codes "external_id"))
        ≡ Table.contains external_key t.external_id rows
  unfolding violates same Table.contains
  external_ids rows =
      exists-map _ ticket_values (λ u. same u.external_id t.external_id) rows (λ u. refl)

  ticket_refused :
      refuses
        (dump db)
        (stored Init.tickets_def ticket_indexes (map ticket_values db.tickets))
        (ticket_values t)
      ≡ (Table.contains ticket_key t.id db.tickets
          || Table.contains external_key t.external_id db.tickets)
  unfolding refuses same
  ticket_refused = or_both (ticket_ids db.tickets) (
      or_left (external_ids db.tickets) (
        or_right (ticket_channel t t.channel)
          (or_right (ticket_status t t.status) (or_left (ticket_error t t.triage_error) refl))))

  pub ticket_insert :
      insert (codes "tickets") (ticket_values t) (dump db) ≡ Option.map dump (insert_ticket t db)
  unfolding insert same insert_ticket
  ticket_insert =
      rw (ticket_refused, alter)
        (elim (Bool-cases (
          Table.contains ticket_key t.id db.tickets
          || Table.contains external_key t.external_id db.tickets)) [
            | inl e ↦ rw e refl
            | inr e ↦ rw (e, map-append ticket_values db.tickets (t ∷ [])) refl
          ])

-- A foreign key to a ticket.
pub known_tickets :
    (k : Text) (rows : List Ticket)
    → has_value (codes "id") (text k) (map ticket_values rows) ≡ Table.contains ticket_key k rows
unfolding has_value same Table.contains
known_tickets k rows = exists-map _ ticket_values (λ u. same u.id k) rows (λ u. refl)

-- A call that names no ticket, or one that is not there.
abbrev call_orphan : Option Text → Db → Bool
call_orphan ticket_id db = elim ticket_id [
  | none ↦ false
  | some k ↦ not (Table.contains ticket_key k db.tickets)
]

module _ (db : Db) (c : LlmCall) where
  call_ids :
      (rows : List LlmCall)
      → violates (dump db) (map call_values rows) (call_values c) (primary_key (codes "id"))
        ≡ Table.contains (λ (x : LlmCall). x.id) c.id rows
  unfolding violates same Table.contains
  call_ids rows = exists-map _ call_values (λ x. same x.id c.id) rows (λ x. refl)

  call_ticket :
      (k : Option Text)
      → violates
          (dump db)
          (map call_values db.llm_calls)
          (call_values (record c { ticket_id = k }))
          (foreign_key
            (codes "fk_llm_calls_ticket")
            (codes "ticket_id")
            (codes "tickets")
            (codes "id"))
        ≡ call_orphan k db
  unfolding violates same
  call_ticket none = refl
  call_ticket (some k) = ap not (known_tickets k db.tickets)

  call_refused :
      refuses
        (dump db)
        (stored
          (Init.calls_def Drafts.new_purpose_words)
          call_indexes
          (map call_values db.llm_calls))
        (call_values c)
      ≡ (Table.contains (λ (x : LlmCall). x.id) c.id db.llm_calls || call_orphan c.ticket_id db)
  unfolding refuses same
  call_refused = or_both (call_ids db.llm_calls) (
      or_left (call_ticket c.ticket_id)
        (or_right (call_purpose c c.purpose) (or_left (call_outcome c c.outcome) refl)))

  pub call_insert :
      insert (codes "llm_calls") (call_values c) (dump db) ≡ Option.map dump (insert_call c db)
  unfolding insert same insert_call
  call_insert =
      rw (call_refused, alter)
        (elim (Bool-cases (
          Table.contains (λ (x : LlmCall). x.id) c.id db.llm_calls || call_orphan c.ticket_id db)) [
            | inl e ↦ rw e refl
            | inr e ↦ rw (e, map-append call_values db.llm_calls (c ∷ [])) refl
          ])
