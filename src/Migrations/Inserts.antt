-- ===== src/Migrations/Inserts.antt =====
-- The INSERTs of the models are those of the migrated tables: the constraints that the migrations
-- declare refuse the rows that app/models.py says are refused, and no others.
mod Direct
mod Owned
use mathlib.Core.Option
use ticket_triage.Base.{◌≡◌, Option}
use ticket_triage.Text.{Text, codes}
use ticket_triage.Model.{
  Ticket, Triage, LlmCall, Correction, ReplyDraft, Db, insert_ticket, insert_triage,
  insert_correction, insert_draft, insert_call,
}
use ticket_triage.Migrations.Ddl.{Row, insert}
use ticket_triage.Migrations.Rows.{
  dump, ticket_values, triage_values, correction_values, draft_values, call_values,
}
use ticket_triage.Migrations.Inserts.Direct.{ticket_insert, call_insert}
use ticket_triage.Migrations.Inserts.Owned.{triage_insert, correction_insert, draft_insert}

-- What the service inserts: rows of the five tables to which it adds one at a time.
pub data Insertion : Type 0 where
  new_ticket : Ticket → Insertion
  new_triage : Triage → Insertion
  new_call : LlmCall → Insertion
  new_correction : Correction → Insertion
  new_draft : ReplyDraft → Insertion

abbrev pub store_row : Insertion → Db → Option Db
store_row (new_ticket t) db = insert_ticket t db
store_row (new_triage r) db = insert_triage r db
store_row (new_call c) db = insert_call c db
store_row (new_correction r) db = insert_correction r db
store_row (new_draft r) db = insert_draft r db

abbrev pub table_of : Insertion → Text
table_of (new_ticket t) = codes "tickets"
table_of (new_triage r) = codes "triages"
table_of (new_call c) = codes "llm_calls"
table_of (new_correction r) = codes "corrections"
table_of (new_draft r) = codes "reply_drafts"

abbrev pub values_of : Insertion → Row
values_of (new_ticket t) = ticket_values t
values_of (new_triage r) = triage_values r
values_of (new_call c) = call_values c
values_of (new_correction r) = correction_values r
values_of (new_draft r) = draft_values r

-- The INSERT of a row into the tables of the migrations is the INSERT of the model, for each of the
-- five tables and every row: it is refused exactly when a primary key or a unique column is taken or
-- a ticket is missing, no CHECK and no NOT NULL ever refuses it, and where it is accepted the row is
-- added to its table and nothing else changes.
pub insert-store_row :
    (w : Insertion) (db : Db)
    → insert (table_of w) (values_of w) (dump db) ≡ Option.map dump (store_row w db)
insert-store_row (new_ticket t) db = ticket_insert db t
insert-store_row (new_triage r) db = triage_insert db r
insert-store_row (new_call c) db = call_insert db c
insert-store_row (new_correction r) db = correction_insert db r
insert-store_row (new_draft r) db = draft_insert db r
