-- ===== src/Tickets/Ingest.antt =====
-- Ingestion is idempotent by external id, also under races.
use mathlib.Core.Path.{subst}
use ticket_triage.Base.{
  ◌≡◌, ◌≢◌, refl, ◌⊎◌, inl, inr, Bool, true, false, none, some, Option-cases, [], ◌∷◌, ◌++◌, arith,
}
use ticket_triage.Text.{text_eq}
use ticket_triage.Table.Laws
use ticket_triage.Model.{Ticket, Db, ticket_key, external_key, ticket_of, insert_ticket}
use ticket_triage.Model.Lifecycle.{Lifecycle, OnlyAt, OnlyAt-Lifecycle}
use ticket_triage.Tickets.{
  NewTicket, Stamp, ticket_row, known, Ingested, ingested, integrity_error, insert_new,
  ingest_ticket,
}

-- An accepted INSERT.
insert_ticket-inserts :
    (t : Ticket) (db : Db) {db' : Db}
    → insert_ticket t db ≡ some db'
    → (ticket_of t.id db ≡ none)
      × (known t.external_id db ≡ none)
      × (db' ≡ record db { tickets = db.tickets ++ t ∷ [] })
unfolding insert_ticket
insert_ticket-inserts t db h = (
  Laws.contains-lookup ticket_key t.id db.tickets (ground arith),
  Laws.contains-lookup external_key t.external_id db.tickets (ground arith),
  ground arith,
)

insert_ticket-Lifecycle :
    (stamp : Stamp) (n : NewTicket) (db : Db) {db' : Db}
    → Lifecycle db
    → insert_ticket (ticket_row stamp n) db ≡ some db'
    → Lifecycle db'
insert_ticket-Lifecycle stamp n db {db'} v h =
    let t = ticket_row stamp n in
    let (new_id, new_external, e) = insert_ticket-inserts t db h in
    let only : OnlyAt stamp.id db (record db { tickets = db.tickets ++ t ∷ [] }) = record {
      tickets_kept = λ j other. Laws.lookup-append_ne ticket_key j db.tickets t other;
      triages_kept = λ j other. refl;
      corrections_kept = λ j other. refl;
      drafts_kept = λ j other. refl;
      rules_kept = refl;
    } in
    rw e (
      OnlyAt-Lifecycle stamp.id v only t (Laws.lookup-append_new ticket_key db.tickets t new_id)
        (
          refl,
          refl,
          v.triage_ticket stamp.id new_id,
          v.correction_ticket stamp.id new_id,
          v.draft_ticket stamp.id new_id,
        )
        (Laws.append-Distinct ticket_key db.tickets t new_id v.distinct_ids)
        (Laws.append-Distinct external_key db.tickets t new_external v.distinct_external))

-- The stored ticket of this external id is what was returned; a new one is received, with the
-- payload and the stamp, and is the only change.
abbrev pub Stored : Stamp → NewTicket → Db → Ingested × Db → Type 0
Stored stamp n db (ingested t true, db') =
    (t ≡ ticket_row stamp n)
    × (known n.external_id db' ≡ some t)
    × (known n.external_id db ≡ none)
    × (db' ≡ record db { tickets = db.tickets ++ t ∷ [] })
Stored stamp n db (ingested t false, db') = (known n.external_id db' ≡ some t) × (db' ≡ db)
Stored stamp n db (integrity_error, db') =
    (ticket_of stamp.id db ≢ none) × (known n.external_id db ≡ none) × (db' ≡ db)

refused_id :
    (t : Ticket) (db : Db)
    → insert_ticket t db ≡ none
    → known t.external_id db ≡ none
    → ticket_of t.id db ≢ none
unfolding insert_ticket
refused_id t db h k absent = ground (
  arith,
  Laws.lookup-contains ticket_key t.id db.tickets absent,
  Laws.lookup-contains external_key t.external_id db.tickets k,
)

insert_new-Stored :
    (stamp : Stamp) (n : NewTicket) (db : Db) → Stored stamp n db (insert_new stamp n db)
unfolding insert_new
insert_new-Stored stamp n db =
    let t = ticket_row stamp n in
    elim (Option-cases (insert_ticket t db)) [
      | inr (db', h) ↦
          let (_, new_external, e) = insert_ticket-inserts t db h in
          rw (h, insert_new)
            (
              refl,
              rw e (Laws.lookup-append_new external_key db.tickets t new_external),
              new_external,
              e,
            )
      | inl h ↦ elim (Option-cases (known n.external_id db)) [
        | inr (u, f) ↦ rw (h, insert_new) (rw (f, insert_new) (f, refl))
        | inl f ↦ rw (h, insert_new) (rw (f, insert_new) (refused_id t db h f, f, refl))
      ]
    ]

-- A known external id is answered with its ticket and changes nothing. An unknown one is inserted
-- into what the commit meets, whatever other requests have committed in between: then the answer is
-- the new row, received and unrouted, as the only change; or, if a rival was first, the rival's row
-- and no change; or an error, only if the new id is taken already. In each answer the returned
-- ticket is the one stored under the external id.
pub ingest_ticket-Stored :
    (rivals : Db → Db) (stamp : Stamp) (n : NewTicket) (db : Db)
    → ((t : Ticket) × (known n.external_id db ≡ some t)
        × (ingest_ticket rivals stamp n db ≡ (ingested t false, db)))
      ⊎ ((known n.external_id db ≡ none)
          × Stored stamp n (rivals db) (ingest_ticket rivals stamp n db))
unfolding ingest_ticket
ingest_ticket-Stored rivals stamp n db = elim (Option-cases (known n.external_id db)) [
  | inr (t, h) ↦ inl (t, h, rw (h, ingest_ticket) refl)
  | inl h ↦ inr (h, rw (h, ingest_ticket) (insert_new-Stored stamp n (rivals db)))
]

-- After an answer the external id is that of the returned ticket.
pub known_after :
    (rivals : Db → Db) (stamp : Stamp) (n : NewTicket) (db db' : Db) (t : Ticket) (created : Bool)
    → ingest_ticket rivals stamp n db ≡ (ingested t created, db')
    → known n.external_id db' ≡ some t
known_after rivals stamp n db db' t created h = elim (ingest_ticket-Stored rivals stamp n db) [
  | inl (u, k, e) ↦ ground (arith, h, k, e)
  | inr (_, s) ↦ go created (subst (Stored stamp n (rivals db)) h s)
]
  where
    go :
        (c : Bool)
        → Stored stamp n (rivals db) (ingested t c, db')
        → known n.external_id db' ≡ some t
    go true s = s.1
    go false s = s.0

-- If the database before the request and the one that the commit meets satisfy the invariant, so does
-- the database after it.
pub ingest_ticket-Lifecycle :
    (rivals : Db → Db) (stamp : Stamp) (n : NewTicket) (db : Db)
    → Lifecycle db
    → Lifecycle (rivals db)
    → Lifecycle (ingest_ticket rivals stamp n db).1
unfolding ingest_ticket insert_new
ingest_ticket-Lifecycle rivals stamp n db v met = elim (Option-cases (known n.external_id db)) [
  | inr (t, h) ↦ rw (h, ingest_ticket) v
  | inl h ↦
      rw (h, ingest_ticket)
        (elim (Option-cases (insert_ticket (ticket_row stamp n) (rivals db))) [
          | inr (db', e) ↦ rw (e, insert_new) (insert_ticket-Lifecycle stamp n (rivals db) met e)
          | inl e ↦ elim (Option-cases (known n.external_id (rivals db))) [
            | inr (u, f) ↦ rw (e, insert_new) (rw (f, insert_new) met)
            | inl f ↦ rw (e, insert_new) (rw (f, insert_new) met)
          ]
        ])
]
