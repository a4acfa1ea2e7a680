-- ===== src/System/Interleaved/Replay.antt =====
-- An external id that has been answered, whatever the service does afterwards.
use mathlib.Core.Path.{subst}
use ticket_triage.Base.{◌≡◌, refl, sym, ◌∙◌, Bool, false, some, List}
use ticket_triage.Text.{text_eq}
use ticket_triage.Table.Laws
use ticket_triage.Model.{Ticket, Db, Settings, ticket_key, external_key, ticket_of}
use ticket_triage.Schema.{Decoder}
use ticket_triage.Tickets.{Stamp, NewTicket, ingested, ingest_ticket, known}
use ticket_triage.Tickets.Ingest.{known_after}
use ticket_triage.System.Interleaved.{Service, Step, steps}
use ticket_triage.System.Interleaved.Sound.{IsSound, steps-Safe}

-- Idempotence: once an external id has been answered, and after any steps of the worker and requests
-- in between, a later request with it, with any other fields and in any race, is answered with the same
-- ticket in its current state, as not created, and changes nothing. The state after the first answer is
-- in the invariant.
pub ingest_ticket-replay :
    (d : Decoder) (settings : Settings) (rivals rivals' : Db → Db) (stamp stamp' : Stamp)
    (n n' : NewTicket) (db : Db) (t : Ticket) (created : Bool) (s : Service) (xs : List Step)
    → IsSound s
    → ingest_ticket rivals stamp n db ≡ (ingested t created, s.world.db)
    → n'.external_id ≡ n.external_id
    → let db' = (steps d settings xs s).world.db in
      (u : Ticket) × (u.id ≡ t.id)
      × (ticket_of t.id db' ≡ some u)
      × (ingest_ticket rivals' stamp' n' db' ≡ (ingested u false, db'))
unfolding ingest_ticket
ingest_ticket-replay d settings rivals rivals' stamp stamp' n n' db t created s xs sound h e =
    let db' = (steps d settings xs s).world.db in
    let first = known_after rivals stamp n db s.world.db t created h in
    let here : ticket_of t.id s.world.db ≡ some t =
      Laws.lookup-other external_key ticket_key n.external_id s.world.db.tickets t first
        sound.valid.distinct_ids in
    let (after, steady) = steps-Safe d settings xs s sound in
    let (u, there, same_name) = steady.named t.id t here in
    let name : u.external_id ≡ n'.external_id =
      same_name ∙ Laws.lookup-key external_key n.external_id s.world.db.tickets first ∙ sym e in
    let found : known n'.external_id db' ≡ some u =
      subst (λ x. known x db' ≡ some u) name
        (Laws.lookup-other ticket_key external_key t.id db'.tickets u there
          after.valid.distinct_external) in
    (u, Laws.lookup-key ticket_key t.id db'.tickets there, there, rw (found, ingest_ticket) refl)
