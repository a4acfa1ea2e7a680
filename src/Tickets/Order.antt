-- ===== src/Tickets/Order.antt =====
-- What a page of `list_tickets` of app/routers/tickets.py holds, and in which order.
use ticket_triage.Base.{
  ℕ, ◌≤◌, ◌≡◌, ◌↔◌, refl, Bool, true, ◌&&◌, Eq, Bool-cases, inl, inr, Option, none, some, List, [],
  ◌∷◌, length, leb, select, map, take, drop, All, All-map, sym, ◌∙◌, arith,
}
use ticket_triage.Text.{Text, text_eq}
use ticket_triage.Labels.{Intent, Priority, status_eq, intent_eq, priority_eq}
use ticket_triage.Model.{Ticket, Triage, Db, triage_of}
use ticket_triage.Counts.{count_if}
use ticket_triage.Tickets.{ticket_list_item}
use ticket_triage.Tickets.Listing.{
  TicketQuery, holds, queue_holds, labels_hold, matches, insert_newest, newest_first, ticket_page,
  length-newest_first,
}

-- A filter that is given is met.
abbrev Meets : {A : Type 0} → Option A → (A → Type 0) → Type 0
Meets none P = Unit
Meets (some a) P = P a

-- What a query asks of a ticket: its status, its queue, and the labels of its triage.
pub record IsWanted (q : TicketQuery) (db : Db) (t : Ticket) : Type 0 where
  pub status : Meets q.status (λ s. t.status ≡ s)
  pub queue : Meets q.queue (λ name. t.queue ≡ some name)
  pub intent : Meets q.intent (λ i. (r : Triage) × (triage_of t.id db ≡ some r) × (r.intent ≡ i))
  pub priority :
      Meets q.priority (λ p. (r : Triage) × (triage_of t.id db ≡ some r) × (r.priority ≡ p))

and-both : (a b c : Bool) → a && b && c ≡ true → (a ≡ true) × (b ≡ true) × (c ≡ true)
and-both a b c h = (ground arith, ground arith, ground arith)

holds-Meets :
    {A : Type 0} ⦃e : Eq A⦄ (o : Option A) (a : A) → holds o a ≡ true → Meets o (λ b. a ≡ b)
holds-Meets none a h = tt
holds-Meets ⦃e = e⦄ (some b) a h = (e.beq_iff a b).0 h

queue-Meets :
    (o queue : Option Text) → queue_holds o queue ≡ true → Meets o (λ name. queue ≡ some name)
queue-Meets none queue h = tt
queue-Meets (some b) none h = absurd (cc h)
queue-Meets (some b) (some a) h = ground (arith, h, text_eq.beq_iff a b)

labels-Meets :
    (i : Option Intent) (p : Option Priority) (row : Option Triage)
    → labels_hold i p row ≡ true
    → Meets i (λ x. (r : Triage) × (row ≡ some r) × (r.intent ≡ x))
      × Meets p (λ x. (r : Triage) × (row ≡ some r) × (r.priority ≡ x))
labels-Meets none none row h = (tt, tt)
labels-Meets none (some p) none h = absurd (cc h)
labels-Meets (some i) p none h = absurd (cc h)
labels-Meets none (some p) (some r) h = (tt, (r, refl, (priority_eq.beq_iff r.priority p).0 h))
labels-Meets (some i) none (some r) h =
    ((r, refl, (intent_eq.beq_iff r.intent i).0 (ground (arith, h))), tt)
labels-Meets (some i) (some p) (some r) h = (
  (r, refl, (intent_eq.beq_iff r.intent i).0 (ground (arith, h))),
  (r, refl, (priority_eq.beq_iff r.priority p).0 (ground (arith, h))),
)

matches-IsWanted :
    (q : TicketQuery) (db : Db) (t : Ticket) → matches q db t ≡ true → IsWanted q db t
unfolding matches
matches-IsWanted q db t h =
    let (s, n, l) =
      and-both (holds q.status t.status) (queue_holds q.queue t.queue)
        (labels_hold q.intent q.priority (triage_of t.id db)) h in
    let (i, p) = labels-Meets q.intent q.priority (triage_of t.id db) l in
    record {
      status = holds-Meets q.status t.status s;
      queue = queue-Meets q.queue t.queue n;
      intent = i;
      priority = p;
    }

Meets-holds :
    {A : Type 0} ⦃e : Eq A⦄ (o : Option A) (a : A) → Meets o (λ b. a ≡ b) → holds o a ≡ true
Meets-holds none a h = refl
Meets-holds ⦃e = e⦄ (some b) a h = (e.beq_iff a b).1 h

Meets-queue :
    (o queue : Option Text) → Meets o (λ name. queue ≡ some name) → queue_holds o queue ≡ true
Meets-queue none queue h = refl
Meets-queue (some b) none h = ground arith
Meets-queue (some b) (some a) h = ground (arith, h, text_eq.beq_iff a b)

Meets-labels :
    (i : Option Intent) (p : Option Priority) (row : Option Triage)
    → Meets i (λ x. (r : Triage) × (row ≡ some r) × (r.intent ≡ x))
    → Meets p (λ x. (r : Triage) × (row ≡ some r) × (r.priority ≡ x))
    → labels_hold i p row ≡ true
Meets-labels none none row h k = refl
Meets-labels none (some p) none h (r, e, same) = ground (arith, e)
Meets-labels (some i) p none (r, e, same) k = ground (arith, e)
Meets-labels none (some p) (some s) h (r, e, same) =
    (priority_eq.beq_iff s.priority p).1 (ground (arith, e, same))
Meets-labels (some i) none (some s) (r, e, same) k =
    let first = (intent_eq.beq_iff s.intent i).1 (ground (arith, e, same)) in ground (arith, first)
Meets-labels (some i) (some p) (some s) (r, e, same) (r', e', same') =
    let first = (intent_eq.beq_iff s.intent i).1 (ground (arith, e, same)) in
    let second = (priority_eq.beq_iff s.priority p).1 (ground (arith, e', same')) in
    ground (arith, first, second)

IsWanted-matches :
    (q : TicketQuery) (db : Db) (t : Ticket) → IsWanted q db t → matches q db t ≡ true
unfolding matches
IsWanted-matches q db t w =
    let s = Meets-holds q.status t.status w.status in
    let n = Meets-queue q.queue t.queue w.queue in
    let l = Meets-labels q.intent q.priority (triage_of t.id db) w.intent w.priority in
    ground (arith, s, n, l)

-- Newest first; tickets of the same time are in any order.
abbrev pub Descending : List Ticket → Type 0
Descending [] = Unit
Descending (t ∷ ts) = All (λ (u : Ticket). u.created_at ≤ t.created_at) ts × Descending ts

All-insert_newest :
    (P : Ticket → Type 0) (t : Ticket) (us : List Ticket)
    → P t
    → All P us
    → All P (insert_newest t us)
unfolding insert_newest
All-insert_newest P t [] p h = (p, tt)
All-insert_newest P t (u ∷ us) p h = ground (arith, All-insert_newest P t us p h.1)

insert_newest-Descending :
    (t : Ticket) (us : List Ticket) → Descending us → Descending (insert_newest t us)
unfolding insert_newest
insert_newest-Descending t [] h = (tt, tt)
insert_newest-Descending t (u ∷ us) h = elim (Bool-cases (leb u.created_at t.created_at)) [
  | inl e ↦
      let le : u.created_at ≤ t.created_at = ground (arith, e) in
      rw e (
        (
          le,
          All-map (λ (x : Ticket). x.created_at ≤ u.created_at)
              (λ (x : Ticket). x.created_at ≤ t.created_at) us (λ x l. omega (arith, l, le)) h.0,
        ),
        h,
      )
  | inr e ↦
      let le : t.created_at ≤ u.created_at = ground (arith, e) in
      rw e (
        All-insert_newest (λ x. x.created_at ≤ u.created_at) t us le h.0,
        insert_newest-Descending t us h.1,
      )
]

newest_first-Descending : (ts : List Ticket) → Descending (newest_first ts)
unfolding newest_first
newest_first-Descending [] = tt
newest_first-Descending (t ∷ ts) =
    insert_newest-Descending t (newest_first ts) (newest_first-Descending ts)

module _ (p : Ticket → Bool) where
  count_if-insert_newest :
      (t : Ticket) (us : List Ticket) → count_if p (insert_newest t us) ≡ count_if p (t ∷ us)
  unfolding insert_newest
  count_if-insert_newest t [] = refl
  count_if-insert_newest t (u ∷ us) = elim (Bool-cases (leb u.created_at t.created_at)) [
    | inl e ↦ rw e refl
    | inr e ↦ rw e (omega (arith, count_if-insert_newest t us))
  ]

  count_if-newest_first : (ts : List Ticket) → count_if p (newest_first ts) ≡ count_if p ts
  unfolding newest_first
  count_if-newest_first [] = refl
  count_if-newest_first (t ∷ ts) =
      omega (arith, count_if-insert_newest t (newest_first ts), count_if-newest_first ts)

  count_if-select :
      (m : Ticket → Bool) (ts : List Ticket)
      → count_if p (select m ts) ≡ count_if (λ t. m t && p t) ts
  count_if-select m [] = refl
  count_if-select m (t ∷ ts) = ground (arith, count_if-select m ts)

-- The listing of a query: there is one list, newest first, of which every page is a segment, beginning
-- at its offset and as long as its limit, and whose length every page states as the total. It holds the
-- tickets of the table that have the status, the queue and the labels that the query asks for, each as
-- often as the table does, and no other: under any test there are as many in the list as among those.
pub ticket_page-Listing :
    (q : TicketQuery) (db : Db)
    → (ts : List Ticket) × Descending ts
      × ((t : Ticket) → (matches q db t ≡ true) ↔ IsWanted q db t)
      × ((p : Ticket → Bool) → count_if p ts ≡ count_if (λ t. matches q db t && p t) db.tickets)
      × ((limit offset : ℕ)
          → ((ticket_page q limit offset db).tickets
              ≡ map (ticket_list_item db) (take limit (drop offset ts)))
            × ((ticket_page q limit offset db).total ≡ length ts))
unfolding ticket_page
ticket_page-Listing q db =
    let found = select (matches q db) db.tickets in
    (
      newest_first found,
      newest_first-Descending found,
      λ t. (matches-IsWanted q db t, IsWanted-matches q db t),
      λ p. count_if-newest_first p found ∙ count_if-select p (matches q db) db.tickets,
      λ limit offset. (refl, sym (length-newest_first found)),
    )
