-- ===== src/System/Requests.antt =====
-- The requests of the API leave the tickets that the worker holds alone.
use mathlib.Core.Path.{subst}
use ticket_triage.Base.{
  ℕ, ◌≡◌, refl, sym, ap, ◌∙◌, inl, inr, true, false, ◌==◌, Bool-cases, Option, none, some,
  Option-cases, List, arith,
}
use ticket_triage.Text.{Text, text_eq, same_iff}
use ticket_triage.Labels.{received}
use ticket_triage.Table.Laws
use ticket_triage.Model.{Ticket, ReplyDraft, Db, Settings, ticket_key, ticket_of}
use ticket_triage.Model.Lifecycle.{Lifecycle}
use ticket_triage.Model.Frame.{Kept}
use ticket_triage.Routing.{RuleIn, put_rules, replace_rules}
use ticket_triage.Routing.Replace.{put_rules_accepted}
use ticket_triage.Errors.{Answer}
use ticket_triage.Tickets.{
  Stamp, NewTicket, Ingested, ingested, integrity_error, ingest_ticket, ingest_validated,
  create_ticket, ingest_email, validate_create, validate_email,
}
use ticket_triage.Tickets.Ingest.{Stored, ingest_ticket-Stored}
use ticket_triage.Reviews.{
  CorrectRequest, approved_ticket, approve_ticket, correct_ticket, corrected_ticket,
  validate_correct, correct_validated,
}
use ticket_triage.Reviews.Approve.{approve_ticket-branches}
use ticket_triage.Reviews.Correct.{correct_ticket-branches}
use ticket_triage.Reply.{edit_reply_draft, ReplyDraftOut}
use ticket_triage.Reply.Review.{Branches, approve_or_discard-Branches, edit_reply_draft-Branches}
use ticket_triage.Worker.Drafted.{Settled}
use ticket_triage.System
use ticket_triage.System.Lifetime.{ingest_answer-db, no_rivals}

-- A received ticket stays as it is, and a settled one stays settled.
pub record Courteous (db db' : Db) : Type 0 where
  pub received_kept :
      (k : Text) (t : Ticket)
      → ticket_of k db ≡ some t
      → t.status ≡ received
      → ticket_of k db' ≡ some t
  pub settled_kept :
      (k : Text) (t : Ticket)
      → ticket_of k db ≡ some t
      → Settled t.status
      → (u : Ticket) × (ticket_of k db' ≡ some u) × Settled u.status

Courteous-of_lookup :
    (db db' : Db)
    → ((k : Text) (t : Ticket) → ticket_of k db ≡ some t → ticket_of k db' ≡ some t)
    → Courteous db db'
Courteous-of_lookup db db' f = record {
  received_kept = λ k t h st. f k t h;
  settled_kept = λ k t h st. (t, f k t h, st);
}

Courteous-refl : (db : Db) → Courteous db db
Courteous-refl db = Courteous-of_lookup db db (λ k t h. h)

Courteous-same : (db db' : Db) → db' ≡ db → Courteous db db'
Courteous-same db db' e = rw e (Courteous-refl db)

-- An operation on one ticket that was not received and is settled afterwards.
Courteous-of_Kept :
    (j : Text) (u u' : Ticket) (db db' : Db)
    → ticket_of j db ≡ some u
    → ¬ (u.status ≡ received)
    → ticket_of j db' ≡ some u'
    → Settled u'.status
    → Kept j db db'
    → Courteous db db'
Courteous-of_Kept j u u' db db' here known there st kept = record {
  received_kept = λ k t h s. elim (Bool-cases (j == k)) [
    | inr other ↦ kept.only.tickets_kept k other ∙ h
    | inl same_key ↦
        let same_ticket : u ≡ t = ground (arith, here, h, same_iff j k) in
        absurd (known (subst (λ x. x.status ≡ received) (sym same_ticket) s))
  ];
  settled_kept = λ k t h s. elim (Bool-cases (j == k)) [
    | inr other ↦ (t, kept.only.tickets_kept k other ∙ h, s)
    | inl same_key ↦
        (u', subst (λ i. ticket_of i db' ≡ some u') ((same_iff j k).0 same_key) there, st)
  ];
}

ingest_validated-Courteous :
    (stamp : Stamp) (n : Option NewTicket) (db : Db)
    → Courteous db (ingest_validated no_rivals stamp n db).1
ingest_validated-Courteous stamp none db = Courteous-refl db
ingest_validated-Courteous stamp (some n) db =
    rw (ingest_answer-db (ingest_ticket no_rivals stamp n db)) (
      Courteous-of_lookup db _ (λ k t h. elim (ingest_ticket-Stored no_rivals stamp n db) [
        | inl (u, _, e) ↦ rw e h
        | inr (_, s) ↦ kept k t h (ingest_ticket no_rivals stamp n db) s
      ]))
  where
    kept :
        (k : Text) (t : Ticket)
        → ticket_of k db ≡ some t
        → (r : Ingested × Db) → Stored stamp n db r
        → ticket_of k r.1 ≡ some t
    kept k t h (ingested u true, db') s =
        rw s.3 (Laws.lookup-append_found ticket_key k db.tickets u h)
    kept k t h (ingested u false, db') s = rw s.1 h
    kept k t h (integrity_error, db') s = rw s.2 h

approve-Courteous :
    (now : ℕ) (k : Text) (db : Db) → Lifecycle db → Courteous db (approve_ticket now k db).1
unfolding approved_ticket
approve-Courteous now k db v = elim (approve_ticket-branches now k db v) [
  | inl (_, (m, e)) ↦ rw e (Courteous-refl db)
  | inr (t, h, inl (_, (m, e))) ↦ rw e (Courteous-refl db)
  | inr (t, h, inr (st, a)) ↦
      Courteous-of_Kept k t (approved_ticket now t) db _ h (λ e. cc (st, e)) a.stored
        (inr (inl refl)) a.kept
]

correct-Courteous :
    (settings : Settings) (id : Text) (now : ℕ) (payload : CorrectRequest) (k : Text) (db : Db)
    → Lifecycle db
    → Courteous db (correct_ticket settings id now payload k db).1
unfolding corrected_ticket
correct-Courteous settings id now payload k db v =
    elim (correct_ticket-branches settings id now payload k db v) [
      | inl (_, (m, e)) ↦ rw e (Courteous-refl db)
      | inr (t, h, inl (_, (m, e))) ↦ rw e (Courteous-refl db)
      | inr (t, h, inr (p, inl ((m, e), _))) ↦ rw e (Courteous-refl db)
      | inr (t, h, inr (p, inr (a, _))) ↦
          Courteous-of_Kept k t _ db _ h (λ e. elim p [ inl q ↦ cc (q, e) | inr q ↦ cc (q, e) ])
            a.stored (inr (inr refl)) a.kept
    ]

correct_validated-Courteous :
    (settings : Settings) (id : Text) (now : ℕ) (payload : Option CorrectRequest) (k : Text)
    (db : Db)
    → Lifecycle db
    → Courteous db (correct_validated settings id now payload k db).1
correct_validated-Courteous settings id now none k db v = Courteous-refl db
correct_validated-Courteous settings id now (some payload) k db v =
    correct-Courteous settings id now payload k db v

Branches-Courteous :
    (change : ReplyDraft → ReplyDraft) (k : Text) (db : Db) (r : Answer ReplyDraftOut × Db)
    → Branches change k db r
    → Courteous db r.1
Branches-Courteous change k db r (inl (_, (m, e))) = rw e (Courteous-refl db)
Branches-Courteous change k db r (inr (d, h, inl (_, (m, e)))) = rw e (Courteous-refl db)
Branches-Courteous change k db r (inr (d, h, inr (_, c))) =
    Courteous-of_lookup db r.1 (λ j t here. rw c.tickets_kept here)

rules-Courteous :
    (ids : ℕ → ℕ) (settings : Settings) (rules : List RuleIn) (db : Db)
    → Courteous db (System.rules_stored db (put_rules ids settings rules db))
unfolding replace_rules
rules-Courteous ids settings rules db = elim (Option-cases (put_rules ids settings rules db)) [
  | inl h ↦ rw h (Courteous-refl db)
  | inr ((out, db'), h) ↦ rw h (
      rw (put_rules_accepted ids settings rules db h).2
        (Courteous-of_lookup db (replace_rules ids rules db) (λ k t here. here)))
]

pub respond-Courteous :
    (settings : Settings) (r : System.Request) (db : Db)
    → Lifecycle db
    → Courteous db (System.respond settings r db)
unfolding System.respond create_ticket ingest_email edit_reply_draft
respond-Courteous settings (System.create stamp payload) db v =
    ingest_validated-Courteous stamp (validate_create payload) db
respond-Courteous settings (System.email stamp payload) db v =
    ingest_validated-Courteous stamp (validate_email payload) db
respond-Courteous settings (System.approve now k) db v = approve-Courteous now k db v
respond-Courteous settings (System.correct id now i p s note k) db v =
    correct_validated-Courteous settings id now (validate_correct i p s note) k db v
respond-Courteous settings (System.edit_reply now body k) db v =
    elim (edit_reply_draft-Branches now body k db v) [
      | inl (_, (m, e)) ↦ Courteous-same db _ (ap (λ x. x.1) e)
      | inr (_, b) ↦ Branches-Courteous _ k db _ b
    ]
respond-Courteous settings (System.approve_reply now k) db v =
    Branches-Courteous _ k db _ (approve_or_discard-Branches now k db v).0
respond-Courteous settings (System.discard_reply now k) db v =
    Branches-Courteous _ k db _ (approve_or_discard-Branches now k db v).1
respond-Courteous settings (System.replace_rules ids rules) db v =
    rules-Courteous ids settings rules db
