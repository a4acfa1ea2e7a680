-- ===== src/System/Lifetime.antt =====
-- A ticket's lifetime, over any sequence of operations.
use mathlib.Core.Path.{subst}
use ticket_triage.Base.{
  ℕ, ◌≡◌, refl, sym, ap, ◌∙◌, ◌⊎◌, inl, inr, true, false, ◌==◌, Bool-cases, Option, none, some,
  Option-cases, List, [], ◌∷◌, arith,
}
use ticket_triage.Text.{Text, text_eq, same_iff}
use ticket_triage.Labels.{Status, triaged, needs_human}
use ticket_triage.Table
use ticket_triage.Table.Laws
use ticket_triage.Model.{Ticket, ReplyDraft, Db, RoutingRule, Settings, ticket_key, ticket_of}
use ticket_triage.Model.Lifecycle.{Lifecycle}
use ticket_triage.Model.Frame.{Kept}
use ticket_triage.Routing.{RuleIn, put_rules, replace_rules}
use ticket_triage.Routing.Replace.{put_rules_accepted}
use ticket_triage.Client.{World}
use ticket_triage.Schema.{Decoder, TriageResult}
use ticket_triage.Classifier.{Produced, produced, failed, unexpected}
use ticket_triage.Worker.Step.{Moved}
use ticket_triage.Worker.{Poll, process_next_ticket}
use ticket_triage.Worker.Queue.{oldest_received-some}
use ticket_triage.Worker.Polls.{process_next_ticket-Kept}
use ticket_triage.Errors.{Answer}
use ticket_triage.Tickets.{
  Stamp, NewTicket, Ingested, ingested, integrity_error, ingest_ticket, ingest_answer,
  ingest_validated, create_ticket, ingest_email, validate_create, validate_email,
}
use ticket_triage.Tickets.Ingest.{Stored, ingest_ticket-Stored, ingest_ticket-Lifecycle}
use ticket_triage.Reviews.{
  CorrectRequest, approve_ticket, correct_ticket, validate_correct, correct_validated,
}
use ticket_triage.Reviews.Approve.{approve_ticket-branches}
use ticket_triage.Reviews.Correct.{correct_ticket-branches}
use ticket_triage.Reply.{edit_reply_draft, ReplyDraftOut}
use ticket_triage.Reply.Review.{Branches, approve_or_discard-Branches, edit_reply_draft-Branches}
use ticket_triage.System

abbrev pub IsFinal : Ticket → Type 0
IsFinal t = (t.status ≡ Status.approved) ⊎ (t.status ≡ Status.corrected)

-- Under an id there is still a ticket, of the same external id.
abbrev pub Named : Db → Db → Type 0
Named db db' =
    (k : Text) (t : Ticket)
    → ticket_of k db ≡ some t
    → (u : Ticket) × (ticket_of k db' ≡ some u) × (u.external_id ≡ t.external_id)

-- What every operation keeps: the invariant, each ticket that has been decided, and the external id of
-- every ticket.
pub record Steady (db db' : Db) : Type 0 where
  pub valid : Lifecycle db'
  pub decided :
      (k : Text) (t : Ticket) → ticket_of k db ≡ some t → IsFinal t → ticket_of k db' ≡ some t
  pub named : Named db db'

pub Steady-refl : (db : Db) → Lifecycle db → Steady db db
Steady-refl db v = record { valid = v; decided = λ k t h f. h; named = λ k t h. (t, h, refl) }

pub Steady-trans : (a b c : Db) → Steady a b → Steady b c → Steady a c
Steady-trans a b c first rest = record {
  valid = rest.valid;
  decided = λ k t h f. rest.decided k t (first.decided k t h f) f;
  named = λ k t h.
      let (u, there, same_name) = first.named k t h in
      let (u', there', same_name') = rest.named k u there in (u', there', same_name' ∙ same_name);
}

Steady-same : (db db' : Db) → Lifecycle db → db' ≡ db → Steady db db'
Steady-same db db' v e = rw e (Steady-refl db v)

-- An operation on one ticket that was not decided.
pub Steady-of_Kept :
    (j : Text) (u u' : Ticket) (db db' : Db)
    → ticket_of j db ≡ some u
    → ¬ IsFinal u
    → ticket_of j db' ≡ some u'
    → u'.external_id ≡ u.external_id
    → Kept j db db'
    → Steady db db'
Steady-of_Kept j u u' db db' here open_ticket there same_name kept = record {
  valid = kept.valid;
  decided = λ k t h f. elim (Bool-cases (j == k)) [
    | inr other ↦ kept.only.tickets_kept k other ∙ h
    | inl same_key ↦
        let same_ticket : u ≡ t = ground (arith, here, h, same_iff j k) in
        absurd (open_ticket (subst IsFinal (sym same_ticket) f))
  ];
  named = λ k t h. elim (Bool-cases (j == k)) [
    | inr other ↦ (t, kept.only.tickets_kept k other ∙ h, refl)
    | inl same_key ↦
        let same_ticket : u ≡ t = ground (arith, here, h, same_iff j k) in
        (
          u',
          subst (λ i. ticket_of i db' ≡ some u') ((same_iff j k).0 same_key) there,
          same_name ∙ ap (λ x. x.external_id) same_ticket,
        )
  ];
}

-- An operation that leaves the tickets' rows alone.
Steady-of_tickets : (db db' : Db) → Lifecycle db' → db'.tickets ≡ db.tickets → Steady db db'
Steady-of_tickets db db' v e = record {
  valid = v;
  decided = λ k t h f. rw e h;
  named = λ k t h. (t, rw e h, refl);
}

pub ingest_answer-db : (r : Ingested × Db) → (ingest_answer r).1 ≡ r.1
unfolding ingest_answer
ingest_answer-db (ingested t true, db) = refl
ingest_answer-db (ingested t false, db) = refl
ingest_answer-db (integrity_error, db) = refl

abbrev pub no_rivals : Db → Db
no_rivals db = db

ingest-Steady :
    (stamp : Stamp) (n : NewTicket) (db : Db)
    → Lifecycle db
    → Steady db (ingest_ticket no_rivals stamp n db).1
ingest-Steady stamp n db v = record {
  valid = ingest_ticket-Lifecycle no_rivals stamp n db v v;
  decided = λ k t h f. elim (ingest_ticket-Stored no_rivals stamp n db) [
    | inl (u, _, e) ↦ rw e h
    | inr (_, s) ↦ kept k t h (ingest_ticket no_rivals stamp n db) s
  ];
  named = λ k t h. elim (ingest_ticket-Stored no_rivals stamp n db) [
    | inl (u, _, e) ↦ (t, rw e h, refl)
    | inr (_, s) ↦ (t, kept k t h (ingest_ticket no_rivals stamp n db) s, refl)
  ];
}
  where
    kept :
        (k : Text) (t : Ticket)
        → ticket_of k db ≡ some t
        → (r : Ingested × Db) → Stored stamp n db r
        → ticket_of k r.1 ≡ some t
    kept k t h (ingested u true, db') s =
        rw s.3 (Laws.lookup-append_found ticket_key k db.tickets u h)
    kept k t h (ingested u false, db') s = rw s.1 h
    kept k t h (integrity_error, db') s = rw s.2 h

ingest_validated-Steady :
    (stamp : Stamp) (n : Option NewTicket) (db : Db)
    → Lifecycle db
    → Steady db (ingest_validated no_rivals stamp n db).1
ingest_validated-Steady stamp none db v = Steady-refl db v
ingest_validated-Steady stamp (some n) db v =
    rw (ingest_answer-db (ingest_ticket no_rivals stamp n db)) (ingest-Steady stamp n db v)

Moved-named :
    (settings : Settings) (p : Poll) (d : Decoder) (t : Ticket) (saved db : Db)
    (result : Produced TriageResult)
    → ticket_of t.id saved ≡ some t
    → Moved settings p d saved result t db
    → (u : Ticket) × (ticket_of t.id db ≡ some u) × (u.external_id ≡ t.external_id)
Moved-named settings p d t saved db (failed reason) here m = (_, m, refl)
Moved-named settings p d t saved db unexpected here m = (t, rw m here, refl)
Moved-named settings p d t saved db (produced r n) here (inl (_, same)) = (t, rw same here, refl)
Moved-named settings p d t saved db (produced r n) here (inr (now, _)) = (_, now, refl)

poll-Steady :
    (d : Decoder) (settings : Settings) (p : Poll) (w : World)
    → Lifecycle w.db
    → Steady w.db (process_next_ticket d settings p w).1.db
poll-Steady d settings p w v = elim (process_next_ticket-Kept d settings p w v) [
  | inl (_, e) ↦ rw e (Steady-refl w.db v)
  | inr (t, h, kept, moved) ↦
      let (here, st, _) = oldest_received-some w.db v.distinct_ids h in
      let (u, there, same_name) = Moved-named settings p d t w.db _ _ here moved in
      Steady-of_Kept t.id t u w.db _ here (λ f. elim f [ inl e ↦ cc (st, e) | inr e ↦ cc (st, e) ])
        there same_name kept
]

approve-Steady :
    (now : ℕ) (k : Text) (db : Db) → Lifecycle db → Steady db (approve_ticket now k db).1
approve-Steady now k db v = elim (approve_ticket-branches now k db v) [
  | inl (_, (m, e)) ↦ rw e (Steady-refl db v)
  | inr (t, h, inl (_, (m, e))) ↦ rw e (Steady-refl db v)
  | inr (t, h, inr (st, a)) ↦
      Steady-of_Kept k t _ db _ h (λ f. elim f [ inl e ↦ cc (st, e) | inr e ↦ cc (st, e) ]) a.stored
        refl a.kept
]

correct-Steady :
    (settings : Settings) (id : Text) (now : ℕ) (payload : CorrectRequest) (k : Text) (db : Db)
    → Lifecycle db
    → Steady db (correct_ticket settings id now payload k db).1
correct-Steady settings id now payload k db v =
    elim (correct_ticket-branches settings id now payload k db v) [
      | inl (_, (m, e)) ↦ rw e (Steady-refl db v)
      | inr (t, h, inl (_, (m, e))) ↦ rw e (Steady-refl db v)
      | inr (t, h, inr (p, inl ((m, e), _))) ↦ rw e (Steady-refl db v)
      | inr (t, h, inr (p, inr (a, _))) ↦
          Steady-of_Kept k t _ db _ h (pending_open t p) a.stored refl a.kept
    ]
  where
    pending_open : (t : Ticket) → (t.status ≡ triaged) ⊎ (t.status ≡ needs_human) → ¬ IsFinal t
    pending_open t p f = grind arith

correct_validated-Steady :
    (settings : Settings) (id : Text) (now : ℕ) (payload : Option CorrectRequest) (k : Text)
    (db : Db)
    → Lifecycle db
    → Steady db (correct_validated settings id now payload k db).1
correct_validated-Steady settings id now none k db v = Steady-refl db v
correct_validated-Steady settings id now (some payload) k db v =
    correct-Steady settings id now payload k db v

Branches-Steady :
    (change : ReplyDraft → ReplyDraft) (k : Text) (db : Db) (r : Answer ReplyDraftOut × Db)
    → Lifecycle db
    → Branches change k db r
    → Steady db r.1
Branches-Steady change k db r v (inl (_, (m, e))) = rw e (Steady-refl db v)
Branches-Steady change k db r v (inr (d, h, inl (_, (m, e)))) = rw e (Steady-refl db v)
Branches-Steady change k db r v (inr (d, h, inr (_, c))) =
    Steady-of_tickets db r.1 c.kept.valid c.tickets_kept

rules-Steady :
    (ids : ℕ → ℕ) (settings : Settings) (rules : List RuleIn) (db : Db)
    → Lifecycle db
    → Steady db (System.rules_stored db (put_rules ids settings rules db))
rules-Steady ids settings rules db v = elim (Option-cases (put_rules ids settings rules db)) [
  | inl h ↦ rw h (Steady-refl db v)
  | inr ((out, db'), h) ↦ rw h (rw (put_rules_accepted ids settings rules db h).2 stored)
]
  where
    stored : Steady db (replace_rules ids rules db)
    stored =
        unfold replace_rules in
        record {
          valid = record {
            fits = v.fits;
            triage_ticket = v.triage_ticket;
            correction_ticket = v.correction_ticket;
            draft_ticket = v.draft_ticket;
            distinct_ids = v.distinct_ids;
            distinct_external = v.distinct_external;
          };
          decided = λ k t h f. h;
          named = λ k t h. (t, h, refl);
        }

pub respond-Steady :
    (settings : Settings) (r : System.Request) (db : Db)
    → Lifecycle db
    → Steady db (System.respond settings r db)
unfolding System.respond create_ticket ingest_email edit_reply_draft
respond-Steady settings (System.create stamp payload) db v =
    ingest_validated-Steady stamp (validate_create payload) db v
respond-Steady settings (System.email stamp payload) db v =
    ingest_validated-Steady stamp (validate_email payload) db v
respond-Steady settings (System.approve now k) db v = approve-Steady now k db v
respond-Steady settings (System.correct id now i p s note k) db v =
    correct_validated-Steady settings id now (validate_correct i p s note) k db v
respond-Steady settings (System.edit_reply now body k) db v =
    elim (edit_reply_draft-Branches now body k db v) [
      | inl (_, (m, e)) ↦ Steady-same db _ v (ap (λ x. x.1) e)
      | inr (_, b) ↦ Branches-Steady _ k db _ v b
    ]
respond-Steady settings (System.approve_reply now k) db v =
    Branches-Steady _ k db _ v (approve_or_discard-Branches now k db v).0
respond-Steady settings (System.discard_reply now k) db v =
    Branches-Steady _ k db _ v (approve_or_discard-Branches now k db v).1
respond-Steady settings (System.replace_rules ids rules) db v = rules-Steady ids settings rules db v

perform-Steady :
    (d : Decoder) (settings : Settings) (op : System.Operation) (w : World)
    → Lifecycle w.db
    → Steady w.db (System.perform d settings op w).db
unfolding System.perform
perform-Steady d settings (System.poll p) w v = poll-Steady d settings p w v
perform-Steady d settings (System.request r) w v = respond-Steady settings r w.db v

perform_all-Steady :
    (d : Decoder) (settings : Settings) (ops : List System.Operation) (w : World)
    → Lifecycle w.db
    → Steady w.db (System.perform_all d settings ops w).db
unfolding System.perform_all
perform_all-Steady d settings [] w v = Steady-refl w.db v
perform_all-Steady d settings (op ∷ ops) w v =
    let first = perform-Steady d settings op w v in
    let rest = perform_all-Steady d settings ops (System.perform d settings op w) first.valid in
    Steady-trans w.db _ _ first rest

-- Once a ticket is approved or corrected, its row stays as it is through any sequence of polls and
-- requests, from any database in the invariant.
pub perform_all-decided :
    (d : Decoder) (settings : Settings) (ops : List System.Operation) (w : World)
    → Lifecycle w.db
    → (k : Text) (t : Ticket) → ticket_of k w.db ≡ some t
    → IsFinal t
    → ticket_of k (System.perform_all d settings ops w).db ≡ some t
perform_all-decided d settings ops w v = (perform_all-Steady d settings ops w v).decided

pub empty_db-Lifecycle : (rules : List RoutingRule) → Lifecycle (System.empty_db rules)
unfolding Table.lookup
empty_db-Lifecycle rules = record {
  fits = λ k t h. cc h;
  triage_ticket = λ k h. refl;
  correction_ticket = λ k h. refl;
  draft_ticket = λ k h. refl;
  distinct_ids = tt;
  distinct_external = tt;
}

-- Every database that the service reaches from a new installation, by any sequence of polls and
-- requests, whatever the provider, the clocks and the requests are, is in the invariant.
pub perform_all-Lifecycle :
    (d : Decoder) (settings : Settings) (ops : List System.Operation) (w : World)
    (rules : List RoutingRule)
    → w.db ≡ System.empty_db rules
    → Lifecycle (System.perform_all d settings ops w).db
perform_all-Lifecycle d settings ops w rules e =
    (perform_all-Steady d settings ops w (rw e (empty_db-Lifecycle rules))).valid
