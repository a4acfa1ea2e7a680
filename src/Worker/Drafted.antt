-- ===== src/Worker/Drafted.antt =====
-- The reply draft of a poll against the invariant: it joins a triaged ticket, or leaves no row.
use ticket_triage.Base.{ℕ, ◌≡◌, refl, ◌∙◌, ◌⊎◌, inl, inr, Option, some, arith, Option-cases, List}
use ticket_triage.Text.{Text, text_eq}
use ticket_triage.Labels.{Status, received, triaged, needs_human}
use ticket_triage.Model.{
  Ticket, LlmCall, Db, Settings, ticket_of, triage_of, correction_of, draft_of, insert_draft,
}
use ticket_triage.Model.Lifecycle.{Lifecycle, OnlyAt, OnlyAt-Lifecycle, Fits}
use ticket_triage.Model.Frame.{
  Kept, Kept-refl, Kept-trans, insert_draft-OnlyAt, insert_draft-others,
}
use ticket_triage.Client.{World}
use ticket_triage.Schema.{Decoder, TriageResult, ReplyDraftResult}
use ticket_triage.Classifier.{Produced, produced, failed, unexpected, generate_reply_draft}
use ticket_triage.Classifier.Ledger.{with_calls, generate_reply_draft-Account}
use ticket_triage.Worker.{Poll, letter, grounding, draft_row, store_draft, generate_draft}

-- More rows in llm_calls do not matter to the invariant.
with_calls-Lifecycle :
    (rows : List LlmCall) (db : Db) → Lifecycle db → Lifecycle (with_calls rows db)
with_calls-Lifecycle rows db v = record {
  fits = v.fits;
  triage_ticket = v.triage_ticket;
  correction_ticket = v.correction_ticket;
  draft_ticket = v.draft_ticket;
  distinct_ids = v.distinct_ids;
  distinct_external = v.distinct_external;
}

with_calls-OnlyAt : (k : Text) (rows : List LlmCall) (db : Db) → OnlyAt k db (with_calls rows db)
with_calls-OnlyAt k rows db = record {
  tickets_kept = λ j h. refl;
  triages_kept = λ j h. refl;
  corrections_kept = λ j h. refl;
  drafts_kept = λ j h. refl;
  rules_kept = refl;
}

pub Kept-with_calls :
    (k : Text) (rows : List LlmCall) (db db' : Db)
    → Lifecycle db
    → db' ≡ with_calls rows db
    → Kept k db db'
Kept-with_calls k rows db db' v e =
    rw e (record { valid = with_calls-Lifecycle rows db v; only = with_calls-OnlyAt k rows db })

-- The statuses of a ticket that has been triaged and may have a draft.
abbrev pub Settled : Status → Type 0
Settled s = (s ≡ triaged) ⊎ (s ≡ Status.approved) ⊎ (s ≡ Status.corrected)

-- Such a ticket fits with any draft.
Fits-draft :
    {A B C D E : Type 0} (s : Status) (q : Option A) (x : Option B) (r : Option C) (c : Option D)
    (draft other : Option E)
    → Settled s
    → Fits s q x r c draft
    → Fits s q x r c other
Fits-draft received q x r c draft other st h = absurd (grind arith)
Fits-draft needs_human q x r c draft other st h = absurd (grind arith)
Fits-draft triaged q x r c draft other st h = h
Fits-draft Status.approved q x r c draft other st h = h
Fits-draft Status.corrected q x r c draft other st h = h

module _ (settings : Settings) (poll : Poll) (d : Decoder) where
  -- A draft row joins a ticket that is settled.
  insert_draft-Kept :
      (k : Text) (u : Ticket) (r : ReplyDraftResult) (n : ℕ) (db db' : Db)
      → Lifecycle db
      → ticket_of k db ≡ some u
      → Settled u.status
      → insert_draft (draft_row d settings poll k r n) db ≡ some db'
      → Kept k db db'
  insert_draft-Kept k u r n db db' v here st done =
      let row = draft_row d settings poll k r n in
      let (tickets, triages, corrections) = insert_draft-others row db done in
      record {
        valid =
            OnlyAt-Lifecycle k v (insert_draft-OnlyAt row db done) u (rw tickets here)
              (rw (triages, corrections)
                (Fits-draft u.status u.queue u.triage_error (triage_of k db) (correction_of k db)
                  (draft_of k db) (draft_of k db') st (v.fits k u here)))
              (rw tickets v.distinct_ids) (rw tickets v.distinct_external);
        only = insert_draft-OnlyAt row db done;
      }

  store_draft-Kept :
      (k : Text) (u : Ticket) (saved : Db) (rows : List LlmCall)
      (result : Produced ReplyDraftResult) (w : World)
      → Lifecycle saved
      → ticket_of k saved ≡ some u
      → Settled u.status
      → w.db ≡ with_calls rows saved
      → Kept k saved (store_draft d settings poll k saved (result, w)).1.db
        × (ticket_of k (store_draft d settings poll k saved (result, w)).1.db ≡ some u)
        × ((store_draft d settings poll k saved (result, w)).1.db.triages ≡ saved.triages)
  unfolding store_draft
  store_draft-Kept k u saved rows (failed reason) w v here st e =
      (Kept-with_calls k rows saved w.db v e, rw e here, rw e refl)
  store_draft-Kept k u saved rows unexpected w v here st e = (Kept-refl k saved v, here, refl)
  store_draft-Kept k u saved rows (produced r n) w v here st e =
      elim (Option-cases (insert_draft (draft_row d settings poll k r n) w.db)) [
        | inl f ↦ rw (f, store_draft) (Kept-refl k saved v, here, refl)
        | inr (db, f) ↦
            let grown = Kept-with_calls k rows saved w.db v e in
            let others = insert_draft-others (draft_row d settings poll k r n) w.db f in
            rw (f, store_draft)
              (
                Kept-trans k grown (insert_draft-Kept k u r n w.db db grown.valid (rw e here) st f),
                rw others.0 (rw e here),
                others.1 ∙ rw e refl,
              )
      ]

  -- The attempt to draft a reply to `t`, whose row may have become `u` in the meantime.
  pub generate_draft-Kept :
      (t u : Ticket) (r : TriageResult) (w : World)
      → Lifecycle w.db
      → ticket_of t.id w.db ≡ some u
      → Settled u.status
      → Kept t.id w.db (generate_draft d settings poll t r w).1.db
        × (ticket_of t.id (generate_draft d settings poll t r w).1.db ≡ some u)
        × ((generate_draft d settings poll t r w).1.db.triages ≡ w.db.triages)
  unfolding generate_draft
  generate_draft-Kept t u r w v here st =
      let (rows, e, _) =
        generate_reply_draft-Account d settings poll.draft_call poll.draft_repair_call (some t.id)
          (letter t) (grounding r) w in
      let after =
        generate_reply_draft d settings poll.draft_call poll.draft_repair_call (some t.id)
          (letter t) (grounding r) w in
      store_draft-Kept t.id u w.db rows after.0 after.1 v here st e
