-- ===== src/Reply/Review.antt =====
-- A draft is editable until it is resolved, and resolved once.
use mathlib.Core.Path.{subst}
use ticket_triage.Base.{
  ℕ, ◌≡◌, ◌≤◌, ◌≢◌, refl, sym, ◌∙◌, ◌⊎◌, inl, inr, false, ◌==◌, ◌&&◌, leb, length, Bool-cases,
  Option, none, some, Option-cases, arith,
}
use ticket_triage.Text.{Text, codes, text_eq, trim}
use ticket_triage.Text.Strip.{trim_idem}
use ticket_triage.Labels.{Status, received, triaged, needs_human, ReplyState, reply_state_eq}
use ticket_triage.Table.Laws
use ticket_triage.Model.{
  Ticket, ReplyDraft, Db, draft_key, ticket_of, draft_of, triage_of, correction_of, save_draft,
}
use ticket_triage.Model.Lifecycle.{Lifecycle, Fits, OnlyAt, OnlyAt-Lifecycle}
use ticket_triage.Model.Frame.{Kept}
use ticket_triage.Errors.{Answer, success, error, not_found, invalid_state, validation_error}
use ticket_triage.Reply.{
  ReplyDraftOut, draft_out, change_draft, edited, resolved, edit_reply_draft, approve_reply_draft,
  discard_reply_draft,
}

-- A draft that is present before and after leaves its ticket fitting.
Fits-some :
    {A B C D E : Type 0} (s : Status) (q : Option A) (e : Option B) (t : Option C) (c : Option D)
    (d d' : E)
    → Fits s q e t c (some d)
    → Fits s q e t c (some d')
Fits-some received q e t c d d' h = absurd (cc (h.4))
Fits-some needs_human q e t c d d' h = absurd (cc (h.4))
Fits-some triaged q e t c d d' h = h
Fits-some Status.approved q e t c d d' h = h
Fits-some Status.corrected q e t c d d' h = h

-- An accepted change: the draft is now `d`, which is what is answered; the invariant holds, no other
-- ticket has changed, and no row of the tickets.
pub record Changed (k : Text) (d : ReplyDraft) (db : Db) (r : Answer ReplyDraftOut × Db)
    : Type 0 where
  pub answer : r.0 ≡ success 200 (draft_out r.1 d)
  pub stored : draft_of k r.1 ≡ some d
  pub kept : Kept k db r.1
  pub tickets_kept : r.1.tickets ≡ db.tickets

-- No draft, because there is no such ticket or it has none; or its only draft.
abbrev pub NoDraft : Text → Db → Type 0
NoDraft k db = (ticket_of k db ≡ none) ⊎ (draft_of k db ≡ none)

save_draft-Kept :
    (k : Text) (t : Ticket) (d d' : ReplyDraft) (db : Db)
    → Lifecycle db
    → ticket_of k db ≡ some t
    → draft_of k db ≡ some d
    → d'.ticket_id ≡ k
    → Kept k db (save_draft d' db) × (draft_of k (save_draft d' db) ≡ some d')
unfolding save_draft
save_draft-Kept k t d d' db v here had e =
    let had' : draft_of d'.ticket_id db ≡ some d =
      subst (λ i. draft_of i db ≡ some d) (sym e) had in
    let now : draft_of k (save_draft d' db) ≡ some d' =
      subst (λ i. draft_of i (save_draft d' db) ≡ some d') e
        (Laws.lookup-replace_self draft_key d' db.reply_drafts had') in
    let only : OnlyAt k db (save_draft d' db) = record {
      tickets_kept = λ j h. refl;
      triages_kept = λ j h. refl;
      corrections_kept = λ j h. refl;
      drafts_kept = λ j h.
          Laws.lookup-replace_ne draft_key j d' db.reply_drafts
            (subst (λ i. (i == j) ≡ false) (sym e) h);
      rules_kept = refl;
    } in
    let before : Fits t.status t.queue t.triage_error (triage_of k db) (correction_of k db)
        (some d) =
      subst (Fits t.status t.queue t.triage_error (triage_of k db) (correction_of k db)) had
        (v.fits k t here) in
    (
      record {
        valid =
            OnlyAt-Lifecycle k v only t here
              (subst (Fits t.status t.queue t.triage_error (triage_of k db) (correction_of k db))
                (sym now) (Fits-some t.status _ _ _ _ d d' before))
              v.distinct_ids v.distinct_external;
        only = only;
      },
      now,
    )

-- What a change does, by the ticket, its draft and the draft's state.
abbrev pub Branches : (ReplyDraft → ReplyDraft) → Text → Db → Answer ReplyDraftOut × Db → Type 0
Branches change k db r =
    (NoDraft k db × ((message : Text) × (r ≡ (error not_found message, db))))
    ⊎ ((d : ReplyDraft) × (draft_of k db ≡ some d)
        × (((d.state ≢ ReplyState.draft)
              × ((message : Text) × (r ≡ (error invalid_state message, db))))
            ⊎ ((d.state ≡ ReplyState.draft) × Changed k (change d) db r)))

module _ (change : ReplyDraft → ReplyDraft) (message : Text) (k : Text) (db : Db) (v : Lifecycle db)
    (same_ticket : (d : ReplyDraft) → (change d).ticket_id ≡ d.ticket_id) where
  change_draft-Branches : Branches change k db (change_draft change message k db)
  unfolding change_draft
  change_draft-Branches = elim (Option-cases (ticket_of k db)) [
    | inl h ↦ inl (inl h, (codes "No ticket exists with that id.", rw (h, change_draft) refl))
    | inr (t, h) ↦ elim (Option-cases (draft_of k db)) [
      | inl f ↦ inl (
        inr f,
        (
          codes "No reply draft exists for that ticket.",
          rw (h, change_draft) (rw (f, change_draft) refl),
        ),
      )
      | inr (d, f) ↦ inr (d, f, present t d h f)
    ]
  ]
    where
      present :
          (t : Ticket) (d : ReplyDraft)
          → ticket_of k db ≡ some t
          → draft_of k db ≡ some d
          → ((d.state ≢ ReplyState.draft)
              × ((m : Text) × (change_draft change message k db ≡ (error invalid_state m, db))))
            ⊎ ((d.state ≡ ReplyState.draft)
                × Changed k (change d) db (change_draft change message k db))
      present t d h f = elim (Bool-cases (d.state == ReplyState.draft)) [
        | inr e ↦ inl (
          λ st. cc (e, (reply_state_eq.beq_iff d.state ReplyState.draft).1 st),
          (message, rw (h, change_draft) (rw (f, change_draft) (rw (e, change_draft) refl))),
        )
        | inl e ↦
            let key : (change d).ticket_id ≡ k =
              same_ticket d ∙ Laws.lookup-key draft_key k db.reply_drafts f in
            let (kept, now) = save_draft-Kept k t d (change d) db v h f key in
            inr (
              (reply_state_eq.beq_iff d.state ReplyState.draft).0 e,
              rw (h, change_draft)
                  (rw (f, change_draft)
                    (rw (e, change_draft)
                      (record {
                        answer = refl;
                        stored = now;
                        kept = kept;
                        tickets_kept = unfold save_draft in refl;
                      }))),
            )
      ]

-- Approving and discarding a draft: 404 without a ticket or a draft and 409 for a draft that has left
-- the draft state, with no change; otherwise the draft gets the new state and the time, and nothing
-- else changes in it, in the tickets or for another ticket.
pub approve_or_discard-Branches :
    (now : ℕ) (k : Text) (db : Db)
    → Lifecycle db
    → Branches
        (λ d. record d { state = ReplyState.approved; updated_at = now })
        k
        db
        (approve_reply_draft now k db)
      × Branches
          (λ d. record d { state = ReplyState.discarded; updated_at = now })
          k
          db
          (discard_reply_draft now k db)
unfolding approve_reply_draft discard_reply_draft
approve_or_discard-Branches now k db v = (
  change_draft-Branches (resolved now ReplyState.approved)
      (codes "Only a draft in the draft state can be approved.") k db v (λ d. refl),
  change_draft-Branches (resolved now ReplyState.discarded)
      (codes "Only a draft in the draft state can be discarded.") k db v (λ d. refl),
)

-- A text without white space at its ends, of 1 to `limit` characters.
pub record IsTrimmed (limit : ℕ) (t : Text) : Type 0 where
  pub stripped : trim t ≡ t
  pub not_empty : 1 ≤ length t
  pub short : length t ≤ limit

-- Editing a draft: a body that is blank, or longer than 2000 characters without the blanks around it,
-- is refused with no change; any other replaces the body of a draft in the draft state, stripped, on
-- the same terms.
pub edit_reply_draft-Branches :
    (now : ℕ) (body : Text) (k : Text) (db : Db)
    → Lifecycle db
    → ((¬ IsTrimmed 2000 (trim body))
        × ((message : Text) × (edit_reply_draft now body k db
              ≡ (error validation_error message, db))))
      ⊎ (IsTrimmed 2000 (trim body)
          × Branches
              (λ d. record d { body = trim body; updated_at = now })
              k
              db
              (edit_reply_draft now body k db))
unfolding edit_reply_draft
edit_reply_draft-Branches now body k db v =
    elim (Bool-cases (leb 1 (length (trim body)) && leb (length (trim body)) 2000)) [
      | inl e ↦ inr (
        record { stripped = trim_idem body; not_empty = ground arith; short = ground arith },
        rw (e, edit_reply_draft)
            (change_draft-Branches (edited now (trim body))
              (codes "Only a draft in the draft state can be edited.") k db v (λ d. refl)),
      )
      | inr e ↦ inl (
        λ b. ground (arith, b.not_empty, b.short),
        (codes "Request validation failed.", rw (e, edit_reply_draft) refl),
      )
    ]
