-- ===== src/Model/Lifecycle.antt =====
-- The invariant of the whole database: what rows a ticket has in each of its statuses.
use mathlib.Core.Path.{subst}
use ticket_triage.Base.{
  ◌≡◌, ◌≢◌, ◌==◌, false, inl, inr, Option, some, none, Bool-cases, refl, sym, ◌∙◌, arith,
}
use ticket_triage.Text.{Text, text_eq, same_iff}
use ticket_triage.Table.{Distinct}
use ticket_triage.Labels.{Status, received, triaged, needs_human}
use ticket_triage.Model.{
  Ticket, Db, ticket_key, external_key, ticket_of, triage_of, correction_of, draft_of,
}

-- A row is there, or is not.
abbrev pub Present : {A : Type 0} → Option A → Type 0
Present o = o ≢ none

-- The rows of one ticket: its queue and error columns, its triage, its correction, its draft.
abbrev pub Fits :
    Status → {A B C D E : Type 0} → Option A → Option B → Option C → Option D → Option E → Type 0
Fits received queue error triage correction draft =
    (queue ≡ none) × (error ≡ none) × (triage ≡ none) × (correction ≡ none) × (draft ≡ none)
Fits triaged queue error triage correction draft =
    Present queue × (error ≡ none) × Present triage × (correction ≡ none)
Fits needs_human queue error triage correction draft =
    Present queue × Present error × (triage ≡ none) × (correction ≡ none) × (draft ≡ none)
Fits Status.approved queue error triage correction draft =
    Present queue × (error ≡ none) × Present triage × (correction ≡ none)
Fits Status.corrected queue error triage correction draft =
    Present queue × (error ≡ none) × Present correction

-- Every ticket has the rows of its status, and no row stands without its ticket.
pub record Lifecycle (db : Db) : Type 0 where
  pub fits :
      (k : Text) (t : Ticket)
      → ticket_of k db ≡ some t
      → Fits t.status t.queue t.triage_error (triage_of k db) (correction_of k db) (draft_of k db)
  pub triage_ticket : (k : Text) → ticket_of k db ≡ none → triage_of k db ≡ none
  pub correction_ticket : (k : Text) → ticket_of k db ≡ none → correction_of k db ≡ none
  pub draft_ticket : (k : Text) → ticket_of k db ≡ none → draft_of k db ≡ none
  pub distinct_ids : Distinct ticket_key db.tickets
  pub distinct_external : Distinct external_key db.tickets

-- `db'` differs from `db` at most in the rows of ticket `k` and in llm_calls.
pub record OnlyAt (k : Text) (db db' : Db) : Type 0 where
  pub tickets_kept : (j : Text) → (k == j) ≡ false → ticket_of j db' ≡ ticket_of j db
  pub triages_kept : (j : Text) → (k == j) ≡ false → triage_of j db' ≡ triage_of j db
  pub corrections_kept : (j : Text) → (k == j) ≡ false → correction_of j db' ≡ correction_of j db
  pub drafts_kept : (j : Text) → (k == j) ≡ false → draft_of j db' ≡ draft_of j db
  pub rules_kept : db'.routing_rules ≡ db.routing_rules

pub OnlyAt-refl : (k : Text) (db : Db) → OnlyAt k db db
OnlyAt-refl k db = record {
  tickets_kept = λ j h. refl;
  triages_kept = λ j h. refl;
  corrections_kept = λ j h. refl;
  drafts_kept = λ j h. refl;
  rules_kept = refl;
}

pub OnlyAt-trans : (k : Text) {a b c : Db} → OnlyAt k a b → OnlyAt k b c → OnlyAt k a c
OnlyAt-trans k p q = record {
  tickets_kept = λ j h. q.tickets_kept j h ∙ p.tickets_kept j h;
  triages_kept = λ j h. q.triages_kept j h ∙ p.triages_kept j h;
  corrections_kept = λ j h. q.corrections_kept j h ∙ p.corrections_kept j h;
  drafts_kept = λ j h. q.drafts_kept j h ∙ p.drafts_kept j h;
  rules_kept = q.rules_kept ∙ p.rules_kept;
}

-- What the rows of one ticket must be.
abbrev pub FitsAt : Text → Ticket → Db → Type 0
FitsAt k t db =
    Fits t.status t.queue t.triage_error (triage_of k db) (correction_of k db) (draft_of k db)

module _ (k : Text) {db db' : Db} (valid : Lifecycle db) (only : OnlyAt k db db') (t : Ticket)
    (here : ticket_of k db' ≡ some t) where
  fits_after : FitsAt k t db' → (j : Text) (u : Ticket) → ticket_of j db' ≡ some u → FitsAt j u db'
  fits_after fit j u h = elim (Bool-cases (k == j)) [
    | inl same_key ↦
        let e : k ≡ j = (same_iff k j).0 same_key in
        let v : t ≡ u = ground (arith, here, h, e) in
        subst (λ i. FitsAt i u db') e (subst (λ x. FitsAt k x db') v fit)
    | inr other ↦
        rw (only.triages_kept j other, only.corrections_kept j other, only.drafts_kept j other)
          (valid.fits j u (sym (only.tickets_kept j other) ∙ h))
  ]

  absent_before : (j : Text) → ticket_of j db' ≡ none → ((k == j) ≡ false) × (ticket_of j db ≡ none)
  absent_before j h = elim (Bool-cases (k == j)) [
    | inl same_key ↦ absurd (ground (arith, here, h, same_iff k j))
    | inr other ↦ (other, sym (only.tickets_kept j other) ∙ h)
  ]

  -- An operation on one ticket keeps the invariant if that ticket fits afterwards.
  pub OnlyAt-Lifecycle :
      FitsAt k t db'
      → Distinct ticket_key db'.tickets
      → Distinct external_key db'.tickets
      → Lifecycle db'
  OnlyAt-Lifecycle fit ids externals = record {
    fits = fits_after fit;
    triage_ticket = λ j h.
        let (other, gone) = absent_before j h in
        only.triages_kept j other ∙ valid.triage_ticket j gone;
    correction_ticket = λ j h.
        let (other, gone) = absent_before j h in
        only.corrections_kept j other ∙ valid.correction_ticket j gone;
    draft_ticket = λ j h.
        let (other, gone) = absent_before j h in
        only.drafts_kept j other ∙ valid.draft_ticket j gone;
    distinct_ids = ids;
    distinct_external = externals;
  }
