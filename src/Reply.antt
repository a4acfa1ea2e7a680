-- ===== src/Reply.antt =====
-- The review of reply drafts: app/routers/reply.py.
pub mod Review
use ticket_triage.Base.{
  ℕ, Bool, true, false, not, ◌&&◌, ◌||◌, ◌==◌, Option, none, some, List, [], ◌∷◌, select,
  if◌then◌else◌, length, leb,
}
use ticket_triage.Text.{Text, codes, strip}
use ticket_triage.Labels.{
  Purpose, reply_draft, reply_repair, ReplyState, reply_state_eq, purpose_eq,
}
use ticket_triage.Model.{LlmCall, ReplyDraft, Db, ticket_of, draft_of, save_draft}
use ticket_triage.Errors.{Answer, success, error, not_found, invalid_state, validation_error}
use ticket_triage.Tickets.{MetricsOut, metrics_of, is_ticket, field_text}

-- `_REPLY_PURPOSES`
abbrev pub reply_purpose : Purpose → Bool
reply_purpose p = p == reply_draft || p == reply_repair

-- `_reply_metrics`
unfoldable pub reply_metrics : Text → Db → Option MetricsOut
unfolding metrics_of
reply_metrics k db =
    metrics_of (select (λ (c : LlmCall). is_ticket k c && reply_purpose c.purpose) db.llm_calls)

pub record ReplyDraftOut : Type 0 where
  pub draft : ReplyDraft
  pub metrics : Option MetricsOut

unfoldable pub draft_out : Db → ReplyDraft → ReplyDraftOut
unfolding reply_metrics
draft_out db d = record { draft = d; metrics = reply_metrics d.ticket_id db }

-- `_get_draft`: the draft, or the message of a NotFoundError.
pub data Found : Type 0 where
  missing : Text → Found
  found : ReplyDraft → Found

unfoldable pub get_draft : Text → Db → Found
get_draft k db = elim (ticket_of k db) [
  | none ↦ missing (codes "No ticket exists with that id.")
  | some t ↦ elim (draft_of k db) [
    | none ↦ missing (codes "No reply draft exists for that ticket.")
    | some d ↦ found d
  ]
]

-- `GET /tickets/{ticket_id}/reply`
unfoldable pub get_reply_draft : Text → Db → Answer ReplyDraftOut
unfolding get_draft draft_out
get_reply_draft k db = elim (get_draft k db) [
  | missing message ↦ error not_found message
  | found d ↦ success 200 (draft_out db d)
]

-- What the three changing routes share: a draft in the draft state is replaced and committed.
unfoldable pub change_draft :
    (ReplyDraft → ReplyDraft) → Text → Text → Db → Answer ReplyDraftOut × Db
unfolding get_draft draft_out
change_draft change message k db = elim (get_draft k db) [
  | missing reason ↦ (error not_found reason, db)
  | found d ↦
      if not (d.state == ReplyState.draft)
      then (error invalid_state message, db)
      else (let d' = change d in
          let db' = save_draft d' db in (success 200 (draft_out db' d'), db'))
]

unfoldable pub edited : ℕ → Text → ReplyDraft → ReplyDraft
edited now body d = record d { body = body; updated_at = now }

unfoldable pub resolved : ℕ → ReplyState → ReplyDraft → ReplyDraft
resolved now target d = record d { state = target; updated_at = now }

-- `edit_reply_draft`, whose body the schema strips and holds to 1 to 2000 characters.
unfoldable pub edit_reply_draft : ℕ → Text → Text → Db → Answer ReplyDraftOut × Db
unfolding change_draft edited field_text
edit_reply_draft now body k db = elim (field_text 2000 body) [
  | none ↦ (error validation_error (codes "Request validation failed."), db)
  | some b ↦
      change_draft (edited now b) (codes "Only a draft in the draft state can be edited.") k db
]

unfoldable pub approve_reply_draft : ℕ → Text → Db → Answer ReplyDraftOut × Db
unfolding change_draft resolved
approve_reply_draft now =
    change_draft (resolved now ReplyState.approved)
      (codes "Only a draft in the draft state can be approved.")

unfoldable pub discard_reply_draft : ℕ → Text → Db → Answer ReplyDraftOut × Db
unfolding change_draft resolved
discard_reply_draft now =
    change_draft (resolved now ReplyState.discarded)
      (codes "Only a draft in the draft state can be discarded.")
