-- ===== src/Migrations/Drafts.antt =====
-- migrations/versions/0003_reply_drafts.py: the table of the reply drafts, and the purposes of their
-- provider calls.
use ticket_triage.Base.{List, [], ◌∷◌}
use ticket_triage.Text.{Text, codes}
use ticket_triage.Migrations.Ddl.{
  string, long_text, integer, date_time, is_in, primary_key, foreign_key, unique, check, TableDef,
  Op, create_table, drop_table, recreate,
}
use ticket_triage.Migrations.Init.{required, purpose_words}

-- _STATE, and the words of _PURPOSE_NEW; _PURPOSE_OLD has the words of revision 0001.
abbrev pub state_words : List Text
state_words = codes "draft" ∷ codes "approved" ∷ codes "discarded" ∷ []

abbrev pub new_purpose_words : List Text
new_purpose_words =
    codes "classify" ∷ codes "repair" ∷ codes "reply_draft" ∷ codes "reply_repair" ∷ []

abbrev pub drafts_def : TableDef
drafts_def = record {
  name = codes "reply_drafts";
  columns =
      required (codes "id") (string 32)
      ∷ required (codes "ticket_id") (string 32)
      ∷ required (codes "body") long_text
      ∷ required (codes "state") (string 16)
      ∷ required (codes "model") (string 128)
      ∷ required (codes "prompt_version") (string 16)
      ∷ required (codes "attempts") integer
      ∷ required (codes "created_at") date_time
      ∷ required (codes "updated_at") date_time
      ∷ [];
  constraints =
      primary_key (codes "id")
      ∷ foreign_key (codes "fk_reply_drafts_ticket") (codes "ticket_id") (codes "tickets")
          (codes "id")
      ∷ unique (codes "uq_reply_drafts_ticket_id") (codes "ticket_id")
      ∷ check (codes "ck_reply_drafts_state") (is_in (codes "state") state_words)
      ∷ [];
}

abbrev pub recreate_purpose : List Text → Op
recreate_purpose words =
    recreate (codes "llm_calls") (codes "ck_llm_calls_purpose") (is_in (codes "purpose") words)

unfoldable pub upgrade : List Op
upgrade = create_table drafts_def ∷ recreate_purpose new_purpose_words ∷ []

unfoldable pub downgrade : List Op
downgrade = recreate_purpose purpose_words ∷ drop_table (codes "reply_drafts") ∷ []
