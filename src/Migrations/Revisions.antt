-- ===== src/Migrations/Revisions.antt =====
-- The revisions one after another: what they build, and what a downgrade undoes or cannot undo.
use ticket_triage.Base.{
  ◌≡◌, refl, Bool, true, false, ◌||◌, none, some, List, [], ◌∷◌, ◌++◌, map, exists, All, Bool-cases,
  inl, inr, ap, sym, ◌∙◌, if◌then◌else◌,
}
use ticket_triage.Text.{codes, same}
use ticket_triage.Labels.{Purpose, classify, repair, reply_draft, reply_repair}
use ticket_triage.Model.{LlmCall, Db}
use ticket_triage.Migrations.Ddl.{
  Store, Row, run, is_false, is_in, Op, create_table, create_index, drop_table, drop_index,
}
use ticket_triage.Migrations.Init
use ticket_triage.Migrations.Init.{
  purpose_words, tickets_def, triages_def, calls_def, corrections_def, rules_def,
}
use ticket_triage.Migrations.Drafts
use ticket_triage.Migrations.Drafts.{new_purpose_words}
use ticket_triage.Migrations.Rows.{dump, base_tables, call_values}
use ticket_triage.Migrations.Undo.{
  Closed, Undoes, create_table-Undoes, create_index-Undoes, forwards, backwards, run-undo,
}
use ticket_triage.System.{empty_db}

-- From nothing, the revisions build the tables of a new installation.
pub run-upgrade : run (Init.upgrade ++ Drafts.upgrade) [] ≡ some (dump (empty_db []))
unfolding run Init.upgrade Drafts.upgrade same
run-upgrade = refl

-- The operations of revision 0001, each with the one of its downgrade that takes it back.
abbrev script : List (Op × Op)
script =
    (create_table tickets_def, drop_table (codes "tickets"))
    ∷ (
      create_index (codes "ix_tickets_status") (codes "tickets") (codes "status"),
      drop_index (codes "ix_tickets_status") (codes "tickets"),
    )
    ∷ (
      create_index (codes "ix_tickets_created_at") (codes "tickets") (codes "created_at"),
      drop_index (codes "ix_tickets_created_at") (codes "tickets"),
    )
    ∷ (create_table triages_def, drop_table (codes "triages"))
    ∷ (create_table (calls_def purpose_words), drop_table (codes "llm_calls"))
    ∷ (
      create_index (codes "ix_llm_calls_ticket_id") (codes "llm_calls") (codes "ticket_id"),
      drop_index (codes "ix_llm_calls_ticket_id") (codes "llm_calls"),
    )
    ∷ (
      create_index (codes "ix_llm_calls_created_at") (codes "llm_calls") (codes "created_at"),
      drop_index (codes "ix_llm_calls_created_at") (codes "llm_calls"),
    )
    ∷ (create_table corrections_def, drop_table (codes "corrections"))
    ∷ (create_table rules_def, drop_table (codes "routing_rules"))
    ∷ []

script-upgrade : forwards script ≡ Init.upgrade
unfolding Init.upgrade
script-upgrade = refl

script-downgrade : backwards script ≡ Init.downgrade
unfolding Init.downgrade
script-downgrade = refl

script-Undoes : All Undoes script
script-Undoes = (
  create_table-Undoes tickets_def,
  (
    create_index-Undoes (codes "ix_tickets_status") (codes "tickets") (codes "status"),
    (
      create_index-Undoes (codes "ix_tickets_created_at") (codes "tickets") (codes "created_at"),
      (
        create_table-Undoes triages_def,
        (
          create_table-Undoes (calls_def purpose_words),
          (
            create_index-Undoes (codes "ix_llm_calls_ticket_id") (codes "llm_calls")
                (codes "ticket_id"),
            (
              create_index-Undoes (codes "ix_llm_calls_created_at") (codes "llm_calls")
                  (codes "created_at"),
              (create_table-Undoes corrections_def, (create_table-Undoes rules_def, tt)),
            ),
          ),
        ),
      ),
    ),
  ),
)

-- Where the upgrade of revision 0001 succeeds, on a database in which no table refers to a missing
-- one, its downgrade succeeds too and gives that database back: no other table, index or row is
-- changed, and no table is dropped while another one refers to it.
pub init-downgrade-upgrade :
    (db db' : Store) → Closed db → run Init.upgrade db ≡ some db' → run Init.downgrade db' ≡ some db
init-downgrade-upgrade db db' closed h =
    ap (λ ops. run ops db') (sym script-downgrade)
    ∙ run-undo script db db' script-Undoes closed (ap (λ ops. run ops db) script-upgrade ∙ h)

-- A call that the old CHECK of llm_calls refuses.
abbrev pub is_reply : LlmCall → Bool
is_reply c = elim c.purpose [
  | classify ↦ false
  | repair ↦ false
  | reply_draft ↦ true
  | reply_repair ↦ true
]

abbrev purpose_row : LlmCall → Purpose → Row
purpose_row c p = call_values (record c { purpose = p })

refused_old :
    (c : LlmCall) (p : Purpose)
    → is_false (is_in (codes "purpose") purpose_words) (purpose_row c p)
      ≡ is_reply (record c { purpose = p })
unfolding is_false same
refused_old c classify = refl
refused_old c _ = refl

accepted_new :
    (c : LlmCall) (p : Purpose)
    → is_false (is_in (codes "purpose") new_purpose_words) (purpose_row c p) ≡ false
unfolding is_false same
accepted_new c classify = refl
accepted_new c _ = refl

refused_rows :
    (calls : List LlmCall)
    → exists (is_false (is_in (codes "purpose") purpose_words)) (map call_values calls)
      ≡ exists is_reply calls
refused_rows [] = refl
refused_rows (c ∷ cs) = rw (refused_old c c.purpose) (ap (λ b. is_reply c || b) (refused_rows cs))

accepted_rows :
    (calls : List LlmCall)
    → exists (is_false (is_in (codes "purpose") new_purpose_words)) (map call_values calls) ≡ false
accepted_rows [] = refl
accepted_rows (c ∷ cs) = rw (accepted_new c c.purpose) (accepted_rows cs)

-- The upgrade of revision 0003 succeeds whatever rows the tables hold: it keeps every row, and adds
-- the table of the drafts, which is empty. Its downgrade drops that table and is refused exactly when
-- a provider call for a reply has been recorded.
pub drafts_revision :
    (db : Db)
    → (run Drafts.upgrade (base_tables purpose_words db)
        ≡ some (dump (record db { reply_drafts = [] })))
      × (run Drafts.downgrade (dump db)
          ≡ (if exists is_reply db.llm_calls then none else some (base_tables purpose_words db)))
unfolding run Drafts.upgrade Drafts.downgrade same
drafts_revision db = (
  rw (accepted_rows db.llm_calls, run) refl,
  rw (refused_rows db.llm_calls, run)
      (elim (Bool-cases (exists is_reply db.llm_calls)) [
        | inl e ↦ rw (e, run) refl
        | inr e ↦ rw (e, run) refl
      ]),
)
