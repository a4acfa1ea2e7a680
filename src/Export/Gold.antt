-- ===== src/Export/Gold.antt =====
-- What is exported: the decided tickets, each with its gold labels.
use ticket_triage.Base.{
  All-append, ℕ, ◌+◌, ◌≤◌, ◌≡◌, refl, ◌⊎◌, inl, inr, ◌||◌, ◌==◌, Bool, false, Bool-cases, Option,
  none, some, Option-cases, List, [], ◌∷◌, ◌++◌, length, length-append, length-map, All,
  if◌then◌else◌, select, arith,
}
use ticket_triage.Text.{Text, codes}
use ticket_triage.Labels.{
  Intent, Priority, Sentiment, Status, received, triaged, needs_human, status_eq,
}
use ticket_triage.Table.Laws
use ticket_triage.Table.{insert_by, order_by}
use ticket_triage.Model.{
  Ticket, Triage, Correction, Db, ticket_of, triage_of, correction_of, draft_of,
}
use ticket_triage.Model.Lifecycle.{Lifecycle, Fits}
use ticket_triage.Worker.Queue.{All-lookup}
use ticket_triage.Export.{
  ExportLine, ExportRow, correction_export, triage_export, before, corrected_part, approved_part,
  corrected_rows, approved_rows, export_rows, export_lines,
}

-- The ticket's own columns, with the gold labels and their source.
abbrev pub labelled_line : Ticket → Intent → Priority → Sentiment → Text → ExportLine
labelled_line t i p s source = record {
  external_id = t.external_id;
  channel = t.channel;
  sender = t.sender;
  subject = t.subject;
  body = t.body;
  intent = i;
  priority = p;
  sentiment = s;
  source = source;
}

within :
    (since : Option ℕ) (time : ℕ)
    → before since time ≡ false
    → (limit : ℕ) → since ≡ some limit
    → limit ≤ time
within none time h limit e = cc e
within (some since) time h limit e = ground (arith, h, e)

-- A row of the export: of a ticket in the table that is corrected, with the labels of its
-- correction, or approved, with the labels of its triage, and not before the limit.
abbrev pub IsGold : Option ℕ → Db → ExportRow → Type 0
IsGold since db row =
    ((limit : ℕ) → since ≡ some limit → limit ≤ row.at)
    × (t : Ticket) × (ticket_of t.id db ≡ some t)
    × (((t.status ≡ Status.corrected)
          × (c : Correction) × (correction_of t.id db ≡ some c)
          × (row ≡ record {
            at = c.created_at;
            line = labelled_line t c.intent c.priority c.sentiment (codes "corrected");
          }))
        ⊎ ((t.status ≡ Status.approved)
            × (r : Triage) × (triage_of t.id db ≡ some r)
            × (row ≡ record {
              at = t.updated_at;
              line = labelled_line t r.intent r.priority r.sentiment (codes "approved");
            })))

abbrev pub is_decided : Ticket → Bool
is_decided t = t.status == Status.corrected || t.status == Status.approved

module _ {A : Type 0} (key : A → ℕ) where
  length-insert_by : (x : A) (rows : List A) → length (insert_by key x rows) ≡ length rows + 1
  unfolding insert_by
  length-insert_by x [] = omega arith
  length-insert_by x (y ∷ ys) = ground (arith, length-insert_by x ys)

  length-order_by : (rows : List A) → length (order_by key rows) ≡ length rows
  unfolding order_by
  length-order_by [] = refl
  length-order_by (x ∷ xs) =
      ground (arith, length-insert_by x (order_by key xs), length-order_by xs)

module _ (since : Option ℕ) (db : Db) where
  corrected_part-IsGold :
      (t : Ticket) → ticket_of t.id db ≡ some t → All (IsGold since db) (corrected_part since db t)
  unfolding corrected_part
  corrected_part-IsGold t here = elim (Bool-cases (t.status == Status.corrected)) [
    | inr e ↦ rw e tt
    | inl e ↦ elim (Option-cases (correction_of t.id db)) [
      | inl h ↦ rw (e, h) tt
      | inr (c, h) ↦
          let status : t.status ≡ Status.corrected =
            (status_eq.beq_iff t.status Status.corrected).0 e in
          elim (Bool-cases (before since c.created_at)) [
            | inl b ↦ rw (e, h, b) tt
            | inr b ↦
                let gold : IsGold since db (correction_export t c) =
                  (within since c.created_at b, t, here, inl (status, c, h, refl)) in
                rw (e, h, b) (gold, tt)
          ]
    ]
  ]

  approved_part-IsGold :
      (t : Ticket) → ticket_of t.id db ≡ some t → All (IsGold since db) (approved_part since db t)
  unfolding approved_part
  approved_part-IsGold t here = elim (Bool-cases (t.status == Status.approved)) [
    | inr e ↦ rw e tt
    | inl e ↦ elim (Option-cases (triage_of t.id db)) [
      | inl h ↦ rw (e, h) tt
      | inr (r, h) ↦
          let status : t.status ≡ Status.approved =
            (status_eq.beq_iff t.status Status.approved).0 e in
          elim (Bool-cases (before since t.updated_at)) [
            | inl b ↦ rw (e, h, b) tt
            | inr b ↦
                let gold : IsGold since db (triage_export t r) =
                  (within since t.updated_at b, t, here, inr (status, r, h, refl)) in
                rw (e, h, b) (gold, tt)
          ]
    ]
  ]

  corrected_rows-IsGold :
      (ts : List Ticket)
      → All (λ (t : Ticket). ticket_of t.id db ≡ some t) ts
      → All (IsGold since db) (corrected_rows since db ts)
  unfolding corrected_rows
  corrected_rows-IsGold [] h = tt
  corrected_rows-IsGold (t ∷ ts) h =
      All-append (IsGold since db) (corrected_part since db t) (corrected_rows since db ts)
        (corrected_part-IsGold t h.0) (corrected_rows-IsGold ts h.1)

  approved_rows-IsGold :
      (ts : List Ticket)
      → All (λ (t : Ticket). ticket_of t.id db ≡ some t) ts
      → All (IsGold since db) (approved_rows since db ts)
  unfolding approved_rows
  approved_rows-IsGold [] h = tt
  approved_rows-IsGold (t ∷ ts) h =
      All-append (IsGold since db) (approved_part since db t) (approved_rows since db ts)
        (approved_part-IsGold t h.0) (approved_rows-IsGold ts h.1)

-- A decided ticket adds one row, any other none.
parts-length :
    (db : Db) (t : Ticket) (s : Status)
    → t.status ≡ s
    → Fits s t.queue t.triage_error (triage_of t.id db) (correction_of t.id db) (draft_of t.id db)
    → length (corrected_part none db t) + length (approved_part none db t)
      ≡ (if is_decided t then 1 else 0)
unfolding corrected_part approved_part
parts-length db t received e fit = rw e refl
parts-length db t triaged e fit = rw e refl
parts-length db t needs_human e fit = rw e refl
parts-length db t Status.approved e fit = elim (Option-cases (triage_of t.id db)) [
  | inl h ↦ absurd (fit.2 h)
  | inr (r, h) ↦ rw (e, h) refl
]
parts-length db t Status.corrected e fit = elim (Option-cases (correction_of t.id db)) [
  | inl h ↦ absurd (fit.2 h)
  | inr (c, h) ↦ rw (e, h) refl
]

rows-length :
    (db : Db) (ts : List Ticket)
    → Lifecycle db
    → All (λ (t : Ticket). ticket_of t.id db ≡ some t) ts
    → length (corrected_rows none db ts) + length (approved_rows none db ts)
      ≡ length (select is_decided ts)
unfolding corrected_rows approved_rows
rows-length db [] v h = omega arith
rows-length db (t ∷ ts) v h =
    let part = parts-length db t t.status refl (v.fits t.id t h.0) in
    let a = length-append (corrected_part none db t) (corrected_rows none db ts) in
    let b = length-append (approved_part none db t) (approved_rows none db ts) in
    ground (arith, part, a, b, rows-length db ts v h.1)

pub length-export_rows :
    (db : Db) → Lifecycle db → length (export_rows none db) ≡ length (select is_decided db.tickets)
unfolding export_rows
length-export_rows db v =
    let gathered = corrected_rows none db db.tickets ++ approved_rows none db db.tickets in
    let sorted = length-order_by (λ (r : ExportRow). r.at) gathered in
    let both =
      length-append (corrected_rows none db db.tickets) (approved_rows none db db.tickets) in
    let counted = rows-length db db.tickets v (All-lookup db.tickets v.distinct_ids) in
    omega (arith, sorted, both, counted)

-- In the invariant the unlimited export has as many lines as there are corrected and approved tickets.
pub length-export_lines :
    (db : Db) → Lifecycle db → length (export_lines none db) ≡ length (select is_decided db.tickets)
unfolding export_lines
length-export_lines db v =
    let lines = length-map (λ (r : ExportRow). r.line) (export_rows none db) in
    omega (arith, lines, length-export_rows db v)

-- The rows of the export are sorted by time, and each is gold: of a corrected ticket with the labels
-- of its correction, at the time of the correction, or of an approved ticket with the labels of its
-- triage, at the time of its last update, and not before the limit. Without a limit there are as many
-- rows as corrected and approved tickets.
pub export_rows-IsGold :
    (since : Option ℕ) (db : Db)
    → Lifecycle db
    → Laws.Ascending (λ (r : ExportRow). r.at) (export_rows since db)
      × All (IsGold since db) (export_rows since db)
      × (length (export_rows none db) ≡ length (select is_decided db.tickets))
unfolding export_rows
export_rows-IsGold since db v =
    let found = All-lookup db.tickets v.distinct_ids in
    let gathered = corrected_rows since db db.tickets ++ approved_rows since db db.tickets in
    (
      Laws.order_by-Ascending (λ (r : ExportRow). r.at) gathered,
      Laws.All-order_by (λ (r : ExportRow). r.at) (IsGold since db) gathered
          (All-append (IsGold since db) (corrected_rows since db db.tickets)
            (approved_rows since db db.tickets) (corrected_rows-IsGold since db db.tickets found)
            (approved_rows-IsGold since db db.tickets found)),
      length-export_rows db v,
    )
