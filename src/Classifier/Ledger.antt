-- ===== src/Classifier/Ledger.antt =====
-- The rows that a classification or a draft leaves in llm_calls.
use ticket_triage.Base.{
  ℕ, ◌≡◌, refl, sym, ap, ◌∙◌, ◌⊎◌, inl, inr, true, false, ==_refl, Option, List, [], ◌∷◌, ◌++◌,
  arith,
}
use ticket_triage.Text.{Text, text_eq}
use ticket_triage.Labels.{
  Purpose, classify, repair, reply_draft, reply_repair, Outcome, ok, parse_error, parse_failed,
  provider_error, circuit_open,
}
use ticket_triage.Table
use ticket_triage.Model.{LlmCall, Db, Settings}
use mathlib.Core.List.{append_assoc, append-nil}
use ticket_triage.Breaker.{CircuitBreaker, allow, record_success}
use ticket_triage.Provider.{Message, Exchange}
use ticket_triage.Client
use ticket_triage.Client.{World, LlmResult, Completed, complete, call_row}
use ticket_triage.Client.Effect.{Recorded, Effect, NetworkFailure, with_call, complete-Effect}
use ticket_triage.Schema.{Decoder, parse_triage, parse_reply, Parsed, parsed, refused, parse_raised}
use ticket_triage.Prompts.{
  Letter, Grounding, build_classify_messages, build_repair_messages, build_reply_messages,
  build_reply_repair_messages,
}
use ticket_triage.Classifier.{
  classify_ticket, generate_reply_draft, Produced, produced, failed, unexpected, answer_of,
  mark_rows, mark_parse_error, after_repair, after_repair_parse, ask_repair, after_first_parse,
  after_first, structured_output,
}

abbrev id_of : LlmCall → Text
id_of c = c.id

mark_rows-fresh :
    (k : Text) (rows : List LlmCall) → Table.contains id_of k rows ≡ false → mark_rows k rows ≡ rows
unfolding mark_rows Table.contains
mark_rows-fresh k [] h = refl
mark_rows-fresh k (r ∷ rs) h = ground (arith, mark_rows-fresh k rs)

-- Marking the newest row leaves the older rows alone.
mark_rows-append :
    (r : LlmCall) (rows : List LlmCall)
    → Table.contains id_of r.id rows ≡ false
    → mark_rows r.id (rows ++ r ∷ []) ≡ rows ++ record r { outcome = parse_error } ∷ []
unfolding mark_rows Table.contains
mark_rows-append r [] h = ground (arith, ==_refl r.id)
mark_rows-append r (q ∷ rows) h = ground (arith, mark_rows-append r rows)

allow-record_success : (now : ℕ) (b : CircuitBreaker) → allow now (record_success b) ≡ true
unfolding allow record_success
allow-record_success now b = ground arith

-- A row of the given purpose and outcome, for the ticket.
pub record Billed (ticket_id : Option Text) (purpose : Purpose) (outcome : Outcome) (r : LlmCall)
    : Type 0 where
  pub of_ticket : r.ticket_id ≡ ticket_id
  pub of_purpose : r.purpose ≡ purpose
  pub of_outcome : r.outcome ≡ outcome

-- The database with some more rows in llm_calls, and nothing else changed.
abbrev pub with_calls : List LlmCall → Db → Db
with_calls rows db = record db { llm_calls = db.llm_calls ++ rows }

no_rows : (db : Db) → db ≡ with_calls [] db
no_rows db =
    ap (λ (rows : List LlmCall). record db { llm_calls = rows }) (sym (append-nil db.llm_calls))

-- The rows are of these purposes and outcomes, in this order.
abbrev pub Calls : Option Text → List (Purpose × Outcome) → List LlmCall → Type 0
Calls ticket_id [] [] = Unit
Calls ticket_id ((p, o) ∷ bill) (r ∷ rows) = Billed ticket_id p o r × Calls ticket_id bill rows
Calls ticket_id _ _ = ⊥

-- Which calls a result has cost.
abbrev pub Account :
    {A : Type 0} → Option Text → Purpose → Purpose → Produced A → List LlmCall → Type 0
Account t p q (produced a n) rows =
    ((n ≡ 1) × Calls t ((p, ok) ∷ []) rows)
    ⊎ ((n ≡ 2) × Calls t ((p, parse_error) ∷ (q, ok) ∷ []) rows)
Account t p q (failed parse_failed) rows = Calls t ((p, parse_error) ∷ (q, parse_error) ∷ []) rows
Account t p q (failed provider_error) rows =
    (o : Outcome) × NetworkFailure o
    × (Calls t ((p, o) ∷ []) rows ⊎ Calls t ((p, parse_error) ∷ (q, o) ∷ []) rows)
Account t p q (failed circuit_open) rows = Calls t [] rows
Account t p q unexpected rows =
    (Calls t [] rows ⊎ Calls t ((p, ok) ∷ []) rows)
    ⊎ (Calls t ((p, parse_error) ∷ []) rows ⊎ Calls t ((p, parse_error) ∷ (q, ok) ∷ []) rows)

with_calls-with_call :
    (r s : LlmCall) (db : Db) → with_call s (with_calls (r ∷ []) db) ≡ with_calls (r ∷ s ∷ []) db
with_calls-with_call r s db =
    ap (λ (rows : List LlmCall). record db { llm_calls = rows })
      (append_assoc db.llm_calls (r ∷ []) (s ∷ []))

marked-db :
    (k : Text) (w : World) (r : LlmCall) (db : Db)
    → r.id ≡ k
    → w.db ≡ with_call r db
    → Table.contains id_of r.id db.llm_calls ≡ false
    → (mark_parse_error k w).db ≡ with_call (record r { outcome = parse_error }) db
unfolding mark_parse_error
marked-db k w r db e h new =
    rw (h, ← e)
      (ap (λ (rows : List LlmCall). record db { llm_calls = rows })
        (mark_rows-append r db.llm_calls new))

marked-breaker : (k : Text) (w : World) → (mark_parse_error k w).breaker ≡ w.breaker
unfolding mark_parse_error
marked-breaker k w = refl

billed :
    (ticket_id : Option Text) (p : Purpose) (o : Outcome) (r : LlmCall)
    → r.ticket_id ≡ ticket_id
    → r.purpose ≡ p
    → r.outcome ≡ o
    → Billed ticket_id p o r
billed t p o r a b c = record { of_ticket = a; of_purpose = b; of_outcome = c }

module _ {A : Type 0} (settings : Settings) (parse : Text → Parsed A) (ticket_id : Option Text)
    (first_messages : List Message) (repair_messages : Text → Text → List Message) (p q : Purpose)
    (x y : Exchange) where
  -- What is claimed of a step that ends with the world `w'` after beginning at `db`.
  abbrev Accounted : Db → Produced A × World → Type 0
  Accounted db (r, w') =
      (rows : List LlmCall) × (w'.db ≡ with_calls rows db) × Account ticket_id p q r rows

  -- The row that the call `z` writes.
  abbrev row : Purpose → Exchange → Outcome → Option ℕ → Option ℕ → LlmCall
  row purpose z o i t = call_row settings purpose ticket_id z o i t

  repair_parse-Accounted :
      (db : Db) (r : LlmCall) (w w' : World) (second : LlmResult) (v : Parsed A)
      → w.db ≡ with_call r db
      → Billed ticket_id p parse_error r
      → Recorded settings q ticket_id y ok w w'
      → second.call ≡ y.call_id
      → Accounted db (
          after_repair_parse settings parse ticket_id first_messages repair_messages p q x y second
            v w')
  unfolding after_repair_parse
  repair_parse-Accounted db r w w' second (parsed a) e b rec same_id =
      let s = row q y ok rec.input_tokens rec.output_tokens in
      (
        r ∷ s ∷ [],
        rec.row_added ∙ ap (with_call s) e ∙ with_calls-with_call r s db,
        inr (refl, (b, (billed ticket_id q ok s refl refl refl, tt))),
      )
  repair_parse-Accounted db r w w' second (refused errors) e b rec same_id =
      let s = row q y ok rec.input_tokens rec.output_tokens in
      let s' = row q y parse_error rec.input_tokens rec.output_tokens in
      (
        r ∷ record s { outcome = parse_error } ∷ [],
        marked-db second.call w' s w.db (sym same_id) rec.row_added rec.new_id
            ∙ ap (with_call (record s { outcome = parse_error })) e
            ∙ with_calls-with_call r (record s { outcome = parse_error }) db,
        (b, (billed ticket_id q parse_error _ refl refl refl, tt)),
      )
  repair_parse-Accounted db r w w' second parse_raised e b rec same_id =
      let s = row q y ok rec.input_tokens rec.output_tokens in
      (
        r ∷ s ∷ [],
        rec.row_added ∙ ap (with_call s) e ∙ with_calls-with_call r s db,
        inr (inr (b, (billed ticket_id q ok s refl refl refl, tt))),
      )

  repair-Accounted :
      (db : Db) (r : LlmCall) (w w' : World) (c : Completed)
      → w.db ≡ with_call r db
      → Billed ticket_id p parse_error r
      → allow y.allow_at w.breaker ≡ true
      → Effect settings q ticket_id y w (c, w')
      → Accounted db (
          after_repair settings parse ticket_id first_messages repair_messages p q x y
            (answer_of c)
            w')
  unfolding after_repair answer_of
  repair-Accounted db r w w' Client.circuit_open_error e b a (same, refused_call) =
      absurd (cc (a, refused_call))
  repair-Accounted db r w w' Client.other_error e b a (same, _) =
      (r ∷ [], ap (λ (v : World). v.db) same ∙ e, inr (inl (b, tt)))
  repair-Accounted db r w w' (Client.provider_error o detail) e b a (rec, _, bad, _) =
      let s = row q y o rec.input_tokens rec.output_tokens in
      (
        r ∷ s ∷ [],
        rec.row_added ∙ ap (with_call s) e ∙ with_calls-with_call r s db,
        (o, bad, inr (b, (billed ticket_id q o s refl refl refl, tt))),
      )
  repair-Accounted db r w w' (Client.completed second) e b a (rec, _, same_id, _) =
      repair_parse-Accounted db r w w' second (parse second.content) e b rec same_id

  first_parse-Accounted :
      (w w' : World) (first : LlmResult) (v : Parsed A)
      → Recorded settings p ticket_id x ok w w'
      → w'.breaker ≡ record_success w.breaker
      → first.call ≡ x.call_id
      → Accounted w.db (
          after_first_parse settings parse ticket_id first_messages repair_messages p q x y first v
            w')
  unfolding after_first_parse ask_repair
  first_parse-Accounted w w' first (parsed a) rec closed same_id =
      let r = row p x ok rec.input_tokens rec.output_tokens in
      (r ∷ [], rec.row_added, inl (refl, (billed ticket_id p ok r refl refl refl, tt)))
  first_parse-Accounted w w' first (refused errors) rec closed same_id =
      let r = row p x ok rec.input_tokens rec.output_tokens in
      let w1 = mark_parse_error first.call w' in
      let messages = repair_messages first.content errors in
      let after = complete settings q ticket_id y messages w1 in
      repair-Accounted w.db (record r { outcome = parse_error }) w1 after.1 after.0
        (marked-db first.call w' r w.db (sym same_id) rec.row_added rec.new_id)
        (billed ticket_id p parse_error _ refl refl refl)
        (rw (marked-breaker first.call w', closed) (allow-record_success y.allow_at w.breaker))
        (complete-Effect settings q ticket_id y messages w1)
  first_parse-Accounted w w' first parse_raised rec closed same_id =
      let r = row p x ok rec.input_tokens rec.output_tokens in
      (r ∷ [], rec.row_added, inl (inr (billed ticket_id p ok r refl refl refl, tt)))

  first-Accounted :
      (w w' : World) (c : Completed)
      → Effect settings p ticket_id x w (c, w')
      → Accounted w.db (
          after_first settings parse ticket_id first_messages repair_messages p q x y
            (answer_of c)
            w')
  unfolding after_first answer_of
  first-Accounted w w' Client.circuit_open_error (same, _) =
      ([], ap (λ (v : World). v.db) same ∙ no_rows w.db, tt)
  first-Accounted w w' Client.other_error (same, _) =
      ([], ap (λ (v : World). v.db) same ∙ no_rows w.db, inl (inl tt))
  first-Accounted w w' (Client.provider_error o detail) (rec, _, bad, _) =
      let r = row p x o rec.input_tokens rec.output_tokens in
      (r ∷ [], rec.row_added, (o, bad, inl (billed ticket_id p o r refl refl refl, tt)))
  first-Accounted w w' (Client.completed first) (rec, closed, same_id, _) =
      first_parse-Accounted w w' first (parse first.content) rec closed same_id

  structured_output-Account :
      (w : World)
      → Accounted w.db
          (structured_output settings parse ticket_id first_messages repair_messages p q x y w)
  unfolding structured_output
  structured_output-Account w =
      let after = complete settings p ticket_id x first_messages w in
      first-Accounted w after.1 after.0 (complete-Effect settings p ticket_id x first_messages w)

pub classify_ticket-Account :
    (d : Decoder) (settings : Settings) (x y : Exchange) (ticket_id : Option Text) (t : Letter)
    (w : World)
    → let (r, w') = classify_ticket d settings x y ticket_id t w in
      (rows : List LlmCall) × (w'.db ≡ with_calls rows w.db)
      × Account ticket_id classify repair r rows
unfolding classify_ticket
classify_ticket-Account d settings x y ticket_id t w =
    structured_output-Account settings (parse_triage d) ticket_id (build_classify_messages t)
      (build_repair_messages t) classify repair x y w

-- The same of a reply draft, with the purposes `reply_draft` and `reply_repair`.
pub generate_reply_draft-Account :
    (d : Decoder) (settings : Settings) (x y : Exchange) (ticket_id : Option Text) (t : Letter)
    (g : Grounding) (w : World)
    → let (r, w') = generate_reply_draft d settings x y ticket_id t g w in
      (rows : List LlmCall) × (w'.db ≡ with_calls rows w.db)
      × Account ticket_id reply_draft reply_repair r rows
unfolding generate_reply_draft
generate_reply_draft-Account d settings x y ticket_id t g w =
    structured_output-Account settings (parse_reply d) ticket_id (build_reply_messages t g)
      (build_reply_repair_messages t g) reply_draft reply_repair x y w
