-- ===== src/Evals/Pipeline/Results.antt =====
-- One classification of a run: it gives a result, and takes the next two ids.
use mathlib.Core.Path.{subst, sym}
use ticket_triage.Base.{
  ℕ, suc, ◌≡◌, ◌≢◌, refl, ap, inl, inr, true, false, Bool-cases, ◌==◌, none, List, arith,
}
use ticket_triage.Text.{Text, text_eq, same}
use ticket_triage.Labels.{Purpose, classify, repair}
use ticket_triage.Model.{Db, Settings}
use ticket_triage.Provider.{Message, Exchange}
use ticket_triage.Client
use ticket_triage.Client.{
  World, LlmResult, Completed, complete, call_row, usage_tokens, token_count,
}
use ticket_triage.Client.Effect.{Effect, complete-Effect}
use ticket_triage.Client.Answers.{Documented, Provides}
use ticket_triage.Prompts.{Letter, build_classify_messages, build_repair_messages}
use ticket_triage.Schema.{
  Decoder, Parsed, parsed, refused, parse_raised, TriageResult, parse_triage,
}
use ticket_triage.Classifier.{
  answer_of, mark_parse_error, after_repair_parse, after_repair, ask_repair, after_first_parse,
  after_first, structured_output, classify_ticket,
}
use ticket_triage.Classifier.Answers.{is_expected, IsReadable, classify_ticket-expected}
use ticket_triage.Evals.Pipeline.Calls.{Below, contains-Below, mark_rows-Below, Below-step}
use ticket_triage.Evals.Pipeline.Replies.{Below-later}

different : (a b : Text) → (a ≢ b) → (a == b) ≡ false
different a b h = elim (Bool-cases (a == b)) [
  | inl e ↦ absurd (h ((text_eq.beq_iff a b).0 e))
  | inr e ↦ e
]

module _ (number : Text → ℕ) where
  abbrev pub Under : ℕ → World → Type 0
  Under k w = Below number k w.db.llm_calls

  module _ (settings : Settings) (purpose : Purpose) (x : Exchange) (k : ℕ)
      (numbered : number x.call_id ≡ k) where
    Effect-Under :
        (w w' : World) (c : Completed)
        → Effect settings purpose none x w (c, w')
        → Under k w
        → Under (suc k) w'
    Effect-Under w w' (Client.completed r) (rec, _, _, _) h =
        subst (λ (db : Db). Below number (suc k) db.llm_calls) (sym rec.row_added)
          (Below-step number k w.db.llm_calls
            (call_row settings purpose none x _ rec.input_tokens rec.output_tokens) numbered h)
    Effect-Under w w' Client.circuit_open_error (same, _) h =
        subst (Under (suc k)) (sym same) (Below-later number k w.db.llm_calls h)
    Effect-Under w w' (Client.provider_error o detail) (rec, _, _, _) h =
        subst (λ (db : Db). Below number (suc k) db.llm_calls) (sym rec.row_added)
          (Below-step number k w.db.llm_calls
            (call_row settings purpose none x o rec.input_tokens rec.output_tokens) numbered h)
    Effect-Under w w' Client.other_error (same, _) h =
        subst (Under (suc k)) (sym same) (Below-later number k w.db.llm_calls h)

  module _ (d : Decoder) (settings : Settings) (x y : Exchange) (letter : Letter) (k : ℕ)
      (number_x : number x.call_id ≡ k) (number_y : number y.call_id ≡ suc k) where
    abbrev first_messages : List Message
    first_messages = build_classify_messages letter

    after_repair_parse-Under :
        (second : LlmResult) (q : Parsed TriageResult) (w : World)
        → Under (suc (suc k)) w
        → Under
            (suc (suc k))
            (after_repair_parse settings
              (parse_triage d)
              none
              first_messages
              (build_repair_messages letter)
              classify
              repair
              x
              y
              second
              q
              w).1
    unfolding after_repair_parse mark_parse_error
    after_repair_parse-Under second (parsed a) w h = h
    after_repair_parse-Under second (refused errors) w h =
        mark_rows-Below number second.call (suc (suc k)) w.db.llm_calls h
    after_repair_parse-Under second parse_raised w h = h

    after_repair-Under :
        (c : Completed) (w : World)
        → Under (suc (suc k)) w
        → Under
            (suc (suc k))
            (after_repair settings
              (parse_triage d)
              none
              first_messages
              (build_repair_messages letter)
              classify
              repair
              x
              y
              (answer_of c)
              w).1
    unfolding after_repair answer_of
    after_repair-Under (Client.completed r) w h =
        after_repair_parse-Under r (parse_triage d r.content) w h
    after_repair-Under Client.circuit_open_error w h = h
    after_repair-Under (Client.provider_error o detail) w h = h
    after_repair-Under Client.other_error w h = h

    after_first_parse-Under :
        (first : LlmResult) (q : Parsed TriageResult) (w : World)
        → Under (suc k) w
        → Under
            (suc (suc k))
            (after_first_parse settings
              (parse_triage d)
              none
              first_messages
              (build_repair_messages letter)
              classify
              repair
              x
              y
              first
              q
              w).1
    unfolding after_first_parse ask_repair mark_parse_error
    after_first_parse-Under first (parsed a) w h = Below-later number (suc k) w.db.llm_calls h
    after_first_parse-Under first parse_raised w h = Below-later number (suc k) w.db.llm_calls h
    after_first_parse-Under first (refused errors) w h =
        let w1 = mark_parse_error first.call w in
        let messages = build_repair_messages letter first.content errors in
        let after = complete settings repair none y messages w1 in
        after_repair-Under after.0 after.1 (
          Effect-Under settings repair y (suc k) number_y w1 after.1 after.0
            (complete-Effect settings repair none y messages w1)
            (mark_rows-Below number first.call (suc k) w.db.llm_calls h))

    after_first-Under :
        (c : Completed) (w : World)
        → Under (suc k) w
        → Under
            (suc (suc k))
            (after_first settings
              (parse_triage d)
              none
              first_messages
              (build_repair_messages letter)
              classify
              repair
              x
              y
              (answer_of c)
              w).1
    unfolding after_first answer_of
    after_first-Under (Client.completed r) w h =
        after_first_parse-Under r (parse_triage d r.content) w h
    after_first-Under Client.circuit_open_error w h = Below-later number (suc k) w.db.llm_calls h
    after_first-Under (Client.provider_error o detail) w h =
        Below-later number (suc k) w.db.llm_calls h
    after_first-Under Client.other_error w h = Below-later number (suc k) w.db.llm_calls h

    -- The ids of a classification's calls have the next two numbers.
    classify_ticket-Under :
        (w : World)
        → Under k w
        → Under (suc (suc k)) (classify_ticket d settings x y none letter w).1
    unfolding classify_ticket structured_output
    classify_ticket-Under w h =
        let after = complete settings classify none x first_messages w in
        after_first-Under after.0 after.1 (
          Effect-Under settings classify x k number_x w after.1 after.0
            (complete-Effect settings classify none x first_messages w) h)

  module _ (d : Decoder) (settings : Settings) (x y : Exchange) (letter : Letter) (k : ℕ)
      (number_x : number x.call_id ≡ k) (number_y : number y.call_id ≡ suc k)
      (good_x : Documented x) (good_y : Documented y) (texts_x : Provides (IsReadable d) x)
      (texts_y : Provides (IsReadable d) y) where
    -- A classification gives a result, and the ids of its calls have the next two numbers.
    pub classify_ticket-returns :
        (w : World)
        → Under k w
        → (is_expected (classify_ticket d settings x y none letter w).0 ≡ true)
          × Under (suc (suc k)) (classify_ticket d settings x y none letter w).1
    classify_ticket-returns w h =
        let new_x = contains-Below number x.call_id k w.db.llm_calls h (omega (arith, number_x)) in
        let new_y = contains-Below number y.call_id k w.db.llm_calls h (omega (arith, number_y)) in
        (
          classify_ticket-expected d settings x y none letter w good_x good_y texts_x texts_y
              (record { new_id = new_x; its_ticket = refl })
              (record { new_id = new_y; its_ticket = refl })
              (different x.call_id y.call_id (λ e. omega (arith, ap number e, number_x, number_y))),
          classify_ticket-Under d settings x y letter k number_x number_y w h,
        )
