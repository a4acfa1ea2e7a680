-- ===== src/Evals/Pipeline/Replies.antt =====
-- A classification on recorded replies: the parser decides.
use mathlib.Core.Path.{subst}
use ticket_triage.Base.{ℕ, suc, ◌/◌, ◌<◌, ◌≡◌, refl, ap, sym, true, none, List, All-map, arith}
use ticket_triage.Text.{Text, text_eq}
use ticket_triage.Labels.{classify, repair, parse_failed}
use ticket_triage.Model.{LlmCall, Settings}
use ticket_triage.Breaker.{CircuitBreaker, allow, record_success}
use ticket_triage.Provider.{Message, Payload, response, document, Exchange}
use ticket_triage.Client.{World, LlmResult}
use ticket_triage.Prompts.{Letter, build_classify_messages, build_repair_messages}
use ticket_triage.Schema.{
  Decoder, Parsed, parsed, refused, parse_raised, TriageResult, parse_triage,
}
use ticket_triage.Classifier.{
  Produced, produced, failed, unexpected, answer_of, mark_parse_error, after_repair_parse,
  after_repair, ask_repair, after_first_parse, after_first, structured_output, classify_ticket,
}
use ticket_triage.Evals.Pipeline.Calls.{
  complete-fixture, row_of, payload_of, fixture_result, fixture_world, Below, contains-Below,
  mark_rows-Below, Below-step,
}
use ticket_triage.Evals.Pipeline.{fixture_document}

-- What the classifier makes of one text, as both replies.
abbrev pub outcome_of : Parsed TriageResult → Produced TriageResult
outcome_of (parsed r) = produced r 1
outcome_of (refused errors) = failed parse_failed
outcome_of parse_raised = unexpected

abbrev pub offline_outcome : Decoder → Text → Produced TriageResult
offline_outcome d text = outcome_of (parse_triage d text)

pub Below-later :
    (number : Text → ℕ) (k : ℕ) (cs : List LlmCall) → Below number k cs → Below number (suc k) cs
Below-later number k cs h =
    All-map (λ (c : LlmCall). number c.id < k) (λ c. number c.id < suc k) cs
      (λ c l. omega (arith, l)) h

module _ (d : Decoder) (settings : Settings) (number : Text → ℕ) (size : Payload → ℕ)
    (text : Text) where
  abbrev Answers : Exchange → Type 0
  Answers x =
      (payload : Payload)
      → x.post payload ≡ (λ attempt. response 200 (document (fixture_document (size payload) text)))

  -- An outcome, and a database whose ids have numbers below `k`.
  abbrev pub Ends : ℕ → Produced TriageResult → Produced TriageResult × World → Type 0
  Ends k expected (outcome, w) = (outcome ≡ expected) × Below number k w.db.llm_calls

  allow_closed : (now : ℕ) (b : CircuitBreaker) → b.open_until ≡ 0 → allow now b ≡ true
  unfolding allow
  allow_closed now b h = rw h refl

  module _ (x y : Exchange) (letter : Letter) (k : ℕ) (answers_x : Answers x)
      (answers_y : Answers y) (number_x : number x.call_id ≡ k)
      (number_y : number y.call_id ≡ suc k) where
    abbrev first_messages : List Message
    first_messages = build_classify_messages letter

    abbrev repair_call : LlmResult → Text → List Message
    repair_call first errors = build_repair_messages letter first.content errors

    ask_repair-Ends :
        (errors again : Text) (first : LlmResult) (w : World)
        → parse_triage d text ≡ refused again
        → Below number (suc k) w.db.llm_calls
        → w.breaker.open_until ≡ 0
        → Ends (suc (suc k)) (failed parse_failed) (
            ask_repair settings
              (parse_triage d)
              none
              first_messages
              (build_repair_messages letter)
              classify
              repair
              x
              y
              first
              errors
              w)
    unfolding ask_repair after_repair after_repair_parse answer_of mark_parse_error record_success
    ask_repair-Ends errors again first w e below open_until =
        let n = size (payload_of settings (repair_call first errors)) / 4 in
        let marked = mark_rows-Below number first.call (suc k) w.db.llm_calls below in
        let call =
          complete-fixture settings repair y size text answers_y (repair_call first errors)
            (mark_parse_error first.call w) (allow_closed y.allow_at w.breaker open_until)
            (contains-Below number y.call_id (suc k) _ marked (omega (arith, number_y))) in
        subst
          (λ r. Ends (suc (suc k)) (failed parse_failed) (
            after_repair settings (parse_triage d) none first_messages
              (build_repair_messages letter) classify repair x y (answer_of r.0) r.1))
          (sym call)
          (subst
            (λ q. Ends (suc (suc k)) (failed parse_failed) (
              after_repair_parse settings (parse_triage d) none first_messages
                (build_repair_messages letter) classify repair x y (fixture_result y text n) q
                (fixture_world settings repair y n (mark_parse_error first.call w))))
            (sym e)
            (
              refl,
              mark_rows-Below number y.call_id (suc (suc k)) _
                  (Below-step number (suc k) _ (row_of settings repair y n) number_y marked),
            ))

    -- The parse of the first reply decides.
    after_first_parse-Ends :
        (first : LlmResult) (w : World) (q : Parsed TriageResult)
        → parse_triage d text ≡ q
        → Below number (suc k) w.db.llm_calls
        → w.breaker.open_until ≡ 0
        → Ends (suc (suc k)) (offline_outcome d text) (
            after_first_parse settings
              (parse_triage d)
              none
              first_messages
              (build_repair_messages letter)
              classify
              repair
              x
              y
              first
              q
              w)
    unfolding after_first_parse
    after_first_parse-Ends first w (parsed r) e below open_until =
        (sym (ap outcome_of e), Below-later number (suc k) w.db.llm_calls below)
    after_first_parse-Ends first w (refused errors) e below open_until =
        subst
          (λ o. Ends (suc (suc k)) o (
            ask_repair settings (parse_triage d) none first_messages (build_repair_messages letter)
              classify repair x y first errors w))
          (sym (ap outcome_of e)) (ask_repair-Ends errors errors first w e below open_until)
    after_first_parse-Ends first w parse_raised e below open_until =
        (sym (ap outcome_of e), Below-later number (suc k) w.db.llm_calls below)

    pub classify_ticket-Ends :
        (w : World)
        → Below number k w.db.llm_calls
        → w.breaker.open_until ≡ 0
        → Ends (suc (suc k)) (offline_outcome d text) (classify_ticket d settings x y none letter w)
    unfolding classify_ticket structured_output after_first answer_of record_success
    classify_ticket-Ends w below open_until =
        let n = size (payload_of settings first_messages) / 4 in
        let call =
          complete-fixture settings classify x size text answers_x first_messages w
            (allow_closed x.allow_at w.breaker open_until)
            (contains-Below number x.call_id k w.db.llm_calls below (omega (arith, number_x))) in
        subst
          (λ r. Ends (suc (suc k)) (offline_outcome d text) (
            after_first settings (parse_triage d) none first_messages (build_repair_messages letter)
              classify repair x y (answer_of r.0) r.1))
          (sym call)
          (after_first_parse-Ends (fixture_result x text n) (fixture_world settings classify x n w)
            (parse_triage d text) refl
            (Below-step number k w.db.llm_calls (row_of settings classify x n) number_x below) refl)
