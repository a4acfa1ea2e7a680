-- ===== src/Classifier.antt =====
-- `classify_ticket` and `generate_reply_draft` of app/services/classifier.py. The two functions are
-- the same code over another prompt, parser and pair of purposes: `structured_output` is that code.
pub mod Ledger
pub mod Protocol
pub mod Answers
use ticket_triage.Base.{ℕ, ◌==◌, Option, none, some, List, [], ◌∷◌, if◌then◌else◌}
use ticket_triage.Text.{Text, text_eq}
use ticket_triage.Labels.{
  Purpose, classify, repair, reply_draft, reply_repair, Outcome, parse_error, TriageError,
  parse_failed, provider_error, circuit_open,
}
use ticket_triage.Model.{LlmCall, Db, Settings}
use ticket_triage.Provider.{Message, Exchange}
use ticket_triage.Client
use ticket_triage.Client.{World, LlmResult, Completed, complete}
use ticket_triage.Prompts.{
  Letter, Grounding, build_classify_messages, build_repair_messages, build_reply_messages,
  build_reply_repair_messages,
}
use ticket_triage.Schema.{
  Decoder, Parsed, parsed, refused, parse_raised, TriageResult, ReplyDraftResult, parse_triage,
  parse_reply,
}

-- A result with its number of attempts, a failure with its reason, or any other exception.
pub data Produced (A : Type 0) : Type 0 where
  produced : A → ℕ → Produced A
  failed : TriageError → Produced A
  unexpected : Produced A

-- `_call` and `_reply_call`: the exceptions of the client as reasons.
pub data Answer : Type 0 where
  answered : LlmResult → Answer
  call_failed : TriageError → Answer
  call_raised : Answer

unfoldable pub answer_of : Completed → Answer
answer_of (Client.completed r) = answered r
answer_of Client.circuit_open_error = call_failed circuit_open
answer_of (Client.provider_error o detail) = call_failed provider_error
answer_of Client.other_error = call_raised

-- `result.call.outcome = "parse_error"`
unfoldable pub mark_rows : Text → List LlmCall → List LlmCall
mark_rows k [] = []
mark_rows k (r ∷ rs) =
    let rest = mark_rows k rs in
    if r.id == k then record r { outcome = parse_error } ∷ rest else r ∷ rest

unfoldable pub mark_parse_error : Text → World → World
unfolding mark_rows
mark_parse_error k w = record w { db = record w.db { llm_calls = mark_rows k w.db.llm_calls } }

module _ {A : Type 0} (settings : Settings) (parse : Text → Parsed A) (ticket_id : Option Text)
    (first_messages : List Message) (repair_messages : Text → Text → List Message)
    (first_purpose repair_purpose : Purpose) (x y : Exchange) where
  unfoldable pub after_repair_parse : LlmResult → Parsed A → World → Produced A × World
  after_repair_parse second (parsed a) w = (produced a 2, w)
  after_repair_parse second (refused errors) w =
      (failed parse_failed, mark_parse_error second.call w)
  after_repair_parse second parse_raised w = (unexpected, w)

  unfoldable pub after_repair : Answer → World → Produced A × World
  unfolding after_repair_parse
  after_repair (answered second) w = after_repair_parse second (parse second.content) w
  after_repair (call_failed reason) w = (failed reason, w)
  after_repair call_raised w = (unexpected, w)

  unfoldable pub ask_repair : LlmResult → Text → World → Produced A × World
  unfolding after_repair
  ask_repair first errors w =
      let (c, w') =
        complete settings repair_purpose ticket_id y (repair_messages first.content errors)
          (mark_parse_error first.call w) in
      after_repair (answer_of c) w'

  unfoldable pub after_first_parse : LlmResult → Parsed A → World → Produced A × World
  after_first_parse first (parsed a) w = (produced a 1, w)
  after_first_parse first (refused errors) w = ask_repair first errors w
  after_first_parse first parse_raised w = (unexpected, w)

  unfoldable pub after_first : Answer → World → Produced A × World
  unfolding after_first_parse
  after_first (answered first) w = after_first_parse first (parse first.content) w
  after_first (call_failed reason) w = (failed reason, w)
  after_first call_raised w = (unexpected, w)

  unfoldable pub structured_output : World → Produced A × World
  unfolding after_first
  structured_output w =
      let (c, w') = complete settings first_purpose ticket_id x first_messages w in
      after_first (answer_of c) w'

unfoldable pub classify_ticket :
    Decoder
    → Settings
    → Exchange
    → Exchange
    → Option Text
    → Letter
    → World
    → Produced TriageResult × World
classify_ticket d settings x y ticket_id t =
    structured_output settings (parse_triage d) ticket_id (build_classify_messages t)
      (build_repair_messages t) classify repair x y

unfoldable pub generate_reply_draft :
    Decoder
    → Settings
    → Exchange
    → Exchange
    → Option Text
    → Letter
    → Grounding
    → World
    → Produced ReplyDraftResult × World
generate_reply_draft d settings x y ticket_id t g =
    structured_output settings (parse_reply d) ticket_id (build_reply_messages t g)
      (build_reply_repair_messages t g) reply_draft reply_repair x y
