-- ===== src/Classifier/Protocol.antt =====
-- Where a structured result comes from: a text of the provider that passes the gate, after at most
-- one repair.
use ticket_triage.Base.{ℕ, ◌≡◌, refl, ◌⊎◌, inl, inr, Option, List, [], ◌∷◌, ◌++◌}
use ticket_triage.Text.{Text, codes}
use ticket_triage.Labels.{Purpose, classify, repair, reply_draft, reply_repair}
use ticket_triage.Model.{Settings}
use ticket_triage.Provider.{Message, Exchange}
use ticket_triage.Client
use ticket_triage.Client.{World, LlmResult, Completed, completed, complete}
use ticket_triage.Prompts.{
  Letter, Grounding, build_classify_messages, build_repair_messages, build_reply_messages,
  build_reply_repair_messages, repair_template, reply_repair_template, join,
}
use ticket_triage.Schema.{
  Decoder, Parsed, parsed, refused, parse_raised, TriageResult, ReplyDraftResult, parse_triage,
  parse_reply,
}
use ticket_triage.Classifier.{
  produced, answer_of, mark_parse_error, after_repair_parse, after_repair, ask_repair,
  after_first_parse, after_first, structured_output, classify_ticket, generate_reply_draft,
}

-- The messages of the first request, then the answer as the assistant's, then a message of the user
-- in which the answer stands, and after it the errors.
abbrev pub Quotes : List Message → Text → Text → List Message → Type 0
Quotes first_messages previous errors messages =
    (lead middle tail : Text) × (messages
      ≡ first_messages
        ++ record { role = codes "assistant"; content = previous }
          ∷ record {
            role = codes "user";
            content = lead ++ (previous ++ (middle ++ (errors ++ tail)));
          }
          ∷ [])

build_repair_messages-Quotes :
    (t : Letter) (previous errors : Text)
    → Quotes (build_classify_messages t) previous errors (build_repair_messages t previous errors)
unfolding build_repair_messages repair_template join
build_repair_messages-Quotes t previous errors = (
  join (
      codes "Your previous response could not be parsed as a valid triage "
      ∷ codes "result.\n\nPrevious response:\n"
      ∷ []),
  codes "\n\nValidation errors:\n",
  join (
      codes "\n\nReturn a corrected JSON object with exactly the keys intent, priority, "
      ∷ codes "sentiment, summary, drawn from the allowed values. Return the JSON object "
      ∷ codes "only, with no other text."
      ∷ []),
  refl,
)

build_reply_repair_messages-Quotes :
    (t : Letter) (g : Grounding) (previous errors : Text)
    → Quotes
        (build_reply_messages t g)
        previous
        errors
        (build_reply_repair_messages t g previous errors)
unfolding build_reply_repair_messages reply_repair_template join
build_reply_repair_messages-Quotes t g previous errors = (
  join (
      codes "Your previous response could not be parsed as a valid reply "
      ∷ codes "draft.\n\nPrevious response:\n"
      ∷ []),
  codes "\n\nValidation errors:\n",
  join (
      codes "\n\nReturn a corrected JSON object with exactly the single key \"reply\" (a "
      ∷ codes "plain-text draft). Return the JSON object only, with no other text."
      ∷ []),
  refl,
)

module _ {A : Type 0} (settings : Settings) (parse : Text → Parsed A) (ticket_id : Option Text)
    (first_messages : List Message) (repair_messages : Text → Text → List Message)
    (first_purpose repair_purpose : Purpose) (x y : Exchange) where
  abbrev ask : World → Completed × World
  ask w = complete settings first_purpose ticket_id x first_messages w

  abbrev ask_again : LlmResult → Text → World → Completed × World
  ask_again first errors w =
      complete settings repair_purpose ticket_id y (repair_messages first.content errors)
        (mark_parse_error first.call w)

  -- The first answer passes the gate; or it is refused, and the answer to a repair request that
  -- quotes it and its errors passes.
  abbrev pub Origin : World → A → ℕ → Type 0
  Origin w a n =
      ((n ≡ 1)
        × (first : LlmResult) × ((ask w).0 ≡ completed first)
        × (parse first.content ≡ parsed a))
      ⊎ ((n ≡ 2)
          × (first second : LlmResult) × (errors : Text) × ((ask w).0 ≡ completed first)
          × (parse first.content ≡ refused errors)
          × (messages : List Message) × Quotes first_messages first.content errors messages
          × ((complete settings repair_purpose ticket_id y messages
                (mark_parse_error first.call (ask w).1)).0
              ≡ completed second)
          × (parse second.content ≡ parsed a))

  second_parse :
      (second : LlmResult) (v : Parsed A) (w : World) (a : A) (n : ℕ)
      → (after_repair_parse settings parse ticket_id first_messages repair_messages first_purpose
          repair_purpose x y second v w).0
        ≡ produced a n
      → (n ≡ 2) × (v ≡ parsed a)
  unfolding after_repair_parse
  second_parse second (parsed b) w a n h = (cc h, cc h)
  second_parse second (refused errors) w a n h = cc h
  second_parse second parse_raised w a n h = cc h

  second_answer :
      (c : Completed) (w : World) (a : A) (n : ℕ)
      → (after_repair settings parse ticket_id first_messages repair_messages first_purpose
          repair_purpose x y
          (answer_of c)
          w).0
        ≡ produced a n
      → (n ≡ 2) × (second : LlmResult) × (c ≡ completed second) × (parse second.content ≡ parsed a)
  unfolding after_repair answer_of
  second_answer Client.circuit_open_error w a n h = cc h
  second_answer (Client.provider_error o detail) w a n h = cc h
  second_answer Client.other_error w a n h = cc h
  second_answer (Client.completed second) w a n h =
      let (two, e) = second_parse second (parse second.content) w a n h in (two, second, refl, e)

  first_parse :
      (first : LlmResult) (v : Parsed A) (w : World) (a : A) (n : ℕ)
      → (after_first_parse settings parse ticket_id first_messages repair_messages first_purpose
          repair_purpose x y first v w).0
        ≡ produced a n
      → ((n ≡ 1) × (v ≡ parsed a))
        ⊎ ((errors : Text) × (v ≡ refused errors)
            × (n ≡ 2)
            × (second : LlmResult) × ((ask_again first errors w).0 ≡ completed second)
            × (parse second.content ≡ parsed a))
  unfolding after_first_parse ask_repair
  first_parse first (parsed b) w a n h = inl (cc h, cc h)
  first_parse first (refused errors) w a n h =
      let again = ask_again first errors w in
      let (two, second, e, f) = second_answer again.0 again.1 a n h in
      inr (errors, refl, two, second, e, f)
  first_parse first parse_raised w a n h = cc h

  first_answer :
      (c : Completed) (w : World) (a : A) (n : ℕ)
      → (after_first settings parse ticket_id first_messages repair_messages first_purpose
          repair_purpose x y
          (answer_of c)
          w).0
        ≡ produced a n
      → ((n ≡ 1) × (first : LlmResult) × (c ≡ completed first) × (parse first.content ≡ parsed a))
        ⊎ ((n ≡ 2)
            × (first second : LlmResult) × (errors : Text) × (c ≡ completed first)
            × (parse first.content ≡ refused errors)
            × ((ask_again first errors w).0 ≡ completed second)
            × (parse second.content ≡ parsed a))
  unfolding after_first answer_of
  first_answer Client.circuit_open_error w a n h = cc h
  first_answer (Client.provider_error o detail) w a n h = cc h
  first_answer Client.other_error w a n h = cc h
  first_answer (Client.completed first) w a n h =
      elim (first_parse first (parse first.content) w a n h) [
        | inl (one, e) ↦ inl (one, first, refl, e)
        | inr (errors, e, two, second, again, f) ↦
            inr (two, first, second, errors, refl, e, again, f)
      ]

  structured_output-Origin :
      ((previous errors : Text)
        → Quotes first_messages previous errors (repair_messages previous errors))
      → (w : World) (a : A) (n : ℕ)
      → (structured_output settings parse ticket_id first_messages repair_messages first_purpose
          repair_purpose x y w).0
        ≡ produced a n
      → Origin w a n
  unfolding structured_output
  structured_output-Origin quotes w a n h = elim (first_answer (ask w).0 (ask w).1 a n h) [
    | inl one ↦ inl one
    | inr (two, first, second, errors, e, refusal, again, f) ↦ inr (
      two,
      first,
      second,
      errors,
      e,
      refusal,
      repair_messages first.content errors,
      quotes first.content errors,
      again,
      f,
    )
  ]

-- A produced classification is what the gate makes of a text of the provider: with one attempt, of
-- the answer to the classification request; with two, of the answer to a repair request: the messages
-- of the first request, the first answer as the assistant's, and a message of the user that quotes the
-- first answer and then the errors for which the gate refused it.
pub classify_ticket-Origin :
    (d : Decoder) (settings : Settings) (x y : Exchange) (ticket_id : Option Text) (t : Letter)
    (w : World) (r : TriageResult) (n : ℕ)
    → (classify_ticket d settings x y ticket_id t w).0 ≡ produced r n
    → Origin settings
        (parse_triage d)
        ticket_id
        (build_classify_messages t)
        (build_repair_messages t)
        classify
        repair
        x
        y
        w
        r
        n
unfolding classify_ticket
classify_ticket-Origin d settings x y ticket_id t w r n h =
    structured_output-Origin settings (parse_triage d) ticket_id (build_classify_messages t)
      (build_repair_messages t) classify repair x y (build_repair_messages-Quotes t) w r n h

-- The same of a produced reply draft, with its own requests and gate.
generate_reply_draft-Origin :
    (d : Decoder) (settings : Settings) (x y : Exchange) (ticket_id : Option Text) (t : Letter)
    (g : Grounding) (w : World) (r : ReplyDraftResult) (n : ℕ)
    → (generate_reply_draft d settings x y ticket_id t g w).0 ≡ produced r n
    → Origin settings
        (parse_reply d)
        ticket_id
        (build_reply_messages t g)
        (build_reply_repair_messages t g)
        reply_draft
        reply_repair
        x
        y
        w
        r
        n
unfolding generate_reply_draft
generate_reply_draft-Origin d settings x y ticket_id t g w r n h =
    structured_output-Origin settings (parse_reply d) ticket_id (build_reply_messages t g)
      (build_reply_repair_messages t g) reply_draft reply_repair x y
      (build_reply_repair_messages-Quotes t g) w r n h
