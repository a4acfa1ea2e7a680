-- ===== src/Classifier/Answers.antt =====
-- A documented provider, texts that json.loads reads or refuses, and new ids: the classifier gives a
-- triage or a reason.
use mathlib.Core.Path.{subst, sym}
use ticket_triage.Base.{
  ◌≡◌, refl, ◌∙◌, Bool, true, false, Option, none, some, List, [], ◌∷◌, ◌++◌, ◌==◌, arith,
}
use ticket_triage.Text.{Text, text_eq}
use ticket_triage.Labels.{Purpose, classify, repair}
use ticket_triage.Table
use ticket_triage.Model.{LlmCall, Settings}
use ticket_triage.Provider.{Message, Exchange, Verdict, success, transient, final, crash, judge}
use ticket_triage.Json.{obj, Fields}
use ticket_triage.Client
use ticket_triage.Client.{World, LlmResult, Completed, complete, call_row, content_text}
use ticket_triage.Client.Effect.{Effect, with_call, complete-Effect}
use ticket_triage.Client.Answers.{
  Documented, Insertable, is_answered, complete-answered, Provides, OfText, OfVerdict,
  complete-OfText,
}
use ticket_triage.Prompts.{Letter, build_classify_messages, build_repair_messages}
use ticket_triage.Schema.{
  SchemaError, Loaded, loaded, decode_error, load_error, Decoder, Parsed, parsed, refused,
  parse_raised, gate, parse_document, strip_fences, parse_triage,
}
use ticket_triage.Classifier.{
  Produced, unexpected, answer_of, mark_rows, mark_parse_error, after_repair, after_repair_parse,
  ask_repair, after_first_parse, after_first, structured_output, classify_ticket,
}

abbrev pub is_expected : {A : Type 0} → Produced A → Bool
is_expected unexpected = false
is_expected other = true

abbrev pub is_returned : {A : Type 0} → Parsed A → Bool
is_returned parse_raised = false
is_returned other = true

-- `json.loads` gives a value or a JSONDecodeError for what is left of the text without fences.
abbrev is_read : Loaded → Bool
is_read load_error = false
is_read other = true

abbrev pub IsReadable : Decoder → Text → Type 0
IsReadable d text = is_read (d.loads (strip_fences text)) ≡ true

gate-returned :
    {A : Type 0} (o : Option A) (errors : List SchemaError) → is_returned (gate o errors) ≡ true
gate-returned none errors = refl
gate-returned (some a) errors = refl

parse_document-returned :
    {A : Type 0} (validate : Fields → Option A) (errors : Fields → List SchemaError) (l : Loaded)
    → is_read l ≡ true
    → is_returned (parse_document validate errors l) ≡ true
parse_document-returned validate errors load_error h = absurd (cc h)
parse_document-returned validate errors (decode_error m) h = refl
parse_document-returned validate errors (loaded (obj fs)) h =
    gate-returned (validate fs) (errors fs)
parse_document-returned validate errors (loaded _) h = refl

pub parse_triage-returned :
    (d : Decoder) (text : Text) → IsReadable d text → is_returned (parse_triage d text) ≡ true
unfolding parse_triage
parse_triage-returned d text h = parse_document-returned _ _ (d.loads (strip_fences text)) h

Provides-returned :
    (d : Decoder) (x : Exchange)
    → Provides (IsReadable d) x
    → Provides (λ text. is_returned (parse_triage d text) ≡ true) x
Provides-returned d x h = λ payload n. go (judge (x.post payload n)) (h payload n)
  where
    go :
        (v : Verdict)
        → OfVerdict (IsReadable d) x.repr v
        → OfVerdict (λ text. is_returned (parse_triage d text) ≡ true) x.repr v
    go (success content usage) r = parse_triage-returned d (content_text x.repr content) r
    go (transient o detail) r = tt
    go (final o detail) r = tt
    go crash r = tt

abbrev id_of : LlmCall → Text
id_of c = c.id

contains-append :
    (k : Text) (cs : List LlmCall) (c : LlmCall)
    → Table.contains id_of k cs ≡ false
    → (c.id == k) ≡ false
    → Table.contains id_of k (cs ++ c ∷ []) ≡ false
unfolding Table.contains
contains-append k [] c h e = ground arith
contains-append k (b ∷ cs) c h e = ground (arith, contains-append k cs c)

contains-mark_rows :
    (k j : Text) (cs : List LlmCall)
    → Table.contains id_of k (mark_rows j cs) ≡ Table.contains id_of k cs
unfolding Table.contains mark_rows
contains-mark_rows k j [] = refl
contains-mark_rows k j (c ∷ cs) = ground (arith, contains-mark_rows k j cs)

module _ {A : Type 0} (settings : Settings) (parse : Text → Parsed A) (ticket_id : Option Text)
    (first_messages : List Message) (repair_messages : Text → Text → List Message) (p q : Purpose)
    (x y : Exchange) (good_x : Documented x) (good_y : Documented y)
    (texts_x : Provides (λ text. is_returned (parse text) ≡ true) x)
    (texts_y : Provides (λ text. is_returned (parse text) ≡ true) y) where
  abbrev Returns : Text → Type 0
  Returns text = is_returned (parse text) ≡ true

  repair_parse-expected :
      (second : LlmResult) (v : Parsed A) (w : World)
      → is_returned v ≡ true
      → is_expected
          (after_repair_parse settings parse ticket_id first_messages repair_messages p q x y second
            v w).0
        ≡ true
  unfolding after_repair_parse
  repair_parse-expected second (parsed a) w h = refl
  repair_parse-expected second (refused errors) w h = refl
  repair_parse-expected second parse_raised w h = absurd (cc h)

  repair-expected :
      (c : Completed) (w : World)
      → is_answered c ≡ true
      → OfText Returns c
      → is_expected
          (after_repair settings parse ticket_id first_messages repair_messages p q x y
            (answer_of c)
            w).0
        ≡ true
  unfolding after_repair answer_of
  repair-expected (Client.completed r) w h ret = repair_parse-expected r (parse r.content) w ret
  repair-expected Client.circuit_open_error w h ret = refl
  repair-expected (Client.provider_error o detail) w h ret = refl
  repair-expected Client.other_error w h ret = absurd (cc h)

  -- After the first call the repair still has a new id and its ticket.
  still-Insertable :
      (row : LlmCall) (j : Text) (w w' : World)
      → Insertable settings q ticket_id y w.db
      → w'.db ≡ with_call row w.db
      → (row.id == y.call_id) ≡ false
      → Insertable settings q ticket_id y (mark_parse_error j w').db
  unfolding mark_parse_error
  still-Insertable row j w w' h e ne =
      subst
        (λ db.
          Insertable settings q ticket_id y (record db { llm_calls = mark_rows j db.llm_calls }))
        (sym e)
        (record {
          new_id =
              contains-mark_rows y.call_id j (w.db.llm_calls ++ row ∷ [])
              ∙ contains-append y.call_id w.db.llm_calls row h.new_id ne;
          its_ticket = h.its_ticket;
        })

  first_parse-expected :
      (first : LlmResult) (v : Parsed A) (w : World)
      → is_returned v ≡ true
      → Insertable settings q ticket_id y (mark_parse_error first.call w).db
      → is_expected
          (after_first_parse settings parse ticket_id first_messages repair_messages p q x y first v
            w).0
        ≡ true
  unfolding after_first_parse ask_repair
  first_parse-expected first (parsed a) w ret h = refl
  first_parse-expected first (refused errors) w ret h =
      let messages = repair_messages first.content errors in
      let w1 = mark_parse_error first.call w in
      repair-expected _ _ (complete-answered settings q ticket_id y messages w1 good_y h)
        (complete-OfText Returns settings q ticket_id y messages w1 texts_y)
  first_parse-expected first parse_raised w ret h = absurd (cc ret)

  first-expected :
      (c : Completed) (w w' : World)
      → is_answered c ≡ true
      → OfText Returns c
      → Effect settings p ticket_id x w (c, w')
      → Insertable settings q ticket_id y w.db
      → (x.call_id == y.call_id) ≡ false
      → is_expected
          (after_first settings parse ticket_id first_messages repair_messages p q x y
            (answer_of c)
            w').0
        ≡ true
  unfolding after_first answer_of
  first-expected (Client.completed r) w w' h ret (rec, _, _, _) ins ne =
      first_parse-expected r (parse r.content) w' ret (
        still-Insertable (call_row settings p ticket_id x _ rec.input_tokens rec.output_tokens)
          r.call w w' ins rec.row_added ne)
  first-expected Client.circuit_open_error w w' h ret e ins ne = refl
  first-expected (Client.provider_error o detail) w w' h ret e ins ne = refl
  first-expected Client.other_error w w' h ret e ins ne = absurd (cc h)

  structured_output-expected :
      (w : World)
      → Insertable settings p ticket_id x w.db
      → Insertable settings q ticket_id y w.db
      → (x.call_id == y.call_id) ≡ false
      → is_expected
          (structured_output settings parse ticket_id first_messages repair_messages p q x y w).0
        ≡ true
  unfolding structured_output
  structured_output-expected w ins_x ins_y ne =
      let after = complete settings p ticket_id x first_messages w in
      first-expected after.0 w after.1
        (complete-answered settings p ticket_id x first_messages w good_x ins_x)
        (complete-OfText Returns settings p ticket_id x first_messages w texts_x)
        (complete-Effect settings p ticket_id x first_messages w) ins_y ne

-- From a documented provider, whose texts json.loads reads or refuses, a classification gives a triage
-- or a reason, never another exception, if its calls have new ids and the ticket is in its table.
pub classify_ticket-expected :
    (d : Decoder) (settings : Settings) (x y : Exchange) (ticket_id : Option Text) (t : Letter)
    (w : World)
    → Documented x
    → Documented y
    → Provides (IsReadable d) x
    → Provides (IsReadable d) y
    → Insertable settings classify ticket_id x w.db
    → Insertable settings repair ticket_id y w.db
    → (x.call_id == y.call_id) ≡ false
    → is_expected (classify_ticket d settings x y ticket_id t w).0 ≡ true
unfolding classify_ticket
classify_ticket-expected d settings x y ticket_id t w good_x good_y texts_x texts_y ins_x ins_y ne =
    structured_output-expected settings (parse_triage d) ticket_id (build_classify_messages t)
      (build_repair_messages t) classify repair x y good_x good_y (Provides-returned d x texts_x)
      (Provides-returned d y texts_y) w ins_x ins_y ne
