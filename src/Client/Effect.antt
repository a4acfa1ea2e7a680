-- ===== src/Client/Effect.antt =====
-- What a provider call leaves behind, for each way in which it ends.
use ticket_triage.Base.{
  ℕ, ◌≡◌, refl, ◌⊎◌, inl, inr, Bool, true, false, Bool-cases, Option, none, some, Option-cases, ◌∙◌,
  List, [], ◌∷◌, ◌++◌, arith, eqb, if◌then◌else◌,
}
use ticket_triage.Text.{codes, Text, text_eq}
use ticket_triage.Labels.{Purpose, Outcome, ok, parse_error, timeout, api_error}
use ticket_triage.Table
use ticket_triage.Model.{LlmCall, Db, Settings, insert_call}
use ticket_triage.Json.{Json}
use ticket_triage.Breaker.{allow, record_success, record_failure}
use ticket_triage.Provider.{
  unreadable, broken, Message, Response, Verdict, transient, final, success, crash, judge,
  judge_document, judge_status, retryable_status, extract, malformed, document, raised, response,
  Exchange, Attempted, returned, crashed, attempt_with_retries,
}
use ticket_triage.Provider.Retries.{decided, attempt_with_retries_total}
use ticket_triage.Client.{
  World, Completed, completed, circuit_open_error, provider_error, other_error, complete,
  record_attempt, read_usage, flush_call, settle, usage_tokens, call_row,
}

abbrev pub NetworkFailure : Outcome → Type 0
NetworkFailure o = (o ≡ timeout) ⊎ (o ≡ api_error)

-- The session with one more row.
abbrev pub with_call : LlmCall → Db → Db
with_call row db = record db { llm_calls = db.llm_calls ++ row ∷ [] }

insert_call-inserts :
    (row : LlmCall) (db : Db) {db' : Db}
    → insert_call row db ≡ some db'
    → (Table.contains (λ (c : LlmCall). c.id) row.id db.llm_calls ≡ false)
      × (db' ≡ with_call row db)
unfolding insert_call
insert_call-inserts row db h = ground arith

-- The outcomes that a verdict, and then the loop, can name.
abbrev pub FailsAs : Verdict → Type 0
FailsAs (transient o d) = NetworkFailure o
FailsAs (final o d) = NetworkFailure o
FailsAs _ = Unit

abbrev EndsAs : Attempted → Type 0
EndsAs (returned o c u d) = (o ≡ ok) ⊎ NetworkFailure o
EndsAs crashed = Unit

judge_document-FailsAs : (j : Json) → FailsAs (judge_document j)
unfolding judge_document
judge_document-FailsAs j = go (extract j)
  where
    go :
        (o : Option (Json × Json))
        → FailsAs (elim o [ none ↦ crash | some (content, usage) ↦ success content usage ])
    go none = tt
    go (some (content, usage)) = tt

FailsAs-if : (b : Bool) (v v' : Verdict) → FailsAs v → FailsAs v' → FailsAs (if b then v else v')
FailsAs-if true v v' h h' = h
FailsAs-if false v v' h h' = h'

status_failure : (b : Bool) → NetworkFailure (if b then timeout else api_error)
status_failure true = inl refl
status_failure false = inr refl

judge_status-FailsAs : (s : ℕ) → FailsAs (judge_status s)
unfolding judge_status
judge_status-FailsAs s =
    FailsAs-if (retryable_status s) _ _ (status_failure (eqb s 408)) (status_failure (eqb s 408))

pub judge-FailsAs : (r : Response) → FailsAs (judge r)
unfolding judge
judge-FailsAs (raised name) = inl refl
judge-FailsAs broken = tt
judge-FailsAs (response s (malformed name)) =
    FailsAs-if (eqb s 200) _ (judge_status s) (inr refl) (judge_status-FailsAs s)
judge-FailsAs (response s unreadable) =
    FailsAs-if (eqb s 200) crash (judge_status s) tt (judge_status-FailsAs s)
judge-FailsAs (response s (document j)) =
    FailsAs-if (eqb s 200) (judge_document j) (judge_status s) (judge_document-FailsAs j)
      (judge_status-FailsAs s)

decided-EndsAs : (v : Verdict) → FailsAs v → EndsAs (decided v)
decided-EndsAs (success c u) h = inl refl
decided-EndsAs (transient o d) h = inr h
decided-EndsAs (final o d) h = inr h
decided-EndsAs crash h = tt

attempt_with_retries-EndsAs :
    (settings : Settings) (post : ℕ → Response) (jitter : ℕ → ℕ)
    → EndsAs (attempt_with_retries settings post jitter).result
attempt_with_retries-EndsAs settings post jitter =
    let (n, _, _, _, e) = attempt_with_retries_total settings post jitter in
    rw e (decided-EndsAs (judge (post n)) (judge-FailsAs (post n)))

module _ (settings : Settings) (purpose : Purpose) (ticket_id : Option Text) (x : Exchange) where
  -- One new row, of this purpose, ticket and outcome, with the cost of its tokens.
  pub record Recorded (outcome : Outcome) (w w' : World) : Type 0 where
    pub input_tokens : Option ℕ
    pub output_tokens : Option ℕ
    pub new_id : Table.contains (λ (c : LlmCall). c.id) x.call_id w.db.llm_calls ≡ false
    pub row_added :
        w'.db
        ≡ with_call (call_row settings purpose ticket_id x outcome input_tokens output_tokens) w.db

  -- The effect of a call, by its result.
  abbrev pub Effect : World → Completed × World → Type 0
  Effect w (completed r, w') =
      Recorded ok w w'
      × (w'.breaker ≡ record_success w.breaker)
      × (r.call ≡ x.call_id)
      × (allow x.allow_at w.breaker ≡ true)
  Effect w (circuit_open_error, w') = (w' ≡ w) × (allow x.allow_at w.breaker ≡ false)
  Effect w (provider_error o detail, w') =
      Recorded o w w'
      × (w'.breaker ≡ record_failure x.failed_at w.breaker)
      × NetworkFailure o
      × (allow x.allow_at w.breaker ≡ true)
  Effect w (other_error, w') = (w' ≡ w) × (allow x.allow_at w.breaker ≡ true)

  settle-Effect :
      (o : Outcome) (content : Json) (detail : Text) (i t : Option ℕ) (w : World) (db : Db)
      → (o ≡ ok) ⊎ NetworkFailure o
      → allow x.allow_at w.breaker ≡ true
      → insert_call (call_row settings purpose ticket_id x o i t) w.db ≡ some db
      → Effect w (settle settings purpose ticket_id x o content detail i t db w.breaker)
  unfolding settle
  settle-Effect o content detail i t w db h a e = go o h row
    where
      parts :
          (Table.contains (λ (c : LlmCall). c.id) x.call_id w.db.llm_calls ≡ false)
          × (db ≡ with_call (call_row settings purpose ticket_id x o i t) w.db)
      parts = insert_call-inserts (call_row settings purpose ticket_id x o i t) w.db e

      row : (w' : World) → w'.db ≡ db → Recorded o w w'
      row w' same = record {
        input_tokens = i;
        output_tokens = t;
        new_id = parts.0;
        row_added = same ∙ parts.1;
      }

      go :
          (o : Outcome)
          → (o ≡ ok) ⊎ NetworkFailure o
          → ((w' : World) → w'.db ≡ db → Recorded o w w')
          → Effect w (settle settings purpose ticket_id x o content detail i t db w.breaker)
      go ok h rec = (rec _ refl, refl, refl, a)
      go timeout h rec = (rec _ refl, refl, inl refl, a)
      go api_error h rec = (rec _ refl, refl, inr refl, a)
      go parse_error h rec = ground arith

  flush_call-Effect :
      (o : Outcome) (content : Json) (detail : Text) (i t : Option ℕ) (w : World)
      → (o ≡ ok) ⊎ NetworkFailure o
      → allow x.allow_at w.breaker ≡ true
      → Effect w (flush_call settings purpose ticket_id x o content detail i t w)
  unfolding flush_call
  flush_call-Effect o content detail i t w h a =
      elim (Option-cases (insert_call (call_row settings purpose ticket_id x o i t) w.db)) [
        | inl e ↦ rw (e, flush_call) (refl, a)
        | inr (db, e) ↦ rw (e, flush_call) (settle-Effect o content detail i t w db h a e)
      ]

  read_usage-Effect :
      (o : Outcome) (content usage : Json) (detail : Text) (w : World)
      → (o ≡ ok) ⊎ NetworkFailure o
      → allow x.allow_at w.breaker ≡ true
      → Effect w (read_usage settings purpose ticket_id x o content usage detail w)
  unfolding read_usage
  read_usage-Effect o content usage detail w h a =
      elim (Option-cases (usage_tokens (codes "prompt_tokens") usage)) [
        | inl e ↦ rw (e, read_usage) (refl, a)
        | inr (i, e) ↦
            rw (e, read_usage)
              (elim (Option-cases (usage_tokens (codes "completion_tokens") usage)) [
                | inl f ↦ rw (f, read_usage) (refl, a)
                | inr (t, f) ↦ rw (f, read_usage) (flush_call-Effect o content detail i t w h a)
              ])
      ]

  record_attempt-Effect :
      (r : Attempted) (w : World)
      → EndsAs r
      → allow x.allow_at w.breaker ≡ true
      → Effect w (record_attempt settings purpose ticket_id x r w)
  unfolding record_attempt
  record_attempt-Effect crashed w h a = (refl, a)
  record_attempt-Effect (returned o content usage detail) w h a =
      read_usage-Effect o content usage detail w h a

  -- A provider call ends in one of four ways. With the breaker open no call is made and nothing
  -- changes. Otherwise: a result adds exactly one row with outcome `ok` and resets the breaker; a
  -- provider error adds exactly one row, with the outcome of the error, which is a timeout or an API
  -- error, and counts one failure; any other exception adds no row and leaves the breaker alone.
  pub complete-Effect :
      (messages : List Message) (w : World)
      → Effect w (complete settings purpose ticket_id x messages w)
  unfolding complete
  complete-Effect messages w = elim (Bool-cases (allow x.allow_at w.breaker)) [
    | inr f ↦ rw f (refl, f)
    | inl t ↦ rw t (
        record_attempt-Effect _ w
          (attempt_with_retries-EndsAs settings
            (x.post (record { model = settings.llm_model; messages = messages; temperature = 0 }))
            x.jitter)
          t)
  ]
