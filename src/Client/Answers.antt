-- ===== src/Client/Answers.antt =====
-- A provider whose documents have the documented shape: no call raises.
use mathlib.Core.Path.{subst, sym}
use ticket_triage.Base.{
  ℕ, ◌≡◌, refl, ap, ◌∙◌, Bool, true, false, ◌||◌, not, Bool-cases, inl, inr, Option, none, some,
  List, [], Option-cases, arith, if◌then◌else◌,
}
use ticket_triage.Text.{Text, codes, text_eq}
use ticket_triage.Labels.{Purpose, Outcome, ok, outcome_eq}
use ticket_triage.Table
use ticket_triage.Model.{LlmCall, Db, Settings, ticket_key, insert_call}
use ticket_triage.Json.{Json, null, truthy}
use ticket_triage.Breaker.{allow}
use ticket_triage.Provider.{
  Message, Payload, Exchange, Verdict, success, transient, final, crash, judge,
}
use ticket_triage.Provider.Retries.{decided, attempt_with_retries_total}
use ticket_triage.Client.{
  World, Completed, completed, other_error, content_text, complete, record_attempt, read_usage,
  flush_call, settle, usage_tokens, call_row,
}
use ticket_triage.Client.Effect.{with_call, NetworkFailure, FailsAs, judge-FailsAs}

-- A 200 is a document with choices, and its token counts are numbers or missing.
abbrev pub Shaped : Verdict → Type 0
Shaped (success content usage) =
    (i : Option ℕ) × (o : Option ℕ) × (usage_tokens (codes "prompt_tokens") usage ≡ some i)
    × (usage_tokens (codes "completion_tokens") usage ≡ some o)
Shaped crash = ⊥
Shaped other = Unit

-- The provider keeps to its documents, whatever it answers.
abbrev pub Documented : Exchange → Type 0
Documented x = (payload : Payload) (n : ℕ) → Shaped (judge (x.post payload n))

abbrev pub is_answered : Completed → Bool
is_answered other_error = false
is_answered other = true

module _ (settings : Settings) (purpose : Purpose) (ticket_id : Option Text) (x : Exchange) where
  -- What the INSERT of the call's row needs.
  pub record Insertable (db : Db) : Type 0 where
    pub new_id : Table.contains (λ (c : LlmCall). c.id) x.call_id db.llm_calls ≡ false
    pub its_ticket :
        elim ticket_id [ none ↦ false | some k ↦ not (Table.contains ticket_key k db.tickets) ]
        ≡ false

  settle-answered :
      (o : Outcome) (content : Json) (detail : Text) (i t : Option ℕ) (db : Db) (w : World)
      → is_answered (settle settings purpose ticket_id x o content detail i t db w.breaker).0 ≡ true
  unfolding settle
  settle-answered o content detail i t db w = ground arith

  insert_call-new :
      (o : Outcome) (i t : Option ℕ) (db : Db)
      → Insertable db
      → let row = call_row settings purpose ticket_id x o i t in
        insert_call row db ≡ some (with_call row db)
  unfolding insert_call
  insert_call-new o i t db h =
      let row = call_row settings purpose ticket_id x o i t in
      ap
        (λ b.
          if b || elim ticket_id [
            | none ↦ false
            | some k ↦ not (Table.contains ticket_key k db.tickets)
          ]
          then none
          else some (with_call row db))
        h.new_id
      ∙ ap (λ b. if b then none else some (with_call row db)) h.its_ticket

  flush_call-answered :
      (o : Outcome) (content : Json) (detail : Text) (i t : Option ℕ) (w : World)
      → Insertable w.db
      → is_answered (flush_call settings purpose ticket_id x o content detail i t w).0 ≡ true
  unfolding flush_call
  flush_call-answered o content detail i t w h =
      rw (insert_call-new o i t w.db h, flush_call) (settle-answered o content detail i t _ w)

  record_attempt-answered :
      (v : Verdict) (w : World)
      → Shaped v
      → Insertable w.db
      → is_answered (record_attempt settings purpose ticket_id x (decided v) w).0 ≡ true
  unfolding record_attempt read_usage usage_tokens truthy
  record_attempt-answered (success content usage) w (i, o, e, f) h =
      rw (e, f, read_usage) (flush_call-answered ok content [] i o w h)
  record_attempt-answered (transient o d) w s h = flush_call-answered o null d none none w h
  record_attempt-answered (final o d) w s h = flush_call-answered o null d none none w h
  record_attempt-answered crash w s h = absurd s

  -- A call on a documented provider, with a new id and for a ticket of the table, never raises.
  pub complete-answered :
      (messages : List Message) (w : World)
      → Documented x
      → Insertable w.db
      → is_answered (complete settings purpose ticket_id x messages w).0 ≡ true
  unfolding complete
  complete-answered messages w h ins = elim (Bool-cases (allow x.allow_at w.breaker)) [
    | inr shut ↦ rw (shut, complete) refl
    | inl allowed ↦
        let payload : Payload = record {
          model = settings.llm_model;
          messages = messages;
          temperature = 0;
        } in
        let (n, _, _, _, e) = attempt_with_retries_total settings (x.post payload) x.jitter in
        rw (allowed, complete)
          (subst (λ a. is_answered (record_attempt settings purpose ticket_id x a w).0 ≡ true)
            (sym (ap (λ a. a.result) e))
            (record_attempt-answered (judge (x.post payload n)) w (h payload n) ins))
  ]

-- What a predicate says of the text of an answer, and of a verdict.
abbrev pub OfText : (Text → Type 0) → Completed → Type 0
OfText P (completed r) = P r.content
OfText P other = Unit

abbrev pub OfVerdict : (Text → Type 0) → (Json → Text) → Verdict → Type 0
OfVerdict P repr (success content usage) = P (content_text repr content)
OfVerdict P repr other = Unit

-- The texts that the provider answers are of this kind.
abbrev pub Provides : (Text → Type 0) → Exchange → Type 0
Provides P x = (payload : Payload) (n : ℕ) → OfVerdict P x.repr (judge (x.post payload n))

not_ok : (o : Outcome) → NetworkFailure o → o ≡ ok → ⊥
not_ok o (inl e) h = cc (e, h)
not_ok o (inr e) h = cc (e, h)

module _ (P : Text → Type 0) (settings : Settings) (purpose : Purpose) (ticket_id : Option Text)
    (x : Exchange) where
  settle-OfText :
      (o : Outcome) (content : Json) (detail : Text) (i t : Option ℕ) (db : Db) (w : World)
      → (o ≡ ok → P (content_text x.repr content))
      → OfText P (settle settings purpose ticket_id x o content detail i t db w.breaker).0
  unfolding settle
  settle-OfText ok content detail i t db w h = h refl
  settle-OfText _ content detail i t db w h = tt

  flush_call-OfText :
      (o : Outcome) (content : Json) (detail : Text) (i t : Option ℕ) (w : World)
      → (o ≡ ok → P (content_text x.repr content))
      → OfText P (flush_call settings purpose ticket_id x o content detail i t w).0
  unfolding flush_call
  flush_call-OfText o content detail i t w h =
      elim (Option-cases (insert_call (call_row settings purpose ticket_id x o i t) w.db)) [
        | inl e ↦ rw (e, flush_call) tt
        | inr (db, e) ↦ rw (e, flush_call) (settle-OfText o content detail i t db w h)
      ]

  read_usage-OfText :
      (o : Outcome) (content usage : Json) (detail : Text) (w : World)
      → (o ≡ ok → P (content_text x.repr content))
      → OfText P (read_usage settings purpose ticket_id x o content usage detail w).0
  unfolding read_usage
  read_usage-OfText o content usage detail w h =
      elim (Option-cases (usage_tokens (codes "prompt_tokens") usage)) [
        | inl e ↦ rw (e, read_usage) tt
        | inr (i, e) ↦
            rw (e, read_usage)
              (elim (Option-cases (usage_tokens (codes "completion_tokens") usage)) [
                | inl f ↦ rw (f, read_usage) tt
                | inr (t, f) ↦ rw (f, read_usage) (flush_call-OfText o content detail i t w h)
              ])
      ]

  record_attempt-OfText :
      (v : Verdict) (w : World)
      → FailsAs v
      → OfVerdict P x.repr v
      → OfText P (record_attempt settings purpose ticket_id x (decided v) w).0
  unfolding record_attempt
  record_attempt-OfText (success content usage) w f h =
      read_usage-OfText ok content usage [] w (λ e. h)
  record_attempt-OfText (transient o d) w f h =
      read_usage-OfText o null null d w (λ e. absurd (not_ok o f e))
  record_attempt-OfText (final o d) w f h =
      read_usage-OfText o null null d w (λ e. absurd (not_ok o f e))
  record_attempt-OfText crash w f h = tt

  -- A result of a call carries a text that the provider answered.
  pub complete-OfText :
      (messages : List Message) (w : World)
      → Provides P x
      → OfText P (complete settings purpose ticket_id x messages w).0
  unfolding complete
  complete-OfText messages w h = elim (Bool-cases (allow x.allow_at w.breaker)) [
    | inr shut ↦ rw (shut, complete) tt
    | inl allowed ↦
        let payload : Payload = record {
          model = settings.llm_model;
          messages = messages;
          temperature = 0;
        } in
        let (n, _, _, _, e) = attempt_with_retries_total settings (x.post payload) x.jitter in
        rw (allowed, complete)
          (subst (λ a. OfText P (record_attempt settings purpose ticket_id x a w).0)
            (sym (ap (λ a. a.result) e))
            (record_attempt-OfText (judge (x.post payload n)) w (judge-FailsAs (x.post payload n))
              (h payload n)))
  ]
