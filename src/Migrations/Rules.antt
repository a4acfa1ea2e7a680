-- ===== src/Migrations/Rules.antt =====
-- The rows that `PUT /rules` stores (app/routers/rules.py) in the table of revision 0001.
use ticket_triage.Base.{
  ℕ, ◌≡◌, ◌≢◌, refl, ◌⊎◌, inl, inr, true, false, Option, none, some, List, All, All-map,
}
use ticket_triage.Text.{codes, same}
use ticket_triage.Labels.{
  Intent, billing, Priority, p1, Sentiment, negative, intent_name, priority_name, sentiment_name,
}
use ticket_triage.Model.{RoutingRule, Settings, Db}
use ticket_triage.Routing.{RuleIn, RulesOut, put_rules}
use ticket_triage.Routing.Replace.{IsStorable, Growing, put_rules-IsStorable}
use ticket_triage.Migrations.Ddl.{
  Row, Check, is_in, is_not_null, either, Constraint, check, TableDef, is_false, is_complete,
  value_of, text, number,
}
use ticket_triage.Migrations.Ddl
use ticket_triage.Migrations.Init
use ticket_triage.Migrations.Init.{rules_def, intent_words, priority_words, sentiment_words}
use ticket_triage.Migrations.Rows
use ticket_triage.Migrations.Rows.{rule_values}
use ticket_triage.Migrations.Typed.{
  IsTyped, HasKind, intent_name-short, priority_name-short, sentiment_name-short,
}

abbrev pub Passes : Row → Constraint → Type 0
Passes row (check n p) = is_false p row ≡ false
Passes row _ = Unit

-- No NOT NULL and no CHECK refuses the row, and its values have the types of their columns.
pub record IsAdmitted (d : TableDef) (row : Row) : Type 0 where
  pub complete : is_complete d.columns row ≡ true
  pub passes : All (Passes row) d.constraints
  pub typed : IsTyped d row

intent_check :
    (r : RoutingRule) (x : Option Intent)
    → is_false (Init.or_null (codes "intent") intent_words) (rule_values (record r { intent = x }))
      ≡ false
unfolding is_false same intent_name
intent_check r none = refl
intent_check r (some billing) = refl
intent_check r (some _) = refl

priority_check :
    (r : RoutingRule) (x : Option Priority)
    → is_false
        (Init.or_null (codes "priority") priority_words)
        (rule_values (record r { priority = x }))
      ≡ false
unfolding is_false same priority_name
priority_check r none = refl
priority_check r (some p1) = refl
priority_check r (some _) = refl

sentiment_check :
    (r : RoutingRule) (x : Option Sentiment)
    → is_false
        (Init.or_null (codes "sentiment") sentiment_words)
        (rule_values (record r { sentiment = x }))
      ≡ false
unfolding is_false same sentiment_name
sentiment_check r none = refl
sentiment_check r (some negative) = refl
sentiment_check r (some _) = refl

-- The CHECK that a rule has a condition.
abbrev one_condition : Check
one_condition =
    either (either (is_not_null (codes "intent")) (is_not_null (codes "priority")))
      (is_not_null (codes "sentiment"))

condition_check :
    (r : RoutingRule) (i : Option Intent) (p : Option Priority) (s : Option Sentiment)
    → (i ≢ none) ⊎ (p ≢ none) ⊎ (s ≢ none)
    → is_false one_condition (rule_values (record r { intent = i; priority = p; sentiment = s }))
      ≡ false
unfolding is_false same
condition_check r (some i) p s h = refl
condition_check r none (some p) s h = refl
condition_check r none none (some s) h = refl
condition_check r none none none (inl f) = absurd (f refl)
condition_check r none none none (inr (inl f)) = absurd (f refl)
condition_check r none none none (inr (inr f)) = absurd (f refl)

intent-HasKind :
    (x : Option Intent) → HasKind (Ddl.string 32) (Rows.or_null (λ i. text (intent_name i)) x)
intent-HasKind none = tt
intent-HasKind (some i) = intent_name-short i

priority-HasKind :
    (x : Option Priority) → HasKind (Ddl.string 8) (Rows.or_null (λ p. text (priority_name p)) x)
priority-HasKind none = tt
priority-HasKind (some p) = priority_name-short p

sentiment-HasKind :
    (x : Option Sentiment) → HasKind (Ddl.string 16) (Rows.or_null (λ s. text (sentiment_name s)) x)
sentiment-HasKind none = tt
sentiment-HasKind (some s) = sentiment_name-short s

rule-IsAdmitted : (r : RoutingRule) → IsStorable r → IsAdmitted rules_def (rule_values r)
unfolding is_complete same
rule-IsAdmitted r s = record {
  complete = refl;
  passes = (
    tt,
    (
      tt,
      (
        intent_check r r.intent,
        (
          priority_check r r.priority,
          (
            sentiment_check r r.sentiment,
            (condition_check r r.intent r.priority r.sentiment s.conditioned, tt),
          ),
        ),
      ),
    ),
  );
  typed = (
    tt,
    (
      tt,
      (
        intent-HasKind r.intent,
        (priority-HasKind r.priority, (sentiment-HasKind r.sentiment, (s.short_queue, tt))),
      ),
    ),
  );
}

-- An accepted replacement of the rules is accepted by the table that the migrations create, for any
-- former content: no CHECK and no NOT NULL refuses one of its rows, every text fits its column, and
-- the positions are unique, since they grow from rule to rule.
pub put_rules-IsAdmitted :
    (ids : ℕ → ℕ) (settings : Settings) (rules : List RuleIn) (db : Db) {out : RulesOut} {db' : Db}
    → put_rules ids settings rules db ≡ some (out, db')
    → All (λ (r : RoutingRule). IsAdmitted rules_def (rule_values r)) db'.routing_rules
      × Growing db'.routing_rules
put_rules-IsAdmitted ids settings rules db {db'} h =
    let (stored, growing) = put_rules-IsStorable ids settings rules db h in
    (All-map IsStorable _ db'.routing_rules rule-IsAdmitted stored, growing)
