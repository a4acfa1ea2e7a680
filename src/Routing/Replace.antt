-- ===== src/Routing/Replace.antt =====
-- What a replacement of the rule set leaves behind.
use ticket_triage.Base.{
  ℕ, suc, ◌+◌, ◌≤◌, ◌<◌, ◌≡◌, ◌≢◌, refl, ◌∙◌, ◌⊎◌, true, none, some, List, [], ◌∷◌, map, arith,
  length, All,
}
use ticket_triage.Text.{Text}
use ticket_triage.Labels.{Intent, Priority, Sentiment}
use ticket_triage.Table.Laws.{Ascending, order_by-of_Ascending}
use ticket_triage.Model.{Db, RoutingRule, Settings}
use ticket_triage.Routing.{
  resolve_queue, load_rules, RuleIn, valid_rule, valid_rules, rule_row, number_rules, replace_rules,
  RulesOut, rules_out, get_rules, put_rules,
}

abbrev position_of : RoutingRule → ℕ
position_of r = r.position

number_rules_after :
    (ids : ℕ → ℕ) (p q : ℕ) (rules : List RuleIn)
    → p ≤ q
    → All (λ r. p ≤ position_of r) (number_rules ids q rules)
unfolding number_rules
number_rules_after ids p q [] h = tt
number_rules_after ids p q (r ∷ rs) h = (h, number_rules_after ids p (suc q) rs (omega arith))

number_rules-Ascending :
    (ids : ℕ → ℕ) (p : ℕ) (rules : List RuleIn) → Ascending position_of (number_rules ids p rules)
unfolding number_rules
number_rules-Ascending ids p [] = tt
number_rules-Ascending ids p (r ∷ rs) =
    (number_rules_after ids p (suc p) rs (omega arith), number_rules-Ascending ids (suc p) rs)

pub load_rules-replace_rules :
    (ids : ℕ → ℕ) (rules : List RuleIn) (db : Db)
    → load_rules (replace_rules ids rules db) ≡ number_rules ids 1 rules
unfolding load_rules replace_rules
load_rules-replace_rules ids rules db =
    order_by-of_Ascending position_of (number_rules ids 1 rules)
      (number_rules-Ascending ids 1 rules)

-- A replacement that was accepted.
pub put_rules_accepted :
    (ids : ℕ → ℕ) (settings : Settings) (rules : List RuleIn) (db : Db) {out : RulesOut} {db' : Db}
    → put_rules ids settings rules db ≡ some (out, db')
    → (length rules ≤ 100)
      × (valid_rules rules ≡ true)
      × (db' ≡ replace_rules ids rules db)
      × (out ≡ rules_out settings (replace_rules ids rules db))
unfolding put_rules
put_rules_accepted ids settings rules db h = ground arith

-- If `PUT /rules` accepts a body, its answer and every `GET /rules` until the next replacement list the rules in the
-- order of the body, numbered from 1, beside the default queue, whatever rules were there before;
-- no other table changes.
pub get_rules-put_rules :
    (ids : ℕ → ℕ) (settings : Settings) (rules : List RuleIn) (db : Db) {out : RulesOut} {db' : Db}
    → put_rules ids settings rules db ≡ some (out, db')
    → (get_rules settings db' ≡ out)
      × (out ≡ record { rules = number_rules ids 1 rules; default_queue = settings.default_queue })
      × (db' ≡ record db { routing_rules = number_rules ids 1 rules })
unfolding get_rules
get_rules-put_rules ids settings rules db {out} {db'} h =
    let (_, _, stored, answer) = put_rules_accepted ids settings rules db h in
    (
      rw (stored, answer) refl,
      rw answer (unfold rules_out in rw (load_rules-replace_rules ids rules db) refl),
      stored ∙ (unfold replace_rules in refl),
    )

module _ (intent : Intent) (priority : Priority) (sentiment : Sentiment)
    (default_queue : Text) where
  resolve_queue-number_rules :
      (ids : ℕ → ℕ) (p q : ℕ) (rules : List RuleIn)
      → resolve_queue (number_rules ids p rules) intent priority sentiment default_queue
        ≡ resolve_queue (map (rule_row ids q) rules) intent priority sentiment default_queue
  unfolding number_rules resolve_queue
  resolve_queue-number_rules ids p q [] = refl
  resolve_queue-number_rules ids p q (r ∷ rs) = rw (resolve_queue-number_rules ids (suc p) q rs)

-- After an accepted replacement tickets are routed by the body's rules in the body's order: the
-- order of the array decides, and nothing of the old rule set is left.
pub resolve_queue-put_rules :
    (ids : ℕ → ℕ) (settings : Settings) (rules : List RuleIn) (db : Db) {out : RulesOut} {db' : Db}
    (intent : Intent) (priority : Priority) (sentiment : Sentiment) (default_queue : Text)
    → put_rules ids settings rules db ≡ some (out, db')
    → resolve_queue (load_rules db') intent priority sentiment default_queue
      ≡ resolve_queue (map (rule_row ids 0) rules) intent priority sentiment default_queue
resolve_queue-put_rules ids settings rules db i p s d h =
    rw (put_rules_accepted ids settings rules db h).2 (
      rw (load_rules-replace_rules ids rules db) (resolve_queue-number_rules i p s d ids 1 0 rules))

-- The CHECK and UNIQUE constraints of the table, and the bounds of the schema, of a rule.
pub record IsStorable (r : RoutingRule) : Type 0 where
  pub conditioned : (r.intent ≢ none) ⊎ (r.priority ≢ none) ⊎ (r.sentiment ≢ none)
  pub named_queue : 1 ≤ length r.queue
  pub short_queue : length r.queue ≤ 64
  pub first_position : 1 ≤ r.position
  pub last_position : r.position ≤ 100

-- Positions grow from row to row, so that no two are equal.
abbrev pub Growing : List RoutingRule → Type 0
Growing [] = Unit
Growing (r ∷ rs) = All (λ x. r.position < position_of x) rs × Growing rs

valid_rule-IsStorable :
    (ids : ℕ → ℕ) (p : ℕ) (r : RuleIn)
    → valid_rule r ≡ true
    → 1 ≤ p
    → p ≤ 100
    → IsStorable (rule_row ids p r)
unfolding valid_rule
valid_rule-IsStorable ids p r h lo hi = record {
  conditioned = ground arith;
  named_queue = ground arith;
  short_queue = ground arith;
  first_position = lo;
  last_position = hi;
}

number_rules-IsStorable :
    (ids : ℕ → ℕ) (p : ℕ) (rules : List RuleIn)
    → valid_rules rules ≡ true
    → 1 ≤ p
    → p + length rules ≤ 101
    → All IsStorable (number_rules ids p rules) × Growing (number_rules ids p rules)
unfolding valid_rules number_rules
number_rules-IsStorable ids p [] h lo hi = (tt, tt)
number_rules-IsStorable ids p (r ∷ rs) h lo hi =
    let (stored, growing) =
      number_rules-IsStorable ids (suc p) rs (ground arith) (omega arith) (omega arith) in
    (
      (valid_rule-IsStorable ids p r (ground arith) lo (omega arith), stored),
      (number_rules_after ids (suc p) (suc p) rs (omega arith), growing),
    )

-- An accepted replacement satisfies the constraints of the table, for any former content: every rule
-- has a condition, a queue of 1 to 64 characters and a position from 1 to 100, and the positions
-- grow from rule to rule.
pub put_rules-IsStorable :
    (ids : ℕ → ℕ) (settings : Settings) (rules : List RuleIn) (db : Db) {out : RulesOut} {db' : Db}
    → put_rules ids settings rules db ≡ some (out, db')
    → All IsStorable db'.routing_rules × Growing db'.routing_rules
put_rules-IsStorable ids settings rules db h =
    let (few, valid, stored, _) = put_rules_accepted ids settings rules db h in
    rw stored (
      unfold replace_rules in number_rules-IsStorable ids 1 rules valid (omega arith) (omega arith))
