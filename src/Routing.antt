-- ===== src/Routing.antt =====
-- app/services/routing.py, with the rules' schema (app/schemas/rules.py) and the routes that read
-- and replace them (app/routers/rules.py).
pub mod FirstMatch
pub mod Replace
pub mod Seed
use ticket_triage.Base.{
  ℕ, zero, suc, ◌+◌, ◌==◌, Eq, Bool, true, false, ◌&&◌, ◌||◌, not, Option, none, some, List, [],
  ◌∷◌, leb, eqb, if◌then◌else◌, length,
}
use ticket_triage.Text.{Text}
use ticket_triage.Labels.{Intent, Priority, Sentiment, intent_eq, priority_eq, sentiment_eq}
use ticket_triage.Table.{order_by}
use ticket_triage.Model.{Db, RoutingRule, Settings}

-- `condition is not None and condition != label`
abbrev pub differs : {A : Type 0} ⦃e : Eq A⦄ → Option A → A → Bool
differs none label = false
differs (some c) label = not (c == label)

unfoldable pub resolve_queue : List RoutingRule → Intent → Priority → Sentiment → Text → Text
resolve_queue [] intent priority sentiment default_queue = default_queue
resolve_queue (rule ∷ rules) intent priority sentiment default_queue =
    let next = resolve_queue rules intent priority sentiment default_queue in
    if differs rule.intent intent
    then next
    else if differs rule.priority priority
    then next
    else if differs rule.sentiment sentiment
    then next
    else rule.queue

unfoldable pub load_rules : Db → List RoutingRule
load_rules db = order_by (λ (r : RoutingRule). r.position) db.routing_rules

-- One rule of a replacement, as the request body has it.
pub record RuleIn : Type 0 where
  pub intent : Option Intent
  pub priority : Option Priority
  pub sentiment : Option Sentiment
  pub queue : Text

-- The class `[a-z0-9_-]` of the queue pattern.
unfoldable pub queue_char : ℕ → Bool
queue_char c = leb b'a' c && leb c b'z' || leb b'0' c && leb c b'9' || eqb c b'_' || eqb c b'-'

unfoldable pub queue_chars : Text → Bool
unfolding queue_char
queue_chars [] = true
queue_chars (c ∷ s) = queue_char c && queue_chars s

abbrev pub is_none : {A : Type 0} → Option A → Bool
is_none none = true
is_none (some a) = false

-- `queue` matches the pattern, and `_at_least_one_condition` raises nothing.
unfoldable pub valid_rule : RuleIn → Bool
valid_rule r =
    leb 1 (length r.queue)
    && leb (length r.queue) 64
    && queue_chars r.queue
    && not (is_none r.intent && is_none r.priority && is_none r.sentiment)

unfoldable pub valid_rules : List RuleIn → Bool
valid_rules [] = true
valid_rules (r ∷ rs) = valid_rule r && valid_rules rs

-- The row for a rule at a position. The database assigns the ids.
abbrev pub rule_row : (ℕ → ℕ) → ℕ → RuleIn → RoutingRule
rule_row ids position r = record {
  id = ids position;
  position = position;
  intent = r.intent;
  priority = r.priority;
  sentiment = r.sentiment;
  queue = r.queue;
}

-- `enumerate(rules, start=position)`
unfoldable pub number_rules : (ℕ → ℕ) → ℕ → List RuleIn → List RoutingRule
number_rules ids position [] = []
number_rules ids position (r ∷ rs) = rule_row ids position r ∷ number_rules ids (suc position) rs

unfoldable pub replace_rules : (ℕ → ℕ) → List RuleIn → Db → Db
replace_rules ids rules db = record db { routing_rules = number_rules ids 1 rules }

pub record RulesOut : Type 0 where
  pub rules : List RoutingRule
  pub default_queue : Text

unfoldable pub rules_out : Settings → Db → RulesOut
rules_out settings db = record { rules = load_rules db; default_queue = settings.default_queue }

-- `GET /rules`
unfoldable pub get_rules : Settings → Db → RulesOut
get_rules settings db = rules_out settings db

-- `PUT /rules`. A body that the schema refuses is answered with 422 and reaches no code: `none`.
unfoldable pub put_rules : (ℕ → ℕ) → Settings → List RuleIn → Db → Option (RulesOut × Db)
put_rules ids settings rules db =
    if leb (length rules) 100 && valid_rules rules
    then (let db' = replace_rules ids rules db in some (rules_out settings db', db'))
    else none
