-- ===== src/Routing/Seed.antt =====
-- The default rules of migrations/versions/0002_seed_routing_rules.py. The table is empty before the
-- upgrade, and the ids of the rows count from 1.
use ticket_triage.Base.{
  ℕ, ◌≡◌, refl, Bool, false, not, Option, none, some, List, [], ◌∷◌, ◌++◌, select, exists, eqb, All,
  ap, ◌∙◌,
}
use ticket_triage.Text.{Text, codes}
use ticket_triage.Labels.{
  Intent, billing, bug, how_to, feature_request, account_access, refund, other, Priority, p1, p2,
  p3, p4, Sentiment,
}
use ticket_triage.Table.{order_by, insert_by}
use ticket_triage.Model.{Db, RoutingRule}
use ticket_triage.Routing.{load_rules, resolve_queue}

-- A rule with at most one of its two conditions.
abbrev seed_rule : ℕ → Option Intent → Option Priority → Text → RoutingRule
seed_rule n intent priority queue = record {
  id = n;
  position = n;
  intent = intent;
  priority = priority;
  sentiment = none;
  queue = queue;
}

-- _RULES
abbrev pub seed_rules : List RoutingRule
seed_rules =
    seed_rule 1 none (some p1) (codes "urgent")
    ∷ seed_rule 2 (some billing) none (codes "billing")
    ∷ seed_rule 3 (some refund) none (codes "billing")
    ∷ seed_rule 4 (some bug) none (codes "technical")
    ∷ seed_rule 5 (some account_access) none (codes "security")
    ∷ []

abbrev drop_first : List RoutingRule → List RoutingRule
drop_first [] = []
drop_first (r ∷ rules) = rules

unfoldable pub upgrade : Db → Db
upgrade db = record db { routing_rules = db.routing_rules ++ seed_rules }

abbrev pub is_seeded : RoutingRule → Bool
is_seeded r = exists (λ (s : RoutingRule). eqb r.position s.position) seed_rules

unfoldable pub downgrade : Db → Db
downgrade db = record db { routing_rules = select (λ r. not (is_seeded r)) db.routing_rules }

-- What the default rules mean.
abbrev pub intent_queue : Text → Intent → Text
intent_queue default_queue billing = codes "billing"
intent_queue default_queue refund = codes "billing"
intent_queue default_queue bug = codes "technical"
intent_queue default_queue account_access = codes "security"
intent_queue default_queue _ = default_queue

abbrev pub seeded_queue : Text → Intent → Priority → Text
seeded_queue default_queue intent p1 = codes "urgent"
seeded_queue default_queue intent _ = intent_queue default_queue intent

-- The rules after the first look at the intent alone.
intent_rules :
    (intent : Intent) (priority : Priority) (sentiment : Sentiment) (default_queue : Text)
    → resolve_queue (drop_first seed_rules) intent priority sentiment default_queue
      ≡ intent_queue default_queue intent
unfolding resolve_queue
intent_rules billing priority sentiment default_queue = refl
intent_rules bug priority sentiment default_queue = refl
intent_rules how_to priority sentiment default_queue = refl
intent_rules feature_request priority sentiment default_queue = refl
intent_rules account_access priority sentiment default_queue = refl
intent_rules refund priority sentiment default_queue = refl
intent_rules other priority sentiment default_queue = refl

seed_rules-queue :
    (intent : Intent) (priority : Priority) (sentiment : Sentiment) (default_queue : Text)
    → resolve_queue seed_rules intent priority sentiment default_queue
      ≡ seeded_queue default_queue intent priority
unfolding resolve_queue
seed_rules-queue intent p1 sentiment default_queue = refl
seed_rules-queue intent p2 sentiment default_queue = intent_rules intent p2 sentiment default_queue
seed_rules-queue intent p3 sentiment default_queue = intent_rules intent p3 sentiment default_queue
seed_rules-queue intent p4 sentiment default_queue = intent_rules intent p4 sentiment default_queue

-- In an installation that has only the default rules, a P1 ticket goes to `urgent` whatever it is
-- about; any other goes by its intent to `billing`, `technical` or `security`, or to the default
-- queue, and the sentiment has no part in it.
pub resolve_queue-upgrade :
    (db : Db) (intent : Intent) (priority : Priority) (sentiment : Sentiment) (default_queue : Text)
    → db.routing_rules ≡ []
    → resolve_queue (load_rules (upgrade db)) intent priority sentiment default_queue
      ≡ seeded_queue default_queue intent priority
unfolding resolve_queue load_rules upgrade order_by insert_by
resolve_queue-upgrade db intent priority sentiment default_queue empty =
    ap
      (λ rules.
        resolve_queue (order_by (λ (r : RoutingRule). r.position) (rules ++ seed_rules)) intent
          priority sentiment default_queue)
      empty
    ∙ seed_rules-queue intent priority sentiment default_queue

drop_seeded :
    (rules : List RoutingRule)
    → All (λ (r : RoutingRule). is_seeded r ≡ false) rules
    → select (λ r. not (is_seeded r)) (rules ++ seed_rules) ≡ rules
drop_seeded [] h = refl
drop_seeded (r ∷ rules) h = rw h.0 (ap (λ rs. r ∷ rs) (drop_seeded rules h.1))

-- A downgrade takes the default rules away again, and leaves the other rules of a table alone.
downgrade-upgrade :
    (db : Db)
    → All (λ (r : RoutingRule). is_seeded r ≡ false) db.routing_rules
    → downgrade (upgrade db) ≡ db
unfolding downgrade upgrade
downgrade-upgrade db h =
    ap (λ rules. record db { routing_rules = rules }) (drop_seeded db.routing_rules h)
