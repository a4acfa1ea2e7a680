-- ===== src/Routing/FirstMatch.antt =====
-- `resolve_queue` against a specification: the first rule that matches, or the default queue.
use ticket_triage.Base.{
  ◌≡◌, refl, sym, ◌∙◌, ◌⊎◌, inl, inr, Eq, Option, none, some, List, [], ◌∷◌, arith, true, false,
  Bool-cases,
}
use ticket_triage.Text.{Text}
use ticket_triage.Labels.{Intent, Priority, Sentiment, intent_eq, priority_eq, sentiment_eq}
use ticket_triage.Model.{RoutingRule}
use ticket_triage.Routing.{resolve_queue, differs}

-- A condition is a wildcard, or the label itself.
abbrev pub Allows : {A : Type 0} → Option A → A → Type 0
Allows none label = Unit
Allows (some c) label = c ≡ label

module _ (intent : Intent) (priority : Priority) (sentiment : Sentiment) where
  -- All conditions of a rule hold.
  pub record Matches (r : RoutingRule) : Type 0 where
    pub intent_allowed : Allows r.intent intent
    pub priority_allowed : Allows r.priority priority
    pub sentiment_allowed : Allows r.sentiment sentiment

  -- The queue that a rule list assigns.
  pub data Routes (default_queue : Text) : List RoutingRule → Text → Type 0 where
    fallback : Routes default_queue [] default_queue
    take_first :
        {r : RoutingRule} {rs : List RoutingRule} {q : Text}
        → Matches r
        → r.queue ≡ q
        → Routes default_queue (r ∷ rs) q
    skip :
        {r : RoutingRule} {rs : List RoutingRule} {q : Text}
        → ¬ Matches r
        → Routes default_queue rs q
        → Routes default_queue (r ∷ rs) q

module _ {A : Type 0} ⦃e : Eq A⦄ where
  differs-Allows : (o : Option A) (a : A) → differs o a ≡ false → Allows o a
  differs-Allows none a h = tt
  differs-Allows (some c) a h = ground (arith, e.beq_iff c a)

  differs-not-Allows : (o : Option A) (a : A) → differs o a ≡ true → ¬ Allows o a
  differs-not-Allows none a h p = cc
  differs-not-Allows (some c) a h p = ground (arith, e.beq_iff c a)

module _ (intent : Intent) (priority : Priority) (sentiment : Sentiment)
    (default_queue : Text) where
  resolved : List RoutingRule → Text
  resolved rules = resolve_queue rules intent priority sentiment default_queue

  -- What one rule does to the search.
  resolve_step :
      (r : RoutingRule) (rs : List RoutingRule)
      → (Matches intent priority sentiment r × (resolved (r ∷ rs) ≡ r.queue))
        ⊎ ((¬ Matches intent priority sentiment r) × (resolved (r ∷ rs) ≡ resolved rs))
  unfolding resolved resolve_queue
  resolve_step r rs = elim (Bool-cases (differs r.intent intent)) [
    | inl d ↦ inr (λ m. differs-not-Allows r.intent intent d m.intent_allowed, rw d)
    | inr a ↦ elim (Bool-cases (differs r.priority priority)) [
      | inl d ↦ inr (λ m. differs-not-Allows r.priority priority d m.priority_allowed, rw (a, d))
      | inr b ↦ elim (Bool-cases (differs r.sentiment sentiment)) [
        | inl d ↦
            inr (λ m. differs-not-Allows r.sentiment sentiment d m.sentiment_allowed, rw (a, b, d))
        | inr c ↦ inl (
          record {
            intent_allowed = differs-Allows r.intent intent a;
            priority_allowed = differs-Allows r.priority priority b;
            sentiment_allowed = differs-Allows r.sentiment sentiment c;
          },
          rw (a, b, c),
        )
      ]
    ]
  ]

  -- `resolve_queue` finds a queue that the specification allows.
  resolve_queue_sound :
      (rules : List RoutingRule)
      → Routes intent priority sentiment default_queue rules (resolved rules)
  unfolding resolved resolve_queue
  resolve_queue_sound [] = fallback
  resolve_queue_sound (r ∷ rs) = elim (resolve_step r rs) [
    | inl (m, e) ↦ take_first m (sym e)
    | inr (n, e) ↦ skip n (rw e (resolve_queue_sound rs))
  ]

  resolve_queue_unique :
      (rules : List RoutingRule) {q : Text}
      → Routes intent priority sentiment default_queue rules q
      → resolved rules ≡ q
  unfolding resolved resolve_queue
  resolve_queue_unique [] fallback = refl
  resolve_queue_unique (r ∷ rs) (take_first m e) = elim (resolve_step r rs) [
    | inl (_, f) ↦ f ∙ e
    | inr (n, _) ↦ absurd (n m)
  ]
  resolve_queue_unique (r ∷ rs) (skip n p) = elim (resolve_step r rs) [
    | inl (m, _) ↦ absurd (n m)
    | inr (_, f) ↦ f ∙ resolve_queue_unique rs p
  ]

-- `resolve_queue` returns `q` exactly when `q` is the queue of the first rule all of whose non-null
-- conditions equal the labels, or is the default queue and no rule matches.
pub resolve_queue_iff :
    (rules : List RoutingRule) (intent : Intent) (priority : Priority) (sentiment : Sentiment)
    (default_queue q : Text)
    → (resolve_queue rules intent priority sentiment default_queue ≡ q
        → Routes intent priority sentiment default_queue rules q)
      × (Routes intent priority sentiment default_queue rules q
          → resolve_queue rules intent priority sentiment default_queue ≡ q)
unfolding resolved
resolve_queue_iff rules i p s d q =
    (λ e. rw (← e) (resolve_queue_sound i p s d rules), resolve_queue_unique i p s d rules)
