-- ===== src/Stats/Balance.antt =====
-- The totals of the statistics agree with the tables and with one another.
use ticket_triage.Base.{
  ℕ, ◌+◌, ◌*◌, leb, ltb, ◌≤◌, ◌<◌, ◌≡◌, ◌≢◌, refl, ◌∙◌, ◌⊎◌, inl, inr, Bool, true, false, ◌==◌,
  Option, none, some, Option-cases, List, [], ◌∷◌, length, map, length-map, All, All-map,
  All-select, arith,
}
use ticket_triage.Text.{Text, text_eq}
use ticket_triage.Labels.{
  Intent, Priority, Sentiment, Status, received, triaged, needs_human, Outcome, ok, timeout,
  api_error, parse_error, intent_eq, priority_eq, sentiment_eq, status_eq, outcome_eq,
}
use ticket_triage.Table.{order_by}
use ticket_triage.Model.{Ticket, Triage, LlmCall, Db, ticket_of, triage_of, correction_of, draft_of}
use ticket_triage.Model.Lifecycle.{Lifecycle, Fits, FitsAt}
use ticket_triage.Worker.Queue.{All-lookup}
use ticket_triage.Counts.{count_if, total_by, Group, get_count-group_counts, total-group_counts}
use ticket_triage.Stats.{
  StatsOut, is_failure, recent, recent_tickets, recent_triages, recent_calls, known_queues,
  queue_counts, ticket_counts, label_breakdown, sorted_latencies, llm_stats, percentile,
  compute_stats, latency,
}
use ticket_triage.Stats.Percentile.{percentile-sort}

abbrev of_status : Status → List Ticket → ℕ
of_status s ts = count_if (λ k. k == s) (map (λ (t : Ticket). t.status) ts)

statuses_total :
    (ss : List Status)
    → count_if (λ k. k == received) ss
        + count_if (λ k. k == triaged) ss
        + count_if (λ k. k == needs_human) ss
        + count_if (λ k. k == Status.approved) ss
        + count_if (λ k. k == Status.corrected) ss
      ≡ length ss
statuses_total [] = omega arith
statuses_total (received ∷ ss) = omega (arith, statuses_total ss)
statuses_total (triaged ∷ ss) = omega (arith, statuses_total ss)
statuses_total (needs_human ∷ ss) = omega (arith, statuses_total ss)
statuses_total (Status.approved ∷ ss) = omega (arith, statuses_total ss)
statuses_total (Status.corrected ∷ ss) = omega (arith, statuses_total ss)

one_outcome : (o : Outcome) → count_if (λ p. p == ok) (o ∷ []) + count_if is_failure (o ∷ []) ≡ 1
one_outcome ok = omega arith
one_outcome parse_error = omega arith
one_outcome timeout = omega arith
one_outcome api_error = omega arith

outcomes_total :
    (calls : List LlmCall)
    → count_if (λ (c : LlmCall). c.outcome == ok) calls
        + count_if (λ (c : LlmCall). is_failure c.outcome) calls
      ≡ length calls
outcomes_total [] = omega arith
outcomes_total (c ∷ calls) = omega (arith, one_outcome c.outcome, outcomes_total calls)

-- In the invariant a ticket has a queue unless it is received.
queued :
    {B C D E : Type 0} (s : Status) (q : Option Text) (e : Option B) (t : Option C) (c : Option D)
    (d : Option E)
    → Fits s q e t c d
    → ((s == received) ≡ true) × (q ≡ none) ⊎ ((s == received) ≡ false) × (q ≢ none)
queued received q e t c d f = inl (refl, f.0)
queued triaged q e t c d f = inr (refl, f.0)
queued needs_human q e t c d f = inr (refl, f.0)
queued Status.approved q e t c d f = inr (refl, f.0)
queued Status.corrected q e t c d f = inr (refl, f.0)

known_queues-total :
    (db : Db) (ts : List Ticket)
    → All (λ (t : Ticket). FitsAt t.id t db) ts
    → of_status received ts + length (known_queues ts) ≡ length ts
unfolding known_queues
known_queues-total db [] h = omega arith
known_queues-total db (t ∷ ts) h =
    let rest = known_queues-total db ts h.1 in
    elim (queued t.status t.queue t.triage_error (triage_of t.id db) (correction_of t.id db)
      (draft_of t.id db) h.0) [
        | inl (st, q) ↦ rw (q, known_queues) (rw st (omega (arith, rest)))
        | inr (st, q) ↦ elim (Option-cases t.queue) [
          | inl none_there ↦ absurd (q none_there)
          | inr (k, there) ↦ rw (there, known_queues) (rw st (omega (arith, rest)))
        ]
      ]

percentile_total : (ns : List ℕ) → (v : ℕ) × (percentile (order_by (λ (n : ℕ). n) ns) 95 ≡ some v)
unfolding order_by percentile
percentile_total [] = (0, refl)
percentile_total (n ∷ ns) =
    let (v, e, _, _) = percentile-sort 95 n ns (omega arith) (omega arith) in (v, e)

-- What the answer's totals must be.
pub record Balanced (since : Option ℕ) (db : Db) (out : StatsOut) : Type 0 where
  pub all_tickets : out.tickets.total ≡ length (recent_tickets since db)
  pub all_queues :
      out.tickets.received + total_by (λ (g : Group Text). g.size) out.queues ≡ out.tickets.total
  pub all_intents :
      total_by (λ (g : Group Intent). g.size) out.labels.intent ≡ length (recent_triages since db)
  pub all_priorities :
      total_by (λ (g : Group Priority). g.size) out.labels.priority
      ≡ length (recent_triages since db)
  pub all_sentiments :
      total_by (λ (g : Group Sentiment). g.size) out.labels.sentiment
      ≡ length (recent_triages since db)
  pub all_calls : out.llm.ok + out.llm.failures ≡ out.llm.calls

module _ (since : Option ℕ) (db : Db) where
  total-ticket_counts : (ticket_counts since db).total ≡ length (recent_tickets since db)
  unfolding ticket_counts
  total-ticket_counts =
      let ss : List Status = map (λ (t : Ticket). t.status) (recent_tickets since db) in
      omega (
        arith,
        statuses_total ss,
        length-map (λ (t : Ticket). t.status) (recent_tickets since db),
        get_count-group_counts received ss,
        get_count-group_counts triaged ss,
        get_count-group_counts needs_human ss,
        get_count-group_counts Status.approved ss,
        get_count-group_counts Status.corrected ss,
      )

  total-queue_counts :
      Lifecycle db
      → (ticket_counts since db).received
          + total_by (λ (g : Group Text). g.size) (queue_counts since db)
        ≡ (ticket_counts since db).total
  unfolding ticket_counts queue_counts
  total-queue_counts v =
      let is_recent : Ticket → Bool = λ (t : Ticket). recent since t.created_at in
      let fitting =
        All-select is_recent (λ (t : Ticket). FitsAt t.id t db) db.tickets
          (All-map (λ (t : Ticket). ticket_of t.id db ≡ some t) (λ (t : Ticket). FitsAt t.id t db)
            db.tickets (λ t h. v.fits t.id t h) (All-lookup db.tickets v.distinct_ids)) in
      omega (
        arith,
        total-ticket_counts,
        known_queues-total db (recent_tickets since db) fitting,
        total-group_counts (known_queues (recent_tickets since db)),
        get_count-group_counts received (map (λ (t : Ticket). t.status) (recent_tickets since db)),
      )

abbrev stats_with : Option ℕ → Option Text → Db → ℕ → StatsOut
stats_with since since_raw db p95 = record {
  tickets = ticket_counts since db;
  queues = queue_counts since db;
  labels = label_breakdown since db;
  llm = llm_stats (recent_calls since db) p95;
  since = since_raw;
}

-- The statistics of a database in the invariant are always computed, for any limit: the statuses
-- together are all tickets since the limit, the received tickets and the queues together too, each
-- label has all triages since the limit, and every call is a success or a failure.
pub compute_stats-Balanced :
    (since : Option ℕ) (since_raw : Option Text) (db : Db)
    → Lifecycle db
    → (out : StatsOut) × (compute_stats db since since_raw ≡ some out) × Balanced since db out
unfolding compute_stats
compute_stats-Balanced since since_raw db v =
    let (p95, e) = percentile_total (map latency (recent_calls since db)) in
    let labelled = recent_triages since db in
    (
      stats_with since since_raw db p95,
      rw (e, compute_stats) refl,
      record {
        all_tickets = total-ticket_counts since db;
        all_queues = total-queue_counts since db v;
        all_intents =
            total-group_counts (map (λ (r : Triage). r.intent) labelled)
            ∙ length-map (λ (r : Triage). r.intent) labelled;
        all_priorities =
            total-group_counts (map (λ (r : Triage). r.priority) labelled)
            ∙ length-map (λ (r : Triage). r.priority) labelled;
        all_sentiments =
            total-group_counts (map (λ (r : Triage). r.sentiment) labelled)
            ∙ length-map (λ (r : Triage). r.sentiment) labelled;
        all_calls = outcomes_total (recent_calls since db);
      },
    )

count_if-map :
    {A B : Type 0} (p : B → Bool) (f : A → B) (xs : List A)
    → count_if p (map f xs) ≡ count_if (λ x. p (f x)) xs
count_if-map p f [] = refl
count_if-map p f (x ∷ xs) = omega (arith, count_if-map p f xs)

percentile-ranked :
    (calls : List LlmCall)
    → 0 < length calls
    → (v : ℕ) × (percentile (sorted_latencies calls) 95 ≡ some v)
      × (95 * length calls ≤ 100 * count_if (λ (c : LlmCall). leb c.latency_ms v) calls)
      × (100 * count_if (λ (c : LlmCall). ltb c.latency_ms v) calls < 95 * length calls)
percentile-ranked [] h = absurd (omega arith)
percentile-ranked (c ∷ cs) h =
    let (v, e, above, below) =
      percentile-sort 95 (latency c) (map latency cs) (omega arith) (omega arith) in
    let size = length-map latency (c ∷ cs) in
    (
      v,
      e,
      omega (arith, above, size, count_if-map (λ n. leb n v) latency (c ∷ cs)),
      omega (arith, below, size, count_if-map (λ n. ltb n v) latency (c ∷ cs)),
    )

-- The p95 of the latencies is their nearest rank: of the calls since the limit, if there are any, at
-- least 95 in 100 took no longer, and less than 95 in 100 took less.
pub compute_stats-p95 :
    (since : Option ℕ) (since_raw : Option Text) (db : Db)
    → 0 < length (recent_calls since db)
    → (out : StatsOut) × (compute_stats db since since_raw ≡ some out)
      × (95 * length (recent_calls since db)
          ≤ 100
            * count_if
                (λ (c : LlmCall). leb c.latency_ms out.llm.p95_latency_ms)
                (recent_calls since db))
      × (100
            * count_if
                (λ (c : LlmCall). ltb c.latency_ms out.llm.p95_latency_ms)
                (recent_calls since db)
          < 95 * length (recent_calls since db))
unfolding compute_stats
compute_stats-p95 since since_raw db some_call =
    let calls = recent_calls since db in
    let (v, e, above, below) = percentile-ranked calls some_call in
    (stats_with since since_raw db v, rw (e, compute_stats) refl, above, below)
