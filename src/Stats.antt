-- ===== src/Stats.antt =====
-- app/services/stats.py, with `get_stats` of app/routers/stats.py and the schemas of
-- app/schemas/stats.py. A rate is a whole number of ten-thousandths, which is what `round(_, 4)`
-- keeps; a group of an aggregate query is a key with its count.
pub mod Percentile
pub mod Balance
use ticket_triage.Base.{
  ℕ, zero, suc, ◌+◌, ◌-◌, ◌*◌, ◌/◌, Bool, true, false, ◌||◌, ◌==◌, Option, none, some, List, [],
  ◌∷◌, length, leb, eqb, select, map, if◌then◌else◌,
}
use ticket_triage.Text.{Text, codes, text_eq}
use ticket_triage.Labels.{
  Intent, Priority, Sentiment, Status, received, triaged, needs_human, Outcome, ok, timeout,
  api_error, parse_error, intent_eq, priority_eq, sentiment_eq, status_eq, outcome_eq,
}
use ticket_triage.Table.{order_by}
use ticket_triage.Model.{Ticket, Triage, LlmCall, Db}
use ticket_triage.Counts.{count_if, total_by, Group, group_counts, get_count}
use ticket_triage.Client.{round_div, tokens_or_zero}
use ticket_triage.Errors.{Answer, success, error, validation_error, internal_error}

pub record TicketCounts : Type 0 where
  pub received : ℕ
  pub triaged : ℕ
  pub needs_human : ℕ
  pub approved : ℕ
  pub corrected : ℕ
  pub total : ℕ

pub record LlmStats : Type 0 where
  pub calls : ℕ
  pub ok : ℕ
  pub failures : ℕ
  pub failure_rate : ℕ
  pub input_tokens : ℕ
  pub output_tokens : ℕ
  pub cost_usd : ℕ
  pub avg_latency_ms : ℕ
  pub p95_latency_ms : ℕ

pub record LabelBreakdown : Type 0 where
  pub intent : List (Group Intent)
  pub priority : List (Group Priority)
  pub sentiment : List (Group Sentiment)

pub record StatsOut : Type 0 where
  pub tickets : TicketCounts
  pub queues : List (Group Text)
  pub labels : LabelBreakdown
  pub llm : LlmStats
  pub since : Option Text

-- `_FAILURE_OUTCOMES`
abbrev pub is_failure : Outcome → Bool
is_failure o = o == timeout || o == api_error || o == parse_error

-- `values[i]`; an index out of range raises an IndexError.
abbrev pub get_elem? : List ℕ → ℕ → Option ℕ
get_elem? [] i = none
get_elem? (x ∷ xs) zero = some x
get_elem? (x ∷ xs) (suc i) = get_elem? xs i

-- `math.ceil(pct / 100 * n)`
abbrev pub rank_of : ℕ → ℕ → ℕ
rank_of pct n = (pct * n + 99) / 100

-- `_percentile`; `max(rank - 1, 0)` is the subtraction that stops at 0.
unfoldable pub percentile : List ℕ → ℕ → Option ℕ
percentile [] pct = some 0
percentile (x ∷ xs) pct = get_elem? (x ∷ xs) (rank_of pct (length (x ∷ xs)) - 1)

-- `column >= since`, where there is a limit.
abbrev pub recent : Option ℕ → ℕ → Bool
recent none time = true
recent (some since) time = leb since time

abbrev pub recent_tickets : Option ℕ → Db → List Ticket
recent_tickets since db = select (λ (t : Ticket). recent since t.created_at) db.tickets

abbrev pub recent_triages : Option ℕ → Db → List Triage
recent_triages since db = select (λ (r : Triage). recent since r.created_at) db.triages

abbrev pub recent_calls : Option ℕ → Db → List LlmCall
recent_calls since db = select (λ (c : LlmCall). recent since c.created_at) db.llm_calls

-- The queues that are not NULL.
unfoldable pub known_queues : List Ticket → List Text
known_queues [] = []
known_queues (t ∷ ts) = elim t.queue [ none ↦ known_queues ts | some q ↦ q ∷ known_queues ts ]

-- `_queue_counts`
unfoldable pub queue_counts : Option ℕ → Db → List (Group Text)
unfolding known_queues
queue_counts since db = group_counts (known_queues (recent_tickets since db))

unfoldable pub ticket_counts : Option ℕ → Db → TicketCounts
ticket_counts since db =
    let counts = group_counts (map (λ (t : Ticket). t.status) (recent_tickets since db)) in
    record {
      received = get_count received counts;
      triaged = get_count triaged counts;
      needs_human = get_count needs_human counts;
      approved = get_count Status.approved counts;
      corrected = get_count Status.corrected counts;
      total =
          get_count received counts
          + get_count triaged counts
          + get_count needs_human counts
          + get_count Status.approved counts
          + get_count Status.corrected counts;
    }

-- `_label_counts` for the three columns.
unfoldable pub label_breakdown : Option ℕ → Db → LabelBreakdown
label_breakdown since db =
    let rows = recent_triages since db in
    record {
      intent = group_counts (map (λ (r : Triage). r.intent) rows);
      priority = group_counts (map (λ (r : Triage). r.priority) rows);
      sentiment = group_counts (map (λ (r : Triage). r.sentiment) rows);
    }

-- A quotient of sums, and 0 for no calls.
abbrev pub per_call : (ℕ → ℕ → ℕ) → ℕ → ℕ → ℕ
per_call f n zero = 0
per_call f n (suc calls) = f n (suc calls)

abbrev pub latency : LlmCall → ℕ
latency c = c.latency_ms

abbrev pub sorted_latencies : List LlmCall → List ℕ
sorted_latencies calls = order_by (λ (n : ℕ). n) (map latency calls)

unfoldable pub llm_stats : List LlmCall → ℕ → LlmStats
llm_stats calls p95 =
    let failures = count_if (λ (c : LlmCall). is_failure c.outcome) calls in
    record {
      calls = length calls;
      ok = count_if (λ (c : LlmCall). c.outcome == ok) calls;
      failures = failures;
      failure_rate = per_call round_div (10000 * failures) (length calls);
      input_tokens = total_by (λ (c : LlmCall). tokens_or_zero c.input_tokens) calls;
      output_tokens = total_by (λ (c : LlmCall). tokens_or_zero c.output_tokens) calls;
      cost_usd = total_by (λ (c : LlmCall). c.cost_usd) calls;
      avg_latency_ms = per_call (λ a b. a / b) (total_by latency calls) (length calls);
      p95_latency_ms = p95;
    }

-- `compute_stats`; `none` is the IndexError.
unfoldable pub compute_stats : Db → Option ℕ → Option Text → Option StatsOut
unfolding percentile ticket_counts queue_counts label_breakdown llm_stats
compute_stats db since since_raw =
    let calls = recent_calls since db in
    elim (percentile (sorted_latencies calls) 95) [
      | none ↦ none
      | some p95 ↦ some (record {
        tickets = ticket_counts since db;
        queues = queue_counts since db;
        labels = label_breakdown since db;
        llm = llm_stats calls p95;
        since = since_raw;
      })
    ]

-- A parsed `since`: none, a time in UTC, or a ValueError. `datetime.fromisoformat` and the change
-- to UTC are the parameter.
pub data Since : Type 0 where
  since_time : Option ℕ → Since
  malformed : Since

-- `_parse_since`
unfoldable pub parse_since : (Text → Option ℕ) → Option Text → Since
parse_since fromisoformat none = since_time none
parse_since fromisoformat (some s) = elim (fromisoformat s) [
  | none ↦ malformed
  | some time ↦ since_time (some time)
]

-- `get_stats`
unfoldable pub get_stats : (Text → Option ℕ) → Option Text → Db → Answer StatsOut
unfolding parse_since compute_stats
get_stats fromisoformat since db = elim (parse_since fromisoformat since) [
  | malformed ↦ error validation_error (codes "since must be an ISO-8601 timestamp.")
  | since_time time ↦ elim (compute_stats db time since) [
    | none ↦ error internal_error (codes "An unexpected error occurred.")
    | some out ↦ success 200 out
  ]
]
