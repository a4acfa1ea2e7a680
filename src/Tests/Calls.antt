-- ===== src/Tests/Calls.antt =====
-- Runs of the provider's client, of the breaker and of the gates.
use ticket_triage.Base.{
  ℕ, suc, ◌≤◌, ◌<◌, ◌≡◌, ◌⊎◌, true, false, some, List, [], ◌∷◌, arith, eqb, if◌then◌else◌,
}
use ticket_triage.Text.{codes, text_eq}
use ticket_triage.Labels.{classify}
use ticket_triage.Json.{Fields, obj}
use ticket_triage.Breaker.{CircuitBreaker, state}
use ticket_triage.Breaker.History
use ticket_triage.Breaker.History.{Event, state-run, trailing_failures, state_spec}
use ticket_triage.Provider.{Response, raised, response, malformed, judge, attempt_with_retries}
use ticket_triage.Provider.Retries.{is_transient, decided, pauses_from, attempt_with_retries_total}
use ticket_triage.Client.{complete}
use ticket_triage.Client.Effect.{Effect, complete-Effect}
use ticket_triage.Schema.{loaded, parsed, parse_triage, strip_fences}
use ticket_triage.Schema.Gate.{Describes, parse_triage_iff}
use ticket_triage.Tests.{settings_a, world_a, triage_a, decoder_a, answers, exchange_of}

complete-Effect_example :
    Effect settings_a classify (some (codes "c")) (exchange_of (codes "c1") answers) world_a (
      complete settings_a classify (some (codes "c")) (exchange_of (codes "c1") answers) [] world_a)
complete-Effect_example =
    complete-Effect settings_a classify (some (codes "c")) (exchange_of (codes "c1") answers) []
      world_a

-- The first request times out, the second is answered.
abbrev second_answers : ℕ → Response
second_answers n = if eqb n 0 then raised (codes "ReadTimeout") else answers n

attempt_with_retries_total_example :
    (n : ℕ) × (n ≤ 2)
    × ((i : ℕ) → i < n → is_transient (judge (second_answers i)) ≡ true)
    × ((n ≡ 2) ⊎ (is_transient (judge (second_answers n)) ≡ false))
    × (attempt_with_retries settings_a second_answers (λ i. 7) ≡ record {
      result = decided (judge (second_answers n));
      posts = suc n;
      pauses = pauses_from (λ i. 7) 0 n;
    })
attempt_with_retries_total_example = attempt_with_retries_total settings_a second_answers (λ i. 7)

abbrev unauthorized : ℕ → Response
unauthorized n = response 401 (malformed (codes "ValueError"))

abbrev two_failures : List Event
two_failures = Event.failure 70 ∷ Event.failure 50 ∷ Event.success ∷ []

state-run_example :
    ((History.run 2 30 two_failures).consecutive_failures ≡ trailing_failures two_failures)
    × (state 90 (History.run 2 30 two_failures) ≡ state_spec 2 30 90 two_failures)
state-run_example = state-run 2 30 90 two_failures (omega arith)

abbrev tripped : CircuitBreaker
tripped = record { threshold = 5; cooldown = 30; consecutive_failures = 5; open_until = 100 }

parse_triage_iff_example :
    (parse_triage decoder_a (codes "{}") ≡ parsed triage_a
      → (fs : Fields) × (decoder_a.loads (strip_fences (codes "{}")) ≡ loaded (obj fs))
        × Describes fs triage_a)
    × ((fs : Fields)
        → decoder_a.loads (strip_fences (codes "{}")) ≡ loaded (obj fs)
        → Describes fs triage_a
        → parse_triage decoder_a (codes "{}") ≡ parsed triage_a)
parse_triage_iff_example = parse_triage_iff decoder_a (codes "{}") triage_a
