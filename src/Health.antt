-- ===== src/Health.antt =====
-- app/routers/health.py: the liveness and readiness probes.
use ticket_triage.Base.{ℕ, ◌≡◌, refl, Bool, Option, none, some, if◌then◌else◌}
use ticket_triage.Text.{Text, codes}
use ticket_triage.Breaker.{CircuitBreaker, CircuitState, closed, open_circuit, half_open, state}

unfoldable pub state_name : CircuitState → Text
state_name closed = codes "closed"
state_name open_circuit = codes "open"
state_name half_open = codes "half_open"

-- The answer of `health`: its status.
abbrev pub health : Text
health = codes "ok"

-- `_breaker_state`, with the breaker of the worker, if one runs.
unfoldable pub breaker_state : ℕ → Option CircuitBreaker → Text
unfolding state_name
breaker_state now none = codes "disabled"
breaker_state now (some b) = state_name (state now b)

pub record Readiness : Type 0 where
  pub status_code : ℕ
  pub status : Text
  pub database : Text
  pub circuit_breaker : Text

-- `ready`; whether the database answers is an argument.
unfoldable pub ready : ℕ → Bool → Option CircuitBreaker → Readiness
unfolding breaker_state
ready now reachable worker = record {
  status_code = if reachable then 200 else 503;
  status = if reachable then codes "ready" else codes "not_ready";
  database = if reachable then codes "ok" else codes "unavailable";
  circuit_breaker = breaker_state now worker;
}

-- The breaker is reported and decides nothing: readiness is that of the database, for any two
-- breakers.
ready-breaker :
    (now : ℕ) (reachable : Bool) (one two : Option CircuitBreaker)
    → (ready now reachable one).status_code ≡ (ready now reachable two).status_code
unfolding ready
ready-breaker now reachable one two = refl
