-- ===== src/Breaker.antt =====
-- `CircuitBreaker` of app/services/llm_client.py. `time.monotonic()` is read at each operation: the
-- reading is an argument, in milliseconds, and `_cooldown` is in the same unit.
pub mod History
use ticket_triage.Base.{ℕ, ◌+◌, Bool, true, false, ◌&&◌, ltb, leb, if◌then◌else◌}

pub record CircuitBreaker : Type 0 where
  pub threshold : ℕ
  pub cooldown : ℕ
  pub consecutive_failures : ℕ
  pub open_until : ℕ

pub data CircuitState : Type 0 where
  closed open_circuit half_open : CircuitState

unfoldable pub new_breaker : ℕ → ℕ → CircuitBreaker
new_breaker threshold cooldown = record {
  threshold = threshold;
  cooldown = cooldown;
  consecutive_failures = 0;
  open_until = 0;
}

unfoldable pub allow : ℕ → CircuitBreaker → Bool
allow now b = if ltb 0 b.open_until && ltb now b.open_until then false else true

unfoldable pub state : ℕ → CircuitBreaker → CircuitState
state now b =
    if ltb 0 b.open_until && ltb now b.open_until
    then open_circuit
    else if ltb 0 b.open_until
    then half_open
    else closed

unfoldable pub record_success : CircuitBreaker → CircuitBreaker
record_success b = record b { consecutive_failures = 0; open_until = 0 }

unfoldable pub record_failure : ℕ → CircuitBreaker → CircuitBreaker
record_failure now b =
    let failures = b.consecutive_failures + 1 in
    if leb b.threshold failures
    then record b { consecutive_failures = failures; open_until = now + b.cooldown }
    else record b { consecutive_failures = failures }
