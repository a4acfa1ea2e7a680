-- ===== src/Breaker/History.antt =====
-- The breaker against its history: its state is a function of the trailing run of failures.
use ticket_triage.Base.{
  ℕ, suc, ◌+◌, ◌≤◌, ◌<◌, ◌≡◌, ◌↔◌, false, ◌&&◌, ltb, leb, List, [], ◌∷◌, arith, if◌then◌else◌,
}
use ticket_triage.Breaker.{
  CircuitBreaker, CircuitState, closed, open_circuit, half_open, new_breaker, allow, state,
  record_success, record_failure,
}

-- What a finished call tells the breaker; a failure with the time at which it was recorded.
pub data Event : Type 0 where
  success : Event
  failure : ℕ → Event

-- The breaker after a history, the newest event first.
pub run : ℕ → ℕ → List Event → CircuitBreaker
run threshold cooldown [] = new_breaker threshold cooldown
run threshold cooldown (success ∷ h) = record_success (run threshold cooldown h)
run threshold cooldown (failure now ∷ h) = record_failure now (run threshold cooldown h)

-- The failures since the last success.
abbrev pub trailing_failures : List Event → ℕ
trailing_failures [] = 0
trailing_failures (success ∷ h) = 0
trailing_failures (failure now ∷ h) = suc (trailing_failures h)

abbrev pub last_failure : List Event → ℕ
last_failure [] = 0
last_failure (success ∷ h) = 0
last_failure (failure now ∷ h) = now

-- The specification: closed until the trailing failures reach the threshold; then open for a
-- cooldown from the last failure, and half open after that.
abbrev pub state_spec : ℕ → ℕ → ℕ → List Event → CircuitState
state_spec threshold cooldown now h =
    if ltb 0 (trailing_failures h) && leb threshold (trailing_failures h)
    then (if ltb now (last_failure h + cooldown) then open_circuit else half_open)
    else closed

-- What the fields hold after a history.
record Tracks (threshold cooldown : ℕ) (h : List Event) (b : CircuitBreaker) : Type 0 where
  same_threshold : b.threshold ≡ threshold
  same_cooldown : b.cooldown ≡ cooldown
  failures : b.consecutive_failures ≡ trailing_failures h
  until : b.open_until ≡ (
      if ltb 0 (trailing_failures h) && leb threshold (trailing_failures h)
      then last_failure h + cooldown
      else 0)

run-Tracks :
    (threshold cooldown : ℕ) (h : List Event)
    → Tracks threshold cooldown h (run threshold cooldown h)
unfolding run new_breaker record_success record_failure
run-Tracks threshold cooldown [] = ground arith
run-Tracks threshold cooldown (success ∷ h) =
    let t = run-Tracks threshold cooldown h in
    record {
      same_threshold = t.same_threshold;
      same_cooldown = t.same_cooldown;
      failures = ground arith;
      until = ground arith;
    }
run-Tracks threshold cooldown (failure now ∷ h) =
    let t = run-Tracks threshold cooldown h in
    record {
      same_threshold = ground (arith, t.same_threshold);
      same_cooldown = ground (arith, t.same_cooldown);
      failures = ground (arith, t.failures);
      until = ground (arith, t.failures, t.until, t.same_threshold, t.same_cooldown);
    }

-- After any history of calls, with a positive cooldown, the breaker counts exactly the failures
-- since the last success, and at any time reports the state of the specification.
pub state-run :
    (threshold cooldown now : ℕ) (h : List Event)
    → 0 < cooldown
    → ((run threshold cooldown h).consecutive_failures ≡ trailing_failures h)
      × (state now (run threshold cooldown h) ≡ state_spec threshold cooldown now h)
unfolding state
state-run threshold cooldown now h pos =
    let t = run-Tracks threshold cooldown h in (t.failures, ground (arith, t.until))

-- A call is refused in exactly one of the three states that are reported: `allow` is false if and
-- only if the state at that time is open.
allow-state : (now : ℕ) (b : CircuitBreaker) → (allow now b ≡ false) ↔ (state now b ≡ open_circuit)
unfolding allow state
allow-state now b = ground arith

-- A trial after the cooldown: one more failure opens the breaker again at once, for a whole
-- cooldown; a success closes it.
half_open-trial :
    (now later : ℕ) (b : CircuitBreaker)
    → b.threshold ≤ b.consecutive_failures
    → 0 < b.cooldown
    → (state later (record_failure now b)
        ≡ (if ltb later (now + b.cooldown) then open_circuit else half_open))
      × (state later (record_success b) ≡ closed)
unfolding state record_failure record_success
half_open-trial now later b tripped pos = ground arith
