-- ===== src/Worker/Thread.antt =====
-- The class `Worker` of app/services/worker.py: its event, its thread and its client, and the loop of
-- the thread, round by round; with the lifespan of app/main.py that starts and stops it.
use ticket_triage.Base.{
  ℕ, ◌+◌, ◌≤◌, ◌≡◌, refl, ◌∙◌, ap, Bool, true, false, Option, none, some, List, [], ◌∷◌, exists,
  length, if◌then◌else◌, Bool-cases, inl, inr,
}
use ticket_triage.Model.{Settings}
use ticket_triage.Model.Lifecycle.{Lifecycle}
use ticket_triage.Counts.{count_if}
use ticket_triage.Client.{World}
use ticket_triage.Schema.{Decoder}
use ticket_triage.Worker.{
  Poll, Polled, idle, processed, raised, process_next_ticket, oldest_received, run,
}
use ticket_triage.Worker.Queue.{is_received}
use ticket_triage.Worker.Drain.{Calm, run-drains}

-- The event, whether the thread runs or was started, and whether the client is open. The breaker is
-- that of the `World`.
pub record Worker : Type 0 where
  pub stop_set : Bool
  pub started : Bool
  pub client_open : Bool

-- `__init__`, `start` and `stop`
unfoldable pub new_worker : Worker
new_worker = record { stop_set = false; started = false; client_open = true }

unfoldable pub start : Worker → Worker
start w = record w { started = true }

unfoldable pub stop : Worker → Worker
stop w = record w { stop_set = true; client_open = false }

-- `lifespan` before and after the `yield`: what is published as `app.state.worker`, and what is left
-- of it.
unfoldable pub lifespan_enter : Bool → Option Worker
unfolding start new_worker
lifespan_enter worker_enabled = if worker_enabled then some (start new_worker) else none

unfoldable pub lifespan_exit : Option Worker → Option Worker
unfolding stop
lifespan_exit none = none
lifespan_exit (some w) = some (stop w)

-- A round of the loop: what `is_set` returns, whether the database can be reached, and the poll.
pub record Round : Type 0 where
  pub is_set : Bool
  pub reachable : Bool
  pub poll : Poll

module _ (d : Decoder) (settings : Settings) where
  -- The body of the `try`: a session that fails raises before the poll.
  unfoldable pub attempt : Round → World → Polled × World
  attempt r w = if r.reachable then process_next_ticket d settings r.poll w else (raised, w)

  -- `processed` after the handler, where a poll that raised counts as none.
  abbrev pub is_processed : Polled → Bool
  is_processed processed = true
  is_processed idle = false
  is_processed raised = false

  -- What a stretch of the loop did: the world, the pauses, and whether the thread has ended.
  pub record Ran : Type 0 where
    pub world : World
    pub pauses : ℕ
    pub ended : Bool

  abbrev after_round : Polled → Ran → Ran
  after_round p rest = if is_processed p then rest else record rest { pauses = rest.pauses + 1 }

  -- `_run`, over the rounds that are observed.
  unfoldable pub run_thread : List Round → World → Ran
  unfolding attempt
  run_thread [] w = record { world = w; pauses = 0; ended = false }
  run_thread (r ∷ rounds) w =
      let rest = run_thread rounds (attempt r w).1 in
      if r.is_set
      then record { world = w; pauses = 0; ended = true }
      else after_round (attempt r w).0 rest

  -- The polls that take place: those before the event is seen, of a database that is reachable.
  unfoldable pub polls_of : List Round → List Poll
  polls_of [] = []
  polls_of (r ∷ rounds) =
      let rest = polls_of rounds in
      if r.is_set then [] else if r.reachable then r.poll ∷ rest else rest

  after_round_lem :
      (p : Polled) (rest : Ran)
      → ((after_round p rest).world ≡ rest.world) × ((after_round p rest).ended ≡ rest.ended)
  after_round_lem processed rest = (refl, refl)
  after_round_lem idle rest = (refl, refl)
  after_round_lem raised rest = (refl, refl)

  -- Whatever happens in its rounds, the thread does what the polls of the rounds do one after another,
  -- up to the first round that sees the event, and it ends in that round and in no other way: neither a
  -- poll that raises nor a database out of reach ends it.
  pub run_thread-run :
      (rounds : List Round) (w : World)
      → ((run_thread rounds w).world ≡ run d settings (polls_of rounds) w)
        × ((run_thread rounds w).ended ≡ exists (λ (r : Round). r.is_set) rounds)
  unfolding run_thread run polls_of attempt
  run_thread-run [] w = (refl, refl)
  run_thread-run (r ∷ rounds) w = elim (Bool-cases r.is_set) [
    | inl e ↦ rw (e, run_thread, polls_of) (refl, refl)
    | inr e ↦ elim (Bool-cases r.reachable) [
      | inl up ↦
          let ran = process_next_ticket d settings r.poll w in
          let rest = run_thread-run rounds ran.1 in
          let (same_world, same_end) = after_round_lem ran.0 (run_thread rounds ran.1) in
          rw (e, up) (same_world ∙ rest.0, same_end ∙ rest.1)
      | inr down ↦
          let rest = run_thread-run rounds w in
          let (same_world, same_end) = after_round_lem raised (run_thread rounds w) in
          rw (e, down) (same_world ∙ rest.0, same_end ∙ rest.1)
    ]
  ]

  -- The worker drains the queue: from a database in the invariant, once as many polls have taken place
  -- as there are received tickets, none is received, however many rounds fail to reach the database in
  -- between, whatever the provider answers, if a request raises no other exception than a transport
  -- error, a 200 of the provider is a document of its API whose text json.loads reads or refuses with a
  -- JSONDecodeError, and the rows of each poll get new ids.
  pub run_thread-drains :
      (rounds : List Round) (w : World)
      → Lifecycle w.db
      → Calm d settings (polls_of rounds) w
      → count_if is_received w.db.tickets ≤ length (polls_of rounds)
      → oldest_received (run_thread rounds w).world.db ≡ none
  run_thread-drains rounds w v calm h =
      ap (λ (u : World). oldest_received u.db) (run_thread-run rounds w).0
      ∙ run-drains d settings (polls_of rounds) w v calm h

-- The lifespan publishes a worker that runs exactly when the settings enable it, and afterwards its
-- event is set and its client closed.
pub lifespan_lem :
    (enabled : Bool)
    → lifespan_exit (lifespan_enter enabled) ≡ (
        if enabled
        then some (record { stop_set = true; started = true; client_open = false })
        else none)
unfolding lifespan_enter lifespan_exit
lifespan_lem true = refl
lifespan_lem false = refl
