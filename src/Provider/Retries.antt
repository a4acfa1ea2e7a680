-- ===== src/Provider/Retries.antt =====
-- The retry loop: which response decides, and how many requests and pauses precede it.
use ticket_triage.Base.{
  ℕ, zero, suc, ◌+◌, ◌≤◌, ◌<◌, ◌≡◌, refl, ap, sym, ◌∙◌, ◌⊎◌, inl, inr, Bool, true, false,
  Bool-cases, List, [], ◌∷◌, arith, ltb, eqb, ◌≢◌, if◌then◌else◌,
}
use ticket_triage.Text.{Text}
use ticket_triage.Json.{null}
use ticket_triage.Labels.{Outcome, ok, timeout, api_error}
use ticket_triage.Model.{Settings}
use ticket_triage.Provider.{
  Body, Response, response, judge_status, retryable_status, status_detail, Verdict, success,
  transient, final, crash, judge, Attempted, returned, crashed, backoff, stop, pause_then,
  attempt_loop, attempt_with_retries,
}

abbrev pub is_transient : Verdict → Bool
is_transient (transient o d) = true
is_transient other = false

-- What the loop makes of the response that decides.
abbrev pub decided : Verdict → Attempted
decided (success content usage) = returned ok content usage []
decided (transient o d) = returned o null null d
decided (final o d) = returned o null null d
decided crash = crashed

-- The pauses after `n` rounds that begin at round `a`.
abbrev pub pauses_from : (ℕ → ℕ) → ℕ → ℕ → List ℕ
pauses_from jitter a zero = []
pauses_from jitter a (suc n) = backoff jitter a ∷ pauses_from jitter (suc a) n

positive : (n : ℕ) → ltb 0 (suc n) ≡ true
positive n = ground arith

module _ (post : ℕ → Response) (jitter : ℕ → ℕ) where
  pub loop_stops :
      (left a : ℕ) (lo : Outcome) (ld : Text)
      → (left ≡ 0) ⊎ (is_transient (judge (post a)) ≡ false)
      → attempt_loop post jitter (suc left) a lo ld ≡ stop (decided (judge (post a)))
  unfolding attempt_loop
  loop_stops left a lo ld h = ground arith

  loop_goes_on :
      (left a : ℕ) (lo : Outcome) (ld : Text)
      → is_transient (judge (post a)) ≡ true
      → (o : Outcome) × (d : Text) × (attempt_loop post jitter (suc (suc left)) a lo ld
          ≡ pause_then (backoff jitter a) (attempt_loop post jitter (suc left) (suc a) o d))
  unfolding attempt_loop
  loop_goes_on left a lo ld h = go (judge (post a)) refl
    where
      go :
          (v : Verdict)
          → judge (post a) ≡ v
          → (o : Outcome) × (d : Text) × (attempt_loop post jitter (suc (suc left)) a lo ld
              ≡ pause_then (backoff jitter a) (attempt_loop post jitter (suc left) (suc a) o d))
      go (transient o d) e = (o, d, rw (e, attempt_loop, positive left))
      go _ e = absurd (cc (e, h))

  shifted : (a i : ℕ) → suc a + i ≡ a + suc i
  shifted a i = omega arith

  loop_decided :
      (n left a : ℕ) (lo : Outcome) (ld : Text)
      → ((i : ℕ) → i < n → is_transient (judge (post (a + i))) ≡ true)
      → n ≤ left
      → (n ≡ left) ⊎ (is_transient (judge (post (a + n))) ≡ false)
      → attempt_loop post jitter (suc left) a lo ld ≡ record {
        result = decided (judge (post (a + n)));
        posts = suc n;
        pauses = pauses_from jitter a n;
      }
  loop_decided zero left a lo ld before fits last =
      let e : a + 0 ≡ a = omega arith in
      rw e (loop_stops left a lo ld (elim last [ inl f ↦ inl (sym f) | inr f ↦ inr (rw e at f) ]))
  loop_decided (suc n) zero a lo ld before fits last = absurd (omega arith)
  loop_decided (suc n) (suc left) a lo ld before fits last =
      let e : a + 0 ≡ a = omega arith in
      let (o, d, step) = loop_goes_on left a lo ld (rw e at (before 0 (omega arith))) in
      step
      ∙ ap (pause_then (backoff jitter a)) (
          loop_decided n left (suc a) o d (λ i h. rw (shifted a i) (before (suc i) (omega arith)))
            (omega arith)
            (rw (shifted a n) (elim last [ inl f ↦ inl (omega arith) | inr f ↦ inr f ])))
      ∙ rw (shifted a n)

attempt_with_retries-decided :
    (settings : Settings) (post : ℕ → Response) (jitter : ℕ → ℕ) (n : ℕ)
    → ((i : ℕ) → i < n → is_transient (judge (post i)) ≡ true)
    → n ≤ settings.llm_max_retries
    → (n ≡ settings.llm_max_retries) ⊎ (is_transient (judge (post n)) ≡ false)
    → attempt_with_retries settings post jitter
      ≡ record { result = decided (judge (post n)); posts = suc n; pauses = pauses_from jitter 0 n }
unfolding attempt_with_retries
attempt_with_retries-decided settings post jitter n before fits last =
    let z : (i : ℕ) → 0 + i ≡ i = λ i. omega arith in
    let one : settings.llm_max_retries + 1 ≡ suc settings.llm_max_retries = omega arith in
    rw one (
      loop_decided post jitter n settings.llm_max_retries 0 api_error []
        (λ i h. rw (z i) (before i h)) fits (rw (z n) last)
      ∙ rw (z n))

-- To go from the rounds after the first to all rounds.
extend_below :
    (P : ℕ → Type 0) (n : ℕ) → P 0 → ((i : ℕ) → i < n → P (suc i)) → (i : ℕ) → i < suc n → P i
extend_below P n first later zero h = first
extend_below P n first later (suc i) h = later i (omega arith)

-- The round that decides exists, for every provider.
first_decisive :
    (post : ℕ → Response) (left a : ℕ)
    → (n : ℕ) × (n ≤ left)
      × ((i : ℕ) → i < n → is_transient (judge (post (a + i))) ≡ true)
      × ((n ≡ left) ⊎ (is_transient (judge (post (a + n))) ≡ false))
first_decisive post zero a = (0, omega arith, λ i h. absurd (omega arith), inl refl)
first_decisive post (suc left) a = elim (Bool-cases (is_transient (judge (post (a + 0))))) [
  | inr f ↦ (0, omega arith, λ i h. absurd (omega arith), inr f)
  | inl t ↦
      let (n, fits, before, last) = first_decisive post left (suc a) in
      let shift : (i : ℕ) → suc a + i ≡ a + suc i = λ i. omega arith in
      (
        suc n,
        omega arith,
        extend_below (λ i. is_transient (judge (post (a + i))) ≡ true) n t
            (λ i h. rw (shift i) at (before i h)),
        elim last [ inl e ↦ inl (ap suc e) | inr f ↦ inr (rw (shift n) at f) ],
      )
]

-- For every provider there is a round `n`, at most `llm_max_retries`, such that all earlier responses
-- are transient failures and the response of round `n` is not one or is the last allowed. The client
-- then sends exactly `n + 1` requests, pauses `n` times, each time for the backoff of its round, and
-- returns what the response of round `n` decides.
pub attempt_with_retries_total :
    (settings : Settings) (post : ℕ → Response) (jitter : ℕ → ℕ)
    → (n : ℕ) × (n ≤ settings.llm_max_retries)
      × ((i : ℕ) → i < n → is_transient (judge (post i)) ≡ true)
      × ((n ≡ settings.llm_max_retries) ⊎ (is_transient (judge (post n)) ≡ false))
      × (attempt_with_retries settings post jitter ≡ record {
        result = decided (judge (post n));
        posts = suc n;
        pauses = pauses_from jitter 0 n;
      })
attempt_with_retries_total settings post jitter =
    let (n, fits, before, last) = first_decisive post settings.llm_max_retries 0 in
    let z : (i : ℕ) → 0 + i ≡ i = λ i. omega arith in
    let before' : (i : ℕ) → i < n → is_transient (judge (post i)) ≡ true =
      λ i h. rw (z i) at (before i h) in
    let last' : (n ≡ settings.llm_max_retries) ⊎ (is_transient (judge (post n)) ≡ false) =
      elim last [ inl e ↦ inl e | inr f ↦ inr (rw (z n) at f) ] in
    (
      n,
      fits,
      before',
      last',
      attempt_with_retries-decided settings post jitter n before' fits last',
    )

-- A client error other than 429 is never retried: if the first response has a status from 400 to 499
-- that is not 429, one request is sent, and the call fails as a timeout (408) or an API error.
pub attempt_with_retries-client_error :
    (settings : Settings) (post : ℕ → Response) (jitter : ℕ → ℕ) (status : ℕ) (body : Body)
    → post 0 ≡ response status body
    → 400 ≤ status
    → status ≤ 499
    → status ≢ 429
    → attempt_with_retries settings post jitter
      ≡ stop (
          returned (if eqb status 408 then timeout else api_error) null null (status_detail status))
attempt_with_retries-client_error settings post jitter status body e lo hi ne =
    attempt_with_retries-decided settings post jitter 0 (λ i h. absurd (omega arith)) (omega arith)
      (inr (rw (e, judge_client_error) refl))
    ∙ rw (e, judge_client_error) refl
  where
    judge_client_error :
        judge (response status body)
        ≡ final (if eqb status 408 then timeout else api_error) (status_detail status)
    judge_client_error = unfold judge judge_status retryable_status in ground arith
