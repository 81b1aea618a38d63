-- ===== src/Hub/CircuitBreaker/Invariant.antt =====
-- The states of a circuit breaker, and what a request does to it.
use perceptor.Prelude.{
  ℕ, ◌+◌, ◌<◌, ℤ, ◌+ℤ◌, ltb_ℤ, ◌≡◌, ◌≢◌, refl, Bool, true, false, Option, none, some, some-ne-none,
  String, arith, ok, Returns, returned, Returns-if, Returns-weaken, if◌then◌else◌,
}
use perceptor.Hub.CircuitBreaker.{
  CircuitBreaker, CircuitBreakerState, disabled, enabled, checking, new_circuit_breaker, reset,
  is_enabled, set_next_check_time, min_duration, exponential_duration, is_able_to_issue_request,
  failure, success, Issued, refused, ran, issue_request,
}

-- What each state stands for: enabled, no failure is remembered; otherwise some are, and a disabled
-- breaker knows when to check again.
abbrev pub IsWellFormed : CircuitBreaker → Type 0
IsWellFormed cb = elim cb.state [
  | enabled ↦ (cb.consecutive_failures ≡ 0) × (cb.next_check_time ≡ none)
  | disabled ↦ (0 < cb.consecutive_failures) × (cb.next_check_time ≢ none)
  | checking ↦ (0 < cb.consecutive_failures) × (cb.next_check_time ≢ none)
]

pub new-IsWellFormed : (host : String) (max : ℤ) → IsWellFormed (new_circuit_breaker host max)
unfolding new_circuit_breaker
new-IsWellFormed host max = (refl, refl)

pub reset-IsWellFormed : (cb : CircuitBreaker) → IsWellFormed (reset cb)
unfolding reset
reset-IsWellFormed cb = (refl, refl)

-- The request is due: the breaker is not disabled, or its time to check has passed.
abbrev pub IsDue : ℤ → CircuitBreaker → Type 0
IsDue now cb = elim cb.state [
  | disabled ↦ (next : ℤ) × (cb.next_check_time ≡ some next) × (ltb_ℤ next now ≡ true)
  | _ ↦ Unit {0}
]

-- What IssueRequest promises of a well-formed breaker. Before its time it refuses and nothing
-- changes. Otherwise the request runs once: a success enables the breaker and forgets all failures;
-- a failure disables it, with one failure more, until the backoff has passed.
pub record Answered {E : Type 0} (now later : ℤ) (request : Option E) (cb : CircuitBreaker)
    (r : CircuitBreaker × Issued E) : Type 0 where
  pub well_formed : IsWellFormed r.0
  pub not_due : ¬ IsDue now cb → (r.0 ≡ cb) × (r.1 ≡ refused)
  pub answer : IsDue now cb → r.1 ≡ ran request
  pub succeeded :
      IsDue now cb
      → request ≡ none
      → (r.0.state ≡ enabled) × (r.0.consecutive_failures ≡ 0) × (r.0.next_check_time ≡ none)
  pub failed :
      IsDue now cb
      → request ≢ none
      → (r.0.state ≡ disabled)
        × (r.0.consecutive_failures ≡ cb.consecutive_failures + 1)
        × (r.0.next_check_time
            ≡ some (
                later
                +ℤ min_duration cb.max_backoff_duration
                    (exponential_duration (cb.consecutive_failures + 1))))

-- The breaker with these fields.
abbrev breaker : CircuitBreakerState → Option ℤ → ℤ → ℕ → String → CircuitBreaker
breaker s t m n h = record {
  state = s;
  next_check_time = t;
  max_backoff_duration = m;
  consecutive_failures = n;
  host = h;
}

-- A breaker is not due before its time.
too_early :
    (now m : ℤ) (h : String) (n : ℕ) (next : ℤ)
    → ltb_ℤ next now ≡ false
    → ¬ IsDue now (breaker disabled (some next) m n h)
too_early now m h n next e (t, p, q) = cc

module _ {E : Type 0} (now later : ℤ) (m : ℤ) (h : String) where
  -- A breaker that lets the request through.
  open_correct :
      (request : Option E) (s : CircuitBreakerState) (t : Option ℤ) (n : ℕ)
      → s ≢ disabled
      → IsWellFormed (breaker s t m n h)
      → Returns
          (Answered now later request (breaker s t m n h))
          (issue_request now later request (breaker s t m n h))
  unfolding issue_request is_able_to_issue_request is_enabled failure success set_next_check_time
  open_correct none enabled t n o w = returned record {
    well_formed = w;
    not_due = λ early. absurd (early tt);
    answer = λ _. refl;
    succeeded = λ _ _. (refl, w.0, w.1);
    failed = λ _ e. absurd (e refl);
  }
  open_correct (some x) enabled t n o w = returned record {
    well_formed = (ground arith, some-ne-none _);
    not_due = λ early. absurd (early tt);
    answer = λ _. refl;
    succeeded = λ _ e. absurd (some-ne-none _ e);
    failed = λ _ _. (refl, rw (w.0) refl, rw (w.0) refl);
  }
  open_correct none checking t n o w = returned record {
    well_formed = (refl, refl);
    not_due = λ early. absurd (early tt);
    answer = λ _. refl;
    succeeded = λ _ _. (refl, refl, refl);
    failed = λ _ e. absurd (e refl);
  }
  open_correct (some x) checking t n o w = returned record {
    well_formed = (ground arith, some-ne-none _);
    not_due = λ early. absurd (early tt);
    answer = λ _. refl;
    succeeded = λ _ e. absurd (some-ne-none _ e);
    failed = λ _ _. (refl, refl, refl);
  }
  open_correct request disabled t n o w = absurd (o refl)

  -- A due breaker goes on as one that is checking; one that is not due refuses.
  disabled_step :
      (request : Option E) (next : ℤ) (n : ℕ)
      → issue_request now later request (breaker disabled (some next) m n h) ≡ (
          if ltb_ℤ next now
          then issue_request now later request (breaker checking (some next) m n h)
          else ok (breaker disabled (some next) m n h, refused))
  unfolding issue_request is_able_to_issue_request is_enabled
  disabled_step request next n = step (ltb_ℤ next now)
    where
      step :
          (b : Bool)
          → (let able =
                if b
                then breaker checking (some next) m n h
                else breaker disabled (some next) m n h in
              if is_enabled able
              then (elim request [
                | none ↦ ok (success able, ran none)
                | some e ↦ ok (failure later able, ran (some e))
              ])
              else ok (able, refused))
            ≡ (if b
                then issue_request now later request (breaker checking (some next) m n h)
                else ok (breaker disabled (some next) m n h, refused))
      step true = refl
      step false = refl

  -- A disabled breaker with a time to check at.
  disabled_correct :
      (request : Option E) (t : Option ℤ) (n : ℕ)
      → IsWellFormed (breaker disabled t m n h)
      → Returns
          (Answered now later request (breaker disabled t m n h))
          (issue_request now later request (breaker disabled t m n h))
  disabled_correct request none n w = absurd (w.1 refl)
  disabled_correct request (some next) n w = rw (disabled_step request next n) (
      Returns-if (ltb_ℤ next now)
        (λ e. Returns-weaken (open_correct request checking (some next) n (λ p. cc) w) (λ r a.
          record {
            well_formed = a.well_formed;
            not_due = λ early. absurd (early (next, refl, e));
            answer = λ _. a.answer tt;
            succeeded = λ _. a.succeeded tt;
            failed = λ _. a.failed tt;
          }))
        (λ e. returned record {
          well_formed = w;
          not_due = λ _. (refl, refl);
          answer = λ d. absurd (too_early now m h n next e d);
          succeeded = λ d. absurd (too_early now m h n next e d);
          failed = λ d. absurd (too_early now m h n next e d);
        }))

-- On a well-formed breaker IssueRequest never panics: before its time it refuses and nothing
-- changes; otherwise the request runs once, a success enables the breaker, and a failure disables it
-- with one failure more until the backoff has passed.
pub issue_request_correct :
    {E : Type 0} (now later : ℤ) (request : Option E) (cb : CircuitBreaker)
    → IsWellFormed cb
    → Returns (Answered now later request cb) (issue_request now later request cb)
issue_request_correct now later request cb w = by_state cb.state w
  where
    by_state :
        (s : CircuitBreakerState)
        → IsWellFormed
            (breaker s cb.next_check_time cb.max_backoff_duration cb.consecutive_failures cb.host)
        → Returns
            (Answered now later request (
              breaker s cb.next_check_time cb.max_backoff_duration cb.consecutive_failures cb.host))
            (issue_request now later request (
              breaker s cb.next_check_time cb.max_backoff_duration cb.consecutive_failures cb.host))
    by_state disabled v =
        disabled_correct now later cb.max_backoff_duration cb.host request cb.next_check_time
          cb.consecutive_failures v
    by_state enabled v =
        open_correct now later cb.max_backoff_duration cb.host request enabled cb.next_check_time
          cb.consecutive_failures (λ p. cc) v
    by_state checking v =
        open_correct now later cb.max_backoff_duration cb.host request checking cb.next_check_time
          cb.consecutive_failures (λ p. cc) v
