-- ===== src/Hub/CircuitBreaker.antt =====
-- pkg/hub/circuitbreaker.go and util.go. Times and durations are nanoseconds; `now` is what
-- `time.Now()` returns. A `time.Duration` is an int64, so the product of the seconds and 10^9 wraps.
-- `MinDuration` compares in float64, where every duration below 2^53 ns (104 days) and every power of
-- two times 10^9 that fits is exact; the model compares the integers.
pub mod Backoff
pub mod Invariant
mod Tests
use perceptor.Prelude.{
  ℕ, suc, ◌+◌, ◌-◌, ◌*◌, ◌%◌, ◌^◌, ℤ, pos, negsuc, ◌+ℤ◌, ltb_ℤ, Bool, true, false, ltb, Option,
  none, some, String, Run, ok, panic, out_of_fuel, ◌>>=◌, or_panic, if◌then◌else◌,
}

pub data CircuitBreakerState : Type 0 where
  disabled enabled checking : CircuitBreakerState

pub record CircuitBreaker : Type 0 where
  pub state : CircuitBreakerState
  pub next_check_time : Option ℤ
  pub max_backoff_duration : ℤ
  pub consecutive_failures : ℕ
  pub host : String

unfoldable pub new_circuit_breaker : String → ℤ → CircuitBreaker
new_circuit_breaker host max_backoff_duration = record {
  state = enabled;
  next_check_time = none;
  max_backoff_duration = max_backoff_duration;
  consecutive_failures = 0;
  host = host;
}

unfoldable pub reset : CircuitBreaker → CircuitBreaker
reset cb = record cb { state = enabled; consecutive_failures = 0; next_check_time = none }

unfoldable pub is_enabled : CircuitBreaker → Bool
is_enabled cb = elim cb.state [ disabled ↦ false | _ ↦ true ]

-- The int64 with the same bits as a number modulo 2^64.
abbrev pub to_int64 : ℕ → ℤ
to_int64 n =
    let bits = n % 2 ^ 64 in if ltb bits (2 ^ 63) then pos bits else negsuc (2 ^ 64 - bits - 1)

unfoldable pub min_duration : ℤ → ℤ → ℤ
min_duration left right = if ltb_ℤ right left then right else left

-- 2^failures seconds as a Duration. From 2^63 on the conversion of the float is out of range, and
-- what it gives depends on the platform; on amd64 it gives the least int64, which times 10^9 is 0
-- modulo 2^64.
unfoldable pub exponential_duration : ℕ → ℤ
exponential_duration failures =
    if ltb failures 63 then to_int64 (2 ^ failures * 1_000_000_000) else pos 0

unfoldable pub set_next_check_time : ℤ → CircuitBreaker → CircuitBreaker
set_next_check_time now cb = record cb {
  next_check_time =
      some (
        now +ℤ min_duration cb.max_backoff_duration (exponential_duration cb.consecutive_failures));
}

-- A disabled breaker without a time to check at is a nil dereference.
unfoldable pub is_able_to_issue_request : ℤ → CircuitBreaker → Run (CircuitBreaker × Bool)
is_able_to_issue_request now cb = elim cb.state [
  | disabled ↦ or_panic cb.next_check_time >>= λ next.
      let able = if ltb_ℤ next now then record cb { state = checking } else cb in
      ok (able, is_enabled able)
  | _ ↦ ok (cb, is_enabled cb)
]

unfoldable pub failure : ℤ → CircuitBreaker → CircuitBreaker
failure now cb = elim cb.state [
  | enabled ↦ set_next_check_time now (record cb { state = disabled; consecutive_failures = 1 })
  | disabled ↦ cb
  | checking ↦
      set_next_check_time now
        (record cb { state = disabled; consecutive_failures = cb.consecutive_failures + 1 })
]

unfoldable pub success : CircuitBreaker → CircuitBreaker
success cb = elim cb.state [
  | checking ↦ record cb { state = enabled; consecutive_failures = 0; next_check_time = none }
  | _ ↦ cb
]

-- How IssueRequest ends: it refuses, or it runs the request and passes on its outcome.
pub data Issued (E : Type 0) : Type 0 where
  refused : Issued E
  ran : Option E → Issued E

-- The request's error is `none` for nil; `later` is the time when it has returned.
unfoldable pub issue_request :
    {E : Type 0} → ℤ → ℤ → Option E → CircuitBreaker → Run (CircuitBreaker × Issued E)
issue_request now later request cb = is_able_to_issue_request now cb >>= λ (able, is_able).
    if is_able
    then (elim request [
      | none ↦ ok (success able, ran none)
      | some e ↦ ok (failure later able, ran (some e))
    ])
    else ok (able, refused)
