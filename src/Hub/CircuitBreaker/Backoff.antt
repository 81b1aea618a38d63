-- ===== src/Hub/CircuitBreaker/Backoff.antt =====
-- pkg/hub/circuitbreaker.go: how long the breaker waits after a number of failures.
use native.Mathlib.Nat.{pow-le-pow_right}
use perceptor.Prelude.{
  ℕ, ℤ, ◌+◌, ◌*◌, ◌^◌, ◌≤◌, ◌<◌, ◌≡◌, ◌≢◌, ◌+ℤ◌, refl, inl, inr, Bool-cases, true, pos, some, arith,
  ltb, if◌then◌else◌,
}
use perceptor.Hub.CircuitBreaker.{
  CircuitBreaker, CircuitBreakerState, disabled, enabled, checking, to_int64, min_duration,
  exponential_duration, set_next_check_time, failure,
}

-- A number below 2^63 is itself as an int64.
to_int64-small : (n : ℕ) → n < 9_223_372_036_854_775_808 → to_int64 n ≡ pos n
to_int64-small n h = ground arith

-- Up to 33 failures in a row the product does not wrap.
exponential_duration-exact :
    (failures : ℕ)
    → failures ≤ 33
    → exponential_duration failures ≡ pos (2 ^ failures * 1_000_000_000)
unfolding exponential_duration
exponential_duration-exact failures h =
    let bound : 2 ^ failures ≤ 8_589_934_592 = pow-le-pow_right (omega arith) h in
    rw (few) (to_int64-small (2 ^ failures * 1_000_000_000) (omega arith))
  where
    few : ltb failures 63 ≡ true
    few = ground arith

-- The pause after a number of failures, in nanoseconds: 2^n seconds up to 8, then five minutes.
abbrev pub pause_after : ℕ → ℤ
pause_after failures =
    if ltb failures 9 then pos (2 ^ failures * 1_000_000_000) else pos 300_000_000_000

capped :
    (failures : ℕ)
    → failures ≤ 33
    → min_duration (pos 300_000_000_000) (exponential_duration failures) ≡ pause_after failures
unfolding min_duration
capped failures h = elim (Bool-cases (ltb failures 9)) [
  | inl e ↦
      let few : failures ≤ 8 = ground (arith, e) in
      let bound : 2 ^ failures ≤ 256 = pow-le-pow_right (omega arith) few in
      rw (exponential_duration-exact failures h) (ground (arith, e, bound))
  | inr e ↦
      let many : 9 ≤ failures = ground (arith, e) in
      let bound : 512 ≤ 2 ^ failures = pow-le-pow_right (omega arith) many in
      rw (exponential_duration-exact failures h) (ground (arith, e, bound))
]

-- A failure of a breaker that is not disabled, with at most 33 failures in a row counting this one and
-- a longest backoff of five minutes, as every client has it: the breaker is disabled, and checks
-- again 2^n seconds after the failure, n being the failures in a row, but after five minutes from the
-- ninth on.
pub failure-pause_after :
    (now : ℤ) (cb : CircuitBreaker)
    → cb.state ≢ disabled
    → cb.max_backoff_duration ≡ pos 300_000_000_000
    → (failure now cb).consecutive_failures ≤ 33
    → ((failure now cb).state ≡ disabled)
      × ((failure now cb).next_check_time
          ≡ some (now +ℤ pause_after (failure now cb).consecutive_failures))
unfolding failure set_next_check_time
failure-pause_after now cb n m h = by_state cb.state refl
  where
    after :
        (longest : ℤ) (failures : ℕ)
        → longest ≡ pos 300_000_000_000
        → failures ≤ 33
        → some (now +ℤ min_duration longest (exponential_duration failures))
          ≡ some (now +ℤ pause_after failures)
    after longest failures l f = rw (l, capped failures f) refl

    by_state :
        (state : CircuitBreakerState)
        → cb.state ≡ state
        → ((failure now cb).state ≡ disabled)
          × ((failure now cb).next_check_time
              ≡ some (now +ℤ pause_after (failure now cb).consecutive_failures))
    by_state enabled e = rw (e, failure) (refl, after cb.max_backoff_duration 1 m (omega arith))
    by_state checking e =
        rw (e, failure)
          (
            refl,
            after cb.max_backoff_duration (cb.consecutive_failures + 1) m (ground (arith, e, h)),
          )
    by_state disabled e = absurd (n e)
