-- ===== src/Hub/CircuitBreaker/Tests.antt =====
-- A run of the circuit breaker of pkg/hub/circuitbreaker.go at a concrete input.
use perceptor.Prelude.{
  ◌≡◌, ◌+ℤ◌, negsuc, refl, pos, Option, some, String, Returns, some-ne-none, arith,
}
use perceptor.Hub.CircuitBreaker.Backoff.{pause_after, failure-pause_after}
use perceptor.Hub.CircuitBreaker.{
  exponential_duration, CircuitBreaker, disabled, checking, failure, set_next_check_time,
  issue_request,
}
use perceptor.Hub.CircuitBreaker.Invariant.{IsWellFormed, Answered, issue_request_correct}

-- A breaker with two failures behind it that checks again from the time 50 on.
abbrev waiting : CircuitBreaker
waiting = record {
  state = disabled;
  next_check_time = some (pos 50);
  max_backoff_duration = pos 3_600_000_000_000;
  consecutive_failures = 2;
  host = "hub";
}

abbrev outage : Option String
outage = some "no answer"

waiting-IsWellFormed : IsWellFormed waiting
waiting-IsWellFormed = (omega arith, some-ne-none _)

issue_request_correct_example :
    Returns
      (Answered (pos 60) (pos 70) outage waiting)
      (issue_request (pos 60) (pos 70) outage waiting)
issue_request_correct_example =
    issue_request_correct (pos 60) (pos 70) outage waiting waiting-IsWellFormed

-- A check after eight failures.
abbrev eighth : CircuitBreaker
eighth = record waiting {
  state = checking;
  max_backoff_duration = pos 300_000_000_000;
  consecutive_failures = 8;
}

failure-pause_after_example :
    ((failure (pos 70) eighth).state ≡ disabled)
    × ((failure (pos 70) eighth).next_check_time
        ≡ some (pos 70 +ℤ pause_after (failure (pos 70) eighth).consecutive_failures))
unfolding failure set_next_check_time
failure-pause_after_example = failure-pause_after (pos 70) eighth (λ e. cc) refl (omega arith)

-- One failure more, and the backoff is negative.
backoff_34 : exponential_duration 34 ≡ negsuc 1_266_874_889_709_551_615
unfolding exponential_duration
backoff_34 = refl
