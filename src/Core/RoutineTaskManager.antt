-- ===== src/Core/RoutineTaskManager.antt =====
-- pkg/core/routinetaskmanager.go and the timings of pkg/core/config.go: three timers, and what becomes
-- of their delays when the timings change. The loop takes one set of timings at a time.
pub mod Delays
mod Tests
use perceptor.Prelude.{
  false, ℕ, ◌+◌, ◌-◌, ◌*◌, ◌^◌, ◌%◌, ℤ, pos, negsuc, List, [], ◌∷◌, Run, ok, ◌>>=◌,
}
use perceptor.Util.Timer.{Timer, set_delay, new_running_timer, handle}
use perceptor.Hub.CircuitBreaker.{to_int64}

pub record Timings : Type 0 where
  pub check_for_stalled_scans_pause_hours : ℤ
  pub stalled_scan_client_timeout_hours : ℤ
  pub model_metrics_pause_seconds : ℤ
  pub unknown_image_pause_milliseconds : ℤ
  pub client_timeout_milliseconds : ℤ

-- The product of a number and a unit in nanoseconds, as an int64.
unfoldable pub duration : ℕ → ℤ → ℤ
duration unit (pos n) = to_int64 (n * unit)
duration unit (negsuc n) = to_int64 (2 ^ 64 - (n + 1) * unit % 2 ^ 64)

abbrev millisecond : ℕ
millisecond = 1_000_000

abbrev second : ℕ
second = 1_000_000_000

abbrev hour : ℕ
hour = 3_600_000_000_000

unfoldable pub client_timeout : Timings → ℤ
client_timeout t = duration millisecond t.client_timeout_milliseconds

unfoldable pub check_for_stalled_scans_pause : Timings → ℤ
check_for_stalled_scans_pause t = duration hour t.check_for_stalled_scans_pause_hours

unfoldable pub stalled_scan_client_timeout : Timings → ℤ
stalled_scan_client_timeout t = duration hour t.stalled_scan_client_timeout_hours

unfoldable pub model_metrics_pause : Timings → ℤ
model_metrics_pause t = duration second t.model_metrics_pause_seconds

unfoldable pub unknown_image_pause : Timings → ℤ
unknown_image_pause t = duration millisecond t.unknown_image_pause_milliseconds

pub record RoutineTaskManager : Type 0 where
  pub timings : Timings
  pub model_metrics_timer : Timer
  pub stalled_scan_client_timer : Timer
  pub unknown_images_timer : Timer

unfoldable pub new_routine_task_manager : Timings → Run RoutineTaskManager
new_routine_task_manager timings = do
  stalled ← new_running_timer (check_for_stalled_scans_pause timings) false
  metrics ← new_running_timer (model_metrics_pause timings) false
  unknown ← new_running_timer (unknown_image_pause timings) false
  ok (record {
    timings = timings;
    model_metrics_timer = metrics;
    stalled_scan_client_timer = stalled;
    unknown_images_timer = unknown;
  })

-- SetTimings, as the loop handles it.
unfoldable pub set_timings : Timings → RoutineTaskManager → Run RoutineTaskManager
set_timings timings rtm =
    handle (set_delay (stalled_scan_client_timeout timings)) rtm.stalled_scan_client_timer
    >>= λ (stalled, e).
        handle (set_delay (model_metrics_pause timings)) rtm.model_metrics_timer >>= λ (metrics, f).
        ok (record rtm {
          timings = timings;
          stalled_scan_client_timer = stalled;
          model_metrics_timer = metrics;
        })

unfoldable pub set_all_timings : List Timings → RoutineTaskManager → Run RoutineTaskManager
set_all_timings [] rtm = ok rtm
set_all_timings (timings ∷ rest) rtm = set_timings timings rtm >>= set_all_timings rest
