-- ===== src/Core/RoutineTaskManager/Delays.antt =====
-- pkg/core/routinetaskmanager.go: the delays of the timers, whatever timings are set.
use perceptor.Prelude.{ℤ, pos, ltb_ℤ, ◌≡◌, true, some, List, [], ◌∷◌}
use perceptor.Util.Timer.{Timer}
use perceptor.Util.Timer.Invariant.{IsSteady}
use perceptor.Core.RoutineTaskManager.{
  Timings, RoutineTaskManager, check_for_stalled_scans_pause, stalled_scan_client_timeout,
  model_metrics_pause, unknown_image_pause,
}

abbrev IsPositive : ℤ → Type 0
IsPositive delay = ltb_ℤ (pos 0) delay ≡ true

-- All the durations of the timings that the timers take are positive.
abbrev pub ArePositive : Timings → Type 0
ArePositive t =
    IsPositive (check_for_stalled_scans_pause t)
    × IsPositive (stalled_scan_client_timeout t)
    × IsPositive (model_metrics_pause t)
    × IsPositive (unknown_image_pause t)

abbrev pub AllPositive : List Timings → Type 0
AllPositive [] = Unit {0}
AllPositive (t ∷ rest) = ArePositive t × AllPositive rest

-- The timings that are set last.
abbrev pub last_of : Timings → List Timings → Timings
last_of t [] = t
last_of t (next ∷ rest) = last_of next rest

-- The timer's ticker runs with this period.
abbrev pub Ticks : ℤ → Timer → Type 0
Ticks period t = (t.base_timer ≡ some period) × (t.ticks ≡ true)

-- All timers are steady. The delay of the metrics is that of the timings, but all three tickers have
-- the periods that were first configured.
pub record IsTimed (first timings : Timings) (rtm : RoutineTaskManager) : Type 0 where
  pub current : rtm.timings ≡ timings
  pub metrics_steady : IsSteady rtm.model_metrics_timer
  pub stalled_steady : IsSteady rtm.stalled_scan_client_timer
  pub unknown_steady : IsSteady rtm.unknown_images_timer
  pub metrics_delay : rtm.model_metrics_timer.delay ≡ model_metrics_pause timings
  pub unknown_delay : rtm.unknown_images_timer.delay ≡ unknown_image_pause first
  pub metrics_ticker : Ticks (model_metrics_pause first) rtm.model_metrics_timer
  pub stalled_ticker : Ticks (check_for_stalled_scans_pause first) rtm.stalled_scan_client_timer
  pub unknown_ticker : Ticks (unknown_image_pause first) rtm.unknown_images_timer
