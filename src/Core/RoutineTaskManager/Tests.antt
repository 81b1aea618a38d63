-- ===== src/Core/RoutineTaskManager/Tests.antt =====
-- A run of the routine task manager of pkg/core/routinetaskmanager.go at a concrete input.
use perceptor.Prelude.{pos}
use perceptor.Core.RoutineTaskManager.{Timings}

abbrev configured : Timings
configured = record {
  check_for_stalled_scans_pause_hours = pos 1;
  stalled_scan_client_timeout_hours = pos 5;
  model_metrics_pause_seconds = pos 15;
  unknown_image_pause_milliseconds = pos 15_000;
  client_timeout_milliseconds = pos 5_000;
}

abbrev faster : Timings
faster = record configured {
  model_metrics_pause_seconds = pos 5;
  unknown_image_pause_milliseconds = pos 500;
}
