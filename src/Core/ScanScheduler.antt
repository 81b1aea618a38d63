-- ===== src/Core/ScanScheduler.antt =====
-- pkg/core/scanscheduler.go: the hub that is to scan the next image. Go's `range` may take the hubs in
-- any order.
pub mod Capacity
mod Tests
use perceptor.Prelude.{
  Bool, pos, List, [], ◌∷◌, Option, none, some, String, length, ltb_ℤ, if◌then◌else◌,
}
use perceptor.Hub.Model.{in_progress_scans}
use perceptor.Hub.Hub.{Hub}

abbrev pub is_available : Hub → Bool
is_available hub = ltb_ℤ (pos (length (in_progress_scans hub.model))) hub.concurrent_scan_limit

unfoldable pub assign_image : List (String × Hub) → Option Hub
assign_image [] = none
assign_image ((url, hub) ∷ rest) =
    let others = assign_image rest in if is_available hub then some hub else others
