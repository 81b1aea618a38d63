-- ===== src/Core/ScanScheduler/Tests.antt =====
-- A run of the scan scheduler of pkg/core/scanscheduler.go at a concrete input.
use perceptor.Prelude.{
  length, ◌≤ℤ◌, ◌≡◌, ◌⊎◌, refl, pos, List, [], ◌∷◌, none, some, String, string_eq,
}
use perceptor.Prelude.Maps
use perceptor.Hub.DataTypes.{hub_scan}
use perceptor.Hub.Model.{new_model, in_progress_scans}
use perceptor.Hub.Hub.{Hub}
use perceptor.Hub.Hub.Samples.{logged_in}
use perceptor.Core.HubManager.{HubManager}
use perceptor.Core.HubManager.Keyed.{IsKeyed}
use perceptor.Core.ScanScheduler.{assign_image}
use perceptor.Core.ScanScheduler.Capacity.{HasStarted, assign_image_correct}

abbrev idle : Hub
idle = record logged_in { host = "hub2"; model = new_model "hub2" }

-- A hub with as many scans as it may have.
abbrev full : Hub
full = record logged_in {
  concurrent_scan_limit = pos 1;
  model = record (new_model "hub1") {
    scans = ("a", record { stage = hub_scan; scan_results = none }) ∷ [];
  };
}

abbrev hubs : List (String × Hub)
hubs = ("hub1", full) ∷ ("hub2", idle) ∷ []

hubs-IsKeyed : IsKeyed hubs
unfolding Maps.lookup
hubs-IsKeyed = ((refl, refl), refl, ((refl, refl), refl, tt))

abbrev manager : HubManager
manager = record { hubs = hubs; stopped = []; creating = [] }

assign_image_correct_example :
    ((assign_image hubs ≡ none)
      × ((key : String) (hub : Hub)
          → Maps.lookup key hubs ≡ some hub
          → hub.concurrent_scan_limit ≤ℤ pos (length (in_progress_scans hub.model))))
    ⊎ ((hub : Hub) × (assign_image hubs ≡ some hub)
        × (Maps.lookup hub.host hubs ≡ some hub)
        × HasStarted hub.host "b" hub manager)
assign_image_correct_example = assign_image_correct "b" manager hubs-IsKeyed
