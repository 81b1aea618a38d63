-- ===== src/Core/Model/Samples.antt =====
-- A model of pkg/core/model with a pod whose image waits in the queue, for the runs at concrete inputs.
use perceptor.Prelude.{
  ℕ, pos, ◌≡◌, refl, subst, none, some, List, [], ◌∷◌, replicate, arith, ok, Returns, Returns-ok,
  string_eq,
}
use text.Mathlib.TextEquality.{eq_iff}
use perceptor.Prelude.Maps
use perceptor.Util.PriorityQueue.{
  new_priority_queue_with_initial_capacity, add, resize_if_necessary, store, place, sift_up,
  sift_up_loop, load, node_at, swap,
}
use perceptor.Util.PriorityQueue.Slots.{find}
use perceptor.Core.Model.ScanStatus.{
  in_queue, is_legal_transition, status_string, legal_transitions,
}
use perceptor.Core.Model.Image.{Image, Pod, ImageInfo, new_image_info, qualified_name}
use perceptor.Core.Model.State.{
  Model, new_model, combine_errors, set_image_scan_status, set_image_scan_status_for_sha,
  status_text, add_image_to_scan_queue, leave_state, enter_state,
}
use perceptor.Core.Model.Handlers.{
  Action, adds_pod, scan_finishes, apply, run_actions, create_image, for_each, add_pod,
  scan_did_finish, scan_not_found,
}
use perceptor.Core.Model.Invariant.{HasTruePriorities}
use perceptor.Core.Model.Actions.{IsSane, run_actions-new_model}

abbrev pub nginx : Image
nginx = record {
  repository = "nginx";
  tag = "1.15";
  sha = "0123456789abcdef0123456789abcdef0123456789abcdef0123456789abcdef";
  priority = pos 1;
  black_duck_project_name = "nginx";
  black_duck_project_version = "1.15";
}

abbrev pub web : Pod
web = record {
  name = "web";
  uid = "uid1";
  namespace = "default";
  containers = record { image = nginx; name = "nginx" } ∷ [];
}

-- The entry of the image when it has been queued at the time 2.
abbrev pub entry : ImageInfo
entry = record {
  scan_status = in_queue;
  time_of_last_status_change = 2;
  time_of_last_refresh = none;
  scan_results = none;
  image_sha = "0123456789abcdef0123456789abcdef0123456789abcdef0123456789abcdef";
  repo_tags = record { repository = "nginx"; tag = "1.15" } ∷ [];
  priority = pos 1;
  black_duck_project_name = "nginx";
  black_duck_project_version = "1.15";
}

abbrev pub queued : Model
queued = record {
  pods = ("default/web", web) ∷ [];
  images = ("0123456789abcdef0123456789abcdef0123456789abcdef0123456789abcdef", entry) ∷ [];
  image_scan_queue = record {
    items =
        some (record {
          key = "0123456789abcdef0123456789abcdef0123456789abcdef0123456789abcdef";
          priority = pos 1;
          value = "0123456789abcdef0123456789abcdef0123456789abcdef0123456789abcdef";
        })
        ∷ replicate 9 none;
    size = 1;
    key_to_index = ("0123456789abcdef0123456789abcdef0123456789abcdef0123456789abcdef", 0) ∷ [];
  };
  image_transitions =
      record {
        sha = "0123456789abcdef0123456789abcdef0123456789abcdef0123456789abcdef";
        from = "ScanStatusUnknown";
        to = in_queue;
        err = none;
        time = 2;
      }
      ∷ [];
}

abbrev pub arrivals : List (ℕ × Action)
arrivals =
    (1, adds_pod web)
    ∷ (2, scan_finishes "0123456789abcdef0123456789abcdef0123456789abcdef0123456789abcdef" none)
    ∷ []

arrivals_run : run_actions arrivals new_model ≡ ok queued
unfolding run_actions apply add_pod for_each create_image new_image_info combine_errors
    qualified_name scan_did_finish scan_not_found set_image_scan_status
    set_image_scan_status_for_sha status_text add_image_to_scan_queue leave_state enter_state
    status_string is_legal_transition legal_transitions new_model
    new_priority_queue_with_initial_capacity add resize_if_necessary store place sift_up
    sift_up_loop load node_at swap Maps.lookup Maps.insert
arrivals_run = refl

pub queued-IsSane : IsSane queued
queued-IsSane = Returns-ok (subst (Returns IsSane) arrivals_run (run_actions-new_model arrivals))

pub queued-HasTruePriorities : HasTruePriorities queued
unfolding find node_at Maps.lookup
queued-HasTruePriorities sha n info f e =
    ground (arith, eq_iff "0123456789abcdef0123456789abcdef0123456789abcdef0123456789abcdef" sha)

pub entry_there :
    Maps.lookup "0123456789abcdef0123456789abcdef0123456789abcdef0123456789abcdef" queued.images
    ≡ some entry
unfolding Maps.lookup
entry_there = refl
