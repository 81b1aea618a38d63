-- ===== src/Core/Perceptor/Tests.antt =====
-- Runs of perceptor of pkg/core/perceptor.go at concrete inputs.
use perceptor.Prelude.{
  String, Option, ℕ, ◌≡◌, ◌⊎◌, inl, inr, subst, Bool-cases, ◌==◌, refl, arith, pos, true, List, [],
  ◌∷◌, none, some, some-ne-none, Returns, Returns-ok, string_eq, replicate, ok,
}
use text.Mathlib.TextEquality.{eq_iff}
use perceptor.Prelude.Maps
use perceptor.Hub.Model.{new_model}
use perceptor.Hub.Hub.{hub_start_scan_client}
use perceptor.Hub.Hub.Samples.{logged_in}
use perceptor.Core.Model.Samples.{entry, queued, queued-IsSane, queued-HasTruePriorities}
use perceptor.Core.ApiMapper.{ApiPod}
use perceptor.Core.HubManager.{Host}
use perceptor.Core.ScanScheduler.{assign_image}
use perceptor.Util.PriorityQueue
use perceptor.Hub.Model as HubModel
use perceptor.Core.Model.Image
use perceptor.Core.Model.Handlers
use perceptor.Core.Model.State
use perceptor.Core.HubManager
use perceptor.Core.Perceptor.{
  new_perceptor, send, offer_image, image_spec, start_scan, Perceptor, ImageSpec, Answer, answered,
  get_next_image, post_finish_scan,
}
use perceptor.Core.Perceptor.Lifecycle.{IsInHubScan, post_finish_scan-handed_out}
use perceptor.Core.HubManager.Lookup.{IsByDomain}
use perceptor.Core.Model.ScanStatus.{
  status_string, is_legal_transition, legal_transitions, in_queue, running_scan_client,
}
use perceptor.Core.Model.Image.{set_scan_status}
use perceptor.Hub.DataTypes.{scan_client}
use perceptor.Core.Perceptor.NextImage.{
  IsWithoutImage, IsUnanswered, HasHandedOut, get_next_image_cases,
}
use perceptor.Core.Perceptor.Sound.{IsSound}
use perceptor.Core.Model.Shas.{HasShas}
use perceptor.Core.ApiMapper.Shas.{IsSha}
use perceptor.Core.HubManager.{create_hub_client}
use perceptor.Core.HubManager.Keyed.{IsFilled}
use perceptor.Core.HubManager.Created.{create_hub_client-IsSoundCreation}
use perceptor.Core.Perceptor.Requests.{
  Request, updates_config, creates_hub, posts_finish_scan, adds_api_pod, finds_unknown_images,
  asks_next_image, posts_command, deletes_api_pod, serve_all,
}
use perceptor.Core.Perceptor.Serving.{serve_all-new_perceptor}

abbrev host : Host
host = record {
  scheme = "https";
  domain = "hub1";
  port = pos 443;
  user = "sysadmin";
  password = "blackduck";
  concurrent_scan_limit = pos 2;
}

abbrev waiting : Perceptor
waiting = record {
  model = queued;
  hub_manager = record { hubs = ("hub1", logged_in) ∷ []; stopped = []; creating = [] };
  hosts = ("hub1", some host) ∷ [];
}

hosts-IsFilled : IsFilled waiting.hosts
unfolding Maps.lookup
hosts-IsFilled key e = ground (arith, e)

waiting-HasShas : HasShas IsSha queued
unfolding Maps.lookup
waiting-HasShas sha n =
    elim (Bool-cases ("0123456789abcdef0123456789abcdef0123456789abcdef0123456789abcdef" == sha)) [
      | inl f ↦
          subst IsSha
            ((eq_iff "0123456789abcdef0123456789abcdef0123456789abcdef0123456789abcdef" sha).0 f)
            refl
      | inr f ↦ absurd (n (ground (arith, f)))
    ]

waiting-IsSound : IsSound waiting
unfolding Maps.lookup
waiting-IsSound = record {
  sane = queued-IsSane;
  shas = waiting-HasShas;
  managed = record { keyed = ((refl, refl), refl, tt); prepared = tt };
  filled = hosts-IsFilled;
}

get_next_image_cases_example :
    Returns
      (λ (r : Perceptor × Answer).
        IsWithoutImage waiting r ⊎ (IsUnanswered waiting r ⊎ HasHandedOut waiting r))
      (get_next_image 3 waiting)
get_next_image_cases_example =
    get_next_image_cases 3 waiting waiting-IsSound queued-HasTruePriorities

abbrev empty_pod : ApiPod
empty_pod = record { name = "db"; uid = "uid2"; namespace = "default"; containers = [] }

-- The specification that the scan client gets.
abbrev spec : ImageSpec
spec = record {
  repository = "nginx";
  tag = "1.15";
  sha = "0123456789abcdef0123456789abcdef0123456789abcdef0123456789abcdef";
  scheme = "https";
  domain = "hub1";
  port = pos 443;
  user = "sysadmin";
  password = "blackduck";
  black_duck_project_name = "nginx";
  black_duck_project_version_name = "1.15";
  black_duck_scan_name = "0123456789abcdef0123456789abcdef0123456789abcdef0123456789abcdef";
  priority = pos 1;
}

abbrev requests : List (ℕ × Request)
requests =
    (1, updates_config)
    ∷ (1, creates_hub 0)
    ∷ (2, adds_api_pod empty_pod)
    ∷ (3, finds_unknown_images)
    ∷ (4, asks_next_image)
    ∷ (5, posts_finish_scan (record { image_spec = some spec; err = "" }))
    ∷ (5, posts_command true)
    ∷ (6, deletes_api_pod "default/db")
    ∷ []

abbrev answers : Host → Option String
answers h = none

serve_all-new_perceptor_example :
    Returns IsSound (serve_all (create_hub_client answers) requests (new_perceptor waiting.hosts))
serve_all-new_perceptor_example =
    serve_all-new_perceptor (create_hub_client answers) (create_hub_client-IsSoundCreation answers)
      requests waiting.hosts (tt, (tt, (tt, (tt, (tt, (some-ne-none _, (tt, (tt, tt))))))))
      hosts-IsFilled

abbrev scanning : Perceptor
scanning = record waiting {
  model = record queued {
    images =
        (
          "0123456789abcdef0123456789abcdef0123456789abcdef0123456789abcdef",
          set_scan_status 3 running_scan_client entry,
        )
        ∷ [];
    image_scan_queue = record { items = replicate 10 none; size = 0; key_to_index = [] };
    image_transitions =
        record {
          sha = "0123456789abcdef0123456789abcdef0123456789abcdef0123456789abcdef";
          from = "ScanStatusUnknown";
          to = in_queue;
          err = none;
          time = 2;
        }
        ∷ record {
          sha = "0123456789abcdef0123456789abcdef0123456789abcdef0123456789abcdef";
          from = "ScanStatusInQueue";
          to = running_scan_client;
          err = none;
          time = 3;
        }
        ∷ [];
  };
  hub_manager = record {
    hubs =
        (
          "hub1",
          record logged_in {
            model = record (new_model "hub1") {
              scans =
                  (
                    "0123456789abcdef0123456789abcdef0123456789abcdef0123456789abcdef",
                    record { stage = scan_client; scan_results = none },
                  )
                  ∷ [];
            };
          },
        )
        ∷ [];
    stopped = [];
    creating = [];
  };
}

handed_out_run : get_next_image 3 waiting ≡ ok (scanning, answered (some spec))
unfolding get_next_image Handlers.get_next_image_from_scan_queue PriorityQueue.peek
    PriorityQueue.load Handlers.unsafe_get Maps.lookup Image.image_of Image.first_repo_tag
    offer_image assign_image HubModel.in_progress_scans HubModel.names_at new_model image_spec
    Image.get_black_duck_project_version_name Image.get_black_duck_project_name
    Image.get_black_duck_scan_name start_scan send Handlers.apply Handlers.start_scan_client
    HubManager.start_scan_client hub_start_scan_client HubModel.start_scan_client HubModel.set_scan
    HubModel.is_in_progress State.set_image_scan_status State.set_image_scan_status_for_sha
    State.leave_state State.enter_state State.remove_image_from_scan_queue State.status_text
    status_string is_legal_transition legal_transitions PriorityQueue.remove PriorityQueue.move_last
    PriorityQueue.sift_up PriorityQueue.sift_up_loop PriorityQueue.sift_down
    PriorityQueue.sift_down_loop PriorityQueue.store PriorityQueue.node_at PriorityQueue.place
    PriorityQueue.swap PriorityQueue.resize_if_necessary PriorityQueue.next_index
    PriorityQueue.compare_right Maps.insert Maps.delete
handed_out_run = refl

handed_out : HasHandedOut waiting (scanning, answered (some spec))
handed_out = elim (Returns-ok (subst (Returns _) handed_out_run get_next_image_cases_example)) [
  | inl without ↦ absurd (cc)
  | inr (inl unanswered_) ↦ absurd (cc)
  | inr (inr out) ↦ out
]

hosts-IsByDomain : IsByDomain waiting.hosts
unfolding Maps.lookup
hosts-IsByDomain key entry e = (host, ground (arith, e), ground (arith, eq_iff "hub1" key, e))

post_finish_scan-handed_out_example :
    Returns
      (IsInHubScan handed_out.hub.host handed_out.image.sha)
      (post_finish_scan 4 (record { image_spec = some handed_out.spec; err = "" }) scanning)
post_finish_scan-handed_out_example =
    post_finish_scan-handed_out 4 waiting (scanning, answered (some spec)) handed_out
      hosts-IsByDomain
