-- ===== src/Core/Model/Tests.antt =====
-- Runs of the core model of pkg/core/model at concrete inputs.
use perceptor.Prelude.{
  pos, ◌≡◌, ◌≢◌, ◌⊎◌, inl, refl, subst, none, some, Option, [], ◌∷◌, replicate, ok, Returns,
  Returns-ok, String, string_eq,
}
use perceptor.Prelude.Maps
use perceptor.Util.PriorityQueue.{new_priority_queue_with_initial_capacity}
use perceptor.Hub.DataTypes.{
  ScanResults, ScanSummaryStatus, scan_summary_status, summary_status_loop,
}
use perceptor.Core.Model.Completion.{early_success-refused, success-complete}
use perceptor.Core.Model.ScanStatus.{complete, unknown, running_scan_client}
use perceptor.Core.Model.Image.{Image, ImageInfo, new_image_info, set_scan_status, qualified_name}
use perceptor.Core.Model.State.{Model, new_model, Error, combine_errors, set_image_scan_status}
use perceptor.Core.Model.Handlers.{
  adds_pod, scan_finishes, apply, run_actions, create_image, for_each, add_pod, scan_did_finish,
  get_next_image_from_scan_queue,
}
use perceptor.Core.Model.Kept.{Kept}
use perceptor.Core.Model.Actions.{apply-Kept, IsSane, run_actions-new_model}
use perceptor.Core.Model.Transition.{Transitioned, set_image_scan_status_correct}
use perceptor.Core.Model.Creation.{Created, create_image_correct}
use perceptor.Core.Model.NextImage.{IsWaiting, IsBestWaiting, get_next_image_correct}
use perceptor.Core.Model.Results.{Scan, found, not_yet, scan_results_for_pod, no_findings}
use perceptor.Core.Model.Metrics.{metrics}
use perceptor.Core.Model.Metrics.Totals.{IsComplete, metrics-IsComplete}
use perceptor.Core.Model.Report.{AllComplete, IsReport, scan_results_for_pod_correct}
use perceptor.Core.Model.Samples.{
  nginx, web, entry, queued, arrivals, queued-IsSane, queued-HasTruePriorities, entry_there,
}

run_actions-new_model_example : Returns IsSane (run_actions arrivals new_model)
run_actions-new_model_example = run_actions-new_model arrivals

apply-Kept_example : Returns (Kept queued) (
    apply 3
      (scan_finishes "0123456789abcdef0123456789abcdef0123456789abcdef0123456789abcdef" none)
      queued)
apply-Kept_example =
    apply-Kept 3
      (scan_finishes "0123456789abcdef0123456789abcdef0123456789abcdef0123456789abcdef" none) queued
      queued-IsSane.consistent

set_image_scan_status_correct_example :
    Returns
      (Transitioned 3 queued "0123456789abcdef0123456789abcdef0123456789abcdef0123456789abcdef"
        entry running_scan_client)
      (set_image_scan_status 3 "0123456789abcdef0123456789abcdef0123456789abcdef0123456789abcdef"
        running_scan_client queued)
set_image_scan_status_correct_example =
    set_image_scan_status_correct 3
      "0123456789abcdef0123456789abcdef0123456789abcdef0123456789abcdef" entry running_scan_client
      queued-IsSane.consistent entry_there

abbrev urgent : Image
urgent = record nginx { priority = pos 5 }

create_image_correct_example : Returns (Created 3 queued urgent) (create_image 3 urgent queued)
create_image_correct_example = create_image_correct 3 queued urgent queued-IsSane.consistent

get_next_image_correct_example :
    ((get_next_image_from_scan_queue queued ≡ ok none)
      × ((k : String) (i : ImageInfo) → ¬ IsWaiting queued k i))
    ⊎ ((image : Image) × (get_next_image_from_scan_queue queued ≡ ok (some image))
        × IsBestWaiting queued image)
get_next_image_correct_example =
    get_next_image_correct queued queued-IsSane.consistent queued-HasTruePriorities

web_there : Maps.lookup "default/web" queued.pods ≡ some web
unfolding Maps.lookup
web_there = refl

scan_results_for_pod_correct_example :
    ((scan : Scan) × AllComplete queued web.containers
      × (scan_results_for_pod queued "default/web" ≡ found scan)
      × IsReport queued no_findings web.containers scan)
    ⊎ (¬ AllComplete queued web.containers) × (scan_results_for_pod queued "default/web" ≡ not_yet)
scan_results_for_pod_correct_example =
    scan_results_for_pod_correct queued "default/web" web queued-IsSane web_there

abbrev good : ScanResults
good = record {
  risk_profile = record { categories = []; bom_last_updated_at = "3" };
  policy_status = record {
    overall_status = "NOT_IN_VIOLATION";
    updated_at = "3";
    component_version_status_counts = [];
  };
  scan_summaries =
      record { created_at = "1"; status = ScanSummaryStatus.success; updated_at = "2" } ∷ [];
  components_href = "components";
  code_location_created_at = "1";
  code_location_href = "href";
  code_location_mapped_project_version = "version";
  code_location_name = "0123456789abcdef0123456789abcdef0123456789abcdef0123456789abcdef";
  code_location_type = "FS";
  code_location_url = "url";
  code_location_updated_at = "2";
}

good_status : scan_summary_status good ≡ ScanSummaryStatus.success
unfolding scan_summary_status summary_status_loop
good_status = refl

early_success-refused_example :
    Returns
      (λ (r : Model × Option Error).
        (r.1 ≢ none)
        × (Maps.lookup "0123456789abcdef0123456789abcdef0123456789abcdef0123456789abcdef" r.0.images
            ≡ some (record entry { scan_results = some good })))
      (scan_did_finish 3 "0123456789abcdef0123456789abcdef0123456789abcdef0123456789abcdef"
        (some good)
        queued)
early_success-refused_example =
    early_success-refused 3 "0123456789abcdef0123456789abcdef0123456789abcdef0123456789abcdef" entry
      good queued-IsSane.consistent entry_there (inl refl) good_status

-- The model with the image before it is queued.
abbrev fresh : ImageInfo
fresh = record entry { scan_status = unknown; time_of_last_status_change = 1 }

abbrev known : Model
known = record {
  pods = ("default/web", web) ∷ [];
  images = ("0123456789abcdef0123456789abcdef0123456789abcdef0123456789abcdef", fresh) ∷ [];
  image_scan_queue = record { items = replicate 10 none; size = 0; key_to_index = [] };
  image_transitions = [];
}

known_run : run_actions ((1, adds_pod web) ∷ []) new_model ≡ ok known
unfolding run_actions apply add_pod for_each create_image new_image_info combine_errors
    qualified_name new_model new_priority_queue_with_initial_capacity Maps.lookup Maps.insert
known_run = refl

known-IsSane : IsSane known
known-IsSane =
    Returns-ok (subst (Returns IsSane) known_run (run_actions-new_model ((1, adds_pod web) ∷ [])))

fresh_there :
    Maps.lookup "0123456789abcdef0123456789abcdef0123456789abcdef0123456789abcdef" known.images
    ≡ some fresh
unfolding Maps.lookup
fresh_there = refl

success-complete_example :
    Returns
      (λ (r : Model × Option Error).
        (r.1 ≡ none)
        × (Maps.lookup "0123456789abcdef0123456789abcdef0123456789abcdef0123456789abcdef" r.0.images
            ≡ some (set_scan_status 3 complete (record fresh { scan_results = some good }))))
      (scan_did_finish 3 "0123456789abcdef0123456789abcdef0123456789abcdef0123456789abcdef"
        (some good)
        known)
success-complete_example =
    success-complete 3 "0123456789abcdef0123456789abcdef0123456789abcdef0123456789abcdef" fresh good
      known-IsSane.consistent fresh_there (inl refl) good_status

metrics-IsComplete_example : IsComplete (metrics queued)
metrics-IsComplete_example = metrics-IsComplete queued queued-IsSane
