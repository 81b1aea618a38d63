-- ===== src/Hub/Model/Tests.antt =====
-- Runs of the hub model of pkg/hub/model.go and of its data types at concrete inputs.
use perceptor.Prelude.{
  ◌≡◌, ◌≢◌, ◌⊎◌, inl, inr, refl, true, false, none, some, Option, List, [], ◌∷◌, ◌++◌, String,
  string_eq,
}
use perceptor.Prelude.Maps
use perceptor.Hub.DataTypes.{
  ScanResults, ScanSummary, ScanSummaryStatus, in_progress, success, failure, hub_scan, complete,
  scan_client, scan_summary_status, summary_status_loop, is_done,
}
use perceptor.Hub.DataTypes.Status.{Some, scan_summary_status_correct, is_done-failure}
use perceptor.Hub.Model.{
  Model, Action, starts_client, finishes_client, fetched_scans, new_model, run_actions,
  scan_did_finish, finish_scan_client, check_scans_for_completion,
}
use perceptor.Hub.Model.Ledger.{IsLedger, new-IsLedger, run_actions-IsLedger}
use perceptor.Hub.Model.Ending.{
  stage_of, Finished, ClientFinished, scan_did_finish_correct, finish_scan_client_correct,
}
use perceptor.Hub.Model.Polling.{check_scans_for_completion_correct}

abbrev summary : ScanSummaryStatus → ScanSummary
summary status = record { created_at = "1"; status = status; updated_at = "2" }

abbrev results : String → List ScanSummary → ScanResults
results name summaries = record {
  risk_profile = record { categories = []; bom_last_updated_at = "3" };
  policy_status = record {
    overall_status = "NOT_IN_VIOLATION";
    updated_at = "3";
    component_version_status_counts = [];
  };
  scan_summaries = summaries;
  components_href = "components";
  code_location_created_at = "1";
  code_location_href = "href";
  code_location_mapped_project_version = "version";
  code_location_name = name;
  code_location_type = "FS";
  code_location_url = "url";
  code_location_updated_at = "2";
}

-- A scan that failed on the server, and one that succeeded after a failure.
abbrev broken : ScanResults
broken = results "sha1" (summary failure ∷ [])

abbrev repeated : ScanResults
repeated = results "sha1" (summary failure ∷ summary success ∷ [])

abbrev arrivals : List Action
arrivals =
    fetched_scans (some ("sha1" ∷ "sha2" ∷ []))
    ∷ starts_client "sha1"
    ∷ finishes_client "sha1" false
    ∷ []

-- The first scan runs on the hub, and the second one is with its client.
abbrev running : Model
running = record {
  host = "hub";
  has_fetched_scans = true;
  scans =
      ("sha1", record { stage = hub_scan; scan_results = none })
      ∷ ("sha2", record { stage = scan_client; scan_results = none })
      ∷ [];
  published = [];
}

abbrev fetch : String → Option ScanResults
fetch name = some (results name (summary failure ∷ []))

running_stage : stage_of running "sha1" ≡ some hub_scan
unfolding Maps.lookup
running_stage = refl

broken_status : scan_summary_status broken ≡ failure
unfolding scan_summary_status summary_status_loop
broken_status = refl

scan_summary_status_correct_example :
    (Some success repeated.scan_summaries × (scan_summary_status repeated ≡ success))
    ⊎ ((¬ Some success repeated.scan_summaries)
        × Some in_progress repeated.scan_summaries
        × (scan_summary_status repeated ≡ in_progress))
    ⊎ (¬ Some success repeated.scan_summaries)
      × (¬ Some in_progress repeated.scan_summaries)
      × (scan_summary_status repeated ≡ failure)
scan_summary_status_correct_example = scan_summary_status_correct repeated

no_success : ¬ Some success broken.scan_summaries
no_success (inl e) = cc
no_success (inr e) = absurd e

none_in_progress : ¬ Some in_progress broken.scan_summaries
none_in_progress (inl e) = cc
none_in_progress (inr e) = absurd e

broken_done : scan_summary_status broken ≢ in_progress
unfolding scan_summary_status summary_status_loop
broken_done p = cc

is_done-failure_example : is_done broken ≡ true
is_done-failure_example = is_done-failure broken no_success none_in_progress

run_actions-IsLedger_example : IsLedger (run_actions arrivals (new_model "hub"))
run_actions-IsLedger_example = run_actions-IsLedger arrivals (new_model "hub") (new-IsLedger "hub")

scan_did_finish_correct_example : Finished repeated running (scan_did_finish repeated running)
scan_did_finish_correct_example = scan_did_finish_correct repeated running

finish_scan_client_correct_example :
    ClientFinished "sha2" true running (finish_scan_client "sha2" true running)
finish_scan_client_correct_example = finish_scan_client_correct "sha2" true running

check_scans_for_completion_correct_example :
    stage_of
      (run_actions (check_scans_for_completion fetch (("sha2" ∷ []) ++ "sha1" ∷ [])) running)
      "sha1"
    ≡ some complete
check_scans_for_completion_correct_example =
    check_scans_for_completion_correct fetch broken ("sha2" ∷ []) [] running refl broken_done
      running_stage
