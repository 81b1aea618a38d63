-- ===== src/Hub/Client/Tests.antt =====
-- Runs of the client of pkg/hub/client.go at concrete inputs.
use perceptor.Prelude.{◌≡◌, refl, [], ◌∷◌, Option, some, ok, Returns}
use perceptor.Hub.DataTypes.{ScanResults, success, parse_scan_summary_status}
use perceptor.Hub.Mapper.{new_risk_profile, new_policy_status}
use perceptor.Hub.CircuitBreaker
use perceptor.Hub.CircuitBreaker.{
  CircuitBreaker, disabled, new_circuit_breaker, issue_request, is_able_to_issue_request,
  is_enabled,
}
use perceptor.Hub.Client.{
  Result, done, Client, new_client, fetch_scan, fetch_first, fetch_scan_results_using_code_location,
  request, build_results, new_scan_summary_from_hub,
}
use perceptor.Hub.Client.Fetch.{lookup_scan, fetch_scan-lookup_scan}
use perceptor.Hub.Client.Samples.{clock, raw, fresh, fresh-IsOpen}

fetch_scan-lookup_scan_example :
    Returns
      (λ (r : Client × Result (Option ScanResults)). r.1 ≡ lookup_scan raw "sha1")
      (fetch_scan clock raw "sha1" fresh)
fetch_scan-lookup_scan_example = fetch_scan-lookup_scan clock raw "sha1" fresh fresh-IsOpen

-- The results for the name sha1, which carry the name of the code location found.
abbrev found : ScanResults
found = record {
  risk_profile = new_risk_profile "3" [];
  policy_status = new_policy_status "NOT_IN_VIOLATION" "3" [];
  scan_summaries = record { created_at = "1"; status = success; updated_at = "2" } ∷ [];
  components_href = "components";
  code_location_created_at = "1";
  code_location_href = "href";
  code_location_mapped_project_version = "version";
  code_location_name = "sha1-other";
  code_location_type = "FS";
  code_location_url = "url";
  code_location_updated_at = "2";
}

found_run :
    fetch_scan clock raw "sha1" fresh
    ≡ ok (record { circuit_breaker = fresh.circuit_breaker; readings = 10 }, done (some found))
unfolding fetch_scan fetch_first fetch_scan_results_using_code_location request build_results
    new_scan_summary_from_hub parse_scan_summary_status issue_request is_able_to_issue_request
    is_enabled CircuitBreaker.success new_client new_circuit_breaker
found_run = refl
