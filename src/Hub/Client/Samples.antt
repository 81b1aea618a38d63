-- ===== src/Hub/Client/Samples.antt =====
-- A client and a server of pkg/hub/client.go, for the runs at concrete inputs.
use perceptor.Prelude.{ℕ, ℤ, pos, refl, [], ◌∷◌, String}
use perceptor.Hub.CircuitBreaker.{new_circuit_breaker}
use perceptor.Hub.Client.{done, Client, CodeLocation, RawClient, new_client}
use perceptor.Hub.Client.Calls.{IsOpen}

-- The clock shows the number of its readings.
abbrev pub clock : ℕ → ℤ
clock n = pos n

abbrev pub location : CodeLocation String
location = record {
  created_at = "1";
  href = "href";
  mapped_project_version = "version";
  name = "sha1-other";
  location_type = "FS";
  url = "url";
  updated_at = "2";
  version_link = done "version";
  scan_summaries_link = done "summaries";
}

-- The server finds the code location of another scan, whose name has the one asked for in it.
abbrev pub raw : RawClient String
raw = record {
  login = done tt;
  list_all_code_locations = done (location ∷ []);
  list_code_locations = λ name. done (location ∷ []);
  get_project_version = λ link. done (record {
    risk_profile_link = done "risk";
    policy_status_link = done "policy";
    components_link = done "components";
  });
  get_risk_profile = λ link. done (record { bom_last_updated_at = "3"; categories = [] });
  get_policy_status = λ link. done (record {
    overall_status = "NOT_IN_VIOLATION";
    updated_at = "3";
    component_version_status_counts = [];
  });
  list_scan_summaries =
      λ link. done (record { created_at = "1"; status = "COMPLETE"; updated_at = "2" } ∷ []);
}

abbrev pub fresh : Client
fresh = new_client "hub"

pub fresh-IsOpen : IsOpen fresh
unfolding new_client new_circuit_breaker
fresh-IsOpen = ((refl, refl), refl)
