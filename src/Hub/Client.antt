-- ===== src/Hub/Client.antt =====
-- pkg/hub/client.go: the requests to one Black Duck server, each through the circuit breaker. What the
-- raw client of rawclient.go and the links of hubapi answer is a parameter.
pub mod Calls
pub mod Fetch
pub mod Samples
mod Tests
use perceptor.Prelude.{
  ℕ, ◌+◌, ℤ, pos, List, [], ◌∷◌, map, Option, none, some, String, Run, ok, ◌>>=◌,
}
use perceptor.Hub.DataTypes.{ScanResults, ScanSummary, parse_scan_summary_status}
use perceptor.Hub.CircuitBreaker.{
  CircuitBreaker, new_circuit_breaker, reset, Issued, refused, ran, issue_request,
}
use perceptor.Hub.Mapper.{ComponentVersionStatusCount, new_risk_profile, new_policy_status}

-- A result or an error: a request that the breaker did not let through, or what the raw client or
-- hubapi says.
pub data Error : Type 0 where
  breaker_disabled : Error
  failed : String → Error

pub data Result (A : Type 0) : Type 0 where
  done : A → Result A
  err : Error → Result A

-- The client, with how often it has read the clock.
pub record Client : Type 0 where
  pub circuit_breaker : CircuitBreaker
  pub readings : ℕ

-- Five minutes.
abbrev pub max_hub_exponential_backoff_duration : ℤ
max_hub_exponential_backoff_duration = pos 300_000_000_000

unfoldable pub new_client : String → Client
new_client host = record {
  circuit_breaker = new_circuit_breaker host max_hub_exponential_backoff_duration;
  readings = 0;
}

unfoldable pub reset_circuit_breaker : Client → Client
reset_circuit_breaker c = record c { circuit_breaker = reset c.circuit_breaker }

-- A method of the client.
abbrev pub Method : Type 0 → Type 0
Method A = Client → Run (Client × Result A)

abbrev pub return : {A : Type 0} → Result A → Method A
return result c = ok (c, result)

-- `if err != nil { return nil, err }`
abbrev pub proceed : {A B : Type 0} → (A → Method B) → Client × Result A → Run (Client × Result B)
proceed rest (c, done a) = rest a c
proceed rest (c, err e) = ok (c, err e)

infixl 5 ◌then_do◌
abbrev pub ◌then_do◌ : {A B : Type 0} → Method A → (A → Method B) → Method B
(method then_do rest) c = method c >>= proceed rest

abbrev pub error_of : {A : Type 0} → Result A → Option Error
error_of (done a) = none
error_of (err e) = some e

-- What a method returns after IssueRequest: its error, or what the request fetched.
abbrev pub fetched : {A : Type 0} → Result A → Issued Error → Result A
fetched answer refused = err breaker_disabled
fetched answer (ran none) = answer
fetched answer (ran (some e)) = err e

module _ (clock : ℕ → ℤ) where
  -- The methods under "raw API calls", by what the raw client answers to the request.
  unfoldable pub request : {A : Type 0} → Result A → Method A
  request answer c =
      issue_request (clock c.readings) (clock (c.readings + 1)) (error_of answer) c.circuit_breaker
      >>= λ (breaker, issued).
          ok
            (record { circuit_breaker = breaker; readings = c.readings + 2 }, fetched answer issued)

-- hubapi's data, as far as the client reads it.
pub record CodeLocation (Link : Type 0) : Type 0 where
  pub created_at : String
  pub href : String
  pub mapped_project_version : String
  pub name : String
  pub location_type : String
  pub url : String
  pub updated_at : String
  pub version_link : Result Link
  pub scan_summaries_link : Result Link

pub record ProjectVersion (Link : Type 0) : Type 0 where
  pub risk_profile_link : Result Link
  pub policy_status_link : Result Link
  pub components_link : Result String

pub record RawRiskProfile : Type 0 where
  pub bom_last_updated_at : String
  pub categories : List (String × List (String × ℤ))

pub record RawPolicyStatus : Type 0 where
  pub overall_status : String
  pub updated_at : String
  pub component_version_status_counts : List ComponentVersionStatusCount

pub record RawScanSummary : Type 0 where
  pub created_at : String
  pub status : String
  pub updated_at : String

-- What the server answers to each request of fetchScan.
pub record RawClient (Link : Type 0) : Type 0 where
  pub login : Result (Unit {0})
  pub list_all_code_locations : Result (List (CodeLocation Link))
  pub list_code_locations : String → Result (List (CodeLocation Link))
  pub get_project_version : Link → Result (ProjectVersion Link)
  pub get_risk_profile : Link → Result RawRiskProfile
  pub get_policy_status : Link → Result RawPolicyStatus
  pub list_scan_summaries : Link → Result (List RawScanSummary)

unfoldable pub new_scan_summary_from_hub : RawScanSummary → ScanSummary
new_scan_summary_from_hub s = record {
  created_at = s.created_at;
  status = parse_scan_summary_status s.status;
  updated_at = s.updated_at;
}

-- The last part of fetchScanResultsUsingCodeLocation: nil without a summary.
unfoldable pub build_results :
    {Link : Type 0}
    → CodeLocation Link
    → RawRiskProfile
    → RawPolicyStatus
    → String
    → List RawScanSummary
    → Option ScanResults
build_results cl risk policy components [] = none
build_results cl risk policy components (s ∷ summaries) = some (record {
  risk_profile = new_risk_profile risk.bom_last_updated_at risk.categories;
  policy_status =
      new_policy_status policy.overall_status policy.updated_at
        policy.component_version_status_counts;
  scan_summaries = map new_scan_summary_from_hub (s ∷ summaries);
  components_href = components;
  code_location_created_at = cl.created_at;
  code_location_href = cl.href;
  code_location_mapped_project_version = cl.mapped_project_version;
  code_location_name = cl.name;
  code_location_type = cl.location_type;
  code_location_url = cl.url;
  code_location_updated_at = cl.updated_at;
})

-- The login does not go through the circuit breaker.
unfoldable pub login : {Link : Type 0} → RawClient Link → Method (Unit {0})
login raw c = ok (c, raw.login)

module _ {Link : Type 0} (clock : ℕ → ℤ) (raw : RawClient Link) where
  abbrev pub list_all_code_locations : Method (List (CodeLocation Link))
  list_all_code_locations = request clock raw.list_all_code_locations

  abbrev pub list_code_locations : String → Method (List (CodeLocation Link))
  list_code_locations name = request clock (raw.list_code_locations name)

  abbrev pub get_project_version : Link → Method (ProjectVersion Link)
  get_project_version link = request clock (raw.get_project_version link)

  abbrev pub get_project_version_risk_profile : Link → Method RawRiskProfile
  get_project_version_risk_profile link = request clock (raw.get_risk_profile link)

  abbrev pub get_project_version_policy_status : Link → Method RawPolicyStatus
  get_project_version_policy_status link = request clock (raw.get_policy_status link)

  abbrev pub list_scan_summaries : Link → Method (List RawScanSummary)
  list_scan_summaries link = request clock (raw.list_scan_summaries link)

  unfoldable pub fetch_scan_results_using_code_location :
      CodeLocation Link → Method (Option ScanResults)
  fetch_scan_results_using_code_location cl = return cl.version_link then_do λ version_link.
      get_project_version version_link then_do λ version.
      return version.risk_profile_link then_do λ risk_link.
      get_project_version_risk_profile risk_link then_do λ risk.
      return version.policy_status_link then_do λ policy_link.
      get_project_version_policy_status policy_link then_do λ policy.
      return version.components_link then_do λ components.
      return cl.scan_summaries_link then_do λ summaries_link.
      list_scan_summaries summaries_link then_do λ summaries.
      return (done (build_results cl risk policy components summaries))

  -- The first code location that the list has; nil without one.
  unfoldable pub fetch_first : List (CodeLocation Link) → Method (Option ScanResults)
  fetch_first [] = return (done none)
  fetch_first (cl ∷ others) = fetch_scan_results_using_code_location cl

  unfoldable pub fetch_scan : String → Method (Option ScanResults)
  fetch_scan name = list_code_locations name then_do fetch_first
