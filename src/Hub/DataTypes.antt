-- ===== src/Hub/DataTypes.antt =====
-- pkg/hub/datatypes.go and constants.go: what the Black Duck server says of a scan. Counts are Go
-- `int`s that are only added in pairs, so they are integers that do not wrap.
pub mod Status
use perceptor.Prelude.{
  ℤ, pos, ◌+ℤ◌, Bool, true, false, List, [], ◌∷◌, Option, none, some, String, if◌then◌else◌, ◌==◌,
  ◌||◌, string_eq,
}
use perceptor.Prelude.Maps

pub data ScanSummaryStatus : Type 0 where
  in_progress success failure : ScanSummaryStatus

pub record ScanSummary : Type 0 where
  pub created_at : String
  pub status : ScanSummaryStatus
  pub updated_at : String

pub record RiskProfileStatusCounts : Type 0 where
  pub status_counts : List (String × ℤ)

pub record RiskProfile : Type 0 where
  pub categories : List (String × RiskProfileStatusCounts)
  pub bom_last_updated_at : String

pub record PolicyStatus : Type 0 where
  pub overall_status : String
  pub updated_at : String
  pub component_version_status_counts : List (String × ℤ)

pub record ScanResults : Type 0 where
  pub risk_profile : RiskProfile
  pub policy_status : PolicyStatus
  pub scan_summaries : List ScanSummary
  pub components_href : String
  pub code_location_created_at : String
  pub code_location_href : String
  pub code_location_mapped_project_version : String
  pub code_location_name : String
  pub code_location_type : String
  pub code_location_url : String
  pub code_location_updated_at : String

-- The stage of a scan on one hub.
pub data ScanStage : Type 0 where
  unknown scan_client hub_scan complete failed : ScanStage

-- `scan_results` is `none` for nil.
pub record Scan : Type 0 where
  pub stage : ScanStage
  pub scan_results : Option ScanResults

-- Reading a missing key of a Go map of ints gives 0.
abbrev pub count_of : String → List (String × ℤ) → ℤ
count_of k m = elim (Maps.lookup k m) [ none ↦ pos 0 | some n ↦ n ]

unfoldable pub violation_count : PolicyStatus → ℤ
violation_count ps = elim (Maps.lookup "IN_VIOLATION" ps.component_version_status_counts) [
  | none ↦ pos 0
  | some n ↦ n
]

unfoldable pub high_risk_vulnerability_count : RiskProfileStatusCounts → ℤ
high_risk_vulnerability_count r = count_of "HIGH" r.status_counts

unfoldable pub critical_risk_vulnerability_count : RiskProfileStatusCounts → ℤ
critical_risk_vulnerability_count r = count_of "CRITICAL" r.status_counts

unfoldable pub critical_and_high_risk_vulnerability_count : RiskProfile → ℤ
critical_and_high_risk_vulnerability_count rp = elim (Maps.lookup "VULNERABILITY" rp.categories) [
  | none ↦ pos 0
  | some counts ↦ high_risk_vulnerability_count counts +ℤ critical_risk_vulnerability_count counts
]

-- The loop over the scan summaries: a success ends it, and `progress` remembers the others.
unfoldable pub summary_status_loop : Bool → List ScanSummary → ScanSummaryStatus
summary_status_loop progress [] = if progress then in_progress else failure
summary_status_loop progress (s ∷ rest) = elim s.status [
  | success ↦ success
  | in_progress ↦ summary_status_loop true rest
  | failure ↦ summary_status_loop progress rest
]

unfoldable pub scan_summary_status : ScanResults → ScanSummaryStatus
unfolding summary_status_loop
scan_summary_status scan = summary_status_loop false scan.scan_summaries

unfoldable pub is_done : ScanResults → Bool
unfolding scan_summary_status
is_done scan = elim (scan_summary_status scan) [ in_progress ↦ false | _ ↦ true ]

abbrev pub vulnerability_count : ScanResults → ℤ
vulnerability_count scan = critical_and_high_risk_vulnerability_count scan.risk_profile

abbrev pub policy_violation_count : ScanResults → ℤ
policy_violation_count scan = violation_count scan.policy_status

abbrev pub overall_status : ScanResults → String
overall_status scan = scan.policy_status.overall_status

unfoldable pub parse_scan_summary_status : String → ScanSummaryStatus
parse_scan_summary_status s =
    if s == "COMPLETE"
    then success
    else if s == "ERROR"
        || (s == "ERROR_BUILDING_BOM"
            || (s == "ERROR_MATCHING"
                || (s == "ERROR_SAVING_SCAN_DATA" || (s == "ERROR_SCANNING" || s == "CANCELLED"))))
    then failure
    else in_progress

-- What Go's `ScanStage.String` gives.
unfoldable pub stage_string : ScanStage → String
stage_string unknown = "ScanStageUnknown"
stage_string scan_client = "ScanStageScanClient"
stage_string hub_scan = "ScanStageHubScan"
stage_string complete = "ScanStageComplete"
stage_string failed = "ScanStageFailure"
