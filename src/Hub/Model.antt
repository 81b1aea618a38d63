-- ===== src/Hub/Model.antt =====
-- pkg/hub/model.go: what the client of one Black Duck server knows of its scans. The goroutine of
-- `NewModel` applies one action at a time; the functions that fetch produce the actions they send.
-- A map keeps the order of its insertions, where Go's `range` takes any.
pub mod Ledger
pub mod Ending
pub mod Polling
pub mod View
mod Tests
use perceptor.Prelude.{
  ℕ, suc, Bool, true, false, List, [], ◌∷◌, ◌++◌, map, Option, none, some, String, if◌then◌else◌,
  string_eq,
}
use perceptor.Prelude.Maps
use perceptor.Hub.DataTypes.{
  ScanResults, Scan, ScanStage, ScanSummaryStatus, unknown, scan_client, hub_scan, complete, failed,
  success, in_progress, failure, scan_summary_status, stage_string,
}

pub data Update : Type 0 where
  did_find_scan : String → ScanResults → Update
  did_finish_scan : String → ScanResults → Update

-- `published` are the updates handed to the channel, the first one last.
pub record Model : Type 0 where
  pub host : String
  pub has_fetched_scans : Bool
  pub scans : List (String × Scan)
  pub published : List Update

unfoldable pub new_model : String → Model
new_model host = record { host = host; has_fetched_scans = false; scans = []; published = [] }

unfoldable pub publish : Update → Model → Model
publish update m = record m { published = update ∷ m.published }

unfoldable pub set_scan : String → Scan → Model → Model
set_scan name scan m = record m { scans = Maps.insert name scan m.scans }

-- An action fails with a message.
pub data Error : Type 0 where
  not_found : String → Error
  wrong_stage : String → ScanStage → Error

-- The code locations of the list that are new get the stage Unknown.
unfoldable pub add_code_locations : List String → List (String × Scan) → List (String × Scan)
add_code_locations [] scans = scans
add_code_locations (name ∷ names) scans = add_code_locations names (elim (Maps.lookup name scans) [
  | some _ ↦ scans
  | none ↦ Maps.insert name (record { stage = unknown; scan_results = none }) scans
])

-- The list of code locations, or `none` when the request failed.
unfoldable pub did_fetch_scans : Option (List String) → Model → Model
did_fetch_scans none m = m
did_fetch_scans (some names) m = record m {
  has_fetched_scans = true;
  scans = add_code_locations names m.scans;
}

unfoldable pub stage_of_status : ScanSummaryStatus → ScanStage
stage_of_status success = complete
stage_of_status in_progress = hub_scan
stage_of_status failure = failed

-- Every status sets the stage, so the Unknown of a scan that was missing does not stay.
unfoldable pub did_fetch_scan_results : ScanResults → Model → Model
did_fetch_scan_results results m = publish (did_find_scan results.code_location_name results) (
    set_scan results.code_location_name
      (record {
        stage = stage_of_status (scan_summary_status results);
        scan_results = some results;
      })
      m)

-- The end of a scan that is at a stage: only one that runs on the hub may end.
unfoldable pub finish_at : ScanStage → ScanResults → Model → Model × Option Error
finish_at hub_scan results m = (
  publish (did_finish_scan results.code_location_name results) (
      set_scan results.code_location_name (record { stage = complete; scan_results = some results })
        m),
  none,
)
finish_at unknown results m = (m, some (wrong_stage results.code_location_name unknown))
finish_at scan_client results m = (m, some (wrong_stage results.code_location_name scan_client))
finish_at complete results m = (m, some (wrong_stage results.code_location_name complete))
finish_at failed results m = (m, some (wrong_stage results.code_location_name failed))

unfoldable pub scan_did_finish : ScanResults → Model → Model × Option Error
scan_did_finish results m = elim (Maps.lookup results.code_location_name m.scans) [
  | none ↦ (m, some (not_found results.code_location_name))
  | some scan ↦ finish_at scan.stage results m
]

unfoldable pub start_scan_client : String → Model → Model
start_scan_client name m = set_scan name (record { stage = scan_client; scan_results = none }) m

-- The end of the scan client of a scan that is at a stage; `scan_err` tells whether it failed.
unfoldable pub finish_client_at : ScanStage → Scan → String → Bool → Model → Model × Option Error
finish_client_at scan_client scan name scan_err m =
    (set_scan name (record scan { stage = if scan_err then failed else hub_scan }) m, none)
finish_client_at unknown scan name scan_err m = (m, some (wrong_stage name unknown))
finish_client_at hub_scan scan name scan_err m = (m, some (wrong_stage name hub_scan))
finish_client_at complete scan name scan_err m = (m, some (wrong_stage name complete))
finish_client_at failed scan name scan_err m = (m, some (wrong_stage name failed))

unfoldable pub finish_scan_client : String → Bool → Model → Model × Option Error
finish_scan_client name scan_err m = elim (Maps.lookup name m.scans) [
  | none ↦ (m, some (not_found name))
  | some scan ↦ finish_client_at scan.stage scan name scan_err m
]

-- The names of the scans whose stage passes a test, and their number.
unfoldable pub names_at : (ScanStage → Bool) → List (String × Scan) → List String
names_at test [] = []
names_at test ((name, scan) ∷ scans) =
    let rest = names_at test scans in if test scan.stage then name ∷ rest else rest

unfoldable pub count_at : (ScanStage → Bool) → List (String × Scan) → ℕ
count_at test [] = 0
count_at test ((name, scan) ∷ scans) =
    let rest = count_at test scans in if test scan.stage then suc rest else rest

unfoldable pub is_unknown : ScanStage → Bool
is_unknown s = elim s [ unknown ↦ true | _ ↦ false ]

unfoldable pub is_in_progress : ScanStage → Bool
is_in_progress s = elim s [ hub_scan ↦ true | scan_client ↦ true | _ ↦ false ]

unfoldable pub has_not_failed : ScanStage → Bool
has_not_failed s = elim s [ failed ↦ false | _ ↦ true ]

unfoldable pub get_unknown_scans : Model → List String
get_unknown_scans m = names_at is_unknown m.scans

unfoldable pub in_progress_scans : Model → List String
in_progress_scans m = names_at is_in_progress m.scans

unfoldable pub scans_count : Model → ℕ
scans_count m = count_at has_not_failed m.scans

pub data Action : Type 0 where
  fetched_scans : Option (List String) → Action
  fetched_results : ScanResults → Action
  finishes : ScanResults → Action
  starts_client : String → Action
  finishes_client : String → Bool → Action

unfoldable pub apply : Action → Model → Model × Option Error
apply (fetched_scans names) m = (did_fetch_scans names m, none)
apply (fetched_results results) m = (did_fetch_scan_results results m, none)
apply (finishes results) m = scan_did_finish results m
apply (starts_client name) m = (start_scan_client name m, none)
apply (finishes_client name err) m = finish_scan_client name err m

-- An error is logged, and the next action is taken.
unfoldable pub run_actions : List Action → Model → Model
run_actions [] m = m
run_actions (a ∷ actions) m = run_actions actions ((apply a m).0)

-- The case of the switch on a fetched status, before the actions that follow.
unfoldable pub check_at : ScanSummaryStatus → ScanResults → List Action → List Action
check_at in_progress results rest = rest
check_at failure results rest = finishes results ∷ rest
check_at success results rest = finishes results ∷ rest

-- What is fetched is `none` for an error and for nil, since both are skipped.
unfoldable pub check_fetched : Option ScanResults → List Action → List Action
unfolding check_at
check_fetched none rest = rest
check_fetched (some results) rest = check_at (scan_summary_status results) results rest

module _ (fetch_scan : String → Option ScanResults) where
  unfoldable pub fetch_unknown_scans : List String → List Action
  fetch_unknown_scans [] = []
  fetch_unknown_scans (name ∷ names) =
      let rest = fetch_unknown_scans names in
      elim (fetch_scan name) [ none ↦ rest | some results ↦ fetched_results results ∷ rest ]

  unfoldable pub check_scans_for_completion : List String → List Action
  check_scans_for_completion [] = []
  check_scans_for_completion (name ∷ names) =
      check_fetched (fetch_scan name) (check_scans_for_completion names)
