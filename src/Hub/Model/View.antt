-- ===== src/Hub/Model/View.antt =====
-- pkg/hub/model.go: what the hub's model shows of itself, in the types of pkg/api/model.go. The
-- fields that apiModel leaves empty are left out, and HasLoadedAllCodeLocations, which says that the
-- map of scans is not nil.
use perceptor.Prelude.{
  ℕ, ◌≡◌, ◌↔◌, arith, Bool, true, false, List, [], ◌∷◌, none, some, String, length, Eq, string_eq,
}
use perceptor.Prelude.Counts.{tally, total, total-tally_all, always-AllKeyed}
use perceptor.Hub.DataTypes.{
  Scan, ScanStage, unknown, scan_client, hub_scan, complete, failed, stage_string,
}
use perceptor.Hub.Model.{Model}

abbrev pub stage_beq : ScanStage → ScanStage → Bool
stage_beq unknown unknown = true
stage_beq scan_client scan_client = true
stage_beq hub_scan hub_scan = true
stage_beq complete complete = true
stage_beq failed failed = true
stage_beq a b = false

pub stage_beq_iff : (a b : ScanStage) → (stage_beq a b ≡ true) ↔ (a ≡ b)
stage_beq_iff a b = ground arith

instance abbrev pub stage_eq : Eq ScanStage
stage_eq = record { beq = stage_beq; beq_iff = stage_beq_iff }

-- The number of scans at each stage, which getStateMetrics records.
unfoldable pub stage_counts : Model → List (ScanStage × ℕ)
stage_counts m = tally (λ (entry : String × Scan). some (entry.1).stage) m.scans []

-- The counts of the stages add up to the number of scans: every scan is counted once.
pub total-stage_counts : (m : Model) → total (stage_counts m) ≡ length m.scans
unfolding stage_counts
total-stage_counts m =
    total-tally_all _ m.scans (always-AllKeyed (λ (entry : String × Scan). (entry.1).stage) m.scans)

pub record ModelCodeLocation : Type 0 where
  pub stage : String
  pub href : String
  pub url : String
  pub mapped_project_version : String
  pub updated_at : String
  pub components_href : String

pub record ModelBlackDuck : Type 0 where
  pub code_locations : List (String × ModelCodeLocation)
  pub host : String

unfoldable pub code_location : Scan → ModelCodeLocation
code_location scan = elim scan.scan_results [
  | none ↦ record {
    stage = stage_string scan.stage;
    href = "";
    url = "";
    mapped_project_version = "";
    updated_at = "";
    components_href = "";
  }
  | some results ↦ record {
    stage = stage_string scan.stage;
    href = results.code_location_href;
    url = results.code_location_url;
    mapped_project_version = results.code_location_mapped_project_version;
    updated_at = results.code_location_updated_at;
    components_href = results.components_href;
  }
]

unfoldable pub code_locations : List (String × Scan) → List (String × ModelCodeLocation)
code_locations [] = []
code_locations ((name, scan) ∷ scans) = (name, code_location scan) ∷ code_locations scans

unfoldable pub api_model : Model → ModelBlackDuck
api_model m = record { code_locations = code_locations m.scans; host = m.host }
