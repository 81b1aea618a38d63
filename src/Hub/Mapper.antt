-- ===== src/Hub/Mapper.antt =====
-- pkg/hub/hubmapper.go: the Black Duck server's answers as the hub's data types. The errors that the
-- functions return are always nil, so they are left out.
pub mod Counts
mod Tests
use perceptor.Prelude.{ℤ, List, [], ◌∷◌, String, string_eq}
use perceptor.Prelude.Maps
use perceptor.Hub.DataTypes.{RiskProfileStatusCounts, RiskProfile, PolicyStatus}

-- hubapi's count of the components with a status.
pub record ComponentVersionStatusCount : Type 0 where
  pub name : String
  pub value : ℤ

-- The loops write each entry to a new map.
unfoldable pub copy_counts : List (String × ℤ) → List (String × ℤ) → List (String × ℤ)
copy_counts [] counts = counts
copy_counts ((status, count) ∷ rest) counts = copy_counts rest (Maps.insert status count counts)

unfoldable pub new_risk_profile_status_counts : List (String × ℤ) → RiskProfileStatusCounts
new_risk_profile_status_counts counts = record { status_counts = copy_counts counts [] }

unfoldable pub copy_categories :
    List (String × List (String × ℤ))
    → List (String × RiskProfileStatusCounts)
    → List (String × RiskProfileStatusCounts)
copy_categories [] categories = categories
copy_categories ((category, counts) ∷ rest) categories =
    copy_categories rest (Maps.insert category (new_risk_profile_status_counts counts) categories)

unfoldable pub new_risk_profile : String → List (String × List (String × ℤ)) → RiskProfile
new_risk_profile bom_last_updated_at hub_categories = record {
  bom_last_updated_at = bom_last_updated_at;
  categories = copy_categories hub_categories [];
}

unfoldable pub status_entries : List ComponentVersionStatusCount → List (String × ℤ)
status_entries [] = []
status_entries (c ∷ cs) = (c.name, c.value) ∷ status_entries cs

unfoldable pub new_policy_status : String → String → List ComponentVersionStatusCount → PolicyStatus
new_policy_status overall_status updated_at counts = record {
  overall_status = overall_status;
  updated_at = updated_at;
  component_version_status_counts = copy_counts (status_entries counts) [];
}
