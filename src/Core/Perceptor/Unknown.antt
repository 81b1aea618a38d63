-- ===== src/Core/Perceptor/Unknown.antt =====
-- pkg/core/perceptor.go: the routine for the images whose status is Unknown. It compares them with the
-- scans of all hubs, once every hub has fetched its scans.
pub mod Kept
use perceptor.Prelude.{
  ℕ, List, [], ◌∷◌, Option, none, some, String, Run, ok, ◌>>=◌, if◌then◌else◌, string_eq,
}
use perceptor.Prelude.Maps
use perceptor.Hub.DataTypes.{Scan, ScanStage}
use perceptor.Hub.Hub.{Hub}
use perceptor.Core.Model.ScanStatus.{unknown}
use perceptor.Core.Model.Image.{DockerImageSha}
use perceptor.Core.Model.Handlers.{scan_finishes, get_shas}
use perceptor.Core.Perceptor.{Perceptor, send}

unfoldable pub merge_scans : List (String × Scan) → List (String × Scan) → List (String × Scan)
merge_scans [] scans = scans
merge_scans ((name, scan) ∷ rest) scans = merge_scans rest (Maps.insert name scan scans)

-- `none` if a hub has not fetched its scans yet.
unfoldable pub collect_scans :
    List (String × Hub) → List (String × Scan) → Option (List (String × Scan))
collect_scans [] scans = some scans
collect_scans ((url, hub) ∷ rest) scans =
    let collected = collect_scans rest (merge_scans hub.model.scans scans) in
    if hub.model.has_fetched_scans then collected else none

-- An image that is scanned at the moment is left alone; one without a scan goes to the queue.
unfoldable pub finish_unknown :
    ℕ → List (String × Scan) → DockerImageSha → Perceptor → Run Perceptor
finish_unknown now scans sha pcp = elim (Maps.lookup sha scans) [
  | none ↦ send now (scan_finishes sha none) pcp
  | some scan ↦ elim scan.stage [
    | ScanStage.complete ↦ send now (scan_finishes sha scan.scan_results) pcp
    | ScanStage.failed ↦ send now (scan_finishes sha none) pcp
    | _ ↦ ok pcp
  ]
]

unfoldable pub finish_all_unknown :
    ℕ → List (String × Scan) → List DockerImageSha → Perceptor → Run Perceptor
finish_all_unknown now scans [] pcp = ok pcp
finish_all_unknown now scans (sha ∷ shas) pcp =
    finish_unknown now scans sha pcp >>= finish_all_unknown now scans shas

-- The case for the unknown images, with the shas that there are.
unfoldable pub handle_unknown_shas : ℕ → List DockerImageSha → Perceptor → Run Perceptor
handle_unknown_shas now [] pcp = ok pcp
handle_unknown_shas now shas pcp = elim (collect_scans pcp.hub_manager.hubs []) [
  | none ↦ ok pcp
  | some scans ↦ finish_all_unknown now scans shas pcp
]

unfoldable pub handle_unknown_images : ℕ → Perceptor → Run Perceptor
handle_unknown_images now pcp = handle_unknown_shas now (get_shas unknown pcp.model.images) pcp
