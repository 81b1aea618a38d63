-- ===== src/Core/Perceptor/Unknown/Kept.antt =====
-- pkg/core/perceptor.go: what the routine for the unknown images keeps.
use perceptor.Prelude.{
  ℕ, inl, inr, Option-cases, List, [], ◌∷◌, Option, none, String, ok, Returns, returned,
  Returns-bind, string_eq,
}
use perceptor.Prelude.Maps
use perceptor.Hub.DataTypes.{Scan, ScanStage, ScanResults}
use perceptor.Core.Model.Image.{DockerImageSha}
use perceptor.Core.Model.Handlers.{scan_finishes}
use perceptor.Core.Perceptor.{Perceptor, send}
use perceptor.Core.Perceptor.Sound.{IsSound, send-IsSound}
use perceptor.Core.Perceptor.Unknown.{
  finish_unknown, finish_all_unknown, collect_scans, handle_unknown_shas,
}

finish_unknown-IsSound :
    (now : ℕ) (scans : List (String × Scan)) (sha : DockerImageSha) (pcp : Perceptor)
    → IsSound pcp
    → Returns IsSound (finish_unknown now scans sha pcp)
unfolding finish_unknown
finish_unknown-IsSound now scans sha pcp s = elim (Option-cases (Maps.lookup sha scans)) [
  | inl e ↦ rw (e, finish_unknown) (send-IsSound now _ pcp s tt)
  | inr (scan, e) ↦ rw (e, finish_unknown) (by_stage scan.stage scan.scan_results)
]
  where
    by_stage :
        (stage : ScanStage) (results : Option ScanResults)
        → Returns IsSound (elim stage [
          | ScanStage.complete ↦ send now (scan_finishes sha results) pcp
          | ScanStage.failed ↦ send now (scan_finishes sha none) pcp
          | _ ↦ ok pcp
        ])
    by_stage ScanStage.complete results = send-IsSound now _ pcp s tt
    by_stage ScanStage.failed results = send-IsSound now _ pcp s tt
    by_stage ScanStage.unknown results = returned s
    by_stage ScanStage.scan_client results = returned s
    by_stage ScanStage.hub_scan results = returned s

finish_all_unknown-IsSound :
    (now : ℕ) (scans : List (String × Scan)) (shas : List DockerImageSha) (pcp : Perceptor)
    → IsSound pcp
    → Returns IsSound (finish_all_unknown now scans shas pcp)
unfolding finish_all_unknown
finish_all_unknown-IsSound now scans [] pcp s = returned s
finish_all_unknown-IsSound now scans (sha ∷ shas) pcp s =
    Returns-bind (finish_unknown-IsSound now scans sha pcp s)
      λ next t. finish_all_unknown-IsSound now scans shas next t

pub handle_unknown_shas-IsSound :
    (now : ℕ) (shas : List DockerImageSha) (pcp : Perceptor)
    → IsSound pcp
    → Returns IsSound (handle_unknown_shas now shas pcp)
unfolding handle_unknown_shas
handle_unknown_shas-IsSound now [] pcp s = returned s
handle_unknown_shas-IsSound now (sha ∷ shas) pcp s =
    elim (Option-cases (collect_scans pcp.hub_manager.hubs [])) [
      | inl e ↦ rw (e, handle_unknown_shas) (returned s)
      | inr (scans, e) ↦
          rw (e, handle_unknown_shas) (finish_all_unknown-IsSound now scans (sha ∷ shas) pcp s)
    ]
