-- ===== src/Core/Model/Results.antt =====
-- pkg/core/model/modelextensions.go and scan.go: what the model reports. A Go map is visited in the
-- order of its association list; the source's order is not fixed, and the lists are read as sets.
-- Counts are small Go `int`s, which are added without wrapping.
use perceptor.Prelude.{
  ℤ, pos, ◌+ℤ◌, not, List, [], ◌∷◌, Option, none, some, String, Run, ok, ◌>>=◌, if◌then◌else◌, ◌==◌,
  string_eq,
}
use perceptor.Prelude.Maps
use perceptor.Hub.DataTypes.{
  ScanResults, vulnerability_count, policy_violation_count, overall_status,
}
use perceptor.Core.Model.ScanStatus.{complete, status_eq}
use perceptor.Core.Model.Image.{DockerImageSha, Image, Container, Pod, ImageInfo, image_of}
use perceptor.Core.Model.State.{
  Model, Error, Errors, nil, cons, sha_not_found, pod_not_found, inconsistent, annotated,
  combine_errors,
}

pub record Scan : Type 0 where
  pub overall_status : String
  pub policy_violations : ℤ
  pub vulnerabilities : ℤ

-- Go's pair of a result, which may be nil, and an error.
pub data Lookup (A : Type 0) : Type 0 where
  found : A → Lookup A
  not_yet : Lookup A
  failed : Error → Lookup A

-- The results of an image that is complete; `not_yet` for nil.
unfoldable pub scan_results_for_image : Model → DockerImageSha → Lookup Scan
scan_results_for_image m sha = elim (Maps.lookup sha m.images) [
  | none ↦ failed (sha_not_found sha)
  | some info ↦ if not (info.scan_status == complete) then not_yet else (elim info.scan_results [
    | none ↦ failed (inconsistent sha)
    | some r ↦ found (record {
      overall_status = overall_status r;
      policy_violations = policy_violation_count r;
      vulnerabilities = vulnerability_count r;
    })
  ])
]

-- The sums so far with one image more: a status that is not NOT_IN_VIOLATION replaces the old one.
abbrev pub add_scan : Scan → Scan → Scan
add_scan sum image_scan = record {
  overall_status =
      if image_scan.overall_status == "NOT_IN_VIOLATION"
      then sum.overall_status
      else image_scan.overall_status;
  policy_violations = sum.policy_violations +ℤ image_scan.policy_violations;
  vulnerabilities = sum.vulnerabilities +ℤ image_scan.vulnerabilities;
}

-- The loop over the containers of a pod; the first image without results ends it.
unfoldable pub sum_containers : Model → Scan → List Container → Lookup Scan
sum_containers m sum [] = found sum
sum_containers m sum (container ∷ rest) = elim (scan_results_for_image m container.image.sha) [
  | failed e ↦ failed (annotated "unable to get scan results for image" e)
  | not_yet ↦ not_yet
  | found image_scan ↦ sum_containers m (add_scan sum image_scan) rest
]

abbrev pub no_findings : Scan
no_findings = record {
  overall_status = "NOT_IN_VIOLATION";
  policy_violations = pos 0;
  vulnerabilities = pos 0;
}

unfoldable pub scan_results_for_pod : Model → String → Lookup Scan
scan_results_for_pod m name = elim (Maps.lookup name m.pods) [
  | none ↦ failed (pod_not_found name)
  | some pod ↦ sum_containers m no_findings pod.containers
]

pub record ScannedPod : Type 0 where
  pub namespace : String
  pub name : String
  pub policy_violations : ℤ
  pub vulnerabilities : ℤ
  pub overall_status : String

pub record ScannedImage : Type 0 where
  pub repository : String
  pub tag : String
  pub sha : String
  pub policy_violations : ℤ
  pub vulnerabilities : ℤ
  pub overall_status : String
  pub components_url : String

-- The loop over the pods, with the errors behind the pods that it reports.
unfoldable pub scanned_pods : Model → List (String × Pod) → List ScannedPod × Errors
scanned_pods m [] = ([], nil)
scanned_pods m ((name, pod) ∷ rest) =
    let (pods, errs) = scanned_pods m rest in
    elim (scan_results_for_pod m name) [
      | failed e ↦ (pods, cons (annotated "unable to retrieve scan results for Pod" e) errs)
      | not_yet ↦ (pods, errs)
      | found scan ↦ (
        record {
          namespace = pod.namespace;
          name = pod.name;
          policy_violations = scan.policy_violations;
          vulnerabilities = scan.vulnerabilities;
          overall_status = scan.overall_status;
        }
            ∷ pods,
        errs,
      )
    ]

abbrev pub scanned_image : Image → ScanResults → ScannedImage
scanned_image image r = record {
  repository = image.repository;
  tag = image.tag;
  sha = image.sha;
  policy_violations = policy_violation_count r;
  vulnerabilities = vulnerability_count r;
  overall_status = overall_status r;
  components_url = r.components_href;
}

unfoldable pub scanned_images : List (DockerImageSha × ImageInfo) → Run (List ScannedImage × Errors)
scanned_images [] = ok ([], nil)
scanned_images ((sha, info) ∷ rest) = scanned_images rest >>= λ (images, errs).
    if not (info.scan_status == complete) then ok (images, errs) else (elim info.scan_results [
      | none ↦ ok (images, cons (inconsistent sha) errs)
      | some r ↦ image_of info >>= λ image. ok (scanned_image image r ∷ images, errs)
    ])

unfoldable pub append_errors : Errors → Errors → Errors
append_errors nil errs = errs
append_errors (cons e rest) errs = cons e (append_errors rest errs)

unfoldable pub scan_results : Model → Run ((List ScannedPod × List ScannedImage) × Option Error)
scan_results m =
    let (pods, pod_errs) = scanned_pods m m.pods in
    scanned_images m.images >>= λ (images, image_errs).
    ok ((pods, images), combine_errors "scanResults" (append_errors pod_errs image_errs))
