-- ===== src/Core/Model/Metrics.antt =====
-- The counts of `metrics` in pkg/core/model/modelextensions.go, and modelmetrics.go. A map that
-- counts starts empty, and a missing key counts 0.
pub mod Totals
use perceptor.Prelude.{
  ℕ, ◌+◌, ℤ, pos, negsuc, ◌≡◌, ◌↔◌, Bool, true, false, ◌&&◌, List, [], ◌∷◌, ◌++◌, map, Option, none,
  some, String, arith, length, if◌then◌else◌, Eq, ◌==◌, nat_eq, nat_beq_iff, string_eq,
}
use text.Mathlib.TextEquality.{eq_iff}
use perceptor.Prelude.Maps
use perceptor.Prelude.Counts.{tally}
use perceptor.Hub.DataTypes.{
  ScanResults, vulnerability_count, policy_violation_count, overall_status,
}
use perceptor.Core.Model.ScanStatus.{ScanStatus, complete, status_eq}
use perceptor.Core.Model.Image.{DockerImageSha, Image, Container, Pod, ImageInfo}
use perceptor.Core.Model.State.{Model}
use perceptor.Core.Model.Results.{Scan, Lookup, found, not_yet, failed, scan_results_for_pod}

abbrev pub int_beq : ℤ → ℤ → Bool
int_beq (pos a) (pos b) = a == b
int_beq (negsuc a) (negsuc b) = a == b
int_beq a b = false

pub int_beq_iff : (a b : ℤ) → (int_beq a b ≡ true) ↔ (a ≡ b)
int_beq_iff a b = ground arith

instance abbrev pub int_eq : Eq ℤ
int_eq = record { beq = int_beq; beq_iff = int_beq_iff }

-- Images are the same key if all their fields are the same.
abbrev pub image_beq : Image → Image → Bool
image_beq a b =
    a.repository == b.repository
    && (a.tag == b.tag
        && (a.sha == b.sha
            && (a.priority == b.priority
                && (a.black_duck_project_name == b.black_duck_project_name
                    && a.black_duck_project_version == b.black_duck_project_version))))

pub image_beq_iff : (a b : Image) → (image_beq a b ≡ true) ↔ (a ≡ b)
image_beq_iff a b = ground (
  arith,
  eq_iff a.repository b.repository,
  eq_iff a.tag b.tag,
  eq_iff a.sha b.sha,
  int_beq_iff a.priority b.priority,
  eq_iff a.black_duck_project_name b.black_duck_project_name,
  eq_iff a.black_duck_project_version b.black_duck_project_version,
)

instance abbrev pub image_eq : Eq Image
image_eq = record { beq = image_beq; beq_iff = image_beq_iff }

-- The images of the containers of all pods, in the order of the two loops.
unfoldable pub container_images : List Container → List Image
container_images [] = []
container_images (c ∷ cs) = c.image ∷ container_images cs

unfoldable pub pod_images : List (String × Pod) → List Image
pod_images [] = []
pod_images ((name, pod) ∷ pods) = container_images pod.containers ++ pod_images pods

-- What a pod counts under: `value` of its scan, or `unknown` before there is one; a pod whose lookup
-- fails is skipped.
unfoldable pub pod_key {ℓ} : {K : Type ℓ} → Model → (Scan → K) → K → String × Pod → Option K
pod_key m value unknown (name, pod) = elim (scan_results_for_pod m name) [
  | failed e ↦ none
  | found scan ↦ some (value scan)
  | not_yet ↦ some unknown
]

unfoldable pub image_key {ℓ} :
    {K : Type ℓ} → (ScanResults → K) → K → DockerImageSha × ImageInfo → Option K
image_key value unknown (sha, info) =
    if info.scan_status == complete
    then (elim info.scan_results [ none ↦ none | some results ↦ some (value results) ])
    else some unknown

pub record Metrics : Type 0 where
  pub scan_status_counts : List (ScanStatus × ℕ)
  pub number_of_pods : ℕ
  pub number_of_images : ℕ
  pub container_counts : List (ℕ × ℕ)
  pub image_count_histogram : List (ℕ × ℕ)
  pub pod_status : List (String × ℕ)
  pub image_status : List (String × ℕ)
  pub pod_policy_violations : List (ℤ × ℕ)
  pub image_policy_violations : List (ℤ × ℕ)
  pub pod_vulnerabilities : List (ℤ × ℕ)
  pub image_vulnerabilities : List (ℤ × ℕ)

unfoldable pub image_counts : Model → List (Image × ℕ)
image_counts m = tally (λ image. some image) (pod_images m.pods) []

unfoldable pub metrics : Model → Metrics
metrics m = record {
  scan_status_counts =
      tally (λ (entry : DockerImageSha × ImageInfo). some (entry.1).scan_status) m.images [];
  number_of_pods = length m.pods;
  number_of_images = length m.images;
  container_counts = tally (λ (entry : String × Pod). some (length (entry.1).containers)) m.pods [];
  image_count_histogram = tally (λ (entry : Image × ℕ). some entry.1) (image_counts m) [];
  pod_status = tally (pod_key m (λ scan. scan.overall_status) "Unknown") m.pods [];
  image_status = tally (image_key overall_status "Unknown") m.images [];
  pod_policy_violations = tally (pod_key m (λ scan. scan.policy_violations) (negsuc 0)) m.pods [];
  image_policy_violations = tally (image_key policy_violation_count (negsuc 0)) m.images [];
  pod_vulnerabilities = tally (pod_key m (λ scan. scan.vulnerabilities) (negsuc 0)) m.pods [];
  image_vulnerabilities = tally (image_key vulnerability_count (negsuc 0)) m.images [];
}
