-- ===== src/Core/Model/Metrics/Totals.antt =====
-- Every pod and every image is in each count exactly once.
use perceptor.Prelude.{
  ◌≡◌, ◌≢◌, inl, inr, Option-cases, List, [], ◌∷◌, none, some-ne-none, String, arith, length, Eq,
  nat_eq, string_eq,
}
use perceptor.Prelude.Maps
use perceptor.Prelude.Counts.{total, tally, AllKeyed, total-tally_all, always-AllKeyed}
use perceptor.Core.Model.ScanStatus.{status_eq}
use perceptor.Core.Model.Image.{DockerImageSha, ImageInfo, Pod}
use perceptor.Core.Model.State.{Model}
use perceptor.Core.Model.Actions.{IsSane}
use perceptor.Core.Model.Results.{Scan}
use perceptor.Core.Model.Report.{scan_results_for_pod_correct}
use perceptor.Core.Model.Metrics.{int_eq, pod_key, Metrics, metrics}

-- Each of these pods is found under its name.
abbrev AllFound : List (String × Pod) → List (String × Pod) → Type 0
AllFound all [] = Unit {0}
AllFound all ((name, pod) ∷ pods) = (Maps.lookup name all ≢ none) × AllFound all pods

AllFound-more :
    (first : String × Pod) (all pods : List (String × Pod))
    → AllFound all pods
    → AllFound (first ∷ all) pods
unfolding Maps.lookup
AllFound-more first all [] h = tt
AllFound-more (k, v) all ((name, pod) ∷ pods) (n, h) =
    (ground (arith, n), AllFound-more (k, v) all pods h)

AllFound-refl : (pods : List (String × Pod)) → AllFound pods pods
unfolding Maps.lookup
AllFound-refl [] = tt
AllFound-refl ((name, pod) ∷ pods) = (
  ground (arith, string_eq.beq_iff name name),
  AllFound-more (name, pod) pods pods (AllFound-refl pods),
)

module _ {ℓ} {K : Type ℓ} (m : Model) (s : IsSane m) (value : Scan → K) (unknown : K) where
  pod_key-some :
      (name : String) (pod : Pod)
      → Maps.lookup name m.pods ≢ none
      → pod_key m value unknown (name, pod) ≢ none
  unfolding pod_key
  pod_key-some name pod n = elim (Option-cases (Maps.lookup name m.pods)) [
    | inl e ↦ absurd (n e)
    | inr (p, e) ↦ elim (scan_results_for_pod_correct m name p s e) [
      | inl (scan, _, f, _) ↦ rw (f, pod_key) (some-ne-none (value scan))
      | inr (_, f) ↦ rw (f, pod_key) (some-ne-none unknown)
    ]
  ]

  pods-AllKeyed :
      (pods : List (String × Pod)) → AllFound m.pods pods → AllKeyed (pod_key m value unknown) pods
  pods-AllKeyed [] h = tt
  pods-AllKeyed ((name, pod) ∷ pods) (n, h) = (pod_key-some name pod n, pods-AllKeyed pods h)

  total-pods : ⦃keys : Eq K⦄ → total (tally (pod_key m value unknown) m.pods []) ≡ length m.pods
  total-pods =
      total-tally_all (pod_key m value unknown) m.pods (pods-AllKeyed m.pods (AllFound-refl m.pods))

-- What the counts of the pods and of the statuses add up to.
pub record IsComplete (counts : Metrics) : Type 0 where
  pub statuses : total counts.scan_status_counts ≡ counts.number_of_images
  pub containers : total counts.container_counts ≡ counts.number_of_pods
  pub pod_status : total counts.pod_status ≡ counts.number_of_pods
  pub pod_policy_violations : total counts.pod_policy_violations ≡ counts.number_of_pods
  pub pod_vulnerabilities : total counts.pod_vulnerabilities ≡ counts.number_of_pods

-- On a model that is reached the metrics leave out no pod and no image: the counts of the statuses
-- add up to the number of images, and those of the containers, the reports, the violations and the
-- vulnerabilities of pods each to the number of pods.
pub metrics-IsComplete : (m : Model) → IsSane m → IsComplete (metrics m)
unfolding metrics
metrics-IsComplete m s = record {
  statuses =
      total-tally_all _ m.images
        (always-AllKeyed (λ (entry : DockerImageSha × ImageInfo). (entry.1).scan_status) m.images);
  containers =
      total-tally_all _ m.pods
        (always-AllKeyed (λ (entry : String × Pod). length (entry.1).containers) m.pods);
  pod_status = total-pods m s _ _;
  pod_policy_violations = total-pods m s _ _;
  pod_vulnerabilities = total-pods m s _ _;
}
