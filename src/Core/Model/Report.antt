-- ===== src/Core/Model/Report.antt =====
-- What the model reports of a pod.
use perceptor.Prelude.{
  ℤ, pos, ◌+ℤ◌, +ℤ_assoc, +ℤ-zero, ◌≡◌, ◌≢◌, ◌↔◌, ◌⊎◌, inl, inr, refl, sym, Option-cases,
  Bool-cases, List, [], ◌∷◌, Option, none, some, String, arith, if◌then◌else◌, ◌==◌, string_eq,
}
use text.Mathlib.TextEquality.{eq_iff}
use perceptor.Prelude.Maps
use perceptor.Hub.DataTypes.{
  ScanResults, vulnerability_count, policy_violation_count, overall_status,
}
use perceptor.Core.Model.ScanStatus.{complete, status_eq, status_beq_iff}
use perceptor.Core.Model.Image.{DockerImageSha, Container, Pod, ImageInfo}
use perceptor.Core.Model.State.{Model}
use perceptor.Core.Model.Results.{
  Scan, found, not_yet, scan_results_for_image, add_scan, sum_containers, no_findings,
  scan_results_for_pod,
}
use perceptor.Core.Model.Invariant.{IsConsistent, status_at}
use perceptor.Core.Model.PodImages.{HasImages}
use perceptor.Core.Model.Actions.{IsSane}

abbrev results_of : Option ImageInfo → Option ScanResults
results_of none = none
results_of (some info) = info.scan_results

-- The results of a finished image, as a function on its sha.
abbrev pub results_at : Model → DockerImageSha → Option ScanResults
results_at m sha = results_of (Maps.lookup sha m.images)

abbrev value_of {ℓ} : {A : Type ℓ} → A → (ScanResults → A) → Option ScanResults → A
value_of d f none = d
value_of d f (some r) = f r

-- The sum of a count over the images of the containers.
pub total : (ScanResults → ℤ) → Model → List Container → ℤ
total count m [] = pos 0
total count m (c ∷ cs) = value_of (pos 0) count (results_at m c.image.sha) +ℤ total count m cs

-- The scan of every container's image is complete.
abbrev pub AllComplete : Model → List Container → Type 0
AllComplete m [] = Unit {0}
AllComplete m (c ∷ cs) = (status_at m c.image.sha ≡ some complete) × AllComplete m cs

-- No container's image violates a policy.
abbrev pub NoneInViolation : Model → List Container → Type 0
NoneInViolation m [] = Unit {0}
NoneInViolation m (c ∷ cs) =
    (value_of "NOT_IN_VIOLATION" overall_status (results_at m c.image.sha) ≡ "NOT_IN_VIOLATION")
    × NoneInViolation m cs

-- A complete image reports its results, and any other image of the model nothing yet.
image_cases :
    (m : Model) (sha : DockerImageSha)
    → IsConsistent m
    → status_at m sha ≢ none
    → ((status_at m sha ≢ some complete) × (scan_results_for_image m sha ≡ not_yet))
      ⊎ ((r : ScanResults) × (status_at m sha ≡ some complete)
          × (results_at m sha ≡ some r)
          × (scan_results_for_image m sha
              ≡ found (record {
                overall_status = overall_status r;
                policy_violations = policy_violation_count r;
                vulnerabilities = vulnerability_count r;
              })))
unfolding scan_results_for_image
image_cases m sha c there = elim (Option-cases (Maps.lookup sha m.images)) [
  | inl e ↦ absurd (there (ground (arith, e)))
  | inr (info, e) ↦ elim (Bool-cases (info.scan_status == complete)) [
    | inr other ↦ inl (λ p. ground (arith, e, other), rw (e, scan_results_for_image, other))
    | inl done ↦
        let s : info.scan_status ≡ complete = (status_beq_iff info.scan_status complete).0 done in
        elim (Option-cases info.scan_results) [
          | inl f ↦ absurd ((c.sound sha info e).scanned s f)
          | inr (r, f) ↦ inr (
            r,
            ground (arith, e, s),
            ground (arith, e, f),
            rw (e, scan_results_for_image, done, f),
          )
        ]
  ]
]

-- What the report of a pod with these containers is to say.
pub record IsReport (m : Model) (start : Scan) (cs : List Container) (scan : Scan) : Type 0 where
  pub policy_violations :
      scan.policy_violations ≡ start.policy_violations +ℤ total policy_violation_count m cs
  pub vulnerabilities :
      scan.vulnerabilities ≡ start.vulnerabilities +ℤ total vulnerability_count m cs
  pub overall_status :
      (scan.overall_status ≡ "NOT_IN_VIOLATION")
      ↔ (start.overall_status ≡ "NOT_IN_VIOLATION") × NoneInViolation m cs

status_step :
    {Rest : Type 0} (old new last : String)
    → (last ≡ "NOT_IN_VIOLATION")
      ↔ ((if new == "NOT_IN_VIOLATION" then old else new) ≡ "NOT_IN_VIOLATION") × Rest
    → (last ≡ "NOT_IN_VIOLATION") ↔ (old ≡ "NOT_IN_VIOLATION") × ((new ≡ "NOT_IN_VIOLATION") × Rest)
status_step old new last h = elim (Bool-cases (new == "NOT_IN_VIOLATION")) [
  | inl same ↦
      let clean : new ≡ "NOT_IN_VIOLATION" = (eq_iff new "NOT_IN_VIOLATION").0 same in
      let k = rw same at h in
      ((λ p. let (a, rest) = k.0 p in (a, (clean, rest))), λ (a, (_, rest)). k.1 (a, rest))
  | inr other ↦
      let k = rw other at h in
      (
        (λ p.
            let (a, rest) = k.0 p in
            absurd (ground (arith, a, other, eq_iff new "NOT_IN_VIOLATION"))),
        λ (a, (b, rest)). k.1 (b, rest),
      )
]

sum_containers-IsReport :
    (m : Model) (start : Scan) (cs : List Container)
    → IsConsistent m
    → HasImages m cs
    → ((scan : Scan) × AllComplete m cs
        × (sum_containers m start cs ≡ found scan)
        × IsReport m start cs scan)
      ⊎ (¬ AllComplete m cs) × (sum_containers m start cs ≡ not_yet)
unfolding sum_containers total
sum_containers-IsReport m start [] c h = inl (
  start,
  tt,
  refl,
  record {
    policy_violations = sym (+ℤ-zero start.policy_violations);
    vulnerabilities = sym (+ℤ-zero start.vulnerabilities);
    overall_status = ((λ p. (p, tt)), λ p. p.0);
  },
)
sum_containers-IsReport m start (x ∷ cs) c h = elim (image_cases m x.image.sha c h.0) [
  | inl (other, e) ↦ inr ((λ a. other a.0), rw (e, sum_containers))
  | inr (r, done, results, e) ↦
      let next = add_scan start (record {
        overall_status = overall_status r;
        policy_violations = policy_violation_count r;
        vulnerabilities = vulnerability_count r;
      }) in
      elim (sum_containers-IsReport m next cs c h.1) [
        | inr (some_left, run) ↦ inr ((λ a. some_left a.1), rw (e, sum_containers, run))
        | inl (scan, all, run, report) ↦ inl (
          scan,
          (done, all),
          rw (e, sum_containers, run),
          record {
            policy_violations =
                rw (results, report.policy_violations)
                  (+ℤ_assoc start.policy_violations (policy_violation_count r)
                    (total policy_violation_count m cs));
            vulnerabilities =
                rw (results, report.vulnerabilities)
                  (+ℤ_assoc start.vulnerabilities (vulnerability_count r)
                    (total vulnerability_count m cs));
            overall_status = rw results (
                status_step start.overall_status (overall_status r) scan.overall_status
                  report.overall_status);
          },
        )
      ]
]

-- On a model that is reached, the report of a pod never fails. It comes exactly if the scans of all
-- its images are complete, and then sums up their policy violations and their vulnerabilities, and
-- says NOT_IN_VIOLATION exactly if all of them do.
pub scan_results_for_pod_correct :
    (m : Model) (name : String) (pod : Pod)
    → IsSane m
    → Maps.lookup name m.pods ≡ some pod
    → ((scan : Scan) × AllComplete m pod.containers
        × (scan_results_for_pod m name ≡ found scan)
        × IsReport m no_findings pod.containers scan)
      ⊎ (¬ AllComplete m pod.containers) × (scan_results_for_pod m name ≡ not_yet)
unfolding scan_results_for_pod
scan_results_for_pod_correct m name pod s e =
    elim (sum_containers-IsReport m no_findings pod.containers s.consistent
      (s.known_pods name pod e)) [
        | inl (scan, all, run, report) ↦ inl (scan, all, rw (e, scan_results_for_pod) run, report)
        | inr (some_left, run) ↦ inr (some_left, rw (e, scan_results_for_pod) run)
      ]
