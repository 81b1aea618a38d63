-- ===== src/Hub/DataTypes/Status.antt =====
-- The status of a scan from the statuses of its summaries.
use perceptor.Prelude.{◌≡◌, ◌≢◌, ◌⊎◌, inl, inr, Bool, true, false, List, [], ◌∷◌, arith, refl}
use perceptor.Hub.DataTypes.{
  ScanSummaryStatus, in_progress, success, failure, ScanSummary, ScanResults, summary_status_loop,
  scan_summary_status, is_done,
}

-- Some summary has the status `x`.
abbrev pub Some : ScanSummaryStatus → List ScanSummary → Type 0
Some x [] = ⊥
Some x (s ∷ rest) = (s.status ≡ x) ⊎ Some x rest

-- What the loop makes of each way in which a list can be.
pub summary_status_loop_cases :
    (progress : Bool) (l : List ScanSummary)
    → (Some success l → summary_status_loop progress l ≡ success)
      × (¬ Some success l
          → Some in_progress l ⊎ (progress ≡ true)
          → summary_status_loop progress l ≡ in_progress)
      × (¬ Some success l
          → ¬ Some in_progress l
          → progress ≡ false
          → summary_status_loop progress l ≡ failure)
unfolding summary_status_loop
summary_status_loop_cases progress [] = ((λ s. absurd s), ground arith, ground arith)
summary_status_loop_cases progress (s ∷ rest) =
    ground (arith, summary_status_loop_cases true rest, summary_status_loop_cases progress rest)

same_status : (x y : ScanSummaryStatus) → (x ≡ y) ⊎ (x ≢ y)
same_status in_progress in_progress = inl refl
same_status success success = inl refl
same_status failure failure = inl refl
same_status in_progress success = inr (λ p. cc)
same_status in_progress failure = inr (λ p. cc)
same_status success in_progress = inr (λ p. cc)
same_status success failure = inr (λ p. cc)
same_status failure in_progress = inr (λ p. cc)
same_status failure success = inr (λ p. cc)

Some-cases : (x : ScanSummaryStatus) (l : List ScanSummary) → Some x l ⊎ (¬ Some x l)
Some-cases x [] = inr (λ s. s)
Some-cases x (s ∷ rest) = elim (same_status s.status x) [
  | inl e ↦ inl (inl e)
  | inr n ↦ elim (Some-cases x rest) [
    | inl h ↦ inl (inr h)
    | inr h ↦ inr (λ o. elim o [ inl e ↦ n e | inr k ↦ h k ])
  ]
]

-- A scan with a successful summary is a success; one without, but with a summary in progress, is in
-- progress; any other is a failure.
pub scan_summary_status_correct :
    (scan : ScanResults)
    → (Some success scan.scan_summaries × (scan_summary_status scan ≡ success))
      ⊎ ((¬ Some success scan.scan_summaries)
          × Some in_progress scan.scan_summaries
          × (scan_summary_status scan ≡ in_progress))
      ⊎ (¬ Some success scan.scan_summaries)
        × (¬ Some in_progress scan.scan_summaries)
        × (scan_summary_status scan ≡ failure)
unfolding scan_summary_status
scan_summary_status_correct scan =
    let c = summary_status_loop_cases false scan.scan_summaries in
    elim (Some-cases success scan.scan_summaries) [
      | inl s ↦ inl (s, c.0 s)
      | inr n ↦ elim (Some-cases in_progress scan.scan_summaries) [
        | inl p ↦ inr (inl (n, p, c.1 n (inl p)))
        | inr q ↦ inr (inr (n, q, c.2 n q refl))
      ]
    ]

-- IsDone also holds of a scan that failed: of every scan with no success and none in progress, one
-- with no summary at all included.
pub is_done-failure :
    (scan : ScanResults)
    → ¬ Some success scan.scan_summaries
    → ¬ Some in_progress scan.scan_summaries
    → is_done scan ≡ true
unfolding is_done scan_summary_status
is_done-failure scan n q =
    rw ((summary_status_loop_cases false scan.scan_summaries).2 n q refl, is_done)
