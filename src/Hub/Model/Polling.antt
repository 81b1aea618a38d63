-- ===== src/Hub/Model/Polling.antt =====
-- pkg/hub/model.go: the checks of the scans in progress and of the unknown ones, and what comes of
-- them.
use perceptor.Prelude.{
  ◌≡◌, ◌≢◌, ◌⊎◌, inl, inr, refl, ap, sym, ◌∙◌, Bool, true, false, Bool-cases, List, [], ◌∷◌, ◌++◌,
  subst, Option, none, some, String, arith, if◌then◌else◌, ◌==◌, string_eq,
}
use text.Mathlib.TextEquality.{eq_iff}
use perceptor.Hub.DataTypes.{
  ScanResults, ScanStage, ScanSummaryStatus, unknown, scan_client, hub_scan, complete, failed,
  success, in_progress, failure, scan_summary_status,
}
use perceptor.Hub.Model.{
  Model, scan_did_finish, Action, apply, run_actions, check_scans_for_completion, check_at,
  check_fetched,
}
use perceptor.Hub.Model.Ending.{stage_in, stage_of, Finished, scan_did_finish_correct}

-- The scan runs on the hub or is complete.
abbrev OnItsWay : String → Model → Type 0
OnItsWay name m = (stage_of m name ≡ some hub_scan) ⊎ (stage_of m name ≡ some complete)

-- The stage of a scan whose end is reported.
abbrev ended : Option ScanStage → Option ScanStage
ended o = elim o [ some hub_scan ↦ some complete | other ↦ other ]

not_on_hub : (o : Option ScanStage) → (o ≡ some hub_scan) ⊎ ((o ≢ some hub_scan) × (ended o ≡ o))
not_on_hub none = inr ((λ p. cc), refl)
not_on_hub (some unknown) = inr ((λ p. cc), refl)
not_on_hub (some scan_client) = inr ((λ p. cc), refl)
not_on_hub (some hub_scan) = inl refl
not_on_hub (some complete) = inr ((λ p. cc), refl)
not_on_hub (some failed) = inr ((λ p. cc), refl)

own_stage :
    (results : ScanResults) (m : Model)
    → stage_of ((scan_did_finish results m).0) results.code_location_name
      ≡ ended (stage_of m results.code_location_name)
own_stage results m = elim (not_on_hub (stage_of m results.code_location_name)) [
  | inl e ↦ ap stage_in ((f.running e).0) ∙ sym (ap ended e)
  | inr (n, e) ↦ ap (λ x. stage_of x results.code_location_name) ((f.not_running n).0) ∙ sym e
]
  where
    f : Finished results m (scan_did_finish results m)
    f = scan_did_finish_correct results m

stage_after :
    (results : ScanResults) (name : String) (m : Model)
    → stage_of ((scan_did_finish results m).0) name
      ≡ (if results.code_location_name == name then ended (stage_of m name) else stage_of m name)
stage_after results name m = elim (Bool-cases (results.code_location_name == name)) [
  | inl b ↦ rw b (
      subst (λ n. stage_of ((scan_did_finish results m).0) n ≡ ended (stage_of m n)) (same b)
        (own_stage results m))
  | inr b ↦ rw b (ap stage_in ((scan_did_finish_correct results m).others name (differ b)))
]
  where
    same : (results.code_location_name == name) ≡ true → results.code_location_name ≡ name
    same b = ground (arith, b, eq_iff results.code_location_name name)

    differ : (results.code_location_name == name) ≡ false → results.code_location_name ≢ name
    differ b p = ground (arith, b, p, eq_iff results.code_location_name name)

ended_if :
    (b : Bool) {o : Option ScanStage}
    → o ≡ some complete
    → (if b then ended o else o) ≡ some complete
ended_if true e = ap ended e
ended_if false e = e

way_if :
    (b : Bool) {o : Option ScanStage}
    → (o ≡ some hub_scan) ⊎ (o ≡ some complete)
    → ((if b then ended o else o) ≡ some hub_scan) ⊎ ((if b then ended o else o) ≡ some complete)
way_if true (inl e) = inr (ap ended e)
way_if true (inr e) = inr (ap ended e)
way_if false w = w

keeps_way :
    (name : String) (results : ScanResults) (m : Model)
    → OnItsWay name m
    → OnItsWay name ((scan_did_finish results m).0)
keeps_way name results m w =
    rw (stage_after results name m) (way_if (results.code_location_name == name) w)

keeps_complete :
    (name : String) (results : ScanResults) (m : Model)
    → stage_of m name ≡ some complete
    → stage_of ((scan_did_finish results m).0) name ≡ some complete
keeps_complete name results m w =
    stage_after results name m ∙ ended_if (results.code_location_name == name) w

ends_complete :
    (results : ScanResults) (m : Model)
    → OnItsWay results.code_location_name m
    → stage_of ((scan_did_finish results m).0) results.code_location_name ≡ some complete
ends_complete results m (inl e) = own_stage results m ∙ ap ended e
ends_complete results m (inr e) = own_stage results m ∙ ap ended e

status_step :
    (status : ScanSummaryStatus) (results : ScanResults) (rest : List Action) (m : Model)
    → (run_actions (check_at status results rest) m ≡ run_actions rest m)
      ⊎ (run_actions (check_at status results rest) m
          ≡ run_actions rest ((scan_did_finish results m).0))
unfolding check_at run_actions apply
status_step in_progress results rest m = inl refl
status_step failure results rest m = inr refl
status_step success results rest m = inr refl

fetched_step :
    (fetched : Option ScanResults) (rest : List Action) (m : Model)
    → (run_actions (check_fetched fetched rest) m ≡ run_actions rest m)
      ⊎ ((results : ScanResults) × (run_actions (check_fetched fetched rest) m
            ≡ run_actions rest ((scan_did_finish results m).0)))
unfolding check_fetched
fetched_step none rest m = inl refl
fetched_step (some results) rest m =
    elim (status_step (scan_summary_status results) results rest m) [
      | inl e ↦ inl e
      | inr e ↦ inr (results, e)
    ]

done_step :
    (status : ScanSummaryStatus) (results : ScanResults) (rest : List Action) (m : Model)
    → status ≢ in_progress
    → run_actions (check_at status results rest) m
      ≡ run_actions rest ((scan_did_finish results m).0)
unfolding check_at run_actions apply
done_step in_progress results rest m n = absurd (n refl)
done_step failure results rest m n = refl
done_step success results rest m n = refl

module _ (fetch_scan : String → Option ScanResults) where
  -- The check of one name is at most one scanDidFinish.
  check_step :
      (name : String) (names : List String) (m : Model)
      → (run_actions (check_scans_for_completion fetch_scan (name ∷ names)) m
          ≡ run_actions (check_scans_for_completion fetch_scan names) m)
        ⊎ ((results : ScanResults) × (run_actions
                (check_scans_for_completion fetch_scan (name ∷ names))
                m
              ≡ run_actions
                  (check_scans_for_completion fetch_scan names)
                  ((scan_did_finish results m).0)))
  unfolding check_scans_for_completion
  check_step name names m =
      fetched_step (fetch_scan name) (check_scans_for_completion fetch_scan names) m

  checks_keep_complete :
      (name : String) (names : List String) (m : Model)
      → stage_of m name ≡ some complete
      → stage_of (run_actions (check_scans_for_completion fetch_scan names) m) name ≡ some complete
  unfolding check_scans_for_completion run_actions
  checks_keep_complete name [] m e = e
  checks_keep_complete name (n ∷ names) m e = elim (check_step n names m) [
    | inl p ↦ rw p (checks_keep_complete name names m e)
    | inr (results, p) ↦ rw p (checks_keep_complete name names _ (keeps_complete name results m e))
  ]

  -- The check of a name for which the server has finished results.
  check_finished :
      (results : ScanResults) (name : String) (names : List String) (m : Model)
      → fetch_scan name ≡ some results
      → scan_summary_status results ≢ in_progress
      → run_actions (check_scans_for_completion fetch_scan (name ∷ names)) m
        ≡ run_actions (check_scans_for_completion fetch_scan names) ((scan_did_finish results m).0)
  unfolding check_scans_for_completion check_fetched
  check_finished results name names m e n =
      ap (λ f. run_actions (check_fetched f (check_scans_for_completion fetch_scan names)) m) e
      ∙ done_step (scan_summary_status results) results
          (check_scans_for_completion fetch_scan names) m n

  -- Checking the scans for completion: each listed scan that runs on the hub, and of which the
  -- server has finished results under its name, is complete afterwards, when it has failed too.
  pub check_scans_for_completion_correct :
      (results : ScanResults) (before after : List String) (m : Model)
      → fetch_scan results.code_location_name ≡ some results
      → scan_summary_status results ≢ in_progress
      → stage_of m results.code_location_name ≡ some hub_scan
      → stage_of
          (run_actions
            (check_scans_for_completion fetch_scan (before ++ results.code_location_name ∷ after))
            m)
          results.code_location_name
        ≡ some complete
  check_scans_for_completion_correct results before after m e n h = go before m (inl h)
    where
      go :
          (pre : List String) (now : Model)
          → OnItsWay results.code_location_name now
          → stage_of
              (run_actions
                (check_scans_for_completion fetch_scan (pre ++ results.code_location_name ∷ after))
                now)
              results.code_location_name
            ≡ some complete
      go [] now w =
          rw (check_finished results results.code_location_name after now e n)
            (checks_keep_complete results.code_location_name after _ (ends_complete results now w))
      go (p ∷ pre) now w = elim (check_step p (pre ++ results.code_location_name ∷ after) now) [
        | inl q ↦ rw q (go pre now w)
        | inr (r, q) ↦ rw q (go pre _ (keeps_way results.code_location_name r now w))
      ]
