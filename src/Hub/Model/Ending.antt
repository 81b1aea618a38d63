-- ===== src/Hub/Model/Ending.antt =====
-- pkg/hub/model.go: the end of a scan and the end of its client.
use perceptor.Prelude.{
  ◌≡◌, ◌≢◌, inl, inr, refl, ap, sym, ◌∙◌, Bool, Option-cases, some-ne-none, ◌∷◌, Option, none, some,
  String, arith, if◌then◌else◌, string_eq,
}
use text.Mathlib.TextEquality.{eq_iff}
use perceptor.Prelude.Maps
use perceptor.Hub.DataTypes.{
  ScanResults, Scan, ScanStage, unknown, scan_client, hub_scan, complete, failed,
}
use perceptor.Hub.Model.{
  Model, Error, did_finish_scan, publish, set_scan, finish_at, scan_did_finish, finish_client_at,
  finish_scan_client,
}

abbrev pub stage_in : Option Scan → Option ScanStage
stage_in o = elim o [ none ↦ none | some scan ↦ some scan.stage ]

abbrev pub stage_of : Model → String → Option ScanStage
stage_of m name = stage_in (Maps.lookup name m.scans)

-- What scanDidFinish does: a scan that runs on the hub is complete with these results, and every
-- other one is as before; without such a scan nothing changes and there is an error.
pub record Finished (results : ScanResults) (m : Model) (r : Model × Option Error) : Type 0 where
  pub running :
      stage_of m results.code_location_name ≡ some hub_scan
      → (Maps.lookup results.code_location_name r.0.scans
          ≡ some (record { stage = complete; scan_results = some results }))
        × (r.0.published ≡ did_finish_scan results.code_location_name results ∷ m.published)
        × (r.1 ≡ none)
  pub not_running : stage_of m results.code_location_name ≢ some hub_scan → (r.0 ≡ m) × (r.1 ≢ none)
  pub others :
      (other : String)
      → results.code_location_name ≢ other
      → Maps.lookup other r.0.scans ≡ Maps.lookup other m.scans

two_stages : {o : Option ScanStage} {s t : ScanStage} → o ≡ some s → o ≡ some t → s ≢ t → ⊥
two_stages e p d = d (cc)

finish_at-Finished :
    (stage : ScanStage) (results : ScanResults) (m : Model)
    → stage_of m results.code_location_name ≡ some stage
    → Finished results m (finish_at stage results m)
unfolding finish_at publish set_scan
finish_at-Finished hub_scan results m e = record {
  running = λ _. (
    ground (
      arith,
      eq_iff results.code_location_name results.code_location_name,
      Maps.lookup-insert results.code_location_name results.code_location_name
          (record { stage = complete; scan_results = some results }) m.scans,
    ),
    refl,
    refl,
  );
  not_running = λ n. absurd (n e);
  others = λ other n. ground (
    arith,
    n,
    eq_iff results.code_location_name other,
    Maps.lookup-insert results.code_location_name other
        (record { stage = complete; scan_results = some results }) m.scans,
  );
}
finish_at-Finished unknown results m e = record {
  running = λ p. absurd (two_stages e p (λ q. cc));
  not_running = λ _. (refl, some-ne-none _);
  others = λ other n. refl;
}
finish_at-Finished scan_client results m e = record {
  running = λ p. absurd (two_stages e p (λ q. cc));
  not_running = λ _. (refl, some-ne-none _);
  others = λ other n. refl;
}
finish_at-Finished complete results m e = record {
  running = λ p. absurd (two_stages e p (λ q. cc));
  not_running = λ _. (refl, some-ne-none _);
  others = λ other n. refl;
}
finish_at-Finished failed results m e = record {
  running = λ p. absurd (two_stages e p (λ q. cc));
  not_running = λ _. (refl, some-ne-none _);
  others = λ other n. refl;
}

-- scanDidFinish keeps its promise on every branch: a scan that runs on the hub is complete with the
-- results, which are published; any other is left alone, with an error; no other scan changes.
pub scan_did_finish_correct :
    (results : ScanResults) (m : Model) → Finished results m (scan_did_finish results m)
unfolding scan_did_finish
scan_did_finish_correct results m =
    elim (Option-cases (Maps.lookup results.code_location_name m.scans)) [
      | inl e ↦
          rw (e, scan_did_finish)
            (record {
              running = λ p. absurd (some-ne-none _ (sym (sym (ap stage_in e) ∙ p)));
              not_running = λ _. (refl, some-ne-none _);
              others = λ other n. refl;
            })
      | inr (scan, e) ↦
          rw (e, scan_did_finish) (finish_at-Finished scan.stage results m (ap stage_in e))
    ]

-- What finishScanClient does: a scan whose client was running runs on the hub, or has failed, with
-- the results it had; without such a scan nothing changes and there is an error.
pub record ClientFinished (name : String) (scan_err : Bool) (m : Model) (r : Model × Option Error)
    : Type 0 where
  pub running :
      stage_of m name ≡ some scan_client
      → (stage_of r.0 name ≡ some (if scan_err then failed else hub_scan)) × (r.1 ≡ none)
  pub not_running : stage_of m name ≢ some scan_client → (r.0 ≡ m) × (r.1 ≢ none)
  pub others :
      (other : String) → name ≢ other → Maps.lookup other r.0.scans ≡ Maps.lookup other m.scans

finish_client_at-ClientFinished :
    (stage : ScanStage) (scan : Scan) (name : String) (scan_err : Bool) (m : Model)
    → stage_of m name ≡ some stage
    → ClientFinished name scan_err m (finish_client_at stage scan name scan_err m)
unfolding finish_client_at set_scan
finish_client_at-ClientFinished scan_client scan name scan_err m e = record {
  running = λ _. (ap stage_in (lookup_moved name), refl);
  not_running = λ n. absurd (n e);
  others =
      λ other n. ground (arith, n, eq_iff name other, Maps.lookup-insert name other moved m.scans);
}
  where
    moved : Scan
    moved = record scan { stage = if scan_err then failed else hub_scan }

    lookup_moved :
        (key : String)
        → Maps.lookup key (
            Maps.insert key (record scan { stage = if scan_err then failed else hub_scan }) m.scans)
          ≡ some (record scan { stage = if scan_err then failed else hub_scan })
    lookup_moved key = ground (
      arith,
      eq_iff key key,
      Maps.lookup-insert key key (record scan { stage = if scan_err then failed else hub_scan })
          m.scans,
    )
finish_client_at-ClientFinished unknown scan name scan_err m e = record {
  running = λ p. absurd (two_stages e p (λ q. cc));
  not_running = λ _. (refl, some-ne-none _);
  others = λ other n. refl;
}
finish_client_at-ClientFinished hub_scan scan name scan_err m e = record {
  running = λ p. absurd (two_stages e p (λ q. cc));
  not_running = λ _. (refl, some-ne-none _);
  others = λ other n. refl;
}
finish_client_at-ClientFinished complete scan name scan_err m e = record {
  running = λ p. absurd (two_stages e p (λ q. cc));
  not_running = λ _. (refl, some-ne-none _);
  others = λ other n. refl;
}
finish_client_at-ClientFinished failed scan name scan_err m e = record {
  running = λ p. absurd (two_stages e p (λ q. cc));
  not_running = λ _. (refl, some-ne-none _);
  others = λ other n. refl;
}

-- FinishScanClient keeps its promise on every branch: a scan whose client was running is with the
-- hub, or has failed; any other is left alone, with an error; no other scan changes.
pub finish_scan_client_correct :
    (name : String) (scan_err : Bool) (m : Model)
    → ClientFinished name scan_err m (finish_scan_client name scan_err m)
unfolding finish_scan_client
finish_scan_client_correct name scan_err m = elim (Option-cases (Maps.lookup name m.scans)) [
  | inl e ↦
      rw (e, finish_scan_client)
        (record {
          running = λ p. absurd (some-ne-none _ (sym (sym (ap stage_in e) ∙ p)));
          not_running = λ _. (refl, some-ne-none _);
          others = λ other n. refl;
        })
  | inr (scan, e) ↦
      rw (e, finish_scan_client)
        (finish_client_at-ClientFinished scan.stage scan name scan_err m (ap stage_in e))
]
