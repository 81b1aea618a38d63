-- ===== src/Hub/Model/Ledger.antt =====
-- pkg/hub/model.go: what the stage of a scan says of its results, and that every action keeps it.
use perceptor.Prelude.{
  ◌≡◌, ◌≢◌, ◌⊎◌, inl, inr, refl, ap, sym, Bool, true, false, Option-cases, Bool-cases, some-ne-none,
  List, [], ◌∷◌, Option, none, some, String, arith, if◌then◌else◌, ◌==◌, string_eq,
}
use text.Mathlib.TextEquality.{eq_iff}
use perceptor.Prelude.Maps
use perceptor.Hub.DataTypes.{
  ScanResults, Scan, ScanStage, ScanSummaryStatus, unknown, scan_client, hub_scan, complete, failed,
  success, in_progress, failure, scan_summary_status,
}
use perceptor.Hub.Model.{
  Model, finish_at, finish_client_at, publish, set_scan, new_model, add_code_locations,
  did_fetch_scans, stage_of_status, did_fetch_scan_results, scan_did_finish, start_scan_client,
  finish_scan_client, Action, fetched_scans, fetched_results, finishes, starts_client,
  finishes_client, apply, run_actions,
}

-- A scan agrees with its name: no results before the server has been asked, results under their
-- own name, and results when it is complete.
pub record Agrees (name : String) (scan : Scan) : Type 0 where
  pub no_results : (scan.stage ≡ unknown) ⊎ (scan.stage ≡ scan_client) → scan.scan_results ≡ none
  pub complete_results : scan.stage ≡ complete → scan.scan_results ≢ none
  pub own_name :
      (results : ScanResults) → scan.scan_results ≡ some results → results.code_location_name ≡ name

abbrev pub ScansAgree : List (String × Scan) → Type 0
ScansAgree scans =
    (name : String) (scan : Scan) → Maps.lookup name scans ≡ some scan → Agrees name scan

abbrev pub IsLedger : Model → Type 0
IsLedger m = ScansAgree m.scans

empty-ScansAgree : ScansAgree []
unfolding Maps.lookup
empty-ScansAgree name scan e = absurd (cc)

insert-ScansAgree :
    (name : String) (scan : Scan) (scans : List (String × Scan))
    → Agrees name scan
    → ScansAgree scans
    → ScansAgree (Maps.insert name scan scans)
insert-ScansAgree name scan scans a s j other e = elim (Bool-cases (name == j)) [
  | inl b ↦ rw (same_key b, same_scan b) a
  | inr b ↦ s j other (ground (arith, b, Maps.lookup-insert name j scan scans))
]
  where
    same_key : (name == j) ≡ true → j ≡ name
    same_key b = ground (arith, b, eq_iff name j)

    same_scan : (name == j) ≡ true → other ≡ scan
    same_scan b = ground (arith, b, Maps.lookup-insert name j scan scans)

add_code_locations-ScansAgree :
    (names : List String) (scans : List (String × Scan))
    → ScansAgree scans
    → ScansAgree (add_code_locations names scans)
unfolding add_code_locations
add_code_locations-ScansAgree [] scans s = s
add_code_locations-ScansAgree (name ∷ names) scans s =
    elim (Option-cases (Maps.lookup name scans)) [
      | inl e ↦
          rw e (add_code_locations-ScansAgree names _ (insert-ScansAgree name _ scans fresh s))
      | inr (scan, e) ↦ rw e (add_code_locations-ScansAgree names scans s)
    ]
  where
    fresh : Agrees name (record { stage = unknown; scan_results = none })
    fresh = record {
      no_results = λ _. refl;
      complete_results = λ p. absurd (cc);
      own_name = λ results p. absurd (cc);
    }

from_status :
    (s : ScanSummaryStatus) → (stage_of_status s ≢ unknown) × (stage_of_status s ≢ scan_client)
unfolding stage_of_status
from_status success = ((λ p. cc), (λ p. cc))
from_status in_progress = ((λ p. cc), (λ p. cc))
from_status failure = ((λ p. cc), (λ p. cc))

-- A scan with its own results, at a stage that comes after the scan client.
results-Agrees :
    (stage : ScanStage) (results : ScanResults)
    → stage ≢ unknown
    → stage ≢ scan_client
    → Agrees results.code_location_name (record { stage = stage; scan_results = some results })
results-Agrees stage results u c = record {
  no_results = λ h. absurd (elim h [ inl p ↦ u p | inr p ↦ c p ]);
  complete_results = λ _. some-ne-none results;
  own_name = λ r p. ap (λ o. elim o [ none ↦ "" | some x ↦ x.code_location_name ]) (sym p);
}

pub new-IsLedger : (host : String) → IsLedger (new_model host)
unfolding new_model
new-IsLedger host = empty-ScansAgree

pub did_fetch_scans-IsLedger :
    (names : Option (List String)) (m : Model) → IsLedger m → IsLedger (did_fetch_scans names m)
unfolding did_fetch_scans
did_fetch_scans-IsLedger none m s = s
did_fetch_scans-IsLedger (some names) m s = add_code_locations-ScansAgree names m.scans s

did_fetch_scan_results-IsLedger :
    (results : ScanResults) (m : Model) → IsLedger m → IsLedger (did_fetch_scan_results results m)
unfolding did_fetch_scan_results publish set_scan
did_fetch_scan_results-IsLedger results m s =
    let (u, c) = from_status (scan_summary_status results) in
    insert-ScansAgree _ _ m.scans
      (results-Agrees (stage_of_status (scan_summary_status results)) results u c) s

start_scan_client-IsLedger :
    (name : String) (m : Model) → IsLedger m → IsLedger (start_scan_client name m)
unfolding start_scan_client set_scan
start_scan_client-IsLedger name m s =
    insert-ScansAgree name _ m.scans
      (record {
        no_results = λ _. refl;
        complete_results = λ p. absurd (cc);
        own_name = λ results p. absurd (cc);
      })
      s

-- A scan at the stage of the hub that keeps its results.
moved-Agrees :
    (name : String) (scan : Scan) (stage : ScanStage)
    → (stage ≡ hub_scan) ⊎ (stage ≡ failed)
    → Agrees name scan
    → Agrees name (record scan { stage = stage })
moved-Agrees name scan stage h a = record {
  no_results = λ p. absurd (ground (arith, h, p));
  complete_results = λ p. absurd (ground (arith, h, p));
  own_name = a.own_name;
}

finish_at-IsLedger :
    (stage : ScanStage) (results : ScanResults) (m : Model)
    → IsLedger m
    → IsLedger ((finish_at stage results m).0)
unfolding finish_at publish set_scan
finish_at-IsLedger hub_scan results m s =
    insert-ScansAgree _ _ m.scans (results-Agrees complete results (λ p. cc) (λ p. cc)) s
finish_at-IsLedger unknown results m s = s
finish_at-IsLedger scan_client results m s = s
finish_at-IsLedger complete results m s = s
finish_at-IsLedger failed results m s = s

scan_did_finish-IsLedger :
    (results : ScanResults) (m : Model) → IsLedger m → IsLedger ((scan_did_finish results m).0)
unfolding scan_did_finish
scan_did_finish-IsLedger results m s =
    elim (Option-cases (Maps.lookup results.code_location_name m.scans)) [
      | inl e ↦ rw (e, scan_did_finish) s
      | inr (scan, e) ↦ rw (e, scan_did_finish) (finish_at-IsLedger scan.stage results m s)
    ]

finish_client_at-IsLedger :
    (stage : ScanStage) (scan : Scan) (name : String) (scan_err : Bool) (m : Model)
    → Agrees name scan
    → IsLedger m
    → IsLedger ((finish_client_at stage scan name scan_err m).0)
unfolding finish_client_at set_scan
finish_client_at-IsLedger scan_client scan name scan_err m a s =
    insert-ScansAgree name _ m.scans (moved-Agrees name scan _ (ends scan_err) a) s
  where
    ends :
        (b : Bool)
        → ((if b then failed else hub_scan) ≡ hub_scan)
          ⊎ ((if b then failed else hub_scan) ≡ failed)
    ends true = inr refl
    ends false = inl refl
finish_client_at-IsLedger unknown scan name scan_err m a s = s
finish_client_at-IsLedger hub_scan scan name scan_err m a s = s
finish_client_at-IsLedger complete scan name scan_err m a s = s
finish_client_at-IsLedger failed scan name scan_err m a s = s

finish_scan_client-IsLedger :
    (name : String) (scan_err : Bool) (m : Model)
    → IsLedger m
    → IsLedger ((finish_scan_client name scan_err m).0)
unfolding finish_scan_client
finish_scan_client-IsLedger name scan_err m s = elim (Option-cases (Maps.lookup name m.scans)) [
  | inl e ↦ rw (e, finish_scan_client) s
  | inr (scan, e) ↦
      rw (e, finish_scan_client)
        (finish_client_at-IsLedger scan.stage scan name scan_err m (s name scan e) s)
]

pub apply-IsLedger : (a : Action) (m : Model) → IsLedger m → IsLedger ((apply a m).0)
unfolding apply
apply-IsLedger (fetched_scans names) m s = did_fetch_scans-IsLedger names m s
apply-IsLedger (fetched_results results) m s = did_fetch_scan_results-IsLedger results m s
apply-IsLedger (finishes results) m s = scan_did_finish-IsLedger results m s
apply-IsLedger (starts_client name) m s = start_scan_client-IsLedger name m s
apply-IsLedger (finishes_client name err) m s = finish_scan_client-IsLedger name err m s

-- Whatever actions a new model takes, in whatever order: a scan that is unknown or with the scan
-- client has no results, a complete one has some, and all results stand under their own name.
pub run_actions-IsLedger :
    (actions : List Action) (m : Model) → IsLedger m → IsLedger (run_actions actions m)
unfolding run_actions
run_actions-IsLedger [] m s = s
run_actions-IsLedger (a ∷ actions) m s =
    run_actions-IsLedger actions ((apply a m).0) (apply-IsLedger a m s)
