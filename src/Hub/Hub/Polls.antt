-- ===== src/Hub/Hub/Polls.antt =====
-- pkg/hub/hub.go and model.go: the jobs of the timers, which fetch scans through the client of the hub
-- and send what they find to its model. The circuit breaker goes from one request to the next.
use perceptor.Prelude.{ℕ, ℤ, List, [], ◌∷◌, Option, some, String, Run, ok, ◌>>=◌, string_eq}
use perceptor.Prelude.Maps
use perceptor.Hub.DataTypes.{ScanResults}
use perceptor.Hub.Client.{Result, done, Client, RawClient, fetch_scan}
use perceptor.Hub.Client.Calls.{IsSound}
use perceptor.Hub.Model
use perceptor.Hub.Model.{
  Action, run_actions, get_unknown_scans, in_progress_scans, did_fetch_scans, apply,
}
use perceptor.Hub.Model.Ledger.{IsLedger}
use perceptor.Hub.Hub.{
  Hub, Job, check_scans, fetch_scans, fetch_all_scans, refresh_scans, hub_fetch_all_scans,
}

-- What a poll has found, by the name that it asked for; an error and nil are skipped.
abbrev pub keep :
    String → Result (Option ScanResults) → List (String × ScanResults) → List (String × ScanResults)
keep name (done (some results)) found = (name, results) ∷ found
keep name other found = found

-- The circuit breaker of the client is well formed, and the scans agree with their names.
abbrev pub IsSane : Hub → Type 0
IsSane h = IsSound h.client × IsLedger h.model

module _ {Link : Type 0} (clock : ℕ → ℤ) (raw : RawClient Link) where
  unfoldable pub poll_scans : List String → Client → Run (Client × List (String × ScanResults))
  poll_scans [] c = ok (c, [])
  poll_scans (name ∷ names) c = fetch_scan clock raw name c >>= λ (next, result).
      poll_scans names next >>= λ (last, found). ok (last, keep name result found)

  -- A job that asks for the scans of some names; its actions come to the model after the requests.
  unfoldable pub poll :
      ((String → Option ScanResults) → List String → List Action) → List String → Hub → Run Hub
  poll actions names h = poll_scans names h.client >>= λ (c, found). ok (record h {
    client = c;
    model = run_actions (actions (λ name. Maps.lookup name found) names) h.model;
  })

  unfoldable pub hub_fetch_unknown_scans : Hub → Run Hub
  hub_fetch_unknown_scans h = poll Model.fetch_unknown_scans (get_unknown_scans h.model) h

  unfoldable pub hub_check_scans_for_completion : Hub → Run Hub
  hub_check_scans_for_completion h =
      poll Model.check_scans_for_completion (in_progress_scans h.model) h

-- Runs the action of a timer; the refreshing one does nothing yet.
unfoldable pub run_job : {Link : Type 0} → (ℕ → ℤ) → RawClient Link → Job → Hub → Run Hub
run_job clock raw check_scans h = hub_check_scans_for_completion clock raw h
run_job clock raw fetch_scans h = hub_fetch_unknown_scans clock raw h
run_job clock raw fetch_all_scans h = hub_fetch_all_scans clock raw h
run_job clock raw refresh_scans h = ok h
