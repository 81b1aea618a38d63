-- ===== src/Hub/Hub.antt =====
-- pkg/hub/hub.go: one Black Duck server with its client, its model and the six timers of its
-- regular jobs. The timers' loops answer a pause or a resume at once, as `Timer.handle` does.
pub mod Errors
pub mod Login
pub mod Timers
pub mod Working
pub mod Beside
pub mod Runs
pub mod Polls
pub mod Samples
mod Tests
use perceptor.Prelude.{
  map, ℕ, ℤ, Bool, true, false, List, [], ◌∷◌, ◌++◌, Option, none, some, String, length, drop, ltb,
  Run, ok, panic, ◌>>=◌, if◌then◌else◌,
}
use perceptor.Util.Timer
use perceptor.Util.Timer.{Timer, Event, pause, resume, new_timer, new_running_timer, handle}
use perceptor.Hub.Client
use perceptor.Hub.Client.{
  CodeLocation, RawClient, error_of, login, list_all_code_locations, Client, new_client,
  reset_circuit_breaker,
}
use perceptor.Hub.Model
use perceptor.Hub.Model.{Model, new_model, start_scan_client, finish_scan_client, did_fetch_scans}

pub data ClientStatus : Type 0 where
  error up down : ClientStatus

pub data Error : Type 0 where
  client_error : Client.Error → Error
  timer_error : Timer.Error → Error

-- The timers that a login starts and a failed login stops, in the order of the calls.
pub data Job : Type 0 where
  check_scans fetch_scans fetch_all_scans refresh_scans : Job

pub record Hub : Type 0 where
  pub client : Client
  pub host : String
  pub concurrent_scan_limit : ℤ
  pub status : ClientStatus
  pub model : Model
  pub errors : List Error
  pub get_metrics_timer : Timer
  pub login_timer : Timer
  pub check_scans_for_completion_timer : Timer
  pub fetch_scans_timer : Timer
  pub fetch_all_scans_timer : Timer
  pub refresh_scans_timer : Timer
  pub stopped : Bool

pub record Timings : Type 0 where
  pub scan_completion_pause : ℤ
  pub fetch_unknown_scans_pause : ℤ
  pub fetch_all_scans_pause : ℤ
  pub refresh_scan_threshold : ℤ
  pub get_metrics_pause : ℤ
  pub login_pause : ℤ

-- A hub that is not logged in. The timers of the metrics and of the login run, the others are paused.
unfoldable pub new_hub : String → ℤ → Timings → Run Hub
new_hub host limit timings = do
  metrics ← new_running_timer timings.get_metrics_pause true
  check ← new_timer timings.scan_completion_pause
  fetch ← new_timer timings.fetch_unknown_scans_pause
  fetch_all ← new_timer timings.fetch_all_scans_pause
  logins ← new_running_timer timings.login_pause true
  refresh ← new_timer timings.refresh_scan_threshold
  ok (record {
    client = new_client host;
    host = host;
    concurrent_scan_limit = limit;
    status = down;
    model = new_model host;
    errors = [];
    get_metrics_timer = metrics;
    login_timer = logins;
    check_scans_for_completion_timer = check;
    fetch_scans_timer = fetch;
    fetch_all_scans_timer = fetch_all;
    refresh_scans_timer = refresh;
    stopped = false;
  })

unfoldable pub timer_of : Job → Hub → Timer
timer_of check_scans h = h.check_scans_for_completion_timer
timer_of fetch_scans h = h.fetch_scans_timer
timer_of fetch_all_scans h = h.fetch_all_scans_timer
timer_of refresh_scans h = h.refresh_scans_timer

unfoldable pub set_timer : Job → Timer → Hub → Hub
set_timer check_scans t h = record h { check_scans_for_completion_timer = t }
set_timer fetch_scans t h = record h { fetch_scans_timer = t }
set_timer fetch_all_scans t h = record h { fetch_all_scans_timer = t }
set_timer refresh_scans t h = record h { refresh_scans_timer = t }

abbrev pub add_error : Option Error → List Error → List Error
add_error none errors = errors
add_error (some e) errors = errors ++ e ∷ []

abbrev pub cap_errors : List Error → List Error
cap_errors errors = if ltb 1000 (length errors) then drop 500 errors else errors

unfoldable pub record_error : Option Error → Hub → Hub
record_error err h = record h { errors = cap_errors (add_error err h.errors) }

abbrev pub from_timer : Option Timer.Error → Option Error
from_timer none = none
from_timer (some e) = some (timer_error e)

abbrev pub from_client : Option Client.Error → Option Error
from_client none = none
from_client (some e) = some (client_error e)

-- `hub.recordError(..., timer.Pause())`, or Resume.
unfoldable pub call_timer : Event → Job → Hub → Run Hub
call_timer event job h = handle event (timer_of job h) >>= λ (t, err).
    ok (record_error (from_timer err) (set_timer job t h))

unfoldable pub call_timers : Event → Hub → Run Hub
call_timers event h = do
  checked ← call_timer event check_scans h
  fetched ← call_timer event fetch_scans checked
  fetched_all ← call_timer event fetch_all_scans fetched
  call_timer event refresh_scans fetched_all

-- The branches of the action didLogin, after the error has been recorded.
unfoldable pub switch_status : Option Client.Error → ClientStatus → Hub → Run Hub
switch_status (some e) up h = call_timers pause (record h { status = down })
switch_status none down h = call_timers (resume true) (record h { status = up })
switch_status err status h = ok h

-- The action that login sends, with what the client's login returned.
unfoldable pub did_login : Option Client.Error → Hub → Run Hub
did_login err h = switch_status err h.status (record_error (from_client err) h)

-- The end of fetchAllScans, with the code locations that the client has listed, or its error.
unfoldable pub fetch_all_scans_done :
    {Link : Type 0} → Client.Result (List (CodeLocation Link)) → Hub → Hub
fetch_all_scans_done (Client.Result.done locations) h = record (record_error none h) {
  model = did_fetch_scans (some (map (λ cl. cl.name) locations)) h.model;
}
fetch_all_scans_done (Client.Result.err e) h = record (record_error (some (client_error e)) h) {
  model = did_fetch_scans none h.model;
}

-- login and fetchAllScans with their requests; the hub's client keeps its circuit breaker.
unfoldable pub hub_login : {Link : Type 0} → RawClient Link → Hub → Run Hub
hub_login raw h =
    login raw h.client >>= λ (c, result). did_login (error_of result) (record h { client = c })

unfoldable pub hub_fetch_all_scans : {Link : Type 0} → (ℕ → ℤ) → RawClient Link → Hub → Run Hub
hub_fetch_all_scans clock raw h = list_all_code_locations clock raw h.client >>= λ (c, result).
    ok (fetch_all_scans_done result (record h { client = c }))

-- StartScanClient, FinishScanClient, Stop and ResetCircuitBreaker of the public API.
unfoldable pub hub_start_scan_client : String → Hub → Hub
hub_start_scan_client name h = record h { model = start_scan_client name h.model }

-- An error of the model's action is logged only.
unfoldable pub hub_finish_scan_client : String → Bool → Hub → Hub
hub_finish_scan_client name scan_err h = record h {
  model = (finish_scan_client name scan_err h.model).0;
}

-- Closing a channel that is closed panics.
unfoldable pub stop_hub : Hub → Run Hub
stop_hub h = if h.stopped then panic else ok (record h { stopped = true })

unfoldable pub hub_reset_circuit_breaker : Hub → Hub
hub_reset_circuit_breaker h = record h { client = reset_circuit_breaker h.client }
