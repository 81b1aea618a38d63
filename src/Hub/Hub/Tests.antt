-- ===== src/Hub/Hub/Tests.antt =====
-- Runs of a hub of pkg/hub/hub.go at concrete inputs.
use perceptor.Prelude.{
  ◌≡◌, refl, arith, ℤ, pos, true, false, [], ◌∷◌, Option, ok, none, some, some-ne-none, Returns,
  List, replicate,
}
use perceptor.Util.Timer.{
  Timer, ready, running_action, paused, did_finish_action, turn, new_timer, new_running_timer,
  handle, on_resume, start_timer, execute_action, finish_action,
}
use perceptor.Hub.Client
use perceptor.Hub.Client.{new_client}
use perceptor.Hub.Hub.{
  Error, client_error, Hub, Timings, up, down, new_hub, switch_status, record_error, did_login,
}
use perceptor.Hub.Hub.Samples.{ticking, logged_in}
use perceptor.Hub.Hub.Working.{IsWorking}
use perceptor.Hub.Hub.Runs.{HubReach, start, after, logs_in, login_ticks, IsGoing, HubReach-new_hub}
use perceptor.Hub.Client.{new_client}
use perceptor.Hub.Hub.Errors.{record_errors, errors_of, IsTail, record_errors-newest}
use perceptor.Hub.Hub.Timers.{AllTimers, IsInStep}
use perceptor.Hub.Hub.Login.{EndsPaused, did_login-IsInStep, did_login-EndsPaused}

-- A timer whose action runs, and which is to pause after it.
abbrev pausing : Timer
pausing = record ticking { state = running_action; should_pause = true; actions = 1 }

abbrev logged_out : Hub
logged_out = record logged_in {
  status = down;
  check_scans_for_completion_timer = pausing;
  fetch_scans_timer = pausing;
  fetch_all_scans_timer = pausing;
  refresh_scans_timer = pausing;
}

abbrev refusal : Client.Error
refusal = Client.failed "401"

abbrev timings : Timings
timings = record {
  scan_completion_pause = pos 60;
  fetch_unknown_scans_pause = pos 60;
  fetch_all_scans_pause = pos 120;
  refresh_scan_threshold = pos 300;
  get_metrics_pause = pos 15;
  login_pause = pos 1800;
}

abbrev resting : ℤ → Timer
resting delay = record {
  state = paused;
  delay = delay;
  base_timer = none;
  ticks = false;
  should_pause = false;
  actions = 0;
}

logged_in-InStep : IsInStep logged_in
logged_in-InStep = ground arith

-- As many errors as make a hub drop the oldest.
abbrev outage : List (Option Error)
outage =
    some (client_error (Client.failed "500")) ∷ none ∷ replicate 1000 (some (client_error refusal))

record_errors-newest_example : IsTail (errors_of outage) (record_errors outage logged_in).errors
record_errors-newest_example = record_errors-newest outage logged_in refl

did_login-IsInStep_example : Returns IsInStep (did_login (some refusal) logged_in)
did_login-IsInStep_example = did_login-IsInStep (some refusal) logged_in logged_in-InStep tt

did_login-EndsPaused_example : Returns (AllTimers EndsPaused up) (did_login none logged_out)
did_login-EndsPaused_example = did_login-EndsPaused logged_out (record {
  of_check_scans = (refl, refl, some-ne-none _);
  of_fetch_scans = (refl, refl, some-ne-none _);
  of_fetch_all_scans = (refl, refl, some-ne-none _);
  of_refresh_scans = (refl, refl, some-ne-none _);
  status_is = refl;
  few_errors = omega arith;
})

abbrev at_once : ℤ → Timer
at_once delay = record ticking {
  state = running_action;
  delay = delay;
  base_timer = some delay;
  actions = 1;
}

-- The hub after it was created, and after a login that failed.
abbrev created : Hub
created = record logged_in {
  status = down;
  get_metrics_timer = at_once (pos 15);
  login_timer = at_once (pos 1800);
  check_scans_for_completion_timer = resting (pos 60);
  fetch_scans_timer = resting (pos 60);
  fetch_all_scans_timer = resting (pos 120);
  refresh_scans_timer = resting (pos 300);
}

created_run : new_hub "hub1" (pos 2) timings ≡ ok created
unfolding new_hub new_timer new_running_timer handle on_resume start_timer execute_action
created_run = refl

-- The login that runs at once fails, and its action ends.
abbrev logged : Hub
logged = record created {
  errors = client_error refusal ∷ [];
  login_timer = record (at_once (pos 1800)) { state = ready; actions = 0 };
}

first_login : HubReach created logged
unfolding did_login switch_status record_error handle finish_action
first_login =
    after
      (after start
        (logs_in {g = record created { errors = client_error refusal ∷ [] }} (some refusal) refl))
      (login_ticks {e = did_finish_action} tt (turn ((λ p. cc), omega arith) refl))

HubReach-new_hub_example :
    IsGoing logged × ((err : Option Client.Error) → Returns IsWorking (did_login err logged))
HubReach-new_hub_example =
    HubReach-new_hub "hub1" (pos 2) timings (refl, refl, refl, refl, refl, refl) created_run
      first_login
