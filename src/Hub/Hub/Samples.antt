-- ===== src/Hub/Hub/Samples.antt =====
-- A hub of pkg/hub/hub.go that is logged in, for the runs at concrete inputs.
use perceptor.Prelude.{pos, true, false, [], some}
use perceptor.Util.Timer.{Timer, ready}
use perceptor.Hub.Client.{new_client}
use perceptor.Hub.Model.{new_model}
use perceptor.Hub.Hub.{Hub, up}

abbrev pub ticking : Timer
ticking = record {
  state = ready;
  delay = pos 30;
  base_timer = some (pos 30);
  ticks = true;
  should_pause = false;
  actions = 0;
}

abbrev pub logged_in : Hub
logged_in = record {
  client = new_client "hub1";
  host = "hub1";
  concurrent_scan_limit = pos 2;
  status = up;
  model = new_model "hub1";
  errors = [];
  get_metrics_timer = ticking;
  login_timer = ticking;
  check_scans_for_completion_timer = ticking;
  fetch_scans_timer = ticking;
  fetch_all_scans_timer = ticking;
  refresh_scans_timer = ticking;
  stopped = false;
}
