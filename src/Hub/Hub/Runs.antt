-- ===== src/Hub/Hub/Runs.antt =====
-- pkg/hub/hub.go: a hub over time, with its logins and the events of its timers in any order.
use perceptor.Prelude.{
  ◌≡◌, refl, sym, inl, inr, Option, none, some, List, String, ℤ, arith, ok, Returns, returned,
  Returns-ok, Returns-if, Returns-bind, Returns-both, Returns-weaken, subst,
}
use perceptor.Util.Timer.{
  TimerState, ready, running_action, paused, stopped, Timer, Event, did_finish_action, tick, pause,
  stop, resume, set_delay, execute_action, finish_action, on_tick, handle, IsEnabled, Step, turn,
}
use perceptor.Util.Timer.Invariant.{running, handle-IsSteady}
use perceptor.Hub.Client
use perceptor.Hub.Client.{CodeLocation}
use perceptor.Hub.Hub.{
  down, client_error, Job, check_scans, fetch_scans, fetch_all_scans, refresh_scans, Hub, Timings,
  new_hub, timer_of, set_timer, record_error, did_login, fetch_all_scans_done,
}
use perceptor.Hub.Hub.Timers.{
  AllTimers-map, Rests, IsLive, record_error-Timers, set_model-Timers, same_timers-Timers,
}
use perceptor.Hub.Hub.Login.{ArePositive, Runs, new_hub-Rests}
use perceptor.Hub.Hub.Beside.{IsBeside, did_login-Keeps}
use perceptor.Hub.Hub.Working.{
  IsOwn, WorksAs, IsWorking, own_WorksAs, as_IsWorking, set_timer-IsWorking, did_login-IsWorking,
}

-- A login ends, a fetch of all scans ends, or a timer takes an event of its own.
pub data HubStep (h : Hub) : Hub → Type 1 where
  logs_in : {g : Hub} (err : Option Client.Error) → did_login err h ≡ ok g → HubStep h g
  fetches :
      {Link : Type 0} (result : Client.Result (List (CodeLocation Link)))
      → HubStep h (fetch_all_scans_done result h)
  ticks :
      {t : Timer} {e : Event} (job : Job)
      → IsOwn e
      → Step (timer_of job h) e t
      → HubStep h (set_timer job t h)
  login_ticks :
      {t : Timer} {e : Event}
      → IsOwn e
      → Step h.login_timer e t
      → HubStep h (record h { login_timer = t })
  metrics_ticks :
      {t : Timer} {e : Event}
      → IsOwn e
      → Step h.get_metrics_timer e t
      → HubStep h (record h { get_metrics_timer = t })

pub data HubReach (h : Hub) : Hub → Type 1 where
  start : HubReach h h
  after : {g k : Hub} → HubReach h g → HubStep g k → HubReach h k

-- The four timers of the jobs work as the status says, with not too many errors, and the timers of the
-- logins and of the metrics run.
pub record IsGoing (h : Hub) : Type 0 where
  pub working : IsWorking h
  pub logins : Runs h.login_timer
  pub metrics : Runs h.get_metrics_timer

on_tick-IsLive :
    (state : TimerState) (t : Timer) → t.state ≡ state → IsLive t → IsLive (on_tick state t)
unfolding on_tick execute_action
on_tick-IsLive ready t e l = inr (refl, refl)
on_tick-IsLive running_action t e l = l
on_tick-IsLive paused t e l = l
on_tick-IsLive stopped t e l = l

finish_action-IsLive :
    (t : Timer) → t.state ≡ running_action → IsLive t → Returns IsLive (finish_action t)
unfolding finish_action
finish_action-IsLive t e l =
    Returns-if t.should_pause (λ p. absurd (ground (arith, e, l, p))) (λ p. returned (inl refl))

handle-Runs :
    (e : Event) (t : Timer)
    → IsOwn e
    → IsEnabled e t
    → Runs t
    → Returns (λ r. Runs r.0) (handle e t)
unfolding handle
handle-Runs did_finish_action t o n (s, l) =
    Returns-both (handle-IsSteady did_finish_action t s n tt)
      (Returns-bind (finish_action-IsLive t (running t s n.0 n.1) l) λ next k. returned k)
handle-Runs tick t o n (s, l) =
    Returns-both (handle-IsSteady tick t s n tt) (returned (on_tick-IsLive t.state t refl l))
handle-Runs pause t o n r = absurd o
handle-Runs stop t o n r = absurd o
handle-Runs (resume now) t o n r = absurd o
handle-Runs (set_delay delay) t o n r = absurd o

Step-Runs : {t u : Timer} {e : Event} → IsOwn e → Step t e u → Runs t → Runs u
Step-Runs {t} {e = e} o (turn n f) r =
    Returns-ok (subst (Returns (λ r. Runs r.0)) f (handle-Runs e t o n r))

fetched-IsWorking :
    {Link : Type 0} (result : Client.Result (List (CodeLocation Link))) (h : Hub)
    → IsWorking h
    → IsWorking (fetch_all_scans_done result h)
unfolding fetch_all_scans_done record_error
fetched-IsWorking (Client.Result.done locations) h i =
    set_model-Timers _ (record_error none h) (record_error-Timers none h i)
fetched-IsWorking (Client.Result.err e) h i =
    set_model-Timers _ (record_error (some (client_error e)) h)
      (record_error-Timers (some (client_error e)) h i)

fetched-IsBeside :
    {Link : Type 0} (result : Client.Result (List (CodeLocation Link))) (h : Hub)
    → IsBeside h (fetch_all_scans_done result h)
unfolding fetch_all_scans_done record_error
fetched-IsBeside (Client.Result.done locations) h = (refl, refl)
fetched-IsBeside (Client.Result.err e) h = (refl, refl)

beside-IsGoing : (h g : Hub) → IsGoing h → IsBeside h g → IsWorking g → IsGoing g
beside-IsGoing h g i (a, b) w = record {
  working = w;
  logins = subst Runs (sym a) i.logins;
  metrics = subst Runs (sym b) i.metrics;
}

set_timer-IsGoing :
    (job : Job) (t : Timer) (h : Hub)
    → IsGoing h
    → IsWorking (set_timer job t h)
    → IsGoing (set_timer job t h)
unfolding set_timer
set_timer-IsGoing check_scans t h i w = beside-IsGoing h _ i (refl, refl) w
set_timer-IsGoing fetch_scans t h i w = beside-IsGoing h _ i (refl, refl) w
set_timer-IsGoing fetch_all_scans t h i w = beside-IsGoing h _ i (refl, refl) w
set_timer-IsGoing refresh_scans t h i w = beside-IsGoing h _ i (refl, refl) w

HubStep-IsGoing : {h g : Hub} → IsGoing h → HubStep h g → IsGoing g
HubStep-IsGoing {h} {g} i (logs_in err e) =
    beside-IsGoing h g i (did_login-Keeps err h g e)
      (Returns-ok (subst (Returns IsWorking) e (did_login-IsWorking err h i.working)))
HubStep-IsGoing {h} i (fetches result) =
    beside-IsGoing h _ i (fetched-IsBeside result h) (fetched-IsWorking result h i.working)
HubStep-IsGoing {h} i (ticks {t} {e} job o step) =
    set_timer-IsGoing job t h i
      (set_timer-IsWorking job t h i.working (own_WorksAs h.status e (timer_of job h) t o step))
HubStep-IsGoing {h} i (login_ticks o step) = record {
  working = as_IsWorking _ (same_timers-Timers i.working);
  logins = Step-Runs o step i.logins;
  metrics = i.metrics;
}
HubStep-IsGoing {h} i (metrics_ticks o step) = record {
  working = as_IsWorking _ (same_timers-Timers i.working);
  logins = i.logins;
  metrics = Step-Runs o step i.metrics;
}

HubReach-IsGoing : {h g : Hub} → IsGoing h → HubReach h g → IsGoing g
HubReach-IsGoing i start = i
HubReach-IsGoing i (after r step) = HubStep-IsGoing (HubReach-IsGoing i r) step

new_hub-IsGoing :
    (host : String) (limit : ℤ) (timings : Timings)
    → ArePositive timings
    → Returns IsGoing (new_hub host limit timings)
new_hub-IsGoing host limit timings p =
    Returns-weaken (new_hub-Rests host limit timings p) λ h (i, logins, metrics). record {
      working = as_IsWorking h (AllTimers-map rests i);
      logins = logins;
      metrics = metrics;
    }
  where
    rests : (t : Timer) → Rests t → WorksAs down t
    rests t (s, p) = ((s, λ q. ground (arith, p, q)), inl p)

-- From a new hub on, with pauses that are positive, and whatever logins and fetches of all scans end and
-- whatever the timers do, in whatever order, none of it at the same time as another and as long as the
-- hub is not stopped: no login panics, the hub keeps at most 1000 errors, its timers are steady, those of
-- the logins and of the metrics are never paused, and while it is down each of the four others is
-- paused, or is to pause when the action that runs ends.
pub HubReach-new_hub :
    (host : String) (limit : ℤ) (timings : Timings) {h g : Hub}
    → ArePositive timings
    → new_hub host limit timings ≡ ok h
    → HubReach h g
    → IsGoing g × ((err : Option Client.Error) → Returns IsWorking (did_login err g))
HubReach-new_hub host limit timings {h} {g} p e r =
    let start_fine =
      Returns-ok (subst (Returns IsGoing) e (new_hub-IsGoing host limit timings p)) in
    let fine = HubReach-IsGoing start_fine r in
    (fine, λ err. did_login-IsWorking err g fine.working)
