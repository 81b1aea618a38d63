-- ===== src/Hub/Hub/Working.antt =====
-- pkg/hub/hub.go: what a login and an event of a timer keep of the timers of a hub.
use perceptor.Prelude.{
  ◌<◌, ◌-◌, ◌≡◌, ◌≢◌, inl, inr, refl, sym, true, Option, none, some, arith, Returns, returned,
  Returns-bind, Returns-if, Returns-ok, Returns-weaken, Returns-both, subst,
}
use perceptor.Util.Timer.{
  TimerState, ready, running_action, paused, stopped, Timer, Event, did_finish_action, tick, pause,
  stop, resume, set_delay, stop_timer, on_tick, on_pause, on_resume, finish_action, handle,
  IsEnabled, Step, turn,
}
use perceptor.Util.Timer.Invariant.{
  IsSteady, running, handle-IsSteady, stop_timer-ok, start_timer-ok,
}
use perceptor.Hub.Client
use perceptor.Hub.Hub.{
  ClientStatus, error, up, down, Job, check_scans, fetch_scans, fetch_all_scans, refresh_scans, Hub,
  timer_of, set_timer, record_error, from_client, switch_status, did_login,
}
use perceptor.Hub.Hub.Timers.{
  AllTimers, IsHeld, AllTimers-map, call_timers-all, record_error-Timers, set_status-Timers,
}

-- An event of the timer itself.
abbrev pub IsOwn : Event → Type 0
IsOwn did_finish_action = Unit {0}
IsOwn tick = Unit {0}
IsOwn e = ⊥

-- The timer is steady and has not been stopped.
abbrev pub Works : Timer → Type 0
Works t = IsSteady t × (t.state ≢ stopped)

abbrev pub WorksHeld : Timer → Type 0
WorksHeld t = Works t × IsHeld t

-- The timers work, and those of a hub that is down are paused or about to pause.
abbrev pub WorksAs : ClientStatus → Timer → Type 0
WorksAs down t = WorksHeld t
WorksAs status t = Works t

on_pause-IsHeldNow :
    (state : TimerState) (t : Timer)
    → t.state ≡ state
    → Works t
    → Returns (λ r. IsHeld r.0 × (r.0.state ≢ stopped)) (on_pause state t)
unfolding on_pause
on_pause-IsHeldNow ready t e (s, n) =
    rw (stop_timer-ok (record t { state = paused }) (s.ticker (s.ready_state e).0))
      (returned (inl refl, λ p. cc))
on_pause-IsHeldNow running_action t e (s, n) =
    Returns-if t.should_pause (λ p. returned (inr (e, p), n)) (λ p. returned (inr (e, refl), n))
on_pause-IsHeldNow paused t e (s, n) = returned (inl e, n)
on_pause-IsHeldNow stopped t e (s, n) = absurd (n e)

pause-WorksHeld : (t : Timer) → Works t → Returns (λ r. WorksHeld r.0) (handle pause t)
unfolding handle
pause-WorksHeld t (s, n) =
    Returns-weaken
      (Returns-both (handle-IsSteady pause t s n tt) (on_pause-IsHeldNow t.state t refl (s, n)))
      λ r (u, (h, m)). ((u, m), h)

on_resume-runs :
    (state : TimerState) (t : Timer)
    → t.state ≡ state
    → Works t
    → Returns (λ r. r.0.state ≢ stopped) (on_resume state true t)
unfolding on_resume perceptor.Util.Timer.execute_action
on_resume-runs paused t e (s, n) = rw (start_timer-ok t s.positive) (returned λ p. cc)
on_resume-runs ready t e (s, n) = returned n
on_resume-runs running_action t e (s, n) = returned n
on_resume-runs stopped t e (s, n) = absurd (n e)

resume-Works : (t : Timer) → Works t → Returns (λ r. Works r.0) (handle (resume true) t)
unfolding handle
resume-Works t (s, n) =
    Returns-both (handle-IsSteady (resume true) t s n tt) (on_resume-runs t.state t refl (s, n))

-- A hub whose timers work as its status says, with not too many errors.
abbrev pub IsWorking : Hub → Type 0
IsWorking h = AllTimers (WorksAs h.status) h.status h

weaker : {s : ClientStatus} (h : Hub) → AllTimers (WorksAs s) s h → AllTimers Works s h
weaker {s} h = AllTimers-map (works s)
  where
    works : (s : ClientStatus) (t : Timer) → WorksAs s t → Works t
    works down t w = w.0
    works up t w = w
    works error t w = w

pub as_IsWorking : {s : ClientStatus} (h : Hub) → AllTimers (WorksAs s) s h → IsWorking h
as_IsWorking h i = subst (λ status. AllTimers (WorksAs status) status h) (sym i.status_is) i

switch_status-IsWorking :
    (err : Option Client.Error) (status : ClientStatus) (h : Hub)
    → AllTimers (WorksAs status) status h
    → Returns IsWorking (switch_status err status h)
unfolding switch_status
switch_status-IsWorking (some e) up h i =
    Returns-weaken (call_timers-all pause pause-WorksHeld _ (set_status-Timers down h i))
      as_IsWorking
switch_status-IsWorking none down h i =
    Returns-weaken
      (call_timers-all (resume true) resume-Works _ (set_status-Timers up h (weaker h i)))
      as_IsWorking
switch_status-IsWorking (some e) down h i = returned (as_IsWorking h i)
switch_status-IsWorking (some e) error h i = returned (as_IsWorking h i)
switch_status-IsWorking none up h i = returned (as_IsWorking h i)
switch_status-IsWorking none error h i = returned (as_IsWorking h i)

on_tick-own :
    (state : TimerState) (t : Timer)
    → t.state ≡ state
    → t.state ≢ stopped
    → ((on_tick state t).state ≢ stopped) × (IsHeld t → IsHeld (on_tick state t))
unfolding on_tick perceptor.Util.Timer.execute_action
on_tick-own ready t e n = ((λ p. cc), λ h. absurd (ground (arith, e, h)))
on_tick-own running_action t e n = (n, λ h. h)
on_tick-own paused t e n = (n, λ h. h)
on_tick-own stopped t e n = (n, λ h. h)

finish_action-own :
    (t : Timer)
    → Works t
    → 0 < t.actions
    → Returns (λ r. (r.state ≢ stopped) × (IsHeld t → IsHeld r)) (finish_action t)
unfolding finish_action
finish_action-own t (s, n) a =
    let active = running t s n a in
    Returns-if t.should_pause
      (λ p.
        rw
          (stop_timer-ok (record t { actions = t.actions - 1; state = paused })
            (s.ticker (s.running_state active).0))
          (returned ((λ q. cc), λ h. inl refl)))
      (λ p. returned ((λ q. cc), λ h. absurd (ground (arith, active, p, h))))

own_events :
    (e : Event) (t : Timer)
    → Works t
    → IsEnabled e t
    → IsOwn e
    → Returns (λ r. Works r.0 × (IsHeld t → IsHeld r.0)) (handle e t)
unfolding handle
own_events did_finish_action t w n o =
    Returns-weaken
      (Returns-both (handle-IsSteady did_finish_action t w.0 n tt) (
        Returns-bind {Then = λ r. (r.0.state ≢ stopped) × (IsHeld t → IsHeld r.0)}
          (finish_action-own t w n.1) λ next k. returned k))
      λ r (s, (m, h)). ((s, m), h)
own_events tick t w n o =
    let (m, h) = on_tick-own t.state t refl w.1 in
    returned ((Returns-ok (handle-IsSteady tick t w.0 n tt), m), h)
own_events pause t w n o = absurd o
own_events stop t w n o = absurd o
own_events (resume now) t w n o = absurd o
own_events (set_delay delay) t w n o = absurd o

pub own_WorksAs :
    (s : ClientStatus) (e : Event) (t u : Timer) → IsOwn e → Step t e u → WorksAs s t → WorksAs s u
own_WorksAs up e t u o (turn n f) w = (Returns-ok (subst (Returns _) f (own_events e t w n o))).0
own_WorksAs error e t u o (turn n f) w = (Returns-ok (subst (Returns _) f (own_events e t w n o))).0
own_WorksAs down e t u o (turn n f) (w, h) =
    let (v, held) = Returns-ok (subst (Returns _) f (own_events e t w n o)) in (v, held h)

pub set_timer-IsWorking :
    (job : Job) (u : Timer) (h : Hub)
    → IsWorking h
    → (WorksAs h.status (timer_of job h) → WorksAs h.status u)
    → IsWorking (set_timer job u h)
unfolding set_timer timer_of
set_timer-IsWorking check_scans u h i k = record {
  of_check_scans = k i.of_check_scans;
  of_fetch_scans = i.of_fetch_scans;
  of_fetch_all_scans = i.of_fetch_all_scans;
  of_refresh_scans = i.of_refresh_scans;
  status_is = i.status_is;
  few_errors = i.few_errors;
}
set_timer-IsWorking fetch_scans u h i k = record {
  of_check_scans = i.of_check_scans;
  of_fetch_scans = k i.of_fetch_scans;
  of_fetch_all_scans = i.of_fetch_all_scans;
  of_refresh_scans = i.of_refresh_scans;
  status_is = i.status_is;
  few_errors = i.few_errors;
}
set_timer-IsWorking fetch_all_scans u h i k = record {
  of_check_scans = i.of_check_scans;
  of_fetch_scans = i.of_fetch_scans;
  of_fetch_all_scans = k i.of_fetch_all_scans;
  of_refresh_scans = i.of_refresh_scans;
  status_is = i.status_is;
  few_errors = i.few_errors;
}
set_timer-IsWorking refresh_scans u h i k = record {
  of_check_scans = i.of_check_scans;
  of_fetch_scans = i.of_fetch_scans;
  of_fetch_all_scans = i.of_fetch_all_scans;
  of_refresh_scans = k i.of_refresh_scans;
  status_is = i.status_is;
  few_errors = i.few_errors;
}

pub did_login-IsWorking :
    (err : Option Client.Error) (h : Hub) → IsWorking h → Returns IsWorking (did_login err h)
unfolding did_login
did_login-IsWorking err h i =
    switch_status-IsWorking err h.status (record_error (from_client err) h)
      (record_error-Timers (from_client err) h i)
