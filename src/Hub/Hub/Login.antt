-- ===== src/Hub/Hub/Login.antt =====
-- pkg/hub/hub.go: the status of a hub and the timers that a login resumes and a failed login pauses.
use perceptor.Prelude.{
  ℤ, pos, ltb_ℤ, ◌≡◌, refl, true, Option, none, some, String, arith, ◌>>=◌, Returns, returned,
  Returns-bind, Returns-weaken, Returns-both,
}
use perceptor.Util.Timer.{
  paused, Timer, here, did_finish_action, pause, resume, new_timer, new_running_timer, handle,
}
use perceptor.Util.Timer.Invariant.{IsSteady, new_timer-IsSteady}
use perceptor.Util.Timer.Pausing.{IsPausing, handle-IsPausing, pause-takes_effect}
use perceptor.Hub.Client
use perceptor.Hub.Hub.{
  ClientStatus, error, up, down, Error, Hub, Timings, new_hub, record_error, from_client,
  switch_status, did_login,
}
use perceptor.Hub.Hub.Timers.{
  AllTimers, Rests, IsLive, IsAsStatus, IsInStep, call_timers-all, as_InStep, record_error-Timers,
  set_status-Timers, pause-IsAsStatus, resume-IsAsStatus,
}

-- When a login succeeds, no timer of a hub that was down still runs the action of the time before.
abbrev pub IsSettled : Option Client.Error → ClientStatus → Hub → Type 0
IsSettled none down h = AllTimers Rests down h
IsSettled err status h = Unit {0}

switch_status-IsInStep :
    (err : Option Client.Error) (status : ClientStatus) (h : Hub)
    → AllTimers (IsAsStatus status) status h
    → IsSettled err status h
    → Returns IsInStep (switch_status err status h)
unfolding switch_status
switch_status-IsInStep (some e) up h i r =
    Returns-weaken (call_timers-all pause pause-IsAsStatus _ (set_status-Timers down h i)) as_InStep
switch_status-IsInStep (some e) down h i r = returned (as_InStep h i)
switch_status-IsInStep (some e) error h i r = returned (as_InStep h i)
switch_status-IsInStep none error h i r = returned (as_InStep h i)
switch_status-IsInStep none up h i r = returned (as_InStep h i)
switch_status-IsInStep none down h i r =
    Returns-weaken (call_timers-all (resume true) resume-IsAsStatus _ (set_status-Timers up h r))
      as_InStep

recorded-IsSettled :
    (err : Option Client.Error) (status : ClientStatus) (recorded : Option Error) (h : Hub)
    → IsSettled err status h
    → IsSettled err status (record_error recorded h)
recorded-IsSettled none down recorded h i = record_error-Timers recorded h i
recorded-IsSettled none up recorded h i = tt
recorded-IsSettled none error recorded h i = tt
recorded-IsSettled (some e) status recorded h i = tt

-- A login, successful or not, never panics and leaves the status and the timers in step: a hub that
-- is up runs its four jobs, and one that is down has them paused or about to pause. A login that
-- succeeds on a hub that was down needs that no action of the time before still runs.
pub did_login-IsInStep :
    (err : Option Client.Error) (h : Hub)
    → IsInStep h
    → IsSettled err h.status h
    → Returns IsInStep (did_login err h)
unfolding did_login
did_login-IsInStep err h i r =
    switch_status-IsInStep err h.status (record_error (from_client err) h)
      (record_error-Timers (from_client err) h i)
      (recorded-IsSettled err h.status (from_client err) h r)

-- The timer's action ends into a pause.
abbrev pub EndsPaused : Timer → Type 0
EndsPaused t = Returns (λ r. r.0.state ≡ paused) (handle did_finish_action t)

resume-EndsPaused :
    (t : Timer) → IsPausing t → Returns (λ r. EndsPaused r.0) (handle (resume true) t)
resume-EndsPaused t i =
    Returns-weaken (handle-IsPausing (resume true) t i tt)
      λ r j. Returns-weaken (pause-takes_effect j here).1 λ end k. k.0

-- A login that succeeds on a hub that is down resumes the four timers.
did_login-AllTimers :
    {P Q : Timer → Type 0}
    → ((t : Timer) → P t → Returns (λ r. Q r.0) (handle (resume true) t))
    → (h : Hub) → AllTimers P down h
    → Returns (AllTimers Q up) (did_login none h)
unfolding did_login switch_status
did_login-AllTimers {P} {Q} call h i = by_status h.status i.status_is
  where
    by_status :
        (status : ClientStatus)
        → status ≡ down
        → Returns (AllTimers Q up) (switch_status none status (record_error none h))
    by_status down e =
        call_timers-all (resume true) call _ (set_status-Timers up _ (record_error-Timers none h i))
    by_status up e = absurd (cc)
    by_status error e = absurd (cc)

-- When a login fails, and the next one succeeds while the actions of the four jobs that it paused
-- still run, the hub is up, and yet all its jobs end paused.
pub did_login-EndsPaused :
    (h : Hub) → AllTimers IsPausing down h → Returns (AllTimers EndsPaused up) (did_login none h)
did_login-EndsPaused = did_login-AllTimers resume-EndsPaused

new_timer-Rests : (delay : ℤ) → ltb_ℤ (pos 0) delay ≡ true → Returns Rests (new_timer delay)
unfolding new_timer
new_timer-Rests delay h = Returns-both (new_timer-IsSteady delay h) (rw h (returned refl))

-- All pauses of the timings are positive.
abbrev pub ArePositive : Timings → Type 0
ArePositive t =
    (ltb_ℤ (pos 0) t.scan_completion_pause ≡ true)
    × (ltb_ℤ (pos 0) t.fetch_unknown_scans_pause ≡ true)
    × (ltb_ℤ (pos 0) t.fetch_all_scans_pause ≡ true)
    × (ltb_ℤ (pos 0) t.refresh_scan_threshold ≡ true)
    × (ltb_ℤ (pos 0) t.get_metrics_pause ≡ true)
    × (ltb_ℤ (pos 0) t.login_pause ≡ true)

-- The timer runs its action again and again.
abbrev pub Runs : Timer → Type 0
Runs t = IsSteady t × IsLive t

pub new_running_timer-Runs :
    (delay : ℤ) → ltb_ℤ (pos 0) delay ≡ true → Returns Runs (new_running_timer delay true)
unfolding new_running_timer
new_running_timer-Runs delay h =
    Returns-bind (new_timer-Rests delay h)
      λ t r. Returns-bind (resume-IsAsStatus t r) λ next runs. returned runs

pub new_hub-Rests :
    (host : String) (limit : ℤ) (timings : Timings)
    → ArePositive timings
    → Returns
        (λ h. AllTimers Rests down h × Runs h.login_timer × Runs h.get_metrics_timer)
        (new_hub host limit timings)
unfolding new_hub
new_hub-Rests host limit timings (a, b, c, d, e, f) =
    Returns-bind (new_running_timer-Runs _ e) λ metrics x.
      Returns-bind (new_timer-Rests _ a) λ check p. Returns-bind (new_timer-Rests _ b) λ fetch q.
        Returns-bind (new_timer-Rests _ c) λ fetch_all r.
          Returns-bind (new_running_timer-Runs _ f) λ logins y.
            Returns-bind (new_timer-Rests _ d) λ refresh s. returned (
              record {
                of_check_scans = p;
                of_fetch_scans = q;
                of_fetch_all_scans = r;
                of_refresh_scans = s;
                status_is = refl;
                few_errors = omega arith;
              },
              y,
              x,
            )

-- A new hub, with pauses that are positive, is down with its jobs paused, and its first login that
-- succeeds makes it run them.
pub new_hub-login :
    (host : String) (limit : ℤ) (timings : Timings)
    → ArePositive timings
    → Returns (AllTimers (IsAsStatus up) up) (new_hub host limit timings >>= did_login none)
new_hub-login host limit timings positive =
    Returns-bind (new_hub-Rests host limit timings positive)
      λ h i. did_login-AllTimers resume-IsAsStatus h i.0
