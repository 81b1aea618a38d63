-- ===== src/Hub/Hub/Beside.antt =====
-- pkg/hub/hub.go: a login leaves the timers of the metrics and of the logins alone.
use perceptor.Prelude.{
  ◌≡◌, refl, ◌∙◌, true, Option, none, some, arith, Run, ok, panic, out_of_fuel, ◌>>=◌, ok-injective,
  subst,
}
use perceptor.Util.Timer
use perceptor.Util.Timer.{
  TimerState, ready, running_action, paused, stopped, Timer, Event, did_finish_action, tick, pause,
  stop, resume, set_delay, execute_action, finish_action, on_tick, handle, IsEnabled, Step, turn,
}
use perceptor.Hub.Client
use perceptor.Hub.Client.{CodeLocation}
use perceptor.Hub.Hub.{
  ClientStatus, error, up, down, Error, Job, check_scans, fetch_scans, fetch_all_scans,
  refresh_scans, Hub, timer_of, set_timer, record_error, from_timer, from_client, call_timer,
  call_timers, switch_status, did_login,
}

-- A call of one of the timers of the jobs touches no other timer.
abbrev pub IsBeside : Hub → Hub → Type 0
IsBeside h g = (g.login_timer ≡ h.login_timer) × (g.get_metrics_timer ≡ h.get_metrics_timer)

IsBeside-trans : (h g k : Hub) → IsBeside h g → IsBeside g k → IsBeside h k
IsBeside-trans h g k (a, b) (c, d) = (c ∙ a, d ∙ b)

-- Whatever hub the call gives, those two timers are as they were.
abbrev pub Keeps : Hub → Run Hub → Type 0
Keeps h call = (g : Hub) → call ≡ ok g → IsBeside h g

Keeps-bind :
    (h : Hub) (call : Run Hub) (next : Hub → Run Hub)
    → Keeps h call
    → ((g : Hub) → Keeps g (next g))
    → Keeps h (call >>= next)
Keeps-bind h (ok g) next k f last e = IsBeside-trans h g last (k g refl) (f g last e)
Keeps-bind h panic next k f last e = absurd (ground (arith, e))
Keeps-bind h out_of_fuel next k f last e = absurd (ground (arith, e))

set_timer-IsBeside :
    (job : Job) (t : Timer) (err : Option Error) (h : Hub)
    → IsBeside h (record_error err (set_timer job t h))
unfolding set_timer record_error
set_timer-IsBeside check_scans t err h = (refl, refl)
set_timer-IsBeside fetch_scans t err h = (refl, refl)
set_timer-IsBeside fetch_all_scans t err h = (refl, refl)
set_timer-IsBeside refresh_scans t err h = (refl, refl)

call_timer-Keeps : (event : Event) (job : Job) (h : Hub) → Keeps h (call_timer event job h)
unfolding call_timer
call_timer-Keeps event job h g e = by_call (handle event (timer_of job h)) e
  where
    by_call :
        (call : Run (Timer × Option Timer.Error))
        → (call >>= λ (t, err). ok (record_error (from_timer err) (set_timer job t h))) ≡ ok g
        → IsBeside h g
    by_call (ok (t, err)) f =
        subst (IsBeside h) (ok-injective f) (set_timer-IsBeside job t (from_timer err) h)
    by_call panic f = absurd (ground (arith, f))
    by_call out_of_fuel f = absurd (ground (arith, f))

call_timers-Keeps : (event : Event) (h : Hub) → Keeps h (call_timers event h)
unfolding call_timers
call_timers-Keeps event h = Keeps-bind h _ _ (call_timer-Keeps event check_scans h) λ checked.
    Keeps-bind checked _ _ (call_timer-Keeps event fetch_scans checked) λ fetched.
      Keeps-bind fetched _ _ (call_timer-Keeps event fetch_all_scans fetched)
        λ fetched_all. call_timer-Keeps event refresh_scans fetched_all

pub did_login-Keeps : (err : Option Client.Error) (h : Hub) → Keeps h (did_login err h)
unfolding did_login record_error switch_status
did_login-Keeps err h = switched err h.status
  where
    stays : Keeps h (ok (record_error (from_client err) h))
    stays g e = subst (IsBeside h) (ok-injective e) (refl, refl)

    switched :
        (e : Option Client.Error) (status : ClientStatus)
        → Keeps h (switch_status e status (record_error (from_client err) h))
    switched (some e) up = call_timers-Keeps pause _
    switched none down = call_timers-Keeps (resume true) _
    switched (some e) down = stays
    switched (some e) error = stays
    switched none up = stays
    switched none error = stays
