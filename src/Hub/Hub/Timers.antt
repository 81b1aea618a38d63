-- ===== src/Hub/Hub/Timers.antt =====
-- pkg/hub/hub.go: calls of the four timers of a hub, one after the other, and what holds of all of them.
use perceptor.Prelude.{
  ◌≤◌, ◌≡◌, ◌⊎◌, inl, inr, refl, sym, true, false, Option, arith, length, Returns, returned,
  Returns-bind, Returns-if, Returns-both, subst,
}
use perceptor.Hub.Model.{Model}
use perceptor.Util.Timer.{
  TimerState, ready, running_action, paused, stopped, Timer, Event, pause, resume, execute_action,
  on_pause, on_resume, handle,
}
use perceptor.Util.Timer.Invariant.{IsSteady, stop_timer-ok, start_timer-ok, handle-IsSteady}
use perceptor.Hub.Hub.{
  ClientStatus, error, up, down, Error, check_scans, fetch_scans, fetch_all_scans, refresh_scans,
  Hub, timer_of, set_timer, record_error, from_timer, call_timer, call_timers,
}
use perceptor.Hub.Hub.Errors.{record_error-bounded}

-- The timer runs its action again and again.
abbrev pub IsLive : Timer → Type 0
IsLive t = (t.state ≡ ready) ⊎ ((t.state ≡ running_action) × (t.should_pause ≡ false))

-- The timer is paused, or is to pause when the action that runs ends.
abbrev pub IsHeld : Timer → Type 0
IsHeld t = (t.state ≡ paused) ⊎ ((t.state ≡ running_action) × (t.should_pause ≡ true))

abbrev pub Rests : Timer → Type 0
Rests t = IsSteady t × (t.state ≡ paused)

abbrev pub IsAsStatus : ClientStatus → Timer → Type 0
IsAsStatus error t = IsSteady t
IsAsStatus up t = IsSteady t × IsLive t
IsAsStatus down t = IsSteady t × IsHeld t

-- What holds of the four timers, of the status and of the number of errors.
pub record Timers (A B C D : Timer → Type 0) (status : ClientStatus) (h : Hub) : Type 0 where
  pub of_check_scans : A h.check_scans_for_completion_timer
  pub of_fetch_scans : B h.fetch_scans_timer
  pub of_fetch_all_scans : C h.fetch_all_scans_timer
  pub of_refresh_scans : D h.refresh_scans_timer
  pub status_is : h.status ≡ status
  pub few_errors : length h.errors ≤ 1000

abbrev pub AllTimers : (Timer → Type 0) → ClientStatus → Hub → Type 0
AllTimers P = Timers P P P P

-- All timers do as the status says, and the list of errors is not too long.
abbrev pub IsInStep : Hub → Type 0
IsInStep h = AllTimers (IsAsStatus h.status) h.status h

on_pause-IsHeld :
    (state : TimerState) (t : Timer)
    → t.state ≡ state
    → IsSteady t
    → IsLive t
    → Returns (λ r. IsHeld r.0) (on_pause state t)
unfolding on_pause
on_pause-IsHeld ready t e s l =
    rw (stop_timer-ok (record t { state = paused }) (s.ticker (s.ready_state e).0))
      (returned (inl refl))
on_pause-IsHeld running_action t e s l =
    Returns-if t.should_pause (λ p. absurd (ground (arith, e, l, p)))
      (λ p. returned (inr (e, refl)))
on_pause-IsHeld paused t e s l = absurd (ground (arith, e, l))
on_pause-IsHeld stopped t e s l = absurd (ground (arith, e, l))

on_resume-IsLive :
    (t : Timer) (state : TimerState)
    → state ≡ paused
    → IsSteady t
    → Returns (λ r. IsLive r.0) (on_resume state true t)
unfolding on_resume execute_action
on_resume-IsLive t paused e s = rw (start_timer-ok t s.positive) (returned (inr (refl, refl)))
on_resume-IsLive t ready e s = absurd (cc)
on_resume-IsLive t running_action e s = absurd (cc)
on_resume-IsLive t stopped e s = absurd (cc)

pub pause-IsAsStatus :
    (t : Timer) → IsAsStatus up t → Returns (λ r. IsAsStatus down r.0) (handle pause t)
unfolding handle
pause-IsAsStatus t (s, l) =
    Returns-both (handle-IsSteady pause t s (ground (arith, l)) tt)
      (on_pause-IsHeld t.state t refl s l)

pub resume-IsAsStatus :
    (t : Timer) → Rests t → Returns (λ r. IsAsStatus up r.0) (handle (resume true) t)
unfolding handle
resume-IsAsStatus t (s, p) =
    Returns-both (handle-IsSteady (resume true) t s (λ e. ground (arith, e, p)) tt)
      (on_resume-IsLive t t.state p s)

module _ (event : Event) {P Q : Timer → Type 0} {s : ClientStatus}
    (call : (t : Timer) → P t → Returns (λ r. Q r.0) (handle event t)) (h : Hub) where
  call-check_scans :
      Timers P P P P s h → Returns (Timers Q P P P s) (call_timer event check_scans h)
  unfolding call_timer timer_of set_timer record_error
  call-check_scans i = Returns-bind (call _ i.of_check_scans) λ (t, err) q. returned (record {
    of_check_scans = q;
    of_fetch_scans = i.of_fetch_scans;
    of_fetch_all_scans = i.of_fetch_all_scans;
    of_refresh_scans = i.of_refresh_scans;
    status_is = i.status_is;
    few_errors = record_error-bounded (from_timer err) (set_timer check_scans t h) i.few_errors;
  })

  call-fetch_scans :
      Timers Q P P P s h → Returns (Timers Q Q P P s) (call_timer event fetch_scans h)
  unfolding call_timer timer_of set_timer record_error
  call-fetch_scans i = Returns-bind (call _ i.of_fetch_scans) λ (t, err) q. returned (record {
    of_check_scans = i.of_check_scans;
    of_fetch_scans = q;
    of_fetch_all_scans = i.of_fetch_all_scans;
    of_refresh_scans = i.of_refresh_scans;
    status_is = i.status_is;
    few_errors = record_error-bounded (from_timer err) (set_timer fetch_scans t h) i.few_errors;
  })

  call-fetch_all_scans :
      Timers Q Q P P s h → Returns (Timers Q Q Q P s) (call_timer event fetch_all_scans h)
  unfolding call_timer timer_of set_timer record_error
  call-fetch_all_scans i = Returns-bind (call _ i.of_fetch_all_scans) λ (t, err) q.
      returned (record {
        of_check_scans = i.of_check_scans;
        of_fetch_scans = i.of_fetch_scans;
        of_fetch_all_scans = q;
        of_refresh_scans = i.of_refresh_scans;
        status_is = i.status_is;
        few_errors =
            record_error-bounded (from_timer err) (set_timer fetch_all_scans t h) i.few_errors;
      })

  call-refresh_scans :
      Timers Q Q Q P s h → Returns (Timers Q Q Q Q s) (call_timer event refresh_scans h)
  unfolding call_timer timer_of set_timer record_error
  call-refresh_scans i = Returns-bind (call _ i.of_refresh_scans) λ (t, err) q. returned (record {
    of_check_scans = i.of_check_scans;
    of_fetch_scans = i.of_fetch_scans;
    of_fetch_all_scans = i.of_fetch_all_scans;
    of_refresh_scans = q;
    status_is = i.status_is;
    few_errors = record_error-bounded (from_timer err) (set_timer refresh_scans t h) i.few_errors;
  })

pub call_timers-all :
    (event : Event) {P Q : Timer → Type 0} {s : ClientStatus}
    → ((t : Timer) → P t → Returns (λ r. Q r.0) (handle event t))
    → (h : Hub) → AllTimers P s h
    → Returns (AllTimers Q s) (call_timers event h)
unfolding call_timers
call_timers-all event call h i = Returns-bind (call-check_scans event call h i) λ checked i1.
    Returns-bind (call-fetch_scans event call checked i1) λ fetched i2.
      Returns-bind (call-fetch_all_scans event call fetched i2)
        λ fetched_all i3. call-refresh_scans event call fetched_all i3

pub AllTimers-map :
    {P Q : Timer → Type 0} {s : ClientStatus} {h : Hub}
    → ((t : Timer) → P t → Q t)
    → AllTimers P s h
    → AllTimers Q s h
AllTimers-map f i = record {
  of_check_scans = f _ i.of_check_scans;
  of_fetch_scans = f _ i.of_fetch_scans;
  of_fetch_all_scans = f _ i.of_fetch_all_scans;
  of_refresh_scans = f _ i.of_refresh_scans;
  status_is = i.status_is;
  few_errors = i.few_errors;
}

pub as_InStep : {s : ClientStatus} (h : Hub) → AllTimers (IsAsStatus s) s h → IsInStep h
as_InStep h i = subst (λ status. AllTimers (IsAsStatus status) status h) (sym i.status_is) i

pub record_error-Timers :
    {P : Timer → Type 0} {s : ClientStatus} (err : Option Error) (h : Hub)
    → AllTimers P s h
    → AllTimers P s (record_error err h)
unfolding record_error
record_error-Timers err h i = record {
  of_check_scans = i.of_check_scans;
  of_fetch_scans = i.of_fetch_scans;
  of_fetch_all_scans = i.of_fetch_all_scans;
  of_refresh_scans = i.of_refresh_scans;
  status_is = i.status_is;
  few_errors = record_error-bounded err h i.few_errors;
}

pub set_status-Timers :
    {P : Timer → Type 0} {s : ClientStatus} (status : ClientStatus) (h : Hub)
    → AllTimers P s h
    → AllTimers P status (record h { status = status })
set_status-Timers status h i = record {
  of_check_scans = i.of_check_scans;
  of_fetch_scans = i.of_fetch_scans;
  of_fetch_all_scans = i.of_fetch_all_scans;
  of_refresh_scans = i.of_refresh_scans;
  status_is = refl;
  few_errors = i.few_errors;
}

pub set_model-Timers :
    {P : Timer → Type 0} {s : ClientStatus} (model : Model) (h : Hub)
    → AllTimers P s h
    → AllTimers P s (record h { model = model })
set_model-Timers model h i = record {
  of_check_scans = i.of_check_scans;
  of_fetch_scans = i.of_fetch_scans;
  of_fetch_all_scans = i.of_fetch_all_scans;
  of_refresh_scans = i.of_refresh_scans;
  status_is = i.status_is;
  few_errors = i.few_errors;
}

-- The timers of the metrics and of the logins do not matter.
pub same_timers-Timers :
    {P : Timer → Type 0} {s : ClientStatus} {h : Hub} {metrics logins : Timer}
    → AllTimers P s h
    → AllTimers P s (record h { get_metrics_timer = metrics; login_timer = logins })
same_timers-Timers i = record {
  of_check_scans = i.of_check_scans;
  of_fetch_scans = i.of_fetch_scans;
  of_fetch_all_scans = i.of_fetch_all_scans;
  of_refresh_scans = i.of_refresh_scans;
  status_is = i.status_is;
  few_errors = i.few_errors;
}
