-- ===== src/Util/Timer/Pausing.antt =====
-- pkg/util/timer.go: what comes of a pause, and of a resume that comes too early.
use perceptor.Prelude.{
  ◌≡◌, ◌≢◌, ◌⊎◌, inr, refl, ◌∙◌, Bool, true, false, none, some, arith, ok, Returns, returned,
  Returns-bind, Returns-if, Returns-ok, subst, ◌-◌, if◌then◌else◌,
}
use perceptor.Util.Timer.{
  TimerState, ready, running_action, paused, stopped, Timer, Event, did_finish_action, tick, pause,
  stop, resume, set_delay, cannot_resume, finish_action, on_tick, on_pause, on_resume, on_stop,
  handle, IsEnabled, turn, Reach, here, next,
}
use perceptor.Util.Timer.Invariant.{stop_timer-ok}

-- Any event but a resume.
abbrev pub IsNoResume : Event → Type 0
IsNoResume (resume now) = ⊥
IsNoResume e = Unit {0}

-- Any event but the end of the action and of the timer.
abbrev pub IsMeanwhile : Event → Type 0
IsMeanwhile did_finish_action = ⊥
IsMeanwhile stop = ⊥
IsMeanwhile e = Unit {0}

-- The timer is paused or stopped, and runs no action.
abbrev pub IsIdle : Timer → Type 0
IsIdle t = ((t.state ≡ paused) ⊎ (t.state ≡ stopped)) × (t.actions ≡ 0) × (t.ticks ≡ false)

-- An action runs, and the timer, which has a ticker, is to pause after it.
abbrev pub IsPausing : Timer → Type 0
IsPausing t = (t.state ≡ running_action) × (t.should_pause ≡ true) × (t.base_timer ≢ none)

on_stop-IsIdle :
    (state : TimerState) (t : Timer) → t.state ≡ state → IsIdle t → Returns IsIdle (on_stop state t)
unfolding on_stop
on_stop-IsIdle ready t e i = absurd (ground (arith, e, i))
on_stop-IsIdle running_action t e i = absurd (ground (arith, e, i))
on_stop-IsIdle paused t e i = returned (inr refl, i.1, i.2)
on_stop-IsIdle stopped t e i = returned (inr refl, i.1, i.2)

on_pause-IsIdle :
    (state : TimerState) (t : Timer)
    → t.state ≡ state
    → IsIdle t
    → Returns (λ r. IsIdle r.0) (on_pause state t)
unfolding on_pause
on_pause-IsIdle ready t e i = absurd (ground (arith, e, i))
on_pause-IsIdle running_action t e i = absurd (ground (arith, e, i))
on_pause-IsIdle paused t e i = returned i
on_pause-IsIdle stopped t e i = returned i

handle-IsIdle :
    (e : Event) (t : Timer)
    → IsIdle t
    → IsEnabled e t
    → IsNoResume e
    → Returns (λ r. IsIdle r.0) (handle e t)
unfolding handle
handle-IsIdle did_finish_action t i (n, h) f = absurd (omega (arith, i))
handle-IsIdle tick t i (n, h) f = absurd (ground (arith, i, h))
handle-IsIdle pause t i n f = on_pause-IsIdle t.state t refl i
handle-IsIdle stop t i n f = Returns-bind (on_stop-IsIdle t.state t refl i) λ next k. returned k
handle-IsIdle (resume now) t i n f = absurd f
handle-IsIdle (set_delay delay) t i n f = returned i

-- A timer that is paused, and runs no action, runs none until it is resumed, whatever else happens.
pub Reach-IsIdle : {t u : Timer} → IsIdle t → Reach IsNoResume t u → IsIdle u
Reach-IsIdle i here = i
Reach-IsIdle i (next {e = e} r f (turn n h)) =
    Returns-ok (subst (Returns (λ r. IsIdle r.0)) h (handle-IsIdle e _ (Reach-IsIdle i r) n f))

on_tick-IsPausing :
    (state : TimerState) (t : Timer) → t.state ≡ state → IsPausing t → IsPausing (on_tick state t)
unfolding on_tick
on_tick-IsPausing ready t e i = absurd (ground (arith, e, i))
on_tick-IsPausing running_action t e i = i
on_tick-IsPausing paused t e i = i
on_tick-IsPausing stopped t e i = i

on_pause-IsPausing :
    (state : TimerState) (t : Timer)
    → t.state ≡ state
    → IsPausing t
    → Returns (λ r. IsPausing r.0) (on_pause state t)
unfolding on_pause
on_pause-IsPausing ready t e i = absurd (ground (arith, e, i))
on_pause-IsPausing running_action t e i =
    Returns-if t.should_pause (λ p. returned i) (λ p. absurd (ground (arith, p, i)))
on_pause-IsPausing paused t e i = returned i
on_pause-IsPausing stopped t e i = returned i

on_resume-IsPausing :
    (state : TimerState) (now : Bool) (t : Timer)
    → t.state ≡ state
    → IsPausing t
    → Returns (λ r. IsPausing r.0) (on_resume state now t)
unfolding on_resume
on_resume-IsPausing ready now t e i = absurd (ground (arith, e, i))
on_resume-IsPausing running_action now t e i = returned i
on_resume-IsPausing paused now t e i = absurd (ground (arith, e, i))
on_resume-IsPausing stopped now t e i = returned i

pub handle-IsPausing :
    (e : Event) (t : Timer)
    → IsPausing t
    → IsMeanwhile e
    → Returns (λ r. IsPausing r.0) (handle e t)
unfolding handle
handle-IsPausing did_finish_action t i f = absurd f
handle-IsPausing tick t i f = returned (on_tick-IsPausing t.state t refl i)
handle-IsPausing pause t i f = on_pause-IsPausing t.state t refl i
handle-IsPausing stop t i f = absurd f
handle-IsPausing (resume now) t i f = on_resume-IsPausing t.state now t refl i
handle-IsPausing (set_delay delay) t i f = returned i

Reach-IsPausing : {t u : Timer} → IsPausing t → Reach IsMeanwhile t u → IsPausing u
Reach-IsPausing i here = i
Reach-IsPausing i (next {e = e} r f (turn n h)) =
    Returns-ok
      (subst (Returns (λ r. IsPausing r.0)) h (handle-IsPausing e _ (Reach-IsPausing i r) f))

if_true : {A : Type 0} (b : Bool) (x y : A) → b ≡ true → (if b then x else y) ≡ x
if_true b x y e = rw e refl

finish_action-paused :
    (t : Timer)
    → IsPausing t
    → finish_action t ≡ ok (record t { actions = t.actions - 1; state = paused; ticks = false })
unfolding finish_action
finish_action-paused t i =
    if_true t.should_pause _ _ (i.1)
    ∙ stop_timer-ok (record t { actions = t.actions - 1; state = paused }) (i.2)

pub pause-takes_effect :
    {t u : Timer}
    → IsPausing t
    → Reach IsMeanwhile t u
    → (handle (resume true) u ≡ ok (u, some (cannot_resume running_action)))
      × Returns
          (λ r. (r.0.state ≡ paused) × (r.0.ticks ≡ false) × (r.1 ≡ none))
          (handle did_finish_action u)
unfolding handle on_resume
pause-takes_effect {t} {u} i r =
    let p = Reach-IsPausing i r in
    (resume_refused u.state refl p, rw (finish_action-paused u p) (returned (refl, refl, refl)))
  where
    resume_refused :
        (state : TimerState)
        → u.state ≡ state
        → IsPausing u
        → on_resume state true u ≡ ok (u, some (cannot_resume running_action))
    resume_refused ready e p = absurd (ground (arith, e, p))
    resume_refused running_action e p = refl
    resume_refused paused e p = absurd (ground (arith, e, p))
    resume_refused stopped e p = absurd (ground (arith, e, p))
