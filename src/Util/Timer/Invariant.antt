-- ===== src/Util/Timer/Invariant.antt =====
-- pkg/util/timer.go: what the states of a timer stand for, on every path of its loop.
use perceptor.Prelude.{
  ◌≤◌, ◌<◌, ◌-◌, ℤ, pos, ltb_ℤ, ◌≡◌, ◌≢◌, refl, Bool, true, false, none, some, arith, ok, subst,
  Returns, returned, Returns-ok, Returns-if, Returns-bind,
}
use perceptor.Util.Timer.{
  TimerState, ready, running_action, paused, stopped, Timer, Event, did_finish_action, tick, pause,
  stop, resume, set_delay, new_timer, start_timer, stop_timer, execute_action, finish_action,
  on_tick, on_pause, on_resume, on_stop, handle, IsEnabled, turn, Reach, here, next,
}

-- A ready timer ticks and runs no action; one whose action runs ticks, and runs one; a paused one
-- does not tick and runs none. A stopped one may have one action left.
pub record IsSteady (t : Timer) : Type 0 where
  pub ready_state : t.state ≡ ready → (t.ticks ≡ true) × (t.actions ≡ 0)
  pub running_state : t.state ≡ running_action → (t.ticks ≡ true) × (t.actions ≡ 1)
  pub paused_state : t.state ≡ paused → (t.ticks ≡ false) × (t.actions ≡ 0)
  pub single_action : t.actions ≤ 1
  pub ticker : t.ticks ≡ true → t.base_timer ≢ none
  pub positive : ltb_ℤ (pos 0) t.delay ≡ true

-- The event does not set a delay that is not positive.
abbrev pub IsFair : Event → Type 0
IsFair (set_delay delay) = ltb_ℤ (pos 0) delay ≡ true
IsFair e = Unit {0}

pub new_timer-IsSteady :
    (delay : ℤ) → ltb_ℤ (pos 0) delay ≡ true → Returns IsSteady (new_timer delay)
unfolding new_timer
new_timer-IsSteady delay h = rw h (returned (ground (arith, h)))

pub stop_timer-ok :
    (t : Timer) → t.base_timer ≢ none → stop_timer t ≡ ok (record t { ticks = false })
unfolding stop_timer
stop_timer-ok t n = ground (arith, n)

pub start_timer-ok :
    (t : Timer)
    → ltb_ℤ (pos 0) t.delay ≡ true
    → start_timer t ≡ ok (record t { base_timer = some t.delay; ticks = true })
unfolding start_timer
start_timer-ok t h = rw h refl

finish_action-IsSteady :
    (t : Timer) → IsSteady t → t.state ≡ running_action → Returns IsSteady (finish_action t)
unfolding finish_action
finish_action-IsSteady t s r =
    Returns-if t.should_pause
      (λ e.
        rw
          (stop_timer-ok (record t { actions = t.actions - 1; state = paused })
            (s.ticker (s.running_state r).0))
          (returned (ground (arith, s))))
      (λ e. returned (ground (arith, s)))

on_tick-IsSteady :
    (state : TimerState) (t : Timer) → t.state ≡ state → IsSteady t → IsSteady (on_tick state t)
unfolding on_tick execute_action
on_tick-IsSteady ready t e s = ground (arith, e, s)
on_tick-IsSteady running_action t e s = s
on_tick-IsSteady paused t e s = s
on_tick-IsSteady stopped t e s = s

on_pause-IsSteady :
    (state : TimerState) (t : Timer)
    → t.state ≡ state
    → IsSteady t
    → Returns (λ r. IsSteady r.0) (on_pause state t)
unfolding on_pause
on_pause-IsSteady ready t e s =
    rw (stop_timer-ok (record t { state = paused }) (s.ticker (s.ready_state e).0))
      (returned (ground (arith, e, s)))
on_pause-IsSteady running_action t e s =
    Returns-if t.should_pause (λ p. returned s) (λ p. returned (ground (arith, e, s)))
on_pause-IsSteady paused t e s = returned s
on_pause-IsSteady stopped t e s = returned s

on_resume-IsSteady :
    (state : TimerState) (run_immediately : Bool) (t : Timer)
    → t.state ≡ state
    → IsSteady t
    → Returns (λ r. IsSteady r.0) (on_resume state run_immediately t)
unfolding on_resume execute_action
on_resume-IsSteady paused true t e s =
    rw (start_timer-ok t s.positive) (returned (ground (arith, e, s)))
on_resume-IsSteady paused false t e s =
    rw (start_timer-ok t s.positive) (returned (ground (arith, e, s)))
on_resume-IsSteady ready run_immediately t e s = returned s
on_resume-IsSteady running_action run_immediately t e s = returned s
on_resume-IsSteady stopped run_immediately t e s = returned s

on_stop-IsSteady :
    (state : TimerState) (t : Timer)
    → t.state ≡ state
    → IsSteady t
    → Returns IsSteady (on_stop state t)
unfolding on_stop
on_stop-IsSteady ready t e s =
    rw (stop_timer-ok t (s.ticker (s.ready_state e).0)) (returned (ground (arith, e, s)))
on_stop-IsSteady running_action t e s = returned (ground (arith, e, s))
on_stop-IsSteady paused t e s = returned (ground (arith, e, s))
on_stop-IsSteady stopped t e s = returned (ground (arith, e, s))

pub running :
    (t : Timer) → IsSteady t → t.state ≢ stopped → 0 < t.actions → t.state ≡ running_action
running t s n h = by_state t.state refl
  where
    by_state : (state : TimerState) → t.state ≡ state → t.state ≡ running_action
    by_state ready e = ground (arith, e, s)
    by_state running_action e = e
    by_state paused e = ground (arith, e, s)
    by_state stopped e = absurd (n e)

-- Every event that the loop can take is handled without a panic and keeps the timer steady, if no
-- delay is set that is not positive.
pub handle-IsSteady :
    (e : Event) (t : Timer)
    → IsSteady t
    → IsEnabled e t
    → IsFair e
    → Returns (λ r. IsSteady r.0) (handle e t)
unfolding handle
handle-IsSteady did_finish_action t s (n, h) f =
    Returns-bind (finish_action-IsSteady t s (running t s n h)) λ next k. returned k
handle-IsSteady tick t s (n, h) f = returned (on_tick-IsSteady t.state t refl s)
handle-IsSteady pause t s n f = on_pause-IsSteady t.state t refl s
handle-IsSteady stop t s n f = Returns-bind (on_stop-IsSteady t.state t refl s) λ next k. returned k
handle-IsSteady (resume now) t s n f = on_resume-IsSteady t.state now t refl s
handle-IsSteady (set_delay delay) t s n f = returned (ground (arith, s, f))

-- Whatever events a timer takes, in whatever order, if no delay is set that is not positive: it
-- stays steady, so it never runs two actions at once, and a paused one neither ticks nor runs one.
pub Reach-IsSteady : {t u : Timer} → IsSteady t → Reach IsFair t u → IsSteady u
Reach-IsSteady s here = s
Reach-IsSteady s (next {e = e} r f (turn n h)) =
    Returns-ok
      (subst (Returns (λ r. IsSteady r.0)) h (handle-IsSteady e _ (Reach-IsSteady s r) n f))
