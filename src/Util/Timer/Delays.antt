-- ===== src/Util/Timer/Delays.antt =====
-- pkg/util/timer.go: what comes of a delay that SetDelay takes and NewTimer would refuse.
use perceptor.Prelude.{
  ℤ, pos, ltb_ℤ, ◌≡◌, refl, sym, ap, ◌∙◌, Bool, false, arith, ok, panic, out_of_fuel, ◌>>=◌,
  ok-injective, Run, none, Option,
}
use perceptor.Util.Timer.{
  TimerState, ready, running_action, paused, stopped, Timer, Event, Error, did_finish_action, tick,
  pause, stop, resume, set_delay, start_timer, stop_timer, execute_action, finish_action, on_tick,
  on_pause, on_resume, on_stop, handle, Step, turn, Reach, here, next,
}

-- Any event but a delay that is positive.
abbrev pub IsNoRepair : Event → Type 0
IsNoRepair (set_delay delay) = ltb_ℤ (pos 0) delay ≡ false
IsNoRepair e = Unit {0}

abbrev IsBad : Timer → Type 0
IsBad t = ltb_ℤ (pos 0) t.delay ≡ false

-- What a call that returns keeps.
abbrev KeepsDelay : ℤ → Run Timer → Type 0
KeepsDelay delay call = (u : Timer) → call ≡ ok u → u.delay ≡ delay

abbrev KeepsDelayBeside : ℤ → Run (Timer × Option Error) → Type 0
KeepsDelayBeside delay call =
    (u : Timer) (err : Option Error) → call ≡ ok (u, err) → u.delay ≡ delay

finish_action-delay : (t : Timer) → KeepsDelay t.delay (finish_action t)
unfolding finish_action stop_timer
finish_action-delay t u e = ground (arith, e)

on_pause-delay : (state : TimerState) (t : Timer) → KeepsDelayBeside t.delay (on_pause state t)
unfolding on_pause stop_timer
on_pause-delay ready t u err e = ground (arith, e)
on_pause-delay running_action t u err e = ground (arith, e)
on_pause-delay paused t u err e = ground (arith, e)
on_pause-delay stopped t u err e = ground (arith, e)

on_resume-delay :
    (state : TimerState) (now : Bool) (t : Timer) → KeepsDelayBeside t.delay (on_resume state now t)
unfolding on_resume start_timer execute_action
on_resume-delay ready now t u err e = ground (arith, e)
on_resume-delay running_action now t u err e = ground (arith, e)
on_resume-delay paused now t u err e = ground (arith, e)
on_resume-delay stopped now t u err e = ground (arith, e)

on_stop-delay : (state : TimerState) (t : Timer) → KeepsDelay t.delay (on_stop state t)
unfolding on_stop stop_timer
on_stop-delay ready t u e = ground (arith, e)
on_stop-delay running_action t u e = ground (arith, e)
on_stop-delay paused t u e = ground (arith, e)
on_stop-delay stopped t u e = ground (arith, e)

on_tick-delay : (state : TimerState) (t : Timer) → (on_tick state t).delay ≡ t.delay
unfolding on_tick execute_action
on_tick-delay ready t = refl
on_tick-delay running_action t = refl
on_tick-delay paused t = refl
on_tick-delay stopped t = refl

-- A call that changes the timer, and then has no error.
beside :
    (delay : ℤ) (call : Run Timer)
    → KeepsDelay delay call
    → KeepsDelayBeside delay (call >>= λ next. ok (next, none))
beside delay (ok v) k u err e = ap (λ r. r.0.delay) (sym (ok-injective e)) ∙ k v refl
beside delay panic k u err e = ground (arith, e)
beside delay out_of_fuel k u err e = ground (arith, e)

Step-IsBad : {t u : Timer} {e : Event} → IsBad t → IsNoRepair e → Step t e u → IsBad u
unfolding handle
Step-IsBad {t} {u} {e = did_finish_action} b n (turn {err} w h) =
    rw (beside t.delay (finish_action t) (finish_action-delay t) u err h) b
Step-IsBad {t} {u} {e = tick} b n (turn {err} w h) = ground (arith, b, h, on_tick-delay t.state t)
Step-IsBad {t} {u} {e = pause} b n (turn {err} w h) = rw (on_pause-delay t.state t u err h) b
Step-IsBad {t} {u} {e = stop} b n (turn {err} w h) =
    rw (beside t.delay (on_stop t.state t) (on_stop-delay t.state t) u err h) b
Step-IsBad {t} {u} {e = resume now} b n (turn {err} w h) =
    rw (on_resume-delay t.state now t u err h) b
Step-IsBad {t} {u} {e = set_delay delay} b n (turn {err} w h) = ground (arith, n, h)

Reach-IsBad : {t u : Timer} → IsBad t → Reach IsNoRepair t u → IsBad u
Reach-IsBad b here = b
Reach-IsBad b (next r n step) = Step-IsBad (Reach-IsBad b r) n step

-- When a timer, in whatever state but stopped, has taken a delay that is not positive, then whatever
-- events come after it but a delay that is positive: whenever the timer is paused, a resume panics,
-- whether it is to run the action at once or not.
pub set_delay-panics :
    {t v u : Timer} (delay : ℤ) (now : Bool)
    → ltb_ℤ (pos 0) delay ≡ false
    → Step t (set_delay delay) v
    → Reach IsNoRepair v u
    → u.state ≡ paused
    → handle (resume now) u ≡ panic
unfolding handle on_resume start_timer
set_delay-panics {t} {v} {u} delay now bad (turn n h) r p =
    by_state u.state p (Reach-IsBad (ground (arith, bad, h)) r)
  where
    by_state : (state : TimerState) → state ≡ paused → IsBad u → on_resume state now u ≡ panic
    by_state paused q b = rw b refl
    by_state ready q b = absurd (cc)
    by_state running_action q b = absurd (cc)
    by_state stopped q b = absurd (cc)
