-- ===== src/Util/Timer.antt =====
-- pkg/util/timer.go: a ticker that can be paused and resumed. The loop of `start` takes one event at
-- a time; `handle` is its `select`, and the goroutine of an action is counted while it runs.
pub mod Invariant
pub mod Pausing
pub mod Delays
mod Tests
use perceptor.Prelude.{
  ℕ, ◌+◌, ◌-◌, ◌<◌, ℤ, pos, ltb_ℤ, ◌≡◌, ◌≢◌, Bool, true, false, Option, none, some, Run, ok, panic,
  ◌>>=◌, if◌then◌else◌,
}

pub data TimerState : Type 0 where
  ready running_action paused stopped : TimerState

-- `base_timer` is the period of the ticker, none before there is one; `ticks` says whether its
-- channel is the one that the loop reads, and `actions` counts the actions that have not reported.
pub record Timer : Type 0 where
  pub state : TimerState
  pub delay : ℤ
  pub base_timer : Option ℤ
  pub ticks : Bool
  pub should_pause : Bool
  pub actions : ℕ

pub data Event : Type 0 where
  did_finish_action tick pause stop : Event
  resume : Bool → Event
  set_delay : ℤ → Event

-- The errors that Pause and Resume return.
pub data Error : Type 0 where
  pause_queued : Error
  cannot_pause cannot_resume : TimerState → Error

-- NewTimer panics on a delay that is not positive.
unfoldable pub new_timer : ℤ → Run Timer
new_timer delay =
    if ltb_ℤ (pos 0) delay
    then ok (record {
      state = paused;
      delay = delay;
      base_timer = none;
      ticks = false;
      should_pause = false;
      actions = 0;
    })
    else panic

-- `time.NewTicker` panics on a period that is not positive.
unfoldable pub start_timer : Timer → Run Timer
start_timer t =
    if ltb_ℤ (pos 0) t.delay
    then ok (record t { base_timer = some t.delay; ticks = true })
    else panic

unfoldable pub stop_timer : Timer → Run Timer
stop_timer t = elim t.base_timer [ none ↦ panic | some _ ↦ ok (record t { ticks = false }) ]

unfoldable pub execute_action : Timer → Timer
execute_action t = record t {
  state = running_action;
  should_pause = false;
  actions = t.actions + 1;
}

unfoldable pub finish_action : Timer → Run Timer
finish_action t =
    let reported = record t { actions = t.actions - 1 } in
    if t.should_pause
    then stop_timer (record reported { state = paused })
    else ok (record reported { state = ready })

unfoldable pub on_tick : TimerState → Timer → Timer
on_tick ready t = execute_action t
on_tick state t = t

unfoldable pub on_pause : TimerState → Timer → Run (Timer × Option Error)
on_pause ready t = stop_timer (record t { state = paused }) >>= λ next. ok (next, none)
on_pause running_action t =
    if t.should_pause
    then ok (t, some pause_queued)
    else ok (record t { should_pause = true }, none)
on_pause state t = ok (t, some (cannot_pause state))

unfoldable pub on_resume : TimerState → Bool → Timer → Run (Timer × Option Error)
on_resume paused run_immediately t = start_timer t >>= λ next.
    ok (if run_immediately then execute_action next else record next { state = ready }, none)
on_resume state run_immediately t = ok (t, some (cannot_resume state))

unfoldable pub on_stop : TimerState → Timer → Run Timer
on_stop ready t = stop_timer t >>= λ next. ok (record next { state = stopped })
on_stop state t = ok (record t { state = stopped })

-- One turn of the loop; the error is what Pause or Resume returns.
unfoldable pub handle : Event → Timer → Run (Timer × Option Error)
handle did_finish_action t = finish_action t >>= λ next. ok (next, none)
handle tick t = ok (on_tick t.state t, none)
handle pause t = on_pause t.state t
handle stop t = on_stop t.state t >>= λ next. ok (next, none)
handle (resume run_immediately) t = on_resume t.state run_immediately t
handle (set_delay delay) t = ok (record t { delay = delay }, none)

-- NewRunningTimer; an error of the resume is only logged.
unfoldable pub new_running_timer : ℤ → Bool → Run Timer
new_running_timer delay run_immediately = new_timer delay >>= λ paused_timer.
    handle (resume run_immediately) paused_timer >>= λ (timer, err). ok timer

-- When the select can take an event: an action reports while one runs, the ticker fires while its
-- channel is read, and nothing is taken once the loop has returned.
abbrev pub IsEnabled : Event → Timer → Type 0
IsEnabled did_finish_action t = (t.state ≢ stopped) × (0 < t.actions)
IsEnabled tick t = (t.state ≢ stopped) × (t.ticks ≡ true)
IsEnabled e t = t.state ≢ stopped

-- One turn of the loop as a relation, with the event that it takes.
pub data Step (t : Timer) (e : Event) (u : Timer) : Type 0 where
  turn : {err : Option Error} → IsEnabled e t → handle e t ≡ ok (u, err) → Step t e u

-- What can be reached by events that satisfy `P`.
pub data Reach (P : Event → Type 0) (t : Timer) : Timer → Type 0 where
  here : Reach P t t
  next : {u v : Timer} {e : Event} → Reach P t u → P e → Step u e v → Reach P t v
