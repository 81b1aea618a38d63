-- ===== src/Util/Timer/Tests.antt =====
-- Runs of the timer of pkg/util/timer.go at concrete inputs.
use perceptor.Prelude.{pos, ◌≡◌, refl, true, false, none, some, panic, arith}
use perceptor.Util.Timer.{
  Timer, paused, running_action, did_finish_action, pause, resume, set_delay, handle, on_resume,
  on_pause, start_timer, execute_action, Step, turn, Reach, here, next, finish_action, stop_timer,
}
use perceptor.Util.Timer.Invariant.{IsSteady, Reach-IsSteady}
use perceptor.Util.Timer.Delays.{IsNoRepair, set_delay-panics}

abbrev resting : Timer
resting = record {
  state = paused;
  delay = pos 100;
  base_timer = none;
  ticks = false;
  should_pause = false;
  actions = 0;
}

-- The timer after a resume that runs its action at once, and after a pause as well.
abbrev busy : Timer
busy = record {
  state = running_action;
  delay = pos 100;
  base_timer = some (pos 100);
  ticks = true;
  should_pause = false;
  actions = 1;
}

abbrev to_pause : Timer
to_pause = record busy { should_pause = true }

resting-IsSteady : IsSteady resting
resting-IsSteady = ground arith

resume-Step : Step resting (resume true) busy
unfolding handle on_resume start_timer execute_action
resume-Step = turn (λ p. cc) refl

pause-Step : Step busy pause to_pause
unfolding handle on_pause
pause-Step = turn (λ p. cc) refl

Reach-IsSteady_example : IsSteady to_pause
Reach-IsSteady_example =
    Reach-IsSteady resting-IsSteady (next (next here tt resume-Step) tt pause-Step)

refused_pause : Step resting pause resting
unfolding handle on_pause
refused_pause = turn (λ p. cc) refl

-- A delay of 0 and a pause, while an action runs, and then the end of the action.
abbrev slow : Timer
slow = record busy { delay = pos 0 }

abbrev spoilt : Timer
spoilt = record slow { state = paused; ticks = false; should_pause = true; actions = 0 }

slow-Step : Step busy (set_delay (pos 0)) slow
unfolding handle
slow-Step = turn (λ p. cc) refl

slow-Reach : Reach IsNoRepair slow spoilt
unfolding handle on_pause finish_action stop_timer
slow-Reach =
    next {u = record slow { should_pause = true }} {e = did_finish_action}
      (next {e = pause} here tt (turn (λ p. cc) refl)) tt (turn ((λ p. cc), omega arith) refl)

set_delay-panics_example : handle (resume true) spoilt ≡ panic
set_delay-panics_example = set_delay-panics (pos 0) true refl slow-Step slow-Reach refl
