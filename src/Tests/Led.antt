-- ===== src/Tests/Led.antt =====
-- internal/led/controller.go at a concrete run.
use logfalcon.Prelude.{◌≡◌, refl, true, false}
use logfalcon.Led.Controller.{
  Controller, new_with_backend, start, stop, enter, enter_pattern, patterns, waiting, Reach, here,
  next, runs, starts, enters, stops,
}
use logfalcon.Led.Controller.Lifecycle.{Phase, Reach-Phase}
use logfalcon.Led.Controller.Current.{rest_level, waiting-IsCurrent}
use logfalcon.Led.Controller.Ending.{CanEnd, stopping-CanEnd}

-- Started, and at rest as off.
abbrev started : Controller
started = enter (start new_with_backend)

started-Reach : Reach new_with_backend started
unfolding new_with_backend start enter
started-Reach = next (next here (starts refl)) (runs (enters refl))

Reach-Phase_example : Phase started
Reach-Phase_example = Reach-Phase started started-Reach

started_waiting : started.place ≡ waiting
unfolding new_with_backend start enter enter_pattern patterns
started_waiting = refl

started_unchanged : started.changed ≡ false
unfolding new_with_backend start enter enter_pattern patterns
started_unchanged = refl

waiting-IsCurrent_example :
    (started.shown ≡ started.state) × (started.lit ≡ rest_level started.state)
waiting-IsCurrent_example =
    waiting-IsCurrent started started-Reach started_waiting started_unchanged

stopped_Reach : Reach new_with_backend (stop started)
unfolding new_with_backend start enter enter_pattern patterns
stopped_Reach = next started-Reach stops

stopped_stopping : (stop started).stopping ≡ true
unfolding new_with_backend start enter enter_pattern patterns stop
stopped_stopping = refl

stopping-CanEnd_example : CanEnd (stop started)
stopping-CanEnd_example = stopping-CanEnd (stop started) stopped_Reach stopped_stopping
