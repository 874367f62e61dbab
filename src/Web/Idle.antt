-- ===== src/Web/Idle.antt =====
-- internal/web/server.go: the shutdown after a time without activity, and the rate of the warnings about the
-- temperature. Moments and times are in nanoseconds.
pub mod Quiet
use logfalcon.Prelude.{
  ℕ, zero, suc, ◌*◌, ◌-◌, ◌/◌, Bool, true, false, not, ◌&&◌, Option, none, some, List, [], ◌∷◌, ltb,
  leb, if◌then◌else◌, bytes_eq,
}
use logfalcon.Prelude.Ints.{ℤ, pos, negsuc}
use logfalcon.Prelude.Texts.{ascii}

abbrev pub minute : ℕ
minute = 60000000000

-- A tick of the monitor: the state of the sync, and the clock.
pub record Tick : Type 0 where
  pub state : List ℕ
  pub now : ℕ

-- `status.State != "idle" && status.State != ""`
unfoldable pub is_active : List ℕ → Bool
unfolding bytes_eq
is_active state = not (bytes_eq state (ascii "idle")) && not (bytes_eq state [])

-- `idleShutdownMonitor`, over the ticks: the moment of the shutdown, if it comes to one.
unfoldable pub monitor : (timeout last_activity : ℕ) → List Tick → Option ℕ
unfolding is_active
monitor timeout last_activity [] = none
monitor timeout last_activity (tick ∷ ticks) =
    let reset = monitor timeout tick.now ticks in
    let rest = monitor timeout last_activity ticks in
    if is_active tick.state
    then reset
    else if leb timeout (tick.now - last_activity)
    then some tick.now
    else rest

-- `ListenAndServe` starts the monitor only for a positive number of minutes.
unfoldable pub idle_shutdown : ℤ → (last_activity : ℕ) → List Tick → Option ℕ
unfolding monitor
idle_shutdown (negsuc n) last_activity ticks = none
idle_shutdown (pos zero) last_activity ticks = none
idle_shutdown (pos (suc n)) last_activity ticks = monitor (suc n * minute) last_activity ticks

-- `addIdleShutdownInfo`: the minutes and the seconds that remain.
unfoldable pub idle_shutdown_info : ℤ → (last_activity now : ℕ) → ℕ × ℕ
idle_shutdown_info (negsuc n) last_activity now = (0, 0)
idle_shutdown_info (pos zero) last_activity now = (0, 0)
idle_shutdown_info (pos (suc n)) last_activity now =
    (suc n, (suc n * minute - (now - last_activity)) / 1000000000)

-- `logThermalOnce`: whether it logs, and the moment kept; `none` is the zero time.
unfoldable pub log_thermal_once : ℕ → Option ℕ → Bool × Option ℕ
log_thermal_once now none = (true, some now)
log_thermal_once now (some last) =
    if ltb (now - last) (10 * minute) then (false, some last) else (true, some now)
