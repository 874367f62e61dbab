-- ===== src/Led/Controller.antt =====
-- internal/led/controller.go: the patterns, and the controller as a state machine of the goroutine `run`
-- and its callers. A step is what one of them does between two points where the others can come between.
-- Time is not counted: a sleep can end at any point. `Stop` and `SetState` come from anywhere and at any
-- point; `Start` comes at any point but one at which a `Stop` still waits for the goroutine, whose channels
-- it would replace. In cmd/logfalcon one goroutine calls `Start` and then `Stop`.
pub mod Current
pub mod Lifecycle
pub mod Ending
use logfalcon.Prelude.{ℕ, suc, ◌-◌, ◌≡◌, Bool, true, false, List, [], ◌∷◌, if◌then◌else◌}
use logfalcon.Sync.World.{LedState, led_off, led_booting, led_ready, led_busy, led_done, led_error}

-- `step`
pub record Blink : Type 0 where
  pub on_ms : ℕ
  pub off_ms : ℕ

pub record Pattern : Type 0 where
  pub steps : List Blink
  pub repeat : Bool

abbrev blink : ℕ → ℕ → Blink
blink on_ms off_ms = record { on_ms = on_ms; off_ms = off_ms }

unfoldable pub patterns : LedState → Pattern
patterns led_off = record { steps = []; repeat = false }
patterns led_booting = record { steps = blink 1000 1000 ∷ []; repeat = true }
patterns led_ready = record { steps = []; repeat = true }
patterns led_busy = record { steps = blink 150 150 ∷ []; repeat = true }
patterns led_done = record {
  steps = blink 50 50 ∷ blink 50 50 ∷ blink 50 50 ∷ blink 50 50 ∷ blink 50 50 ∷ blink 3000 1 ∷ [];
  repeat = false;
}
patterns led_error = record {
  steps =
      blink 150 150
      ∷ blink 150 150
      ∷ blink 150 150
      ∷ blink 400 150
      ∷ blink 400 150
      ∷ blink 400 150
      ∷ blink 150 150
      ∷ blink 150 150
      ∷ blink 150 150
      ∷ blink 700 700
      ∷ [];
  repeat = true;
}

-- Where `run` is: not running; at the head of its loop; in `waitForChangeOrStop`; or, in the lit or the dark
-- part of the first of the steps that are left, asleep, about to put the signal back, or about to look
-- for a change.
pub data Place : Type 0 where
  resting top waiting : Place
  asleep putting_back looking : (is_lit : Bool) → List Blink → Place

-- `Controller`. `changed` and `idle` say that the channel holds its one token, `stopping` that `Stop` waits
-- for `done`; `goroutines` counts those that run, and `place` is where the one is; `shown` is the state that `run` read last, `lit` and `kernel_trigger` are the LED.
pub record Controller : Type 0 where
  pub state : LedState
  pub changed : Bool
  pub idle : Bool
  pub running : Bool
  pub stopping : Bool
  pub stop_closed : Bool
  pub done_closed : Bool
  pub goroutines : ℕ
  pub place : Place
  pub shown : LedState
  pub lit : Bool
  pub kernel_trigger : Bool

-- `NewWithBackend`, on an LED that is dark.
unfoldable pub new_with_backend : Controller
new_with_backend = record {
  state = led_off;
  changed = false;
  idle = false;
  running = false;
  stopping = false;
  stop_closed = false;
  done_closed = false;
  goroutines = 0;
  place = resting;
  shown = led_off;
  lit = false;
  kernel_trigger = true;
}

-- The end of a pattern.
unfoldable pub pattern_over : Controller → Controller
unfolding patterns
pattern_over c =
    if (patterns c.shown).repeat
    then record c { place = top }
    else record c { lit = false; idle = true; place = waiting }

-- The head of the inner loop, with the steps that are left.
unfoldable pub next_blink : List Blink → Controller → Controller
unfolding pattern_over
next_blink [] c = pattern_over c
next_blink (b ∷ rest) c = record c { lit = true; place = asleep true (b ∷ rest) }

-- The head of the outer loop, for the steps of the state it read.
unfoldable pub enter_pattern : List Blink → Controller → Controller
unfolding next_blink patterns
enter_pattern [] c = record c { lit = (patterns c.shown).repeat; place = waiting }
enter_pattern (b ∷ rest) c = next_blink (b ∷ rest) c

unfoldable pub enter : Controller → Controller
unfolding enter_pattern patterns
enter c = enter_pattern (patterns c.state).steps (record c { shown = c.state })

-- After the lit part of a step, and after the dark part.
unfoldable pub go_on : Bool → List Blink → Controller → Controller
unfolding next_blink
go_on true steps c = record c { lit = false; place = asleep false steps }
go_on false [] c = next_blink [] c
go_on false (b ∷ rest) c = next_blink rest c

-- `SetState`; its send is dropped where the channel is full.
unfoldable pub set_state : LedState → Controller → Controller
set_state s c = record c { state = s; changed = true }

-- `Start`
unfoldable pub start : Controller → Controller
start c = if c.running then c else record c {
  running = true;
  stop_closed = false;
  done_closed = false;
  kernel_trigger = false;
  goroutines = suc c.goroutines;
  place = top;
}

-- `Stop`, up to its wait for `done`, and after it.
unfoldable pub stop : Controller → Controller
stop c = if c.running then record c { running = false; stopping = true; stop_closed = true } else c

abbrev pub stop_ends : Controller → Controller
stop_ends c = record c { stopping = false; lit = false; kernel_trigger = true }

-- The return of `run`.
abbrev pub quit : Controller → Controller
quit c = record c { place = resting; done_closed = true; goroutines = c.goroutines - 1 }

-- The steps of the goroutine.
pub data RunStep (c : Controller) : Controller → Type 0 where
  enters : c.place ≡ top → RunStep c (enter c)
  wakes :
      c.place ≡ waiting → c.changed ≡ true → RunStep c (record c { changed = false; place = top })
  quits_waiting : c.place ≡ waiting → c.stop_closed ≡ true → RunStep c (quit c)
  sleeps :
      (is_lit : Bool) (steps : List Blink)
      → c.place ≡ asleep is_lit steps
      → RunStep c (record c { place = looking is_lit steps })
  quits_asleep :
      (is_lit : Bool) (steps : List Blink)
      → c.place ≡ asleep is_lit steps
      → c.stop_closed ≡ true
      → RunStep c (quit c)
  disturbed :
      (is_lit : Bool) (steps : List Blink)
      → c.place ≡ asleep is_lit steps
      → c.changed ≡ true
      → RunStep c (record c { changed = false; place = putting_back is_lit steps })
  puts_back :
      (is_lit : Bool) (steps : List Blink)
      → c.place ≡ putting_back is_lit steps
      → RunStep c (record c { changed = true; place = looking is_lit steps })
  sees_change :
      (is_lit : Bool) (steps : List Blink)
      → c.place ≡ looking is_lit steps
      → c.changed ≡ true
      → RunStep c (record c { changed = false; place = top })
  sees_none :
      (is_lit : Bool) (steps : List Blink)
      → c.place ≡ looking is_lit steps
      → c.changed ≡ false
      → RunStep c (go_on is_lit steps c)

-- All steps: the goroutine's, and the callers'.
pub data Step (c : Controller) : Controller → Type 0 where
  runs : {d : Controller} → RunStep c d → Step c d
  sets_state : (s : LedState) → Step c (set_state s c)
  takes_idle : c.idle ≡ true → Step c (record c { idle = false })
  starts : c.stopping ≡ false → Step c (start c)
  stops : Step c (stop c)
  stop_returns : c.stopping ≡ true → c.done_closed ≡ true → Step c (stop_ends c)

pub data Reach (c : Controller) : Controller → Type 0 where
  here : Reach c c
  next : {d e : Controller} → Reach c d → Step d e → Reach c e

-- What the goroutine does alone.
pub data Runs : Controller → Controller → Type 0 where
  stays : {c : Controller} → Runs c c
  then_runs : {c d e : Controller} → RunStep c d → Runs d e → Runs c e
