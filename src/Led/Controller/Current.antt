-- ===== src/Led/Controller/Current.antt =====
-- internal/led/controller.go: no change of the state is lost, though its channel holds one signal only.
use logfalcon.Prelude.{◌≡◌, refl, sym, ◌⊎◌, inl, inr, Bool, true, false, List, [], ◌∷◌, on_if}
use mathlib.Core.Path.{subst}
use logfalcon.Sync.World.{LedState, led_off, led_booting, led_ready, led_busy, led_done, led_error}
use logfalcon.Led.Controller.Lifecycle.{Phase, off, on, ending, ended, Reach-Phase}
use logfalcon.Led.Controller.{
  Blink, patterns, Place, resting, top, waiting, asleep, putting_back, looking, Controller,
  new_with_backend, pattern_over, next_blink, enter_pattern, enter, go_on, set_state, start, stop,
  stop_ends, Step, runs, enters, wakes, quits_waiting, sleeps, quits_asleep, disturbed, puts_back,
  sees_change, sees_none, sets_state, takes_idle, starts, stops, stop_returns, Reach, here, next,
}

-- The LED of a state at rest.
abbrev pub rest_level : LedState → Bool
rest_level led_ready = true
rest_level _ = false

abbrev Known : Controller → Type 0
Known c = (c.shown ≡ c.state) ⊎ (c.changed ≡ true)

-- Where `run` will not read the state before it blocks, it shows the state or will be told of it; and where
-- it waits, the LED is the one of what it shows.
abbrev IsCurrentAt : Place → Controller → Type 0
IsCurrentAt resting c = Unit {0}
IsCurrentAt top c = Unit {0}
IsCurrentAt waiting c = Known c × (c.lit ≡ rest_level c.shown)
IsCurrentAt (asleep is_lit steps) c = Known c
IsCurrentAt (putting_back is_lit steps) c = Unit {0}
IsCurrentAt (looking is_lit steps) c = Known c

abbrev pub IsCurrent : Controller → Type 0
IsCurrent c = IsCurrentAt c.place c

dark_at_end : (s : LedState) → (patterns s).repeat ≡ false → false ≡ rest_level s
unfolding patterns
dark_at_end led_off e = refl
dark_at_end led_booting e = refl
dark_at_end led_ready e = cc e
dark_at_end led_busy e = refl
dark_at_end led_done e = refl
dark_at_end led_error e = refl

next_blink-IsCurrent :
    (steps : List Blink) (c : Controller) → Known c → IsCurrent (next_blink steps c)
unfolding next_blink pattern_over
next_blink-IsCurrent [] c h =
    on_if IsCurrent (patterns c.shown).repeat _ _ (λ _. tt) (λ e. (h, dark_at_end c.shown e))
next_blink-IsCurrent (b ∷ rest) c h = h

enter-IsCurrent :
    (s : LedState) (c : Controller)
    → c.state ≡ s
    → IsCurrent (enter_pattern (patterns s).steps (record c { shown = s }))
unfolding enter_pattern patterns next_blink
enter-IsCurrent led_off c e = (inl (sym e), refl)
enter-IsCurrent led_booting c e = inl (sym e)
enter-IsCurrent led_ready c e = (inl (sym e), refl)
enter-IsCurrent led_busy c e = inl (sym e)
enter-IsCurrent led_done c e = inl (sym e)
enter-IsCurrent led_error c e = inl (sym e)

go_on-IsCurrent :
    (is_lit : Bool) (steps : List Blink) (c : Controller)
    → Known c
    → IsCurrent (go_on is_lit steps c)
unfolding go_on
go_on-IsCurrent true steps c h = h
go_on-IsCurrent false [] c h = next_blink-IsCurrent [] c h
go_on-IsCurrent false (b ∷ rest) c h = next_blink-IsCurrent rest c h

-- A change of the state is known by its signal.
told :
    (p : Place) (s : LedState) (c : Controller)
    → IsCurrentAt p c
    → IsCurrentAt p (record c { state = s; changed = true })
told resting s c h = tt
told top s c h = tt
told waiting s c h = (inr refl, h.1)
told (asleep is_lit steps) s c h = inr refl
told (putting_back is_lit steps) s c h = tt
told (looking is_lit steps) s c h = inr refl

-- What the invariant does not speak of can change.
same_at :
    (p : Place) (c d : Controller)
    → d.state ≡ c.state
    → d.shown ≡ c.shown
    → d.changed ≡ c.changed
    → d.lit ≡ c.lit
    → IsCurrentAt p c
    → IsCurrentAt p d
same_at resting c d e f g l h = tt
same_at top c d e f g l h = tt
same_at waiting c d e f g l h = rw (e, f, g, l) h
same_at (asleep is_lit steps) c d e f g l h = rw (e, f, g) h
same_at (putting_back is_lit steps) c d e f g l h = tt
same_at (looking is_lit steps) c d e f g l h = rw (e, f, g) h

start-IsCurrent : (c : Controller) → IsCurrent c → IsCurrent (start c)
unfolding start
start-IsCurrent c h = on_if IsCurrent c.running _ _ (λ _. h) (λ _. tt)

stop-IsCurrent : (c : Controller) → IsCurrent c → IsCurrent (stop c)
unfolding stop
stop-IsCurrent c h =
    on_if IsCurrent c.running _ _ (λ _. same_at c.place c _ refl refl refl refl h) (λ _. h)

-- `Stop` returns to a goroutine that has ended.
stop_ends-IsCurrent :
    (c : Controller) → Phase c → c.stopping ≡ true → c.done_closed ≡ true → IsCurrent (stop_ends c)
stop_ends-IsCurrent c (off r s g p l k) e f = absurd (cc (e, s))
stop_ends-IsCurrent c (on r s x y k g a) e f = absurd (cc (e, s))
stop_ends-IsCurrent c (ending r s x y g a) e f = absurd (cc (f, y))
stop_ends-IsCurrent c (ended r s x y g p) e f = rw p tt

-- What the invariant says at a place.
at_place : (p : Place) (c : Controller) → c.place ≡ p → IsCurrent c → IsCurrentAt p c
at_place p c e h = subst (λ q. IsCurrentAt q c) e h

Step-IsCurrent : (c d : Controller) → Phase c → Step c d → IsCurrent c → IsCurrent d
unfolding enter set_state
Step-IsCurrent c d ph (runs (enters e)) h = enter-IsCurrent c.state c refl
Step-IsCurrent c d ph (runs (wakes e f)) h = tt
Step-IsCurrent c d ph (runs (quits_waiting e f)) h = tt
Step-IsCurrent c d ph (runs (sleeps l bs e)) h = at_place (asleep l bs) c e h
Step-IsCurrent c d ph (runs (quits_asleep l bs e f)) h = tt
Step-IsCurrent c d ph (runs (disturbed l bs e f)) h = tt
Step-IsCurrent c d ph (runs (puts_back l bs e)) h = inr refl
Step-IsCurrent c d ph (runs (sees_change l bs e f)) h = tt
Step-IsCurrent c d ph (runs (sees_none l bs e f)) h =
    go_on-IsCurrent l bs c (at_place (looking l bs) c e h)
Step-IsCurrent c d ph (sets_state s) h = told c.place s c h
Step-IsCurrent c d ph (takes_idle e) h = same_at c.place c _ refl refl refl refl h
Step-IsCurrent c d ph (starts e) h = start-IsCurrent c h
Step-IsCurrent c d ph stops h = stop-IsCurrent c h
Step-IsCurrent c d ph (stop_returns e f) h = stop_ends-IsCurrent c ph e f

Reach-IsCurrent : (c : Controller) → Reach new_with_backend c → IsCurrent c
unfolding new_with_backend
Reach-IsCurrent c here = tt
Reach-IsCurrent c (next {d} r s) = Step-IsCurrent d c (Reach-Phase d r) s (Reach-IsCurrent d r)

-- No change of the state is lost: whatever the callers do and however the steps are interleaved, if `Start` is
-- not called while a `Stop` waits, where the goroutine of a new controller waits and no signal is pending, the LED is at rest as the state that was set
-- last wants it, lit for ready and dark for every other state.
pub waiting-IsCurrent :
    (c : Controller)
    → Reach new_with_backend c
    → c.place ≡ waiting
    → c.changed ≡ false
    → (c.shown ≡ c.state) × (c.lit ≡ rest_level c.state)
waiting-IsCurrent c r e f = settled (at_place waiting c e (Reach-IsCurrent c r))
  where
    settled :
        Known c × (c.lit ≡ rest_level c.shown) → (c.shown ≡ c.state) × (c.lit ≡ rest_level c.state)
    settled (inl s, l) = (s, rw s at l)
    settled (inr t, l) = absurd (cc (t, f))
