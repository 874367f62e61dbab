-- ===== src/Web/Idle/Quiet.antt =====
-- internal/web/server.go: the monitor shuts the computer down only after a quiet time.
use logfalcon.Prelude.{
  ℕ, suc, ◌+◌, ◌*◌, ◌-◌, ◌≤◌, ◌<◌, ◌≡◌, refl, ap, ◌⊎◌, inl, inr, true, false, some, List, [], ◌∷◌,
  ◌++◌, arith, leb, Bool-cases, All,
}
use logfalcon.Prelude.Ints.{pos}
use logfalcon.Web.Idle.{minute, Tick, is_active, monitor, idle_shutdown}

-- The shutdown at the moment `t`: every tick before it that saw a sync was at least the time-out earlier, as
-- was the activity before the first tick; and it came at a tick that saw none.
pub data IsQuiet (timeout last_activity : ℕ) (ticks : List Tick) (t : ℕ) : Type 0 where
  quiet :
      (before after : List Tick) (tick : Tick)
      → ticks ≡ before ++ tick ∷ after
      → tick.now ≡ t
      → is_active tick.state ≡ false
      → last_activity + timeout ≤ t
      → All (λ earlier. (is_active earlier.state ≡ false) ⊎ (earlier.now + timeout ≤ t)) before
      → IsQuiet timeout last_activity ticks t

long_ago :
    (timeout now last : ℕ) → 0 < timeout → leb timeout (now - last) ≡ true → last + timeout ≤ now
long_ago timeout now last p h = ground arith

-- The clock does not go back from tick to tick.
abbrev pub IsClock : ℕ → List Tick → Type 0
IsClock last [] = Unit {0}
IsClock last (tick ∷ ticks) = (last ≤ tick.now) × IsClock tick.now ticks

IsClock-later :
    (last now : ℕ) (ticks : List Tick) → last ≤ now → IsClock now ticks → IsClock last ticks
IsClock-later last now [] h c = tt
IsClock-later last now (tick ∷ ticks) h c = (omega (arith, c.0), c.1)

-- One more tick before.
IsQuiet-tick :
    (timeout last : ℕ) (tick : Tick) (ticks : List Tick) (t : ℕ)
    → is_active tick.state ≡ false
    → IsQuiet timeout last ticks t
    → IsQuiet timeout last (tick ∷ ticks) t
IsQuiet-tick timeout last tick ticks t e (quiet before after final s n q l h) =
    quiet (tick ∷ before) after final (ap (◌∷◌ tick) s) n q l (inl e, h)

active_tick :
    (timeout last : ℕ) (tick : Tick) (ticks : List Tick) (t : ℕ)
    → last ≤ tick.now
    → IsQuiet timeout tick.now ticks t
    → IsQuiet timeout last (tick ∷ ticks) t
active_tick timeout last tick ticks t a (quiet before after final s n q l h) =
    quiet (tick ∷ before) after final (ap (◌∷◌ tick) s) n q (omega arith) (inr l, h)

monitor-IsQuiet :
    (timeout last : ℕ) (ticks : List Tick) (t : ℕ)
    → 0 < timeout
    → IsClock last ticks
    → monitor timeout last ticks ≡ some t
    → IsQuiet timeout last ticks t
unfolding monitor
monitor-IsQuiet timeout last [] t p c e = absurd (cc e)
monitor-IsQuiet timeout last (tick ∷ ticks) t p c e = elim (Bool-cases (is_active tick.state)) [
  | inl a ↦
      active_tick timeout last tick ticks t c.0
        (monitor-IsQuiet timeout tick.now ticks t p c.1 (rw a at e))
  | inr a ↦ elim (Bool-cases (leb timeout (tick.now - last))) [
    | inl b ↦
        let same : tick.now ≡ t = cc (rw (a, b) at e) in
        let old : last + timeout ≤ tick.now = long_ago timeout tick.now last p b in
        quiet [] ticks tick refl same a (omega (arith, same, old)) tt
    | inr b ↦ IsQuiet-tick timeout last tick ticks t a (
        monitor-IsQuiet timeout last ticks t p (IsClock-later last tick.now ticks c.0 c.1)
          (rw (a, b) at e))
  ]
]

-- When the monitor shuts the computer down, no tick before it, and nothing before the first, saw a sync
-- within the configured minutes, and the tick that does it sees none.
pub idle_shutdown-IsQuiet :
    (minutes last : ℕ) (ticks : List Tick) (t : ℕ)
    → IsClock last ticks
    → idle_shutdown (pos (suc minutes)) last ticks ≡ some t
    → IsQuiet (suc minutes * minute) last ticks t
unfolding idle_shutdown
idle_shutdown-IsQuiet minutes last ticks t c e =
    monitor-IsQuiet (suc minutes * minute) last ticks t (omega arith) c e
