-- ===== src/Led/Controller/Lifecycle.antt =====
-- internal/led/controller.go: what `Start` and `Stop` promise.
use logfalcon.Prelude.{suc, ◌-◌, ◌≡◌, refl, ap, ◌∙◌, Bool, true, false, List, [], ◌∷◌, on_if}
use logfalcon.Sync.World.{LedState}
use logfalcon.Led.Controller.{
  Blink, patterns, Place, resting, top, waiting, asleep, putting_back, looking, Controller,
  new_with_backend, pattern_over, next_blink, enter_pattern, enter, go_on, set_state, start, stop,
  quit, stop_ends, Step, runs, enters, wakes, quits_waiting, sleeps, quits_asleep, disturbed,
  puts_back, sees_change, sees_none, sets_state, takes_idle, starts, stops, stop_returns, Reach,
  here, next,
}

-- The goroutine runs.
abbrev pub IsAwake : Place → Type 0
IsAwake resting = ⊥
IsAwake _ = Unit {0}

-- The goroutine goes on, and the callers' part of the controller is the same.
abbrev Moves : Controller → Controller → Type 0
Moves c d =
    (d.running ≡ c.running)
    × ((d.stopping ≡ c.stopping)
        × ((d.stop_closed ≡ c.stop_closed)
            × ((d.done_closed ≡ c.done_closed)
                × ((d.kernel_trigger ≡ c.kernel_trigger)
                    × ((d.goroutines ≡ c.goroutines) × IsAwake d.place)))))

next_blink-Moves : (steps : List Blink) (c : Controller) → Moves c (next_blink steps c)
unfolding next_blink pattern_over
next_blink-Moves [] c =
    on_if (Moves c) (patterns c.shown).repeat _ _
      (λ _. (refl, (refl, (refl, (refl, (refl, (refl, tt)))))))
      (λ _. (refl, (refl, (refl, (refl, (refl, (refl, tt)))))))
next_blink-Moves (b ∷ rest) c = (refl, (refl, (refl, (refl, (refl, (refl, tt))))))

enter_pattern-Moves : (steps : List Blink) (c : Controller) → Moves c (enter_pattern steps c)
unfolding enter_pattern next_blink
enter_pattern-Moves [] c = (refl, (refl, (refl, (refl, (refl, (refl, tt))))))
enter_pattern-Moves (b ∷ rest) c = (refl, (refl, (refl, (refl, (refl, (refl, tt))))))

go_on-Moves : (is_lit : Bool) (steps : List Blink) (c : Controller) → Moves c (go_on is_lit steps c)
unfolding go_on
go_on-Moves true steps c = (refl, (refl, (refl, (refl, (refl, (refl, tt))))))
go_on-Moves false [] c = next_blink-Moves [] c
go_on-Moves false (b ∷ rest) c = next_blink-Moves rest c

-- Off: not started, or stopped. On: started. Ending: `Stop` waits for the goroutine, or it has just ended.
pub data Phase (c : Controller) : Type 0 where
  off :
      c.running ≡ false
      → c.stopping ≡ false
      → c.goroutines ≡ 0
      → c.place ≡ resting
      → c.lit ≡ false
      → c.kernel_trigger ≡ true
      → Phase c
  on :
      c.running ≡ true
      → c.stopping ≡ false
      → c.stop_closed ≡ false
      → c.done_closed ≡ false
      → c.kernel_trigger ≡ false
      → c.goroutines ≡ 1
      → IsAwake c.place
      → Phase c
  ending :
      c.running ≡ false
      → c.stopping ≡ true
      → c.stop_closed ≡ true
      → c.done_closed ≡ false
      → c.goroutines ≡ 1
      → IsAwake c.place
      → Phase c
  ended :
      c.running ≡ false
      → c.stopping ≡ true
      → c.stop_closed ≡ true
      → c.done_closed ≡ true
      → c.goroutines ≡ 0
      → c.place ≡ resting
      → Phase c

moved : (c d : Controller) → IsAwake c.place → Moves c d → Phase c → Phase d
moved c d a (r, (s, (x, (y, (k, (g, b)))))) (off r' s' g' p l k') = absurd (rw p at a)
moved c d a (r, (s, (x, (y, (k, (g, b)))))) (on r' s' x' y' k' g' a') =
    on (r ∙ r') (s ∙ s') (x ∙ x') (y ∙ y') (k ∙ k') (g ∙ g') b
moved c d a (r, (s, (x, (y, (k, (g, b)))))) (ending r' s' x' y' g' a') =
    ending (r ∙ r') (s ∙ s') (x ∙ x') (y ∙ y') (g ∙ g') b
moved c d a (r, (s, (x, (y, (k, (g, b)))))) (ended r' s' x' y' g' p) = absurd (rw p at a)

-- The goroutine returns only when it is told to.
quit-Phase : (c : Controller) → IsAwake c.place → c.stop_closed ≡ true → Phase c → Phase (quit c)
quit-Phase c a e (off r s g p l k) = absurd (rw p at a)
quit-Phase c a e (on r s x y k g a') = absurd (cc (e, x))
quit-Phase c a e (ending r s x y g a') = ended r s x refl (ap (λ n. n - 1) g) refl
quit-Phase c a e (ended r s x y g p) = absurd (rw p at a)

-- The callers' steps.
set_state-Phase : (s : LedState) (c : Controller) → Phase c → Phase (set_state s c)
unfolding set_state
set_state-Phase t c (off r s g p l k) = off r s g p l k
set_state-Phase t c (on r s x y k g a) = on r s x y k g a
set_state-Phase t c (ending r s x y g a) = ending r s x y g a
set_state-Phase t c (ended r s x y g p) = ended r s x y g p

takes_idle-Phase : (c : Controller) → Phase c → Phase (record c { idle = false })
takes_idle-Phase c (off r s g p l k) = off r s g p l k
takes_idle-Phase c (on r s x y k g a) = on r s x y k g a
takes_idle-Phase c (ending r s x y g a) = ending r s x y g a
takes_idle-Phase c (ended r s x y g p) = ended r s x y g p

start-Phase : (c : Controller) → c.stopping ≡ false → Phase c → Phase (start c)
unfolding start
start-Phase c e (off r s g p l k) = rw r (on refl s refl refl refl (ap suc g) tt)
start-Phase c e (on r s x y k g a) = rw r (on refl s x y k g a)
start-Phase c e (ending r s x y g a) = absurd (cc (e, s))
start-Phase c e (ended r s x y g p) = absurd (cc (e, s))

stop-Phase : (c : Controller) → Phase c → Phase (stop c)
unfolding stop
stop-Phase c (off r s g p l k) = rw r (off refl s g p l k)
stop-Phase c (on r s x y k g a) = rw r (ending refl refl refl y g a)
stop-Phase c (ending r s x y g a) = rw r (ending refl s x y g a)
stop-Phase c (ended r s x y g p) = rw r (ended refl s x y g p)

stop_ends-Phase :
    (c : Controller) → c.stopping ≡ true → c.done_closed ≡ true → Phase c → Phase (stop_ends c)
stop_ends-Phase c e f (off r s g p l k) = absurd (cc (e, s))
stop_ends-Phase c e f (on r s x y k g a) = absurd (cc (e, s))
stop_ends-Phase c e f (ending r s x y g a) = absurd (cc (f, y))
stop_ends-Phase c e f (ended r s x y g p) = off r refl g p refl refl

-- At a place of the goroutine it runs.
awake : {p : Place} (q : Place) → p ≡ q → IsAwake q → IsAwake p
awake q e a = rw e a

still : (c : Controller) → IsAwake c.place → Moves c c
still c a = (refl, (refl, (refl, (refl, (refl, (refl, a))))))

Step-Phase : (c d : Controller) → Step c d → Phase c → Phase d
unfolding enter
Step-Phase c d (runs (enters e)) h =
    moved c _ (awake top e tt)
      (enter_pattern-Moves (patterns c.state).steps (record c { shown = c.state })) h
Step-Phase c d (runs (wakes e f)) h =
    moved c _ (awake waiting e tt) (refl, (refl, (refl, (refl, (refl, (refl, tt)))))) h
Step-Phase c d (runs (quits_waiting e f)) h = quit-Phase c (awake waiting e tt) f h
Step-Phase c d (runs (sleeps l bs e)) h =
    moved c _ (awake (asleep l bs) e tt) (refl, (refl, (refl, (refl, (refl, (refl, tt)))))) h
Step-Phase c d (runs (quits_asleep l bs e f)) h = quit-Phase c (awake (asleep l bs) e tt) f h
Step-Phase c d (runs (disturbed l bs e f)) h =
    moved c _ (awake (asleep l bs) e tt) (refl, (refl, (refl, (refl, (refl, (refl, tt)))))) h
Step-Phase c d (runs (puts_back l bs e)) h =
    moved c _ (awake (putting_back l bs) e tt) (refl, (refl, (refl, (refl, (refl, (refl, tt)))))) h
Step-Phase c d (runs (sees_change l bs e f)) h =
    moved c _ (awake (looking l bs) e tt) (refl, (refl, (refl, (refl, (refl, (refl, tt)))))) h
Step-Phase c d (runs (sees_none l bs e f)) h =
    moved c _ (awake (looking l bs) e tt) (go_on-Moves l bs c) h
Step-Phase c d (sets_state s) h = set_state-Phase s c h
Step-Phase c d (takes_idle e) h = takes_idle-Phase c h
Step-Phase c d (starts e) h = start-Phase c e h
Step-Phase c d stops h = stop-Phase c h
Step-Phase c d (stop_returns e f) h = stop_ends-Phase c e f h

-- In every state that a new controller comes to, whatever its callers do and however the steps are
-- interleaved, where `Start` is not called while a `Stop` waits: it is off, with no goroutine running, the
-- LED dark and the kernel's trigger restored; or it is on, with one goroutine running and the trigger taken;
-- or `Stop` waits for the one running goroutine, which it has told to end, or for one that has ended.
pub Reach-Phase : (c : Controller) → Reach new_with_backend c → Phase c
unfolding new_with_backend
Reach-Phase c here = off refl refl refl refl refl refl
Reach-Phase c (next {d} r s) = Step-Phase d c s (Reach-Phase d r)
