-- ===== src/Led/Controller/Ending.antt =====
-- internal/led/controller.go: a `Stop` that waits can always come to its end.
use logfalcon.Prelude.{◌≡◌, refl, inl, inr, Bool, true, false, List, [], ◌∷◌, on_if, Bool-cases}
use logfalcon.Led.Controller.{
  Blink, patterns, Place, resting, top, waiting, asleep, putting_back, looking, Controller,
  new_with_backend, pattern_over, next_blink, enter_pattern, enter, go_on, quit, RunStep, Runs,
  stays, then_runs, enters, quits_waiting, quits_asleep, puts_back, sees_change, sees_none, Reach,
}
use logfalcon.Led.Controller.Lifecycle.{IsAwake, Phase, off, on, ending, ended, Reach-Phase}

-- The goroutine's steps alone lead to its end.
abbrev pub CanEnd : Controller → Type 0
CanEnd c = (d : Controller) × (Runs c d × ((d.done_closed ≡ true) × (d.place ≡ resting)))

then_end : (c d : Controller) → RunStep c d → CanEnd d → CanEnd c
then_end c d s (e, (r, h)) = (e, (then_runs s r, h))

module _ (c : Controller) (told : c.stop_closed ≡ true) where
  waiting_CanEnd : c.place ≡ waiting → CanEnd c
  waiting_CanEnd e = (quit c, (then_runs (quits_waiting e told) stays, (refl, refl)))

  asleep_CanEnd : (is_lit : Bool) (bs : List Blink) → c.place ≡ asleep is_lit bs → CanEnd c
  asleep_CanEnd is_lit bs e =
      (quit c, (then_runs (quits_asleep is_lit bs e told) stays, (refl, refl)))

enter_pattern-CanEnd :
    (bs : List Blink) (c : Controller) → c.stop_closed ≡ true → CanEnd (enter_pattern bs c)
unfolding enter_pattern next_blink
enter_pattern-CanEnd [] c h = waiting_CanEnd _ h refl
enter_pattern-CanEnd (b ∷ bs) c h = asleep_CanEnd _ h true (b ∷ bs) refl

top_CanEnd : (c : Controller) → c.stop_closed ≡ true → c.place ≡ top → CanEnd c
unfolding enter
top_CanEnd c h e =
    then_end c (enter c) (enters e) (enter_pattern-CanEnd (patterns c.state).steps _ h)

next_blink-CanEnd :
    (bs : List Blink) (c : Controller) → c.stop_closed ≡ true → CanEnd (next_blink bs c)
unfolding next_blink pattern_over
next_blink-CanEnd [] c h =
    on_if CanEnd (patterns c.shown).repeat _ _ (λ _. top_CanEnd (record c { place = top }) h refl)
      (λ _. waiting_CanEnd (record c { lit = false; idle = true; place = waiting }) h refl)
next_blink-CanEnd (b ∷ bs) c h = asleep_CanEnd _ h true (b ∷ bs) refl

go_on-CanEnd :
    (is_lit : Bool) (bs : List Blink) (c : Controller)
    → c.stop_closed ≡ true
    → CanEnd (go_on is_lit bs c)
unfolding go_on
go_on-CanEnd true bs c h = asleep_CanEnd _ h false bs refl
go_on-CanEnd false [] c h = next_blink-CanEnd [] c h
go_on-CanEnd false (b ∷ bs) c h = next_blink-CanEnd bs c h

looking_CanEnd :
    (is_lit : Bool) (bs : List Blink) (c : Controller)
    → c.stop_closed ≡ true
    → c.place ≡ looking is_lit bs
    → CanEnd c
looking_CanEnd is_lit bs c h e = elim (Bool-cases c.changed) [
  | inl f ↦
      then_end c _ (sees_change is_lit bs e f)
        (top_CanEnd (record c { changed = false; place = top }) h refl)
  | inr f ↦ then_end c _ (sees_none is_lit bs e f) (go_on-CanEnd is_lit bs c h)
]

place_CanEnd :
    (p : Place) (c : Controller) → c.place ≡ p → IsAwake p → c.stop_closed ≡ true → CanEnd c
place_CanEnd resting c e a h = absurd a
place_CanEnd top c e a h = top_CanEnd c h e
place_CanEnd waiting c e a h = waiting_CanEnd c h e
place_CanEnd (asleep l bs) c e a h = asleep_CanEnd c h l bs e
place_CanEnd (putting_back l bs) c e a h =
    then_end c _ (puts_back l bs e)
      (looking_CanEnd l bs (record c { changed = true; place = looking l bs }) h refl)
place_CanEnd (looking l bs) c e a h = looking_CanEnd l bs c h e

Phase-CanEnd : (c : Controller) → c.stopping ≡ true → Phase c → CanEnd c
Phase-CanEnd c e (off r s g p l k) = absurd (cc (e, s))
Phase-CanEnd c e (on r s x y k g a) = absurd (cc (e, s))
Phase-CanEnd c e (ending r s x y g a) = place_CanEnd c.place c refl a x
Phase-CanEnd c e (ended r s x y g p) = (c, (stays, (y, p)))

-- `Stop` never comes to a deadlock: from every state in which it waits, the steps of the goroutine alone, without
-- any of its callers, lead to its end.
pub stopping-CanEnd : (c : Controller) → Reach new_with_backend c → c.stopping ≡ true → CanEnd c
stopping-CanEnd c r e = Phase-CanEnd c e (Reach-Phase c r)
