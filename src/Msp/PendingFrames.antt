-- ===== src/Msp/PendingFrames.antt =====
-- The map from codes to the latest frame that was not asked for yet.
use logfalcon.Prelude.{ℕ, ◌≡◌, Option, none, some, List, [], ◌∷◌, arith, ◌==◌, if◌then◌else◌}
use logfalcon.Msp.Framing.{Frame}

abbrev pub Pending : Type 0
Pending = List (ℕ × Frame)

unfoldable pub find : ℕ → Pending → Option Frame
find code [] = none
find code ((k, f) ∷ rest) = if k == code then some f else find code rest

unfoldable pub delete : ℕ → Pending → Pending
delete code [] = []
delete code ((k, f) ∷ rest) =
    let rest' = delete code rest in if k == code then rest' else (k, f) ∷ rest'

unfoldable pub put : ℕ → Frame → Pending → Pending
unfolding delete
put code f pending = (code, f) ∷ delete code pending

pub find-delete :
    (k code : ℕ) (p : Pending) → find k (delete code p) ≡ (if code == k then none else find k p)
unfolding find delete
find-delete k code [] = ground arith
find-delete k code ((j, f) ∷ rest) = ground (arith, find-delete k code rest)

pub find-put :
    (k code : ℕ) (f : Frame) (p : Pending)
    → find k (put code f p) ≡ (if code == k then some f else find k p)
unfolding find put
find-put k code f p = ground (arith, find-delete k code p)
