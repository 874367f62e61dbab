-- ===== src/Msp/Framing/Steps.antt =====
-- Facts about the pieces of the decoder, with the pieces shut for those who use them.
use logfalcon.Prelude.{
  ℕ, zero, ◌≤◌, ◌≡◌, refl, Option, none, some, List, [], ◌∷◌, ◌++◌, arith, ltb, Bool-cases,
  Option-cases, inl, inr, length, length-replicate,
}
use logfalcon.Msp.Framing.{FrameDecoder, grow, process, feed}

pub grow_fits : (buf : List ℕ) (size : ℕ) → size ≤ length (grow buf size)
unfolding grow
grow_fits buf size = elim (Bool-cases (ltb (length buf) size)) [
  | inl e ↦ rw e (omega (arith, length-replicate size (zero)))
  | inr e ↦ rw e (ground arith)
]

-- `P` holds of the result, and there is one: the code did not panic.
abbrev pub Ensures : (FrameDecoder → Type 0) → Option FrameDecoder → Type 0
Ensures P none = ⊥
Ensures P (some d) = P d

unfoldable pub resume : Option FrameDecoder → List ℕ → Option FrameDecoder
resume none bytes = none
resume (some d) bytes = feed d bytes

pub feed-nil : (d : FrameDecoder) → feed d [] ≡ some d
unfolding feed
feed-nil d = refl

pub feed-cons :
    (d : FrameDecoder) (b : ℕ) (bytes : List ℕ) → feed d (b ∷ bytes) ≡ resume (process d b) bytes
unfolding feed resume
feed-cons d b bytes = ground arith

-- Feeding in two parts is feeding at once: the decoder depends on the bytes, not on the chunks.
pub feed-append : (d : FrameDecoder) (xs ys : List ℕ) → feed d (xs ++ ys) ≡ resume (feed d xs) ys
unfolding resume
feed-append d [] ys = rw feed-nil
feed-append d (x ∷ xs) ys = elim (Option-cases (process d x)) [
  | inl e ↦ simp (feed-cons, e, resume)
  | inr (d', e) ↦ simp (feed-cons, e, resume) (feed-append d' xs ys)
]

pub Ensures-resume :
    (P Q : FrameDecoder → Type 0) (o : Option FrameDecoder) (bytes : List ℕ)
    → Ensures P o
    → ((d : FrameDecoder) → P d → Ensures Q (feed d bytes))
    → Ensures Q (resume o bytes)
unfolding resume
Ensures-resume P Q none bytes p f = absurd p
Ensures-resume P Q (some d) bytes p f = f d p
