-- ===== src/Web/Settings/Trimmed.antt =====
-- internal/web/server.go: a value that `handleSettingsPost` accepts is trimmed and in one line.
use logfalcon.Prelude.{
  ℕ, ◌≡◌, refl, ap, inl, inr, Bool, true, false, not, ◌||◌, List, [], ◌∷◌, arith, ◌==◌, ltb,
  if◌then◌else◌, Bool-cases, and_true,
}
use logfalcon.Web.Files.Range.{Lacks}
use logfalcon.Web.Hotspot.{
  is_space, trim_left, cons_trimmed, trim_right, trim_space, byte_length, all_printable,
  validate_hotspot_value,
}
use logfalcon.Web.Hotspot.RoundTrip.{IsTrimmed}

trim_right-cons_trimmed :
    (p : ℕ → Bool) (c : ℕ) (s : List ℕ)
    → trim_right p s ≡ s
    → trim_right p (cons_trimmed p c s) ≡ cons_trimmed p c s
unfolding cons_trimmed trim_right
trim_right-cons_trimmed p c [] h = elim (Bool-cases (p c)) [
  | inl e ↦ rw e refl
  | inr e ↦ rw (e, e) refl
]
trim_right-cons_trimmed p c (d ∷ s) h = ap (cons_trimmed p c) h

trim_right_idem : (p : ℕ → Bool) (s : List ℕ) → trim_right p (trim_right p s) ≡ trim_right p s
unfolding trim_right
trim_right_idem p [] = refl
trim_right_idem p (c ∷ s) = trim_right-cons_trimmed p c (trim_right p s) (trim_right_idem p s)

-- A text that trimming on the left leaves alone is left alone by it after trimming on the right.
trim_left-cons_trimmed :
    (p : ℕ → Bool) (c : ℕ) (s : List ℕ)
    → p c ≡ false
    → trim_left p (cons_trimmed p c s) ≡ cons_trimmed p c s
unfolding cons_trimmed trim_left
trim_left-cons_trimmed p c [] e = rw (e, e) refl
trim_left-cons_trimmed p c (d ∷ s) e = rw e refl

trim_left_stays :
    (p : ℕ → Bool) (s : List ℕ)
    → trim_left p (trim_right p (trim_left p s)) ≡ trim_right p (trim_left p s)
unfolding trim_left trim_right
trim_left_stays p [] = refl
trim_left_stays p (c ∷ s) = elim (Bool-cases (p c)) [
  | inl e ↦ rw e (trim_left_stays p s)
  | inr e ↦ rw e (trim_left-cons_trimmed p c (trim_right p s) e)
]

printable_Lack : (s : List ℕ) → all_printable s ≡ true → Lacks b'\n' s
unfolding all_printable
printable_Lack [] h = tt
printable_Lack (c ∷ s) h =
    let (a, b) = and_true (not (ltb c 32 || c == 127)) (all_printable s) h in
    (no_newline c a, printable_Lack s b)
  where
    no_newline : (d : ℕ) → not (ltb d 32 || d == 127) ≡ true → (d == b'\n') ≡ false
    no_newline d e = ground arith

unless_false : (b x : Bool) → (if b then false else x) ≡ true → x ≡ true
unless_false b x e = ground arith

accepted_printable :
    (v : List ℕ) (min max : ℕ) → validate_hotspot_value v min max ≡ true → all_printable v ≡ true
unfolding validate_hotspot_value
accepted_printable v min max e =
    unless_false (ltb (byte_length v) min || ltb max (byte_length v)) (all_printable v) e

pub accepted-IsTrimmed :
    (raw : List ℕ) (min max : ℕ)
    → validate_hotspot_value (trim_space raw) min max ≡ true
    → IsTrimmed (trim_space raw)
unfolding trim_space
accepted-IsTrimmed raw min max h = record {
  left = trim_left_stays is_space raw;
  right = trim_right_idem is_space (trim_left is_space raw);
  one_line = printable_Lack _ (accepted_printable _ min max h);
}
