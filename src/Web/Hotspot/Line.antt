-- ===== src/Web/Hotspot/Line.antt =====
-- internal/web/server.go: how `readHostapdConfig` reads the lines that `rewritePrefixedLines` replaces and
-- writes.
use mathlib.Core.Path.{subst}
use logfalcon.Prelude.{
  ◌-◌, length, take, length-append, take-length_append, ℕ, ◌≡◌, refl, sym, ap, ◌∙◌, Bool, true,
  false, Option, none, some, List, [], ◌∷◌, ◌++◌, arith, ◌==◌, ==_iff, if◌then◌else◌, on_if, All,
  and_true,
}
use logfalcon.Web.Text.{has_prefix, cut}
use logfalcon.Web.Files.Range.{Lacks}
use logfalcon.Web.Files.Slice.{cut_at}
use logfalcon.Web.Hotspot.{
  is_space, trim_left, cons_trimmed, trim_right, trim_space, key_and_value, read_line, is_blank,
  stripped_of, indent_of,
}

-- A key that can stand in a line: it begins with no space and no `#`, has no `=`, and nothing to trim.
pub record IsKey (c : ℕ) (name : List ℕ) : Type 0 where
  pub no_space : is_space c ≡ false
  pub no_comment : (c == b'#') ≡ false
  pub no_equals : Lacks b'=' (c ∷ name)
  pub trimmed : trim_space (c ∷ name) ≡ c ∷ name

-- Only blanks, as an indent has.
abbrev pub AllBlank : List ℕ → Type 0
AllBlank = All (λ c. is_blank c ≡ true)

blank_space : (c : ℕ) → is_blank c ≡ true → is_space c ≡ true
blank_space c h = ground arith

-- Spaces before a text that begins with none are trimmed.
trim_left_indent :
    (indent : List ℕ) (c : ℕ) (s : List ℕ)
    → AllBlank indent
    → is_space c ≡ false
    → trim_left is_space (indent ++ c ∷ s) ≡ c ∷ s
unfolding trim_left
trim_left_indent [] c s h e = rw e refl
trim_left_indent (b ∷ indent) c s h e = rw (blank_space b h.0) (trim_left_indent indent c s h.1 e)

cons_trimmed_more : (p : ℕ → Bool) (c d : ℕ) (s : List ℕ) → cons_trimmed p c (d ∷ s) ≡ c ∷ d ∷ s
unfolding cons_trimmed
cons_trimmed_more p c d s = refl

cons_trimmed_kept : (p : ℕ → Bool) (c : ℕ) (s : List ℕ) → p c ≡ false → cons_trimmed p c s ≡ c ∷ s
unfolding cons_trimmed
cons_trimmed_kept p c [] h = rw h refl
cons_trimmed_kept p c (d ∷ s) h = refl

-- What stands before a character that stays, stays.
trim_right_after :
    (p : ℕ → Bool) (a : List ℕ) (c : ℕ) (r : List ℕ)
    → p c ≡ false
    → trim_right p (a ++ c ∷ r) ≡ a ++ c ∷ trim_right p r
unfolding trim_right
trim_right_after p [] c r h = cons_trimmed_kept p c (trim_right p r) h
trim_right_after p (x ∷ []) c r h =
    rw (cons_trimmed_kept p c (trim_right p r) h) (cons_trimmed_more p x c (trim_right p r))
trim_right_after p (x ∷ y ∷ a) c r h =
    ap (cons_trimmed p x) (trim_right_after p (y ∷ a) c r h)
    ∙ cons_trimmed_more p x y (a ++ c ∷ trim_right p r)

-- What is read of a trimmed line.
abbrev read_trimmed : List ℕ → Option (List ℕ × List ℕ)
read_trimmed s = if has_prefix s (b'#' ∷ []) then none else key_and_value (cut b'=' s)

read_trimmed_sets :
    (c : ℕ) (name rest : List ℕ)
    → IsKey c name
    → read_trimmed (c ∷ (name ++ b'=' ∷ rest)) ≡ some (c ∷ name, trim_space rest)
unfolding has_prefix key_and_value
read_trimmed_sets c name rest k =
    rw (k.no_comment, cut_at b'=' (c ∷ name) rest k.no_equals, k.trimmed) refl

trim_space_setting :
    (indent : List ℕ) (c : ℕ) (name rest : List ℕ)
    → AllBlank indent
    → IsKey c name
    → trim_space (indent ++ (c ∷ (name ++ b'=' ∷ rest)))
      ≡ c ∷ (name ++ b'=' ∷ trim_right is_space rest)
unfolding trim_space
trim_space_setting indent c name rest h k =
    ap (trim_right is_space) (trim_left_indent indent c (name ++ b'=' ∷ rest) h k.no_space)
    ∙ trim_right_after is_space (c ∷ name) b'=' rest refl

-- A line that sets a key is read as such.
pub read_line_sets :
    (indent : List ℕ) (c : ℕ) (name rest : List ℕ)
    → AllBlank indent
    → IsKey c name
    → read_line (indent ++ (c ∷ (name ++ b'=' ∷ rest)))
      ≡ some (c ∷ name, trim_space (trim_right is_space rest))
unfolding read_line
read_line_sets indent c name rest h k =
    ap read_trimmed (trim_space_setting indent c name rest h k)
    ∙ read_trimmed_sets c name (trim_right is_space rest) k

-- A text with a prefix is the prefix and a rest.
pub has_prefix_sound :
    (s prefix : List ℕ) → has_prefix s prefix ≡ true → (rest : List ℕ) × (s ≡ prefix ++ rest)
unfolding has_prefix
has_prefix_sound s [] h = (s, refl)
has_prefix_sound [] (p ∷ ps) h = absurd (cc h)
has_prefix_sound (c ∷ s) (p ∷ ps) h =
    let (e, t) = and_true (c == p) (has_prefix s ps) h in
    let (rest, q) = has_prefix_sound s ps t in let same = (==_iff c p).0 e in (rest, cc (same, q))

blanks_before :
    (line : List ℕ) → (blanks : List ℕ) × ((line ≡ blanks ++ stripped_of line) × AllBlank blanks)
unfolding trim_left
blanks_before [] = ([], (refl, tt))
blanks_before (c ∷ s) =
    on_if (λ r. (blanks : List ℕ) × ((c ∷ s ≡ blanks ++ r) × AllBlank blanks)) (is_blank c)
      (stripped_of s) (c ∷ s) (λ e. longer (blanks_before s) e) (λ e. ([], (refl, tt)))
  where
    longer :
        (blanks : List ℕ) × ((s ≡ blanks ++ stripped_of s) × AllBlank blanks)
        → is_blank c ≡ true
        → (blanks : List ℕ) × ((c ∷ s ≡ blanks ++ stripped_of s) × AllBlank blanks)
    longer (blanks, (q, h)) e = (c ∷ blanks, (ap (◌∷◌ c) q, (e, h)))

taken_blanks :
    (blanks rest line : List ℕ)
    → line ≡ blanks ++ rest
    → take (length line - length rest) line ≡ blanks
taken_blanks blanks rest line e =
    let n : length (blanks ++ rest) - length rest ≡ length blanks =
      omega (arith, length-append blanks rest) in
    rw (e, n) (take-length_append blanks rest)

-- A line is its indent, which is blank, and the rest.
pub split_indent :
    (line : List ℕ) → (line ≡ indent_of line ++ stripped_of line) × AllBlank (indent_of line)
split_indent line =
    let (blanks, (q, h)) = blanks_before line in
    let same : indent_of line ≡ blanks = taken_blanks blanks (stripped_of line) line q in
    (q ∙ ap (λ b. b ++ stripped_of line) (sym same), subst AllBlank (sym same) h)
