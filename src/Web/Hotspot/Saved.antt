-- ===== src/Web/Hotspot/Saved.antt =====
-- internal/web/server.go: the hotspot settings that are saved are the ones that are read.
use logfalcon.Prelude.{
  arith, on_if, ℕ, ◌≡◌, refl, ap, ◌∙◌, Bool, true, false, not, Option, none, some, List, [], ◌∷◌,
  ◌++◌, map, bytes_eq, bytes_eq_refl, All,
}
use logfalcon.Web.Text.{has_prefix, cut}
use logfalcon.Web.Files.Slice.{cut_at}
use logfalcon.Web.Hotspot.{
  is_space, trim_left, trim_right, trim_space, read_line, Replacement, replace_line, stripped_of,
  indent_of, rewrite_lines, replacement_for,
}
use logfalcon.Web.Hotspot.Line.{IsKey, AllBlank, read_line_sets, has_prefix_sound, split_indent}
use logfalcon.Web.Hotspot.Lines.{
  after_line, after_lines, IsOther, other_key, other_line, replace_line-Same, new_lines_keep,
  after_lines-rewrite_lines,
}
use mathlib.Core.List.{append_assoc}

-- A line that does not set the key.
abbrev pub is_silent : List ℕ → Option (List ℕ × List ℕ) → Bool
is_silent key none = true
is_silent key (some (k, v)) = not (bytes_eq k key)

-- Behind the first line with the prefix no line sets the key.
pub data SetOnce (key prefix : List ℕ) : List (List ℕ) → Type 0 where
  unset : SetOnce key prefix []
  later :
      {l : List ℕ} {ls : List (List ℕ)}
      → has_prefix (stripped_of l) prefix ≡ false
      → SetOnce key prefix ls
      → SetOnce key prefix (l ∷ ls)
  found :
      {l : List ℕ} {ls : List (List ℕ)}
      → has_prefix (stripped_of l) prefix ≡ true
      → All (λ m. is_silent key (read_line m) ≡ true) ls
      → SetOnce key prefix (l ∷ ls)

silent_line :
    (key : List ℕ) (o : Option (List ℕ × List ℕ)) (old : Option (List ℕ))
    → is_silent key o ≡ true
    → after_line key o old ≡ old
silent_line key none old h = refl
silent_line key (some (k, v)) old h = ground (arith, h)

silent_lines :
    (key : List ℕ) (ls : List (List ℕ)) (old : Option (List ℕ))
    → All (λ m. is_silent key (read_line m) ≡ true) ls
    → after_lines key ls old ≡ old
silent_lines key [] old h = refl
silent_lines key (l ∷ ls) old h =
    ap (after_lines key ls) (silent_line key (read_line l) old h.0) ∙ silent_lines key ls old h.1

module _ (c : ℕ) (name value : List ℕ) (is_key : IsKey c name)
    (left : trim_left is_space value ≡ value) (right : trim_right is_space value ≡ value) where
  abbrev key : List ℕ
  key = c ∷ name

  abbrev mine : Replacement
  mine = replacement_for key value

  -- One replacement is of the key, the others are of other keys.
  pub data Has : List Replacement → Type 0 where
    first : {rs : List Replacement} → All (IsOther key) rs → Has (mine ∷ rs)
    behind : {r : Replacement} {rs : List Replacement} → IsOther key r → Has rs → Has (r ∷ rs)

  -- The written line sets the value.
  mine_sets :
      (indent : List ℕ) (old : Option (List ℕ))
      → AllBlank indent
      → after_line key (read_line (indent ++ mine.new_line)) old ≡ some value
  unfolding trim_space
  mine_sets indent old h =
      rw (read_line_sets indent c name value h is_key, bytes_eq_refl key, right, left, right) refl

  other_keeps :
      (r : Replacement) (old : Option (List ℕ))
      → IsOther key r
      → after_line key (read_line r.new_line) old ≡ old
  other_keeps r old (other_key d other v p n k e) =
      ap (λ s. after_line key (read_line s) old) n ∙ other_line key old [] d other v tt k e

  new_lines_set :
      (rs : List Replacement) (old : Option (List ℕ))
      → Has rs
      → after_lines key (map (λ r. r.new_line) rs) old ≡ some value
  new_lines_set _ old (first {rs} a) =
      ap (after_lines key (map (λ r. r.new_line) rs)) (mine_sets [] old tt)
      ∙ new_lines_keep key rs (some value) a
  new_lines_set _ old (behind {r} {rs} o h) =
      ap (after_lines key (map (λ r. r.new_line) rs)) (other_keeps r old o) ∙ new_lines_set rs old h

  -- No line has the prefixes of two keys.
  exclusive :
      (stripped : List ℕ) (r : Replacement)
      → IsOther key r
      → has_prefix stripped mine.prefix ≡ true
      → has_prefix stripped r.prefix ≡ true
      → ⊥
  exclusive stripped r (other_key d other v p n k e) g h =
      let (x, q) = has_prefix_sound stripped mine.prefix g in
      let (y, s) = has_prefix_sound stripped r.prefix h in
      let one : cut b'=' stripped ≡ some (key, x) =
        ap (cut b'=') (q ∙ append_assoc key (b'=' ∷ []) x) ∙ cut_at b'=' key x is_key.no_equals in
      let two : cut b'=' stripped ≡ some (d ∷ other, y) =
        ap (cut b'=') (s ∙ ap (λ t. t ++ y) p ∙ append_assoc (d ∷ other) (b'=' ∷ []) y)
        ∙ cut_at b'=' (d ∷ other) y k.no_equals in
      let same : d ∷ other ≡ key = cc (one, two) in
      absurd (cc (e, ap (λ t. bytes_eq t key) same, bytes_eq_refl key))

  module _ (indent stripped line : List ℕ) (whole : line ≡ indent ++ stripped)
      (blank : AllBlank indent) where
    -- The first line with the prefix is replaced by the setting.
    abbrev Sets : List ℕ × List Replacement → Type 0
    Sets r = (r.0 ≡ indent ++ mine.new_line) × All (IsOther key) r.1

    replace_line-Sets :
        (rs : List Replacement)
        → Has rs
        → has_prefix stripped mine.prefix ≡ true
        → Sets (replace_line indent stripped line rs)
    unfolding replace_line
    replace_line-Sets _ (first {rs} a) e = rw e (refl, a)
    replace_line-Sets _ (behind {r} {rs} o h) e =
        let again = replace_line-Sets rs h e in
        on_if Sets (has_prefix stripped r.prefix) _ _ (λ f. absurd (exclusive stripped r o e f))
          (λ _. (again.0, (o, again.1)))

    -- Another line leaves the replacement of the key.
    replace_line-Has :
        (rs : List Replacement)
        → Has rs
        → has_prefix stripped mine.prefix ≡ false
        → Has (replace_line indent stripped line rs).1
    unfolding replace_line
    replace_line-Has _ (first {rs} a) e =
        rw e (first (replace_line-Same key indent stripped line rs whole blank a).1)
    replace_line-Has _ (behind {r} {rs} o h) e =
        let again = replace_line-Has rs h e in
        on_if {A = List ℕ × List Replacement} (λ x. Has x.1) (has_prefix stripped r.prefix) _ _
          (λ _. h) (λ _. behind o again)

  -- The rewritten lines set the key to the value.
  pub rewrite_lines-Sets :
      (lines : List (List ℕ)) (rs : List Replacement) (old : Option (List ℕ))
      → SetOnce key mine.prefix lines
      → Has rs
      → after_lines key (rewrite_lines rs lines) old ≡ some value
  unfolding rewrite_lines
  rewrite_lines-Sets [] rs old unset h = new_lines_set rs old h
  rewrite_lines-Sets (l ∷ ls) rs old (later e s) h =
      let (q, b) = split_indent l in
      rewrite_lines-Sets ls _ _ s (replace_line-Has (indent_of l) (stripped_of l) l q b rs h e)
  rewrite_lines-Sets (l ∷ ls) rs old (found e silent) h =
      let (q, b) = split_indent l in
      let (out, rest) = replace_line-Sets (indent_of l) (stripped_of l) l q b rs h e in
      let here = ap (λ s. after_line key (read_line s) old) out ∙ mine_sets (indent_of l) old b in
      ap (after_lines key (rewrite_lines _ ls)) here
      ∙ after_lines-rewrite_lines key ls _ (some value) rest
      ∙ silent_lines key ls (some value) silent
