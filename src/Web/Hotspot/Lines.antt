-- ===== src/Web/Hotspot/Lines.antt =====
-- internal/web/server.go: the rewriting of lines keeps the settings of all other keys.
use logfalcon.Prelude.{
  ℕ, ◌≡◌, refl, sym, ap, ◌∙◌, true, false, Option, none, some, List, [], ◌∷◌, ◌++◌, map,
  if◌then◌else◌, on_if, bytes_eq, All,
}
use logfalcon.Web.Text.{has_prefix}
use logfalcon.Web.Hotspot.{
  read_line, put_setting, read_lines, setting_of, Replacement, replace_line, indent_of, stripped_of,
  rewrite_lines,
}
use logfalcon.Web.Hotspot.Line.{IsKey, AllBlank, read_line_sets, has_prefix_sound, split_indent}
use mathlib.Core.List.{append_assoc}

-- The value of the key after one more line.
abbrev pub after_line : List ℕ → Option (List ℕ × List ℕ) → Option (List ℕ) → Option (List ℕ)
after_line key none old = old
after_line key (some (k, v)) old = if bytes_eq k key then some v else old

abbrev pub after_lines : List ℕ → List (List ℕ) → Option (List ℕ) → Option (List ℕ)
after_lines key [] old = old
after_lines key (l ∷ ls) old = after_lines key ls (after_line key (read_line l) old)

setting_of-put_setting :
    (key : List ℕ) (o : Option (List ℕ × List ℕ)) (settings : List (List ℕ × List ℕ))
    → setting_of key (put_setting o settings) ≡ after_line key o (setting_of key settings)
unfolding setting_of
setting_of-put_setting key none settings = refl
setting_of-put_setting key (some (k, v)) settings = refl

pub setting_of-read_lines :
    (key : List ℕ) (lines : List (List ℕ)) (settings : List (List ℕ × List ℕ))
    → setting_of key (read_lines lines settings) ≡ after_lines key lines (setting_of key settings)
unfolding read_lines
setting_of-read_lines key [] settings = refl
setting_of-read_lines key (l ∷ ls) settings =
    setting_of-read_lines key ls (put_setting (read_line l) settings)
    ∙ ap (after_lines key ls) (setting_of-put_setting key (read_line l) settings)

-- A replacement of the setting of another key.
pub data IsOther (key : List ℕ) (r : Replacement) : Type 0 where
  other_key :
      (c : ℕ) (name value : List ℕ)
      → r.prefix ≡ c ∷ (name ++ b'=' ∷ [])
      → r.new_line ≡ c ∷ (name ++ b'=' ∷ value)
      → IsKey c name
      → bytes_eq (c ∷ name) key ≡ false
      → IsOther key r

-- A line that sets another key.
pub other_line :
    (key : List ℕ) (old : Option (List ℕ)) (indent : List ℕ) (c : ℕ) (name rest : List ℕ)
    → AllBlank indent
    → IsKey c name
    → bytes_eq (c ∷ name) key ≡ false
    → after_line key (read_line (indent ++ (c ∷ (name ++ b'=' ∷ rest)))) old ≡ old
other_line key old indent c name rest h k e = rw (read_line_sets indent c name rest h k, e) refl

-- The line that is written has the effect of the line before.
pub replaced_line :
    (key : List ℕ) (old : Option (List ℕ)) (indent stripped line : List ℕ) (r : Replacement)
    → line ≡ indent ++ stripped
    → AllBlank indent
    → IsOther key r
    → has_prefix stripped r.prefix ≡ true
    → after_line key (read_line (indent ++ r.new_line)) old ≡ after_line key (read_line line) old
replaced_line key old indent stripped line r l h (other_key c name value p n k e) has =
    let (rest, q) = has_prefix_sound stripped r.prefix has in
    let whole : line ≡ indent ++ (c ∷ (name ++ b'=' ∷ rest)) =
      l
      ∙ ap (λ s. indent ++ s)
          (q ∙ ap (λ s. s ++ rest) p ∙ append_assoc (c ∷ name) (b'=' ∷ []) rest) in
    ap (λ s. after_line key (read_line (indent ++ s)) old) n
    ∙ other_line key old indent c name value h k e
    ∙ sym (
        ap (λ s. after_line key (read_line s) old) whole
        ∙ other_line key old indent c name rest h k e)

-- What `replace_line` returns.
abbrev pub Same : List ℕ → List ℕ → List ℕ × List Replacement → Type 0
Same key line r =
    ((old : Option (List ℕ))
      → after_line key (read_line r.0) old ≡ after_line key (read_line line) old)
    × All (IsOther key) r.1

pub replace_line-Same :
    (key indent stripped line : List ℕ) (rs : List Replacement)
    → line ≡ indent ++ stripped
    → AllBlank indent
    → All (IsOther key) rs
    → Same key line (replace_line indent stripped line rs)
unfolding replace_line
replace_line-Same key indent stripped line [] l h a = ((λ old. refl), tt)
replace_line-Same key indent stripped line (r ∷ rs) l h a =
    let again = replace_line-Same key indent stripped line rs l h a.1 in
    on_if (Same key line) (has_prefix stripped r.prefix) _ _
      (λ e. ((λ old. replaced_line key old indent stripped line r l h a.0 e), a.1))
      (λ e. (again.0, (a.0, again.1)))

pub new_lines_keep :
    (key : List ℕ) (rs : List Replacement) (old : Option (List ℕ))
    → All (IsOther key) rs
    → after_lines key (map (λ r. r.new_line) rs) old ≡ old
new_lines_keep key [] old a = refl
new_lines_keep key (r ∷ rs) old (other_key c name value p n k e, a) =
    let here : after_line key (read_line r.new_line) old ≡ old =
      ap (λ s. after_line key (read_line s) old) n ∙ other_line key old [] c name value tt k e in
    ap (after_lines key (map (λ r. r.new_line) rs)) here ∙ new_lines_keep key rs old a

-- The rewritten lines give another key the value that the lines before gave it.
pub after_lines-rewrite_lines :
    (key : List ℕ) (lines : List (List ℕ)) (rs : List Replacement) (old : Option (List ℕ))
    → All (IsOther key) rs
    → after_lines key (rewrite_lines rs lines) old ≡ after_lines key lines old
unfolding rewrite_lines
after_lines-rewrite_lines key [] rs old a = new_lines_keep key rs old a
after_lines-rewrite_lines key (l ∷ ls) rs old a =
    let (q, h) = split_indent l in
    let (same, rest) = replace_line-Same key (indent_of l) (stripped_of l) l rs q h a in
    after_lines-rewrite_lines key ls _ _ rest ∙ ap (after_lines key ls) (same old)
