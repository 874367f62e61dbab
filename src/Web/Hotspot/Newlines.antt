-- ===== src/Web/Hotspot/Newlines.antt =====
-- internal/web/server.go: `rewritePrefixedLines` joins the lines that `readHostapdConfig` splits.
use logfalcon.Prelude.{
  ℕ, ◌≡◌, refl, sym, ap, ◌∙◌, Bool, true, false, ◌&&◌, not, Option, List, [], ◌∷◌, ◌++◌, arith, map,
  ◌==◌, ==_refl, on_if, All, All-append, Bool-cases, inl, inr,
}
use logfalcon.Web.Sessions.{strip}
use logfalcon.Web.Sessions.Downloads.{has_suffix_sound}
use logfalcon.Web.Text.{has_prefix, has_suffix, cut, split}
use logfalcon.Web.Files.Range.{Lacks}
use logfalcon.Web.Sessions.Confined.{split_Lack}
use logfalcon.Web.Hotspot.{
  trim_space, trim_left, trim_right, key_and_value, read_line, Replacement, replace_line, indent_of,
  stripped_of, rewrite_lines, join_lines, drop_last, lines_of, closed, is_blank,
}
use logfalcon.Web.Hotspot.Line.{AllBlank, split_indent}
use logfalcon.Web.Hotspot.Lines.{after_line, after_lines}

-- The split of a text without the separator, and of a text with it.
split_one : (sep : ℕ) (l : List ℕ) → Lacks sep l → split sep l ≡ l ∷ []
unfolding split
split_one sep [] h = refl
split_one sep (c ∷ l) h = rw (h.0, split_one sep l h.1) refl

pub split_at :
    (sep : ℕ) (l rest : List ℕ) → Lacks sep l → split sep (l ++ sep ∷ rest) ≡ l ∷ split sep rest
unfolding split
split_at sep [] rest h = rw (==_refl sep) refl
split_at sep (c ∷ l) rest h = rw (h.0, split_at sep l rest h.1) refl

-- There is always a first part.
split_some :
    (sep : ℕ) (s : List ℕ)
    → (part : List ℕ) × (parts : List (List ℕ)) × (split sep s ≡ part ∷ parts)
unfolding split
split_some sep [] = ([], [], refl)
split_some sep (c ∷ s) =
    let (part, parts, e) = split_some sep s in
    on_if (λ r. (p : List ℕ) × (ps : List (List ℕ)) × (r ≡ p ∷ ps)) (c == sep) _ _
      (λ _. ([], split sep s, refl)) (λ _. (c ∷ part, parts, rw e refl))

-- A separator at the end adds an empty part.
split_closed : (sep : ℕ) (a : List ℕ) → split sep (a ++ sep ∷ []) ≡ split sep a ++ [] ∷ []
unfolding split
split_closed sep [] = rw (==_refl sep) refl
split_closed sep (c ∷ a) =
    let (part, parts, e) = split_some sep a in
    elim (Bool-cases (c == sep)) [
      | inl b ↦ rw (b, split_closed sep a) refl
      | inr b ↦ rw (b, split_closed sep a, e) refl
    ]

empty_line : (key : List ℕ) (old : Option (List ℕ)) → after_line key (read_line []) old ≡ old
unfolding read_line trim_space trim_left trim_right has_prefix cut key_and_value
empty_line key old = refl

after_lines-append :
    (key : List ℕ) (ls : List (List ℕ)) (old : Option (List ℕ))
    → after_lines key (ls ++ [] ∷ []) old ≡ after_lines key ls old
after_lines-append key [] old = empty_line key old
after_lines-append key (l ∷ ls) old = after_lines-append key ls (after_line key (read_line l) old)

-- The lines that are joined are read again.
pub after_lines-join_lines :
    (key : List ℕ) (ls : List (List ℕ)) (old : Option (List ℕ))
    → All (Lacks b'\n') ls
    → after_lines key (split b'\n' (join_lines ls)) old ≡ after_lines key ls old
unfolding join_lines split
after_lines-join_lines key [] old h = empty_line key old
after_lines-join_lines key (l ∷ []) old h = ap (λ r. after_lines key r old) (split_one b'\n' l h.0)
after_lines-join_lines key (l ∷ m ∷ ls) old h =
    ap (λ r. after_lines key r old) (split_at b'\n' l (join_lines (m ∷ ls)) h.0)
    ∙ after_lines-join_lines key (m ∷ ls) (after_line key (read_line l) old) h.1

pub after_lines-closed :
    (key : List ℕ) (trailing : Bool) (out : List ℕ) (old : Option (List ℕ))
    → after_lines key (split b'\n' (closed trailing out)) old
      ≡ after_lines key (split b'\n' out) old
unfolding closed
after_lines-closed key trailing out old =
    on_if (λ r. after_lines key (split b'\n' r) old ≡ after_lines key (split b'\n' out) old)
      (trailing && not (has_suffix out (b'\n' ∷ []))) _ _
      (λ _.
        ap (λ r. after_lines key r old) (split_closed b'\n' out)
        ∙ after_lines-append key (split b'\n' out) old)
      (λ _. refl)

drop_last-append : (ls : List (List ℕ)) (l : List ℕ) → drop_last (ls ++ l ∷ []) ≡ ls
unfolding drop_last
drop_last-append [] l = refl
drop_last-append (k ∷ []) l = refl
drop_last-append (k ∷ m ∷ ls) l = ap (◌∷◌ k) (drop_last-append (m ∷ ls) l)

-- The lines of a text, with or without the empty part at its end.
pub after_lines-lines_of :
    (key text : List ℕ) (old : Option (List ℕ))
    → after_lines key (lines_of text) old ≡ after_lines key (split b'\n' text) old
unfolding lines_of
after_lines-lines_of key text old =
    on_if (λ r. after_lines key r old ≡ after_lines key (split b'\n' text) old)
      (has_suffix text (b'\n' ∷ [])) _ _ (λ e. dropped e) (λ _. refl)
  where
    dropped :
        has_suffix text (b'\n' ∷ []) ≡ true
        → after_lines key (drop_last (split b'\n' text)) old
          ≡ after_lines key (split b'\n' text) old
    dropped e =
        let body = strip text (b'\n' ∷ []) in
        let q : split b'\n' text ≡ split b'\n' body ++ [] ∷ [] =
          ap (split b'\n') (has_suffix_sound text (b'\n' ∷ []) e) ∙ split_closed b'\n' body in
        rw q (
          ap (λ r. after_lines key r old) (drop_last-append (split b'\n' body) [])
          ∙ sym (after_lines-append key (split b'\n' body) old))

-- No line that is written breaks.
drop_last-Lack : (ls : List (List ℕ)) → All (Lacks b'\n') ls → All (Lacks b'\n') (drop_last ls)
unfolding drop_last
drop_last-Lack [] h = tt
drop_last-Lack (l ∷ []) h = tt
drop_last-Lack (l ∷ m ∷ ls) h = (h.0, drop_last-Lack (m ∷ ls) h.1)

pub lines_of-Lack : (text : List ℕ) → All (Lacks b'\n') (lines_of text)
unfolding lines_of
lines_of-Lack text =
    on_if (All (Lacks b'\n')) (has_suffix text (b'\n' ∷ [])) _ _
      (λ _. drop_last-Lack (split b'\n' text) (split_Lack b'\n' text)) (λ _. split_Lack b'\n' text)

AllBlank-Lack : (s : List ℕ) → AllBlank s → Lacks b'\n' s
AllBlank-Lack [] h = tt
AllBlank-Lack (c ∷ s) h = (no_newline c h.0, AllBlank-Lack s h.1)
  where
    no_newline : (b : ℕ) → is_blank b ≡ true → (b == b'\n') ≡ false
    no_newline b e = ground arith

replace_line-Lack :
    (indent stripped line : List ℕ) (rs : List Replacement)
    → AllBlank indent
    → Lacks b'\n' line
    → All (λ r. Lacks b'\n' r.new_line) rs
    → Lacks b'\n' (replace_line indent stripped line rs).0
      × All (λ r. Lacks b'\n' r.new_line) (replace_line indent stripped line rs).1
unfolding replace_line
replace_line-Lack indent stripped line [] h l a = (l, tt)
replace_line-Lack indent stripped line (r ∷ rs) h l a =
    let again = replace_line-Lack indent stripped line rs h l a.1 in
    on_if
      (λ (x : List ℕ × List Replacement). Lacks b'\n' x.0 × All (λ r. Lacks b'\n' r.new_line) x.1)
      (has_prefix stripped r.prefix) _ _
      (λ _. (All-append _ indent r.new_line (AllBlank-Lack indent h) a.0, a.1))
      (λ _. (again.0, (a.0, again.1)))

new_lines-Lack :
    (rs : List Replacement)
    → All (λ r. Lacks b'\n' r.new_line) rs
    → All (Lacks b'\n') (map (λ r. r.new_line) rs)
new_lines-Lack [] a = tt
new_lines-Lack (r ∷ rs) a = (a.0, new_lines-Lack rs a.1)

pub rewrite_lines-Lack :
    (lines : List (List ℕ)) (rs : List Replacement)
    → All (Lacks b'\n') lines
    → All (λ r. Lacks b'\n' r.new_line) rs
    → All (Lacks b'\n') (rewrite_lines rs lines)
unfolding rewrite_lines
rewrite_lines-Lack [] rs h a = new_lines-Lack rs a
rewrite_lines-Lack (l ∷ ls) rs h a =
    let (q, b) = split_indent l in
    let (one, rest) = replace_line-Lack (indent_of l) (stripped_of l) l rs b h.0 a in
    (one, rewrite_lines-Lack ls _ h.1 rest)
