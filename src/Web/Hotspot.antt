-- ===== src/Web/Hotspot.antt =====
-- internal/web/server.go: the hotspot settings, `readHostapdConfig` and `rewritePrefixedLines`. A text is the
-- list of its characters (code points); the functions on strings are the same on these. A map is the list of
-- its pairs in the order in which `range` comes to them. No line begins with two of the prefixes used here,
-- so that order decides only the order of the lines that are added.
pub mod Line
pub mod Lines
pub mod Newlines
pub mod Kept
pub mod Saved
pub mod RoundTrip
use logfalcon.Prelude.{
  ℕ, ◌+◌, ◌-◌, Bool, true, false, not, ◌&&◌, ◌||◌, Option, none, some, List, [], ◌∷◌, ◌++◌, ◌==◌,
  ltb, leb, if◌then◌else◌, bytes_eq, length, take, map,
}
use logfalcon.Prelude.Texts.{ascii}
use logfalcon.Web.Text.{has_prefix, has_suffix, cut, split}

-- `unicode.IsSpace`
abbrev pub is_space : ℕ → Bool
is_space c =
    (leb 9 c && leb c 13)
    || c == 32
    || c == 133
    || c == 160
    || c == 5760
    || (leb 8192 c && leb c 8202)
    || c == 8232
    || c == 8233
    || c == 8239
    || c == 8287
    || c == 12288

unfoldable pub trim_left : (ℕ → Bool) → List ℕ → List ℕ
trim_left p [] = []
trim_left p (c ∷ s) = let rest = trim_left p s in if p c then rest else c ∷ s

-- A character goes where only such characters follow it.
unfoldable pub cons_trimmed : (ℕ → Bool) → ℕ → List ℕ → List ℕ
cons_trimmed p c [] = if p c then [] else c ∷ []
cons_trimmed p c (d ∷ s) = c ∷ d ∷ s

unfoldable pub trim_right : (ℕ → Bool) → List ℕ → List ℕ
unfolding cons_trimmed
trim_right p [] = []
trim_right p (c ∷ s) = cons_trimmed p c (trim_right p s)

-- `strings.TrimSpace`
unfoldable pub trim_space : List ℕ → List ℕ
unfolding trim_left trim_right
trim_space s = trim_right is_space (trim_left is_space s)

-- A line with its key and its value; `none` is a `continue`.
unfoldable pub key_and_value : Option (List ℕ × List ℕ) → Option (List ℕ × List ℕ)
unfolding trim_space
key_and_value none = none
key_and_value (some (k, v)) = some (trim_space k, trim_space v)

unfoldable pub read_line : List ℕ → Option (List ℕ × List ℕ)
unfolding trim_space has_prefix cut key_and_value
read_line line =
    if has_prefix (trim_space line) (b'#' ∷ [])
    then none
    else key_and_value (cut b'=' (trim_space line))

abbrev pub put_setting : Option (List ℕ × List ℕ) → List (List ℕ × List ℕ) → List (List ℕ × List ℕ)
put_setting none settings = settings
put_setting (some s) settings = s ∷ settings

-- The loop, with the settings read so far, the last one first.
unfoldable pub read_lines : List (List ℕ) → List (List ℕ × List ℕ) → List (List ℕ × List ℕ)
unfolding read_line
read_lines [] settings = settings
read_lines (line ∷ lines) settings = read_lines lines (put_setting (read_line line) settings)

-- `readHostapdConfig`; `none` is a file that cannot be read.
unfoldable pub read_hostapd_config : Option (List ℕ) → List (List ℕ × List ℕ)
unfolding split read_lines
read_hostapd_config none = []
read_hostapd_config (some text) = read_lines (split b'\n' text) []

-- The value of a key in the map.
unfoldable pub setting_of : List ℕ → List (List ℕ × List ℕ) → Option (List ℕ)
unfolding bytes_eq
setting_of key [] = none
setting_of key ((k, v) ∷ rest) = if bytes_eq k key then some v else setting_of key rest

-- An entry of the argument `replacements`.
pub record Replacement : Type 0 where
  pub prefix : List ℕ
  pub new_line : List ℕ

abbrev is_blank : ℕ → Bool
is_blank c = c == b' ' || c == b'\t'

-- The inner loop over what remains: the line to write, and what remains then.
unfoldable pub replace_line :
    (indent stripped line : List ℕ) → List Replacement → List ℕ × List Replacement
unfolding has_prefix
replace_line indent stripped line [] = (line, [])
replace_line indent stripped line (r ∷ rs) =
    let (out, rest) = replace_line indent stripped line rs in
    if has_prefix stripped r.prefix then (indent ++ r.new_line, rs) else (out, r ∷ rest)

abbrev pub stripped_of : List ℕ → List ℕ
stripped_of line = trim_left is_blank line

abbrev pub indent_of : List ℕ → List ℕ
indent_of line = take (length line - length (stripped_of line)) line

unfoldable pub rewrite_lines : List Replacement → List (List ℕ) → List (List ℕ)
unfolding replace_line trim_left
rewrite_lines rs [] = map (λ r. r.new_line) rs
rewrite_lines rs (line ∷ lines) =
    let (out, rest) = replace_line (indent_of line) (stripped_of line) line rs in
    out ∷ rewrite_lines rest lines

-- `strings.Join(lines, "\n")`
unfoldable pub join_lines : List (List ℕ) → List ℕ
join_lines [] = []
join_lines (l ∷ []) = l
join_lines (l ∷ m ∷ ls) = l ++ b'\n' ∷ join_lines (m ∷ ls)

unfoldable pub drop_last : List (List ℕ) → List (List ℕ)
drop_last [] = []
drop_last (l ∷ []) = []
drop_last (l ∷ m ∷ ls) = l ∷ drop_last (m ∷ ls)

unfoldable pub lines_of : List ℕ → List (List ℕ)
unfolding has_suffix split drop_last
lines_of text =
    if has_suffix text (b'\n' ∷ []) then drop_last (split b'\n' text) else split b'\n' text

-- `if trailingNL && !strings.HasSuffix(out, "\n")`
unfoldable pub closed : Bool → List ℕ → List ℕ
unfolding has_suffix
closed trailing out =
    if trailing && not (has_suffix out (b'\n' ∷ [])) then out ++ b'\n' ∷ [] else out

-- The text that `rewritePrefixedLines` writes in place of `text`.
unfoldable pub rewrite_prefixed_lines : List Replacement → List ℕ → List ℕ
unfolding lines_of rewrite_lines join_lines closed has_suffix
rewrite_prefixed_lines rs text =
    closed (has_suffix text (b'\n' ∷ [])) (join_lines (rewrite_lines rs (lines_of text)))

-- `len` of a text in UTF-8.
abbrev utf8_width : ℕ → ℕ
utf8_width c = if ltb c 128 then 1 else if ltb c 2048 then 2 else if ltb c 65536 then 3 else 4

unfoldable pub byte_length : List ℕ → ℕ
byte_length [] = 0
byte_length (c ∷ s) = utf8_width c + byte_length s

unfoldable pub all_printable : List ℕ → Bool
all_printable [] = true
all_printable (c ∷ s) = not (ltb c 32 || c == 127) && all_printable s

-- `validateHotspotValue`; whether its message is empty.
unfoldable pub validate_hotspot_value : List ℕ → (min max : ℕ) → Bool
unfolding byte_length all_printable
validate_hotspot_value value min max =
    if ltb (byte_length value) min || ltb max (byte_length value)
    then false
    else all_printable value

abbrev pub ssid_key : List ℕ
ssid_key = ascii "ssid"

abbrev pub password_key : List ℕ
password_key = ascii "wpa_passphrase"

abbrev pub replacement_for : List ℕ → List ℕ → Replacement
replacement_for key value = record { prefix = key ++ b'=' ∷ []; new_line = key ++ b'=' ∷ value }

-- The argument that `handleSettingsPost` gives for hostapd.conf.
abbrev pub hotspot_replacements : (ssid password : List ℕ) → List Replacement
hotspot_replacements ssid password =
    replacement_for ssid_key ssid ∷ replacement_for password_key password ∷ []
