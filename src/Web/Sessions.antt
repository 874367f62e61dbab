-- ===== src/Web/Sessions.antt =====
-- internal/web/server.go: the paths of sessions in requests, the download and the deletion of sessions. An
-- absolute clean path is the list of its components. What the file system answers, symbolic links included,
-- is an argument.
pub mod Confined
pub mod Downloads
use logfalcon.Prelude.{
  ℕ, Bool, true, false, not, ◌&&◌, ◌||◌, Option, none, some, List, [], ◌∷◌, ◌++◌, ◌==◌, ◌-◌,
  if◌then◌else◌, bytes_eq, length, take,
}
use logfalcon.Web.Text.{has_prefix, has_suffix, trim_prefix, split}
use logfalcon.Web.Files.{Served, Reply, page, bodiless, send_file}
use logfalcon.Storage.Sessions.{raw_flash_filename}

abbrev pub CleanPath : Type 0
CleanPath = List (List ℕ)

-- A path as Go's string.
unfoldable pub text_below : CleanPath → List ℕ
text_below [] = []
text_below (c ∷ p) = b'/' ∷ c ++ text_below p

unfoldable pub path_text : CleanPath → List ℕ
unfolding text_below
path_text [] = b'/' ∷ []
path_text (c ∷ p) = text_below (c ∷ p)

-- `strings.Contains(s, "..")`
unfoldable pub has_dots : List ℕ → Bool
has_dots [] = false
has_dots (c ∷ []) = false
has_dots (c ∷ d ∷ s) = (c == b'.' && d == b'.') || has_dots (d ∷ s)

-- What `filepath.Join` adds to a clean path for a name without a slash, other than `..`.
unfoldable pub component : List ℕ → CleanPath
component name = if bytes_eq name [] || bytes_eq name (b'.' ∷ []) then [] else name ∷ []

-- What `filepath.Abs` gives for the storage path, and `filepath.EvalSymlinks` for any path.
pub record Places : Type 0 where
  pub abs_storage : Option CleanPath
  pub eval_symlinks : CleanPath → Option CleanPath

unfoldable pub or_else : Option CleanPath → CleanPath → CleanPath
or_else none p = p
or_else (some q) p = q

-- The last check, and the result.
unfoldable pub under_root : Places → CleanPath → CleanPath → Option CleanPath
unfolding path_text has_prefix or_else
under_root places storage candidate =
    if has_prefix (path_text (or_else (places.eval_symlinks candidate) candidate))
      (path_text (or_else (places.eval_symlinks storage) storage))
    then some candidate
    else none

unfoldable pub resolve_names : Places → List ℕ → List ℕ → Option CleanPath → Option CleanPath
unfolding has_dots component under_root
resolve_names places fc name none = none
resolve_names places fc name (some storage) =
    if has_dots fc || has_dots name
    then none
    else under_root places storage (storage ++ component fc ++ component name)

unfoldable pub resolve_parts : Places → List (List ℕ) → Option CleanPath
unfolding resolve_names
resolve_parts places (fc ∷ name ∷ []) = resolve_names places fc name places.abs_storage
resolve_parts places _ = none

-- `resolveSessionPath`; `none` is an error.
unfoldable pub resolve_session_path : Places → List ℕ → Option CleanPath
unfolding split resolve_parts
resolve_session_path places session_id = resolve_parts places (split b'/' session_id)

abbrev pub manifest_filename : List ℕ
manifest_filename =
    b'm' ∷ b'a' ∷ b'n' ∷ b'i' ∷ b'f' ∷ b'e' ∷ b's' ∷ b't' ∷ b'.' ∷ b'j' ∷ b's' ∷ b'o' ∷ b'n' ∷ []

-- `allowedDownloads`
unfoldable pub allowed_download : List ℕ → Bool
allowed_download name = bytes_eq name raw_flash_filename || bytes_eq name manifest_filename

unfoldable pub file_below : Option CleanPath → List ℕ → Option CleanPath
file_below none filename = none
file_below (some p) filename = some (p ++ filename ∷ [])

-- `resolveSessionFile`, before its `Stat`.
unfoldable pub resolve_session_file : Places → List ℕ → List ℕ → Option CleanPath
unfolding allowed_download resolve_session_path file_below
resolve_session_file places session_id filename =
    if allowed_download filename
    then file_below (resolve_session_path places session_id) filename
    else none

abbrev pub download_prefix : List ℕ
download_prefix = b'/' ∷ b'd' ∷ b'o' ∷ b'w' ∷ b'n' ∷ b'l' ∷ b'o' ∷ b'a' ∷ b'd' ∷ b'/' ∷ []

-- `sub[:len(sub)-len(suffix)]`
abbrev pub strip : List ℕ → List ℕ → List ℕ
strip sub suffix = take (length sub - length suffix) sub

-- The session and the file that a download names.
unfoldable pub download_names : List ℕ → Option (List ℕ × List ℕ)
unfolding has_suffix
download_names sub =
    if has_suffix sub (b'/' ∷ raw_flash_filename)
    then some (strip sub (b'/' ∷ raw_flash_filename), raw_flash_filename)
    else if has_suffix sub (b'/' ∷ manifest_filename)
    then some (strip sub (b'/' ∷ manifest_filename), manifest_filename)
    else none

-- The files that can be served; where there is none, `Stat` fails.
abbrev pub Store : Type 0
Store = CleanPath → Option Served

unfoldable pub serve : Option Served → List ℕ → List ℕ → Reply
unfolding send_file
serve none if_none_match range_header = bodiless 404 page
serve (some f) if_none_match range_header = send_file f if_none_match range_header

unfoldable pub serve_path : Store → Option CleanPath → List ℕ → List ℕ → Reply
unfolding serve
serve_path store none if_none_match range_header = bodiless 404 page
serve_path store (some p) if_none_match range_header = serve (store p) if_none_match range_header

-- The names taken apart, with the check against the table once more.
unfoldable pub download_named : Places → Store → Option (List ℕ × List ℕ) → List ℕ → List ℕ → Reply
unfolding allowed_download resolve_session_file serve_path
download_named places store none if_none_match range_header = bodiless 404 page
download_named places store (some (session_id, filename)) if_none_match range_header =
    if allowed_download filename
    then serve_path store (resolve_session_file places session_id filename) if_none_match
        range_header
    else bodiless 400 page

-- `handleDownload`
unfoldable pub handle_download :
    Places → Store → (url_path if_none_match range_header : List ℕ) → Reply
unfolding trim_prefix download_names download_named
handle_download places store url_path if_none_match range_header =
    download_named places store (download_names (trim_prefix url_path download_prefix))
      if_none_match range_header
