-- ===== src/Web/Sessions/Downloads.antt =====
-- internal/web/server.go: which files `handleDownload` serves.
use logfalcon.Prelude.{
  ℕ, ◌≡◌, refl, sym, ap, ◌∙◌, ◌-◌, arith, length, take, drop, take-append-drop, ◌⊎◌, inl, inr, Bool,
  true, false, Option, none, some, List, [], ◌∷◌, ◌++◌, if◌then◌else◌, on_if, bytes_eq,
  bytes_eq_sound,
}
use logfalcon.Web.Text.{trim_prefix, has_suffix}
use logfalcon.Web.Files.{Served, Reply, page, bodiless, send_file}
use logfalcon.Web.Sessions.{
  CleanPath, Places, resolve_session_path, manifest_filename, allowed_download, file_below,
  resolve_session_file, download_prefix, download_names, strip, Store, serve, serve_path,
  download_named, handle_download,
}
use logfalcon.Storage.Sessions.{raw_flash_filename}

-- What a download gets: an error page, or what `sendFile` gives for the raw file or the manifest directly in
-- the directory that the rest of the name stands for.
pub data Downloaded (places : Places) (store : Store) (sub if_none_match range_header : List ℕ)
    : Reply → Type 0 where
  not_found : Downloaded places store sub if_none_match range_header (bodiless 404 page)
  served :
      (session_id filename : List ℕ) (p : CleanPath) (f : Served)
      → (filename ≡ raw_flash_filename) ⊎ (filename ≡ manifest_filename)
      → sub ≡ session_id ++ b'/' ∷ filename
      → resolve_session_path places session_id ≡ some p
      → store (p ++ filename ∷ []) ≡ some f
      → Downloaded places store sub if_none_match range_header
          (send_file f if_none_match range_header)

module _ (places : Places) (store : Store) (sub if_none_match range_header : List ℕ) where
  serve_path-Downloaded :
      (session_id filename : List ℕ) (found : Option CleanPath)
      → (filename ≡ raw_flash_filename) ⊎ (filename ≡ manifest_filename)
      → sub ≡ session_id ++ b'/' ∷ filename
      → resolve_session_path places session_id ≡ found
      → Downloaded places store sub if_none_match range_header
          (serve_path store (file_below found filename) if_none_match range_header)
  unfolding serve_path file_below serve
  serve_path-Downloaded session_id filename none a s e = not_found
  serve_path-Downloaded session_id filename (some p) a s e =
      from_store (store (p ++ filename ∷ [])) refl
    where
      from_store :
          (o : Option Served)
          → store (p ++ filename ∷ []) ≡ o
          → Downloaded places store sub if_none_match range_header
              (serve o if_none_match range_header)
      from_store none q = not_found
      from_store (some f) q = served session_id filename p f a s e q

  -- A name taken apart.
  named_Downloaded :
      (session_id filename : List ℕ)
      → (filename ≡ raw_flash_filename) ⊎ (filename ≡ manifest_filename)
      → allowed_download filename ≡ true
      → sub ≡ session_id ++ b'/' ∷ filename
      → Downloaded places store sub if_none_match range_header
          (download_named places store (some (session_id, filename)) if_none_match range_header)
  unfolding download_named resolve_session_file
  named_Downloaded session_id filename a h s =
      rw h (
        serve_path-Downloaded session_id filename (resolve_session_path places session_id) a s refl)

pub has_suffix_sound :
    (s suffix : List ℕ) → has_suffix s suffix ≡ true → s ≡ strip s suffix ++ suffix
unfolding has_suffix
has_suffix_sound s suffix h =
    let n = length s - length suffix in
    let same : drop n s ≡ suffix = bytes_eq_sound (drop n s) suffix (both _ _ h) in
    sym (take-append-drop n s) ∙ ap (◌++◌ (take n s)) same
  where
    both : (a b : Bool) → (if a then b else false) ≡ true → b ≡ true
    both a b e = ground arith

-- `handleDownload` answers with an error page, or serves, as `sendFile` does, the raw file or the manifest
-- that stands directly in the directory its session names, where that is an accepted path.
pub handle_download-Downloaded :
    (places : Places) (store : Store) (url_path if_none_match range_header : List ℕ)
    → Downloaded places store
        (trim_prefix url_path download_prefix)
        if_none_match
        range_header
        (handle_download places store url_path if_none_match range_header)
unfolding handle_download download_names download_named allowed_download bytes_eq
handle_download-Downloaded places store url_path if_none_match range_header =
    let sub = trim_prefix url_path download_prefix in
    let holds = λ (o : Option (List ℕ × List ℕ)).
      Downloaded places store sub if_none_match range_header
        (download_named places store o if_none_match range_header) in
    on_if holds (has_suffix sub (b'/' ∷ raw_flash_filename)) _ _
      (λ e.
        named_Downloaded places store sub if_none_match range_header _ raw_flash_filename (inl refl)
          refl (has_suffix_sound sub (b'/' ∷ raw_flash_filename) e))
      (λ _.
        on_if holds (has_suffix sub (b'/' ∷ manifest_filename)) _ _
          (λ e.
            named_Downloaded places store sub if_none_match range_header _ manifest_filename
              (inr refl) refl (has_suffix_sound sub (b'/' ∷ manifest_filename) e))
          (λ _. not_found))
