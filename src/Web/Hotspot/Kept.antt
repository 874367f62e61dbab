-- ===== src/Web/Hotspot/Kept.antt =====
-- internal/web/server.go: saving the hotspot settings keeps all other settings of hostapd.conf.
use logfalcon.Prelude.{
  ℕ, ◌≡◌, refl, sym, ◌∙◌, false, none, some, List, [], ◌∷◌, ◌++◌, bytes_eq, All, All-append, arith,
}
use logfalcon.Prelude.Texts.{ascii}
use logfalcon.Web.Text.{has_suffix, split}
use logfalcon.Web.Files.Range.{Lacks}
use logfalcon.Web.Hotspot.{
  trim_space, trim_left, trim_right, cons_trimmed, read_hostapd_config, setting_of, Replacement,
  rewrite_lines, join_lines, lines_of, rewrite_prefixed_lines, ssid_key, password_key,
  hotspot_replacements,
}
use logfalcon.Web.Hotspot.Line.{IsKey}
use logfalcon.Web.Hotspot.Lines.{
  after_lines, setting_of-read_lines, IsOther, other_key, after_lines-rewrite_lines,
}
use logfalcon.Web.Hotspot.Newlines.{
  after_lines-join_lines, after_lines-closed, after_lines-lines_of, lines_of-Lack,
  rewrite_lines-Lack,
}

-- The two keys.
pub ssid_IsKey : IsKey b's' (ascii "sid")
unfolding trim_space trim_left trim_right cons_trimmed
ssid_IsKey = record {
  no_space = refl;
  no_comment = refl;
  no_equals = (refl, (refl, (refl, (refl, tt))));
  trimmed = refl;
}

pub password_IsKey : IsKey b'w' (ascii "pa_passphrase")
unfolding trim_space trim_left trim_right cons_trimmed
password_IsKey = record {
  no_space = refl;
  no_comment = refl;
  no_equals = ground arith;
  trimmed = refl;
}

-- What a reader finds for a key in a text.
reads :
    (key text : List ℕ)
    → setting_of key (read_hostapd_config (some text)) ≡ after_lines key (split b'\n' text) none
unfolding read_hostapd_config setting_of
reads key text = setting_of-read_lines key (split b'\n' text) []

-- What a reader finds for a key in the rewritten text is what the rewritten lines set.
pub reads-rewrite_prefixed_lines :
    (key : List ℕ) (rs : List Replacement) (text : List ℕ)
    → All (λ r. Lacks b'\n' r.new_line) rs
    → setting_of key (read_hostapd_config (some (rewrite_prefixed_lines rs text)))
      ≡ after_lines key (rewrite_lines rs (lines_of text)) none
unfolding rewrite_prefixed_lines
reads-rewrite_prefixed_lines key rs text h =
    let lines = rewrite_lines rs (lines_of text) in
    reads key _
    ∙ after_lines-closed key (has_suffix text (b'\n' ∷ [])) (join_lines lines) none
    ∙ after_lines-join_lines key lines none
        (rewrite_lines-Lack (lines_of text) rs (lines_of-Lack text) h)

-- The two lines do not break where the values do not.
pub hotspot_replacements-Lack :
    (ssid password : List ℕ)
    → Lacks b'\n' ssid
    → Lacks b'\n' password
    → All (λ r. Lacks b'\n' r.new_line) (hotspot_replacements ssid password)
hotspot_replacements-Lack ssid password h k = (
  All-append _ (ssid_key ++ b'=' ∷ []) ssid (ground arith) h,
  (All-append _ (password_key ++ b'=' ∷ []) password (ground arith) k, tt),
)

module _ (key ssid password : List ℕ) (not_ssid : bytes_eq ssid_key key ≡ false)
    (not_password : bytes_eq password_key key ≡ false) where
  others : All (IsOther key) (hotspot_replacements ssid password)
  others = (
    other_key b's' (ascii "sid") ssid refl refl ssid_IsKey not_ssid,
    (other_key b'w' (ascii "pa_passphrase") password refl refl password_IsKey not_password, tt),
  )

  -- The two settings of the hotspot that are saved change no other setting that is read of hostapd.conf,
  -- whatever the file holds, if neither value has a line break.
  pub rewrite_prefixed_lines-keeps :
      (text : List ℕ)
      → Lacks b'\n' ssid
      → Lacks b'\n' password
      → setting_of key (
          read_hostapd_config
            (some (rewrite_prefixed_lines (hotspot_replacements ssid password) text)))
        ≡ setting_of key (read_hostapd_config (some text))
  rewrite_prefixed_lines-keeps text h k =
      let rs = hotspot_replacements ssid password in
      reads-rewrite_prefixed_lines key rs text (hotspot_replacements-Lack ssid password h k)
      ∙ after_lines-rewrite_lines key (lines_of text) rs none others
      ∙ after_lines-lines_of key text none
      ∙ sym (reads key text)
