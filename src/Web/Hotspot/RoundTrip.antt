-- ===== src/Web/Hotspot/RoundTrip.antt =====
-- internal/web/server.go: `readHostapdConfig` after `rewritePrefixedLines` with the hotspot settings.
use logfalcon.Prelude.{ℕ, ◌≡◌, refl, ◌∙◌, false, none, some, List, [], ◌∷◌, ◌++◌, bytes_eq}
use logfalcon.Prelude.Texts.{ascii}
use logfalcon.Web.Files.Range.{Lacks}
use logfalcon.Web.Hotspot.{
  is_space, trim_left, trim_right, read_hostapd_config, setting_of, lines_of,
  rewrite_prefixed_lines, ssid_key, password_key, hotspot_replacements,
}
use logfalcon.Web.Hotspot.Lines.{other_key}
use logfalcon.Web.Hotspot.Kept.{
  ssid_IsKey, password_IsKey, reads-rewrite_prefixed_lines, hotspot_replacements-Lack,
}
use logfalcon.Web.Hotspot.Saved.{SetOnce, first, behind, rewrite_lines-Sets}

-- A value without spaces at its ends and without a line break.
pub record IsTrimmed (value : List ℕ) : Type 0 where
  pub left : trim_left is_space value ≡ value
  pub right : trim_right is_space value ≡ value
  pub one_line : Lacks b'\n' value

different : bytes_eq password_key ssid_key ≡ false
unfolding bytes_eq
different = refl

different_back : bytes_eq ssid_key password_key ≡ false
unfolding bytes_eq
different_back = refl

-- The hotspot settings that are saved are those that are read of hostapd.conf afterwards, if neither value
-- has spaces at its ends or a line break, and no line of the file sets one of the two keys behind the first
-- line that begins with the key and `=`.
pub read-rewrite_prefixed_lines :
    (ssid password text : List ℕ)
    → IsTrimmed ssid
    → IsTrimmed password
    → SetOnce ssid_key (ssid_key ++ b'=' ∷ []) (lines_of text)
    → SetOnce password_key (password_key ++ b'=' ∷ []) (lines_of text)
    → (let saved =
          read_hostapd_config
            (some (rewrite_prefixed_lines (hotspot_replacements ssid password) text)) in
        (setting_of ssid_key saved ≡ some ssid) × (setting_of password_key saved ≡ some password))
read-rewrite_prefixed_lines ssid password text s p one two =
    let rs = hotspot_replacements ssid password in
    let whole = hotspot_replacements-Lack ssid password s.one_line p.one_line in
    (
      reads-rewrite_prefixed_lines ssid_key rs text whole
          ∙ rewrite_lines-Sets b's' (ascii "sid") ssid ssid_IsKey s.left s.right (lines_of text) rs
              none one
              (first (
                other_key b'w' (ascii "pa_passphrase") password refl refl password_IsKey different,
                tt,
              )),
      reads-rewrite_prefixed_lines password_key rs text whole
          ∙ rewrite_lines-Sets b'w' (ascii "pa_passphrase") password password_IsKey p.left p.right
              (lines_of text) rs none two
              (behind (other_key b's' (ascii "sid") ssid refl refl ssid_IsKey different_back)
                (first tt)),
    )
