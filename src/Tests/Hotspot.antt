-- ===== src/Tests/Hotspot.antt =====
-- internal/web/server.go at concrete inputs: the hotspot settings.
use logfalcon.Prelude.{ℕ, ◌≡◌, refl, arith, true, false, none, some, List, [], ◌∷◌, ◌++◌, bytes_eq}
use logfalcon.Prelude.Texts.{ascii}
use logfalcon.Web.Text.{has_prefix, has_suffix, split, cut}
use logfalcon.Web.Hotspot.{
  trim_space, trim_left, trim_right, cons_trimmed, read_line, key_and_value, read_hostapd_config,
  setting_of, drop_last, lines_of, rewrite_prefixed_lines, ssid_key, password_key,
  hotspot_replacements,
}
use logfalcon.Web.Hotspot.Kept.{rewrite_prefixed_lines-keeps}
use logfalcon.Web.Hotspot.Saved.{SetOnce, later, found, unset}
use logfalcon.Web.Settings.{Machine, Form, handle_settings_post}
use logfalcon.Web.Settings.Saved.{Posted, handle_settings_post-Posted}

abbrev hostapd : List ℕ
hostapd = ascii "ssid=old" ++ b'\n' ∷ ascii "channel=6" ++ b'\n' ∷ []

rewrite_prefixed_lines-keeps_example :
    setting_of (ascii "channel") (
      read_hostapd_config (
        some
          (rewrite_prefixed_lines (hotspot_replacements (ascii "new") (ascii "secret12")) hostapd)))
    ≡ setting_of (ascii "channel") (read_hostapd_config (some hostapd))
unfolding bytes_eq
rewrite_prefixed_lines-keeps_example =
    rewrite_prefixed_lines-keeps (ascii "channel") (ascii "new") (ascii "secret12") refl refl
      hostapd (ground arith) (ground arith)

ssid_once : SetOnce ssid_key (ssid_key ++ b'=' ∷ []) (lines_of hostapd)
unfolding lines_of has_suffix split drop_last bytes_eq trim_left has_prefix read_line trim_space
    trim_right cons_trimmed cut key_and_value
ssid_once = found refl (refl, tt)

password_once : SetOnce password_key (password_key ++ b'=' ∷ []) (lines_of hostapd)
unfolding lines_of has_suffix split drop_last bytes_eq trim_left has_prefix
password_once = later refl (later refl unset)

abbrev machine : Machine
machine = record {
  hostapd = none;
  toml = none;
  hostapd_good = true;
  toml_good = true;
  restart_good = false;
}

abbrev form : Form
form = record {
  parses = true;
  csrf_token = ascii "t";
  ssid = ascii " new ";
  password = ascii "secret12";
}

handle_settings_post-Posted_example :
    Posted
      (ascii "t")
      form
      (record machine { hostapd = some hostapd })
      (handle_settings_post (λ s. s) (ascii "t") form (record machine { hostapd = some hostapd }))
handle_settings_post-Posted_example =
    handle_settings_post-Posted (λ s. s) (ascii "t") form hostapd machine ssid_once password_once
