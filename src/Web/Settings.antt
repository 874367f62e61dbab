-- ===== src/Web/Settings.antt =====
-- internal/web/server.go: `handleSettingsPost`. The pages are left out; `quote` is the verb %q of `Sprintf`.
pub mod Trimmed
pub mod Saved
use logfalcon.Prelude.{
  ℕ, Bool, true, false, not, Option, none, some, List, [], ◌∷◌, ◌++◌, if◌then◌else◌, bytes_eq,
}
use logfalcon.Prelude.Texts.{ascii}
use logfalcon.Web.Hotspot.{
  trim_space, Replacement, rewrite_prefixed_lines, validate_hotspot_value, hotspot_replacements,
}

-- The two files, if they can be read; whether `rewritePrefixedLines` can write them, and whether hostapd
-- restarts.
pub record Machine : Type 0 where
  pub hostapd : Option (List ℕ)
  pub toml : Option (List ℕ)
  pub hostapd_good : Bool
  pub toml_good : Bool
  pub restart_good : Bool

pub record Form : Type 0 where
  pub parses : Bool
  pub csrf_token : List ℕ
  pub ssid : List ℕ
  pub password : List ℕ

-- `rewritePrefixedLines`: its result, and the file.
unfoldable pub rewrite_file : List Replacement → Bool → Option (List ℕ) → Bool × Option (List ℕ)
unfolding rewrite_prefixed_lines
rewrite_file rs good none = (false, none)
rewrite_file rs good (some text) =
    if good then (true, some (rewrite_prefixed_lines rs text)) else (false, some text)

module _ (quote : List ℕ → List ℕ) where
  unfoldable pub toml_replacements : (ssid password : List ℕ) → List Replacement
  toml_replacements ssid password =
      record { prefix = ascii "hotspot_ssid ="; new_line = ascii "hotspot_ssid = " ++ quote ssid }
      ∷ record {
        prefix = ascii "hotspot_password =";
        new_line = ascii "hotspot_password = " ++ quote password;
      }
      ∷ []

  -- After the writing of hostapd.conf, with its result.
  unfoldable pub after_hostapd :
      (ssid password : List ℕ) → Machine → Bool × Option (List ℕ) → ℕ × Machine
  unfolding rewrite_file toml_replacements
  after_hostapd ssid password m (false, hostapd) = (500, record m { hostapd = hostapd })
  after_hostapd ssid password m (true, hostapd) =
      let (_, toml) = rewrite_file (toml_replacements ssid password) m.toml_good m.toml in
      if m.restart_good
      then (200, record m { hostapd = hostapd; toml = toml })
      else (500, record m { hostapd = hostapd; toml = toml })

  unfoldable pub save_settings : (ssid password : List ℕ) → Machine → ℕ × Machine
  unfolding rewrite_file after_hostapd
  save_settings ssid password m =
      after_hostapd ssid password m
        (rewrite_file (hotspot_replacements ssid password) m.hostapd_good m.hostapd)

  unfoldable pub checked_settings : (ssid password : List ℕ) → Machine → ℕ × Machine
  unfolding validate_hotspot_value save_settings
  checked_settings ssid password m =
      if not (validate_hotspot_value ssid 1 32)
      then (400, m)
      else if not (validate_hotspot_value password 8 63)
      then (400, m)
      else save_settings ssid password m

  -- `handleSettingsPost`; the answer is the status.
  unfoldable pub handle_settings_post : (csrf_token : List ℕ) → Form → Machine → ℕ × Machine
  unfolding trim_space checked_settings
  handle_settings_post csrf_token form m =
      if not form.parses
      then (400, m)
      else if not (bytes_eq form.csrf_token csrf_token)
      then (403, m)
      else checked_settings (trim_space form.ssid) (trim_space form.password) m
