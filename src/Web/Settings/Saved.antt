-- ===== src/Web/Settings/Saved.antt =====
-- internal/web/server.go: what `handleSettingsPost` saves is what is read again.
use logfalcon.Prelude.{
  ℕ, ◌≡◌, ◌≢◌, ◌⊎◌, refl, Bool, true, false, not, Option, some, List, [], ◌∷◌, ◌++◌, arith, on_if,
  bytes_eq, bytes_eq_sound, inl, inr,
}
use logfalcon.Web.Hotspot.{
  trim_space, read_hostapd_config, setting_of, lines_of, validate_hotspot_value, ssid_key,
  password_key,
}
use logfalcon.Web.Hotspot.Saved.{SetOnce}
use logfalcon.Web.Hotspot.RoundTrip.{IsTrimmed, read-rewrite_prefixed_lines}
use logfalcon.Web.Settings.{
  Machine, Form, rewrite_file, after_hostapd, save_settings, checked_settings, handle_settings_post,
}
use logfalcon.Web.Settings.Trimmed.{accepted-IsTrimmed}

-- The two settings as they are read of hostapd.conf.
abbrev pub ReadsBack : (ssid password : List ℕ) → Machine → Type 0
ReadsBack ssid password m =
    (setting_of ssid_key (read_hostapd_config m.hostapd) ≡ some ssid)
    × (setting_of password_key (read_hostapd_config m.hostapd) ≡ some password)

-- What a request for new settings did: with a status other than 200 it changed nothing, or it had the token
-- and its two values, trimmed, are the settings now, whether hostapd could be restarted (200) or not (500).
pub data Posted (csrf_token : List ℕ) (form : Form) (m : Machine) : ℕ × Machine → Type 0 where
  declined : (status : ℕ) → status ≢ 200 → Posted csrf_token form m (status, m)
  posted :
      (status : ℕ) (m' : Machine)
      → (status ≡ 200) ⊎ (status ≡ 500)
      → form.csrf_token ≡ csrf_token
      → ReadsBack (trim_space form.ssid) (trim_space form.password) m'
      → Posted csrf_token form m (status, m')

affirmed : (b : Bool) → not b ≡ false → b ≡ true
affirmed b h = ground arith

module _ (quote : List ℕ → List ℕ) (csrf_token : List ℕ) (form : Form) (text : List ℕ)
    (rest : Machine) (one : SetOnce ssid_key (ssid_key ++ b'=' ∷ []) (lines_of text))
    (two : SetOnce password_key (password_key ++ b'=' ∷ []) (lines_of text)) where
  -- The machine, on which hostapd.conf holds the text.
  abbrev holding : Machine
  holding = record rest { hostapd = some text }

  abbrev Fine : ℕ × Machine → Type 0
  Fine = Posted csrf_token form holding

  save_settings-Posted :
      form.csrf_token ≡ csrf_token
      → IsTrimmed (trim_space form.ssid)
      → IsTrimmed (trim_space form.password)
      → Fine (save_settings quote (trim_space form.ssid) (trim_space form.password) holding)
  unfolding save_settings rewrite_file after_hostapd
  save_settings-Posted t s p =
      let ssid = trim_space form.ssid in
      let password = trim_space form.password in
      let back = read-rewrite_prefixed_lines ssid password text s p one two in
      on_if {A = Bool × Option (List ℕ)} (λ r. Fine (after_hostapd quote ssid password holding r))
        rest.hostapd_good _ _
        (λ _.
          on_if Fine rest.restart_good _ _ (λ _. posted 200 _ (inl refl) t back)
            (λ _. posted 500 _ (inr refl) t back))
        (λ _. declined 500 (λ h. ground (arith, h)))

  -- A request for new settings changes nothing, and gets a status other than 200, or it has the server's
  -- token, and its two values without the spaces around them are what `readHostapdConfig` reads then. The
  -- file hostapd.conf can be read, and no line of it sets one of the two keys behind the first line that
  -- begins with the key and `=`.
  pub handle_settings_post-Posted : Fine (handle_settings_post quote csrf_token form holding)
  unfolding handle_settings_post checked_settings
  handle_settings_post-Posted =
      let ssid = trim_space form.ssid in
      let password = trim_space form.password in
      on_if Fine (not form.parses) _ _ (λ _. declined 400 (λ h. ground (arith, h)))
        (λ _.
          on_if Fine (not (bytes_eq form.csrf_token csrf_token)) _ _
            (λ _. declined 403 (λ h. ground (arith, h)))
            (λ t.
              on_if Fine (not (validate_hotspot_value ssid 1 32)) _ _
                (λ _. declined 400 (λ h. ground (arith, h)))
                (λ s.
                  on_if Fine (not (validate_hotspot_value password 8 63)) _ _
                    (λ _. declined 400 (λ h. ground (arith, h)))
                    (λ p.
                      save_settings-Posted (bytes_eq_sound _ _ (affirmed _ t))
                        (accepted-IsTrimmed form.ssid 1 32 (affirmed _ s))
                        (accepted-IsTrimmed form.password 8 63 (affirmed _ p))))))
