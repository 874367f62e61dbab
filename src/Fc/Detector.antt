-- ===== src/Fc/Detector.antt =====
-- internal/fc/detector.go: the MSP handshake. The text of an error or a warning is a function of the
-- value that stands for it here, and is not modelled.
pub mod Accepted
pub mod Preserves
use logfalcon.Prelude.{
  ℕ, ◌⊎◌, Bool, true, false, ◌||◌, Option, none, some, List, [], ◌∷◌, inl, inr, ◌==◌, ltb,
  if◌then◌else◌, length, take, bytes_eq,
}
use logfalcon.Exec.{Outcome, ok, err, panic, Exec, pure, raise, ◌>>=◌, attempt}
use logfalcon.Fc.Versions.{
  btfl_variant, inav_variant, VersionError, version_too_old, version_too_new, check_version,
}

-- The blackbox devices of constants.go.
abbrev pub blackbox_device_none : ℕ
blackbox_device_none = 0

abbrev pub blackbox_device_flash : ℕ
blackbox_device_flash = 1

abbrev pub blackbox_device_sd_card : ℕ
blackbox_device_sd_card = 2

-- `SupportedVariants`.
unfoldable pub supported_variants : List ℕ → Bool
supported_variants variant = bytes_eq variant btfl_variant || bytes_eq variant inav_variant

-- "unknown", the UID where none was read.
abbrev pub unknown_uid : List ℕ
unknown_uid = b'u' ∷ b'n' ∷ b'k' ∷ b'n' ∷ b'o' ∷ b'w' ∷ b'n' ∷ []

-- `FCInfo`. The warning is the version error that its text is made of.
pub record FcInfo : Type 0 where
  pub api_major : ℕ
  pub api_minor : ℕ
  pub firmware_version : List ℕ
  pub variant : List ℕ
  pub uid : List ℕ
  pub blackbox_device : ℕ
  pub warning : Option VersionError

-- The errors of `Detect`: two that wrap an error of the client, and the refusals.
pub data DetectError (E : Type 0) : Type 0 where
  api_version_failed fc_variant_failed : E → DetectError E
  not_supported : List ℕ → DetectError E
  too_old : VersionError → DetectError E
  sd_card : DetectError E

-- The interface `MSPClient`, over the client's state `S` and its errors `E`.
pub record MspClient (S E : Type 0) : Type 0 where
  pub get_api_version : Exec S E (ℕ × ℕ)
  pub get_fc_version : Exec S E (List ℕ)
  pub get_fc_variant : Exec S E (List ℕ)
  pub get_uid : Exec S E (List ℕ)
  pub get_blackbox_config : Exec S E ℕ

-- `if len(variant) > 4 { variant = variant[:4] }`.
unfoldable pub short_variant : List ℕ → List ℕ
short_variant variant = if ltb 4 (length variant) then take 4 variant else variant

module _ {S E : Type 0} (client : MspClient S E) where
  -- Step 6, with the device that is assumed where the query fails or is not made.
  unfoldable pub find_device : List ℕ → Exec S (DetectError E) ℕ
  find_device variant =
      if bytes_eq variant btfl_variant
      then (do
        device ← attempt client.get_blackbox_config
        pure (elim device [ inl d ↦ d | inr e ↦ blackbox_device_none ]))
      else pure blackbox_device_flash

  -- Steps 5 to 7.
  unfoldable pub finish_detect :
      ℕ → ℕ → List ℕ → List ℕ → Option VersionError → Exec S (DetectError E) FcInfo
  unfolding find_device
  finish_detect major minor variant firmware warning = do
    found ← attempt client.get_uid
    device ← find_device variant
    if device == blackbox_device_sd_card
        then raise sd_card
        else pure (record {
          api_major = major;
          api_minor = minor;
          firmware_version = firmware;
          variant = variant;
          uid = elim found [ inl uid ↦ uid | inr e ↦ unknown_uid ];
          blackbox_device = device;
          warning = warning;
        })

  -- Step 4: too old is an error, too new a warning.
  unfoldable pub checked_version :
      ℕ → ℕ → List ℕ → List ℕ → Option VersionError → Exec S (DetectError E) FcInfo
  unfolding finish_detect
  checked_version major minor variant firmware none =
      finish_detect major minor variant firmware none
  checked_version major minor variant firmware (some (version_too_old v f x y lo lo')) =
      raise (too_old (version_too_old v f x y lo lo'))
  checked_version major minor variant firmware (some (version_too_new v f x y hi hi')) =
      finish_detect major minor variant firmware (some (version_too_new v f x y hi hi'))

  -- Steps 3 and 4, for a supported variant.
  unfoldable pub known_variant : ℕ → ℕ → List ℕ → Exec S (DetectError E) FcInfo
  unfolding checked_version
  known_variant major minor variant = do
    read ← attempt client.get_fc_version
    let firmware : List ℕ = elim read [ inl version ↦ version | inr e ↦ [] ]
    checked_version major minor variant firmware (check_version variant firmware major minor)

  -- Step 2.
  unfoldable pub with_variant : ℕ → ℕ → List ℕ → Exec S (DetectError E) FcInfo
  unfolding known_variant
  with_variant major minor variant =
      if supported_variants variant
      then known_variant major minor variant
      else raise (not_supported variant)

  unfoldable pub after_variant : ℕ → ℕ → List ℕ ⊎ E → Exec S (DetectError E) FcInfo
  unfolding with_variant short_variant
  after_variant major minor (inl variant) = with_variant major minor (short_variant variant)
  after_variant major minor (inr e) = raise (fc_variant_failed e)

  unfoldable pub after_api : (ℕ × ℕ) ⊎ E → Exec S (DetectError E) FcInfo
  unfolding after_variant
  after_api (inl (major, minor)) = do
    read ← attempt client.get_fc_variant
    after_variant major minor read
  after_api (inr e) = raise (api_version_failed e)

  -- Step 1, and the whole handshake.
  unfoldable pub detect : Exec S (DetectError E) FcInfo
  unfolding after_api
  detect = do api ← attempt client.get_api_version; after_api api
