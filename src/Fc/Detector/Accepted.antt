-- ===== src/Fc/Detector/Accepted.antt =====
-- Which controllers the handshake lets through.
use logfalcon.Prelude.{◌≡◌, ◌≢◌, true, Option, none, some}
use logfalcon.Fc.Versions.{VersionError, version_too_old, version_too_new, check_version}
use logfalcon.Fc.Detector.{blackbox_device_sd_card, supported_variants, FcInfo}

-- What a version error other than "too old" comes to.
abbrev IsWarning : Option VersionError → Type 0
IsWarning none = Unit
IsWarning (some (version_too_old v f x y lo lo')) = ⊥
IsWarning (some (version_too_new v f x y hi hi')) = Unit

pub record IsAccepted (info : FcInfo) : Type 0 where
  pub supported : supported_variants info.variant ≡ true
  pub not_sd_card : info.blackbox_device ≢ blackbox_device_sd_card
  pub warned :
      info.warning ≡ check_version info.variant info.firmware_version info.api_major info.api_minor
  pub not_too_old : IsWarning info.warning
