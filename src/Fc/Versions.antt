-- ===== src/Fc/Versions.antt =====
-- internal/fc/versions.go: the range of MSP API versions for each firmware variant.
use logfalcon.Prelude.{
  ℕ, ◌+◌, ◌*◌, ◌<◌, ◌≡◌, Bool, ◌&&◌, ◌||◌, Option, none, some, List, [], ◌∷◌, arith, ◌==◌, ltb,
  if◌then◌else◌, bytes_eq,
}

-- A string is the list of its bytes.
abbrev pub btfl_variant : List ℕ
btfl_variant = b'B' ∷ b'T' ∷ b'F' ∷ b'L' ∷ []

abbrev pub inav_variant : List ℕ
inav_variant = b'I' ∷ b'N' ∷ b'A' ∷ b'V' ∷ []

pub record VersionBound : Type 0 where
  pub min_major : ℕ
  pub min_minor : ℕ
  pub max_major : ℕ
  pub max_minor : ℕ

-- `variantVersions[variant]`.
unfoldable pub variant_versions : List ℕ → Option VersionBound
variant_versions variant =
    if bytes_eq variant btfl_variant
    then some (record { min_major = 1; min_minor = 41; max_major = 1; max_minor = 47 })
    else if bytes_eq variant inav_variant
    then some (record { min_major = 1; min_minor = 40; max_major = 1; max_minor = 46 })
    else none

-- `VersionTooOldError` and `VersionTooNewError`, with the variant, the firmware version, the API
-- version found and the bound that it misses.
pub data VersionError : Type 0 where
  version_too_old : List ℕ → List ℕ → ℕ → ℕ → ℕ → ℕ → VersionError
  version_too_new : List ℕ → List ℕ → ℕ → ℕ → ℕ → ℕ → VersionError

api_less_than : ℕ → ℕ → ℕ → ℕ → Bool
api_less_than maj min ref_maj ref_min = ltb maj ref_maj || (maj == ref_maj && ltb min ref_min)

api_greater_than : ℕ → ℕ → ℕ → ℕ → Bool
api_greater_than maj min ref_maj ref_min = ltb ref_maj maj || (maj == ref_maj && ltb ref_min min)

within_bounds : VersionBound → List ℕ → List ℕ → ℕ → ℕ → Option VersionError
unfolding api_less_than api_greater_than
within_bounds bounds variant firmware major minor =
    if api_less_than major minor bounds.min_major bounds.min_minor
    then some (version_too_old variant firmware major minor bounds.min_major bounds.min_minor)
    else if api_greater_than major minor bounds.max_major bounds.max_minor
    then some (version_too_new variant firmware major minor bounds.max_major bounds.max_minor)
    else none

-- `CheckVersion`; `none` is Go's nil.
unfoldable pub check_version : List ℕ → List ℕ → ℕ → ℕ → Option VersionError
unfolding within_bounds
check_version variant firmware major minor = elim (variant_versions variant) [
  | none ↦ none
  | some bounds ↦ within_bounds bounds variant firmware major minor
]

-- An API version as one number. The two parts are bytes of a payload.
abbrev pub api_number : ℕ → ℕ → ℕ
api_number major minor = major * 256 + minor

-- For a variant with bounds, and the two version bytes: too old exactly below the minimum, too new
-- exactly above the maximum, nil exactly between, in the order of the version numbers.
pub check_version-exact :
    (variant firmware : List ℕ) (major minor : ℕ) (b : VersionBound)
    → variant_versions variant ≡ some b
    → major < 256
    → minor < 256
    → check_version variant firmware major minor ≡ (
        if ltb (api_number major minor) (api_number b.min_major b.min_minor)
        then some (version_too_old variant firmware major minor b.min_major b.min_minor)
        else if ltb (api_number b.max_major b.max_minor) (api_number major minor)
        then some (version_too_new variant firmware major minor b.max_major b.max_minor)
        else none)
unfolding check_version variant_versions
check_version-exact variant firmware major minor b h ma mi = ground arith
