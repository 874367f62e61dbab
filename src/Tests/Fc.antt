-- ===== src/Tests/Fc.antt =====
-- internal/fc at concrete inputs.
use logfalcon.Prelude.{ℕ, ◌≡◌, refl, arith, none, some, [], ◌∷◌, ltb, if◌then◌else◌, bytes_eq}
use logfalcon.Exec.{pure, raise}
use logfalcon.Fc.Versions.{
  btfl_variant, VersionBound, version_too_old, version_too_new, variant_versions, api_number,
  check_version, check_version-exact,
}
use logfalcon.Fc.Detector.{MspClient}

abbrev btfl_bound : VersionBound
btfl_bound = record { min_major = 1; min_minor = 41; max_major = 1; max_minor = 47 }

btfl_bound-variant_versions : variant_versions btfl_variant ≡ some btfl_bound
unfolding variant_versions bytes_eq
btfl_bound-variant_versions = refl

check_version-exact_example : check_version btfl_variant (b'4' ∷ []) 1 40 ≡ (
    if ltb (api_number 1 40) (api_number 1 41)
    then some (version_too_old btfl_variant (b'4' ∷ []) 1 40 1 41)
    else if ltb (api_number 1 47) (api_number 1 40)
    then some (version_too_new btfl_variant (b'4' ∷ []) 1 40 1 47)
    else none)
check_version-exact_example =
    check_version-exact btfl_variant (b'4' ∷ []) 1 40 btfl_bound btfl_bound-variant_versions
      (omega arith) (omega arith)

-- A controller that answers every query but the one for its UID.
abbrev a_client : MspClient ℕ ℕ
a_client = record {
  get_api_version = pure (1, 48);
  get_fc_version = pure (b'4' ∷ []);
  get_fc_variant = pure btfl_variant;
  get_uid = raise 7;
  get_blackbox_config = pure 1;
}
