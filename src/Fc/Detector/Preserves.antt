-- ===== src/Fc/Detector/Preserves.antt =====
-- What every query of the client keeps, the handshake keeps.
use logfalcon.Prelude.{
  ℕ, ◌⊎◌, Option, none, some, List, inl, inr, Bool-cases, on_if, bytes_eq, ◌==◌,
}
use logfalcon.Exec.{Exec, continue_keeps, attempt_keeps}
use logfalcon.Fc.Versions.{btfl_variant, VersionError, version_too_old, version_too_new}
use logfalcon.Fc.Detector.{
  FcInfo, blackbox_device_sd_card, DetectError, MspClient, supported_variants, find_device,
  finish_detect, checked_version, known_variant, with_variant, after_variant, after_api, detect,
}

module _ {S E : Type 0} (client : MspClient S E) (I : S → Type 0)
    (api : (s : S) → I s → I (client.get_api_version s).1)
    (version : (s : S) → I s → I (client.get_fc_version s).1)
    (variant : (s : S) → I s → I (client.get_fc_variant s).1)
    (uid : (s : S) → I s → I (client.get_uid s).1)
    (device : (s : S) → I s → I (client.get_blackbox_config s).1) where
  find_device_keeps : (v : List ℕ) (s : S) → I s → I (find_device client v s).1
  unfolding find_device
  find_device_keeps v s i = elim (Bool-cases (bytes_eq v btfl_variant)) [
    | inl e ↦ rw e (attempt_keeps I (client.get_blackbox_config s) _ (device s i) (λ x t k. k))
    | inr e ↦ rw e i
  ]

  finish_detect_keeps :
      (major minor : ℕ) (v firmware : List ℕ) (warning : Option VersionError) (s : S)
      → I s
      → I (finish_detect client major minor v firmware warning s).1
  unfolding finish_detect
  finish_detect_keeps major minor v firmware warning s i =
      attempt_keeps I (client.get_uid s) _ (uid s i) (λ x t k.
        continue_keeps I (find_device client v t) _ (find_device_keeps v t k) (λ d u l.
          on_if (λ (m : Exec S (DetectError E) FcInfo). I (m u).1) (d == blackbox_device_sd_card) _
            _ (λ _. l) (λ _. l)))

  checked_version_keeps :
      (major minor : ℕ) (v firmware : List ℕ) (found : Option VersionError) (s : S)
      → I s
      → I (checked_version client major minor v firmware found s).1
  unfolding checked_version
  checked_version_keeps major minor v firmware none s i =
      finish_detect_keeps major minor v firmware none s i
  checked_version_keeps major minor v firmware (some (version_too_old _ _ _ _ _ _)) s i = i
  checked_version_keeps major minor v firmware (some (version_too_new a b c d e f)) s i =
      finish_detect_keeps major minor v firmware _ s i

  with_variant_keeps :
      (major minor : ℕ) (v : List ℕ) (s : S) → I s → I (with_variant client major minor v s).1
  unfolding with_variant known_variant
  with_variant_keeps major minor v s i =
      on_if (λ (m : Exec S (DetectError E) FcInfo). I (m s).1) (supported_variants v) _ _
        (λ _.
          attempt_keeps I (client.get_fc_version s) _ (version s i)
            (λ x t k. checked_version_keeps major minor v _ _ t k))
        (λ _. i)

  after_variant_keeps :
      (major minor : ℕ) (x : List ℕ ⊎ E) (s : S) → I s → I (after_variant client major minor x s).1
  unfolding after_variant
  after_variant_keeps major minor (inl v) s i = with_variant_keeps major minor _ s i
  after_variant_keeps major minor (inr e) s i = i

  after_api_keeps : (x : (ℕ × ℕ) ⊎ E) (s : S) → I s → I (after_api client x s).1
  unfolding after_api
  after_api_keeps (inl (major, minor)) s i =
      attempt_keeps I (client.get_fc_variant s) _ (variant s i) (after_variant_keeps major minor)
  after_api_keeps (inr e) s i = i

  pub detect_keeps : (s : S) → I s → I (detect client s).1
  unfolding detect
  detect_keeps s i = attempt_keeps I (client.get_api_version s) _ (api s i) after_api_keeps
