-- ===== src/Sync/Orchestrator.antt =====
-- internal/sync/orchestrator.go, step 1 and steps 7 to 10, and the ten steps together. SHA-256 is a
-- parameter, as for the writer.
use logfalcon.Prelude.{
  ℕ, zero, suc, ◌⊎◌, inl, inr, Bool, true, false, not, ◌&&◌, Option, none, some, List, [], ◌∷◌,
  ◌==◌, if◌then◌else◌,
}
use logfalcon.Exec.{Outcome, ok, err, panic, pure, ◌>>=◌, ◌>>◌}
use logfalcon.Fc.Detector.{FcInfo}
use logfalcon.Msp.Client.{
  ClientError, DataflashSummary, new_client, get_dataflash_summary, erase_flash,
}
use logfalcon.Storage.Writer.{verify_against_file}
use logfalcon.Sync.Status.{
  text, could_not_open_port, set_status, set_fc_identity, clear_fc_identity,
}
use logfalcon.Sync.World.{
  World, Config, Manifest, Step, SyncResult, result_success, result_dry_run, led_busy, led_done,
  led_error, modify, set_led, show, on_client, fail,
}
use logfalcon.Sync.FlashRead.{read_flash}
use logfalcon.Sync.Preparation.{identify_fc, query_flash_state, check_storage_and_prepare}

-- Step 7.
module _ (sha256_hex : List ℕ → List ℕ) where
  unfoldable pub judge_verification : Option (Bool × List ℕ) → Step (List ℕ)
  unfolding fail
  judge_verification none = fail (text "Could not verify the copied file integrity.")
  judge_verification (some (false, hash)) =
      fail (text "Verification failed, so the FC flash was left untouched.")
  judge_verification (some (true, hash)) = pure hash

  unfoldable pub verify_integrity : ℕ → Step (List ℕ)
  unfolding verify_against_file judge_verification fail
  verify_integrity used_size w =
      let (verified, writer) = verify_against_file sha256_hex w.writer in
      if w.writer.bytes_written == used_size
      then judge_verification verified (record w { writer = writer })
      else fail (text "The copied file size did not match the FC flash size.") w

-- `atomicJSONWrite`: the manifest is replaced, or it is as before and the call fails.
abbrev pub answer_write : List Bool → Manifest → World → Bool × World
answer_write [] m w = (false, w)
answer_write (false ∷ rest) m w = (false, record w { manifest_writes = rest })
answer_write (true ∷ rest) m w = (true, record w { manifest = some m; manifest_writes = rest })

unfoldable pub write_json : Manifest → World → Bool × World
write_json m w = answer_write w.manifest_writes m w

-- Step 8: `fcInfoToStorage` and `WriteManifest`.
unfoldable pub new_manifest : FcInfo → List ℕ → ℕ → Manifest
new_manifest info hash used_size = record {
  variant = info.variant;
  uid = info.uid;
  api_major = info.api_major;
  api_minor = info.api_minor;
  blackbox_device = info.blackbox_device;
  sha256 = hash;
  bytes = used_size;
  erase_attempted = false;
  erase_completed = false;
}

unfoldable pub written_or_failed : Bool × World → Outcome SyncResult (Unit {0}) × World
unfolding fail
written_or_failed (true, w) = (ok tt, w)
written_or_failed (false, w) = fail (text "Failed to write the session manifest.") w

unfoldable pub write_manifest : FcInfo → List ℕ → ℕ → Step (Unit {0})
unfolding write_json new_manifest written_or_failed
write_manifest info hash used_size w =
    written_or_failed (write_json (new_manifest info hash used_size) w)

-- `UpdateManifestErase`, whose result is dropped. A manifest that cannot be read back is a failure
-- to write it, too.
abbrev pub erase_recorded : Bool → Manifest → Manifest
erase_recorded completed m = record m { erase_attempted = true; erase_completed = completed }

unfoldable pub update_read : Option Manifest → Bool → World → World
unfolding write_json
update_read none completed w = w
update_read (some m) completed w = (write_json (erase_recorded completed m) w).1

unfoldable pub update_manifest_erase : Bool → Step (Unit {0})
unfolding update_read
update_manifest_erase completed w = (ok tt, update_read w.manifest completed w)

-- The loop of `waitForErase`, with `passes` passes left before its deadline.
unfoldable pub is_erased : DataflashSummary ⊎ ClientError → Bool
is_erased (inr e) = false
is_erased (inl summary) = summary.used_size == 0 && summary.ready

unfoldable pub poll_erase : ℕ → Step Bool
unfolding is_erased
poll_erase zero = pure false
poll_erase (suc passes) = do
  found ← on_client get_dataflash_summary
  if is_erased found then pure true else poll_erase passes

-- `waitForErase`.
unfoldable pub erase_sent : Unit {0} ⊎ ClientError → Step Bool
unfolding poll_erase
erase_sent (inl sent) w = poll_erase w.erase_passes w
erase_sent (inr e) w = (ok false, w)

unfoldable pub wait_for_erase : Step Bool
unfolding erase_sent erase_flash
wait_for_erase = do sent ← on_client erase_flash; erase_sent sent

-- Steps 9 and 10.
unfoldable pub erase_ended : Bool → Step SyncResult
unfolding set_status fail
erase_ended true = do
  set_led led_done
  show "idle" (text "Sync complete — safe to unplug and fly again.")
  pure result_success
erase_ended false = fail (text "Copy succeeded, but erase did not finish before timeout.")

unfoldable pub erase_verified : Step SyncResult
unfolding wait_for_erase update_manifest_erase erase_ended set_status
erase_verified = do
  set_led led_busy
  show "erasing" (text "Erasing the FC flash now that the copy is verified.")
  erased ← wait_for_erase
  update_manifest_erase erased
  erase_ended erased

-- Step 1: the port, and a new client on it.
unfoldable pub open_port : Step (Unit {0})
unfolding new_client fail
open_port w =
    if w.port_opens
    then (ok tt, record w { client = new_client (w.client.port) })
    else fail could_not_open_port w

module _ (sha256_hex : List ℕ → List ℕ) (cfg : Config) where
  -- What follows the manifest.
  unfoldable pub finish : Step SyncResult
  unfolding erase_verified set_status
  finish =
      if cfg.dry_run
      then (do
        set_led led_done
        show "idle" (text "Copy complete. Dry run kept the FC flash untouched.")
        pure result_dry_run)
      else if not cfg.erase_after_sync
      then (do
        set_led led_done
        show "idle" (text "Copy complete. Erase was skipped by configuration.")
        pure result_success)
      else erase_verified

  -- Steps 6 to 10.
  unfoldable pub copy_and_finish : FcInfo → ℕ → Step SyncResult
  unfolding read_flash verify_integrity write_manifest finish set_status
  copy_and_finish info used_size = do
    set_led led_busy
    show "syncing" (text "Copying blackbox flash to the Pi SD card.")
    read_flash cfg used_size
    set_led led_busy
    show "verifying" (text "Verifying the copied file before erase.")
    hash ← verify_integrity sha256_hex used_size
    write_manifest info hash used_size
    finish

  -- Steps 4 to 10.
  unfoldable pub prepare_and_copy : FcInfo → ℕ → Step SyncResult
  unfolding check_storage_and_prepare copy_and_finish
  prepare_and_copy info used_size = do
    check_storage_and_prepare cfg used_size
    copy_and_finish info used_size

  -- Steps 3 to 10.
  unfoldable pub query_and_copy : FcInfo → Step SyncResult
  unfolding query_flash_state prepare_and_copy set_status set_fc_identity
  query_and_copy info = do
    modify (λ w. record w { status = set_fc_identity info w.status })
    show "querying" (text "Reading blackbox flash usage from the FC.")
    used_size ← query_flash_state
    prepare_and_copy info used_size

  -- Steps 2 to 10.
  unfoldable pub identify_and_copy : Step SyncResult
  unfolding identify_fc query_and_copy set_status clear_fc_identity
  identify_and_copy = do
    modify (λ w. record w { status = clear_fc_identity w.status })
    show "identifying" (text "Checking the flight controller over MSP.")
    info ← identify_fc
    query_and_copy info

  -- `run`.
  unfoldable pub run_steps : Step SyncResult
  unfolding open_port identify_and_copy
  run_steps = do open_port; identify_and_copy

  -- The deferred `recover` of `Run`: after it, the result is Go's zero value.
  unfoldable pub recover_run : Outcome SyncResult SyncResult × World → SyncResult × World
  unfolding set_status
  recover_run (ok result, w) = (result, w)
  recover_run (err result, w) = (result, w)
  recover_run (panic, w) = (
    result_success,
    record w {
      led = led_error;
      status =
          set_status "error" 0 (text "Unexpected sync error. Check the service log for details.")
            w.status;
    },
  )

  -- `Run`. The error of `run` is always nil.
  unfoldable pub run : World → SyncResult × World
  unfolding run_steps recover_run
  run w = recover_run (run_steps w)
