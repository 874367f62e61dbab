-- ===== src/Sync/Preparation.antt =====
-- internal/sync/orchestrator.go, steps 2 to 5: from the handshake to the open output file. What the
-- sessions on the card are is not modelled.
use logfalcon.Prelude.{
  ℕ, ◌+◌, ◌*◌, ◌⊎◌, inl, inr, Bool, not, ◌&&◌, Option, none, some, List, [], ◌∷◌, ◌==◌, ltb,
  if◌then◌else◌,
}
use logfalcon.Exec.{ok, pure, raise, ◌>>=◌, ◌>>◌}
use logfalcon.Fc.Detector.{FcInfo, DetectError, MspClient, short_variant, detect}
use logfalcon.Msp.Client.{
  Client, ClientError, DataflashSummary, get_api_version, get_fc_version, get_fc_variant, get_uid,
  get_blackbox_config, get_dataflash_summary,
}
use logfalcon.Storage.Writer.{File, new_stream_writer}
use logfalcon.Sync.Status.{Message, text, detection_failed, set_status}
use logfalcon.Sync.World.{
  Config, Step, SyncResult, result_already_empty, led_done, modify, set_led, show, on_client, fail,
}

abbrev pub max_flash_used_size : ℕ
max_flash_used_size = 134217728

-- `*msp.Client` as the detector's interface.
abbrev pub client_methods : MspClient Client ClientError
client_methods = record {
  get_api_version = get_api_version;
  get_fc_version = get_fc_version;
  get_fc_variant = get_fc_variant;
  get_uid = get_uid;
  get_blackbox_config = get_blackbox_config;
}

-- Where a step ends the sync with a result other than an error.
abbrev pub done : {A : Type 0} → SyncResult → Step A
done result = raise result

-- Step 2. A detected variant is told to the client, which parses replies by it.
unfoldable pub identified : FcInfo ⊎ DetectError ClientError → Step FcInfo
unfolding short_variant fail
identified (inr e) = fail (detection_failed e)
identified (inl info) = do
  modify (λ w. record w { client = record (w.client) { fc_variant = short_variant info.variant } })
  pure info

unfoldable pub identify_fc : Step FcInfo
unfolding detect identified
identify_fc = do found ← on_client (detect client_methods); identified found

-- Step 3: what a summary means for the sync.
unfoldable pub judge_summary : DataflashSummary ⊎ ClientError → Step ℕ
unfolding fail set_status
judge_summary (inr e) = fail (text "Could not read the FC flash summary.")
judge_summary (inl summary) =
    if not summary.supported
    then fail (text "This FC does not expose supported flash storage.")
    else if not summary.ready
    then fail (text "The FC flash is busy right now. Try again in a moment.")
    else if summary.used_size == 0
    then (do
      set_led led_done
      show "idle" (text "Flash already empty — nothing to sync.")
      done result_already_empty)
    else if ltb max_flash_used_size summary.used_size
    then fail (text "FC flash exceeds the maximum safe size (128 MB) for this device.")
    else pure summary.used_size

unfoldable pub query_flash_state : Step ℕ
unfolding judge_summary
query_flash_state = do found ← on_client get_dataflash_summary; judge_summary found

-- The next answer of `FreeBytes`.
abbrev pub answer_free : List (Option ℕ) → Step (Option ℕ)
answer_free [] w = (ok none, w)
answer_free (free ∷ rest) w = (ok free, record w { free_bytes = rest })

abbrev pub free_space : Step (Option ℕ)
free_space w = answer_free w.free_bytes w

-- `availableMB, _ = util.FreeMB(...)`: after a cleanup, an error counts as no space.
abbrev pub or_zero : Option ℕ → ℕ
or_zero none = 0
or_zero (some free) = free

unfoldable pub must_be_made : Bool → Message → Step (Unit {0})
unfolding fail
must_be_made made message = if made then pure tt else fail message

unfoldable pub open_output : Option File → Step (Unit {0})
unfolding fail new_stream_writer
open_output none = fail (text "Could not open the output file for writing.")
open_output (some f) = modify (λ w. record w { writer = new_stream_writer f })

-- Sizes are compared in bytes: both sides of the comparison of megabytes in the code are exact
-- quotients by 2^20.
module _ (cfg : Config) (used_size : ℕ) where
  abbrev pub required_bytes : ℕ
  required_bytes = used_size + cfg.min_free_space_mb * 1048576

  unfoldable pub must_fit : ℕ → Step (Unit {0})
  unfolding fail
  must_fit available =
      if ltb available required_bytes
      then fail (text "Not enough free space on the Pi SD card to copy this log safely.")
      else pure tt

  unfoldable pub make_room : Option ℕ → Step (Unit {0})
  unfolding set_status must_fit fail
  make_room none = fail (text "Could not check available storage space.")
  make_room (some available) =
      if ltb available required_bytes && cfg.storage_pressure_cleanup
      then (do
        show "querying" (text "Storage is tight, cleaning up the oldest sessions first.")
        freed ← free_space
        must_fit (or_zero freed))
      else must_fit available

  -- Steps 4 and 5.
  unfoldable pub check_storage_and_prepare : Step (Unit {0})
  unfolding make_room must_be_made open_output
  check_storage_and_prepare = do
    λ w. must_be_made w.storage_made (text "Could not create the storage directory.") w
    free ← free_space
    make_room free
    λ w. must_be_made w.session_made (text "Could not create the output directory.") w
    λ w. open_output w.output w
