-- ===== src/Cmd.antt =====
-- cmd/logfalcon/main.go: `main`, which loads the configuration, takes the LED, and serves the dashboard or
-- runs one sync. What it prints and logs is left out.
pub mod Ended
use logfalcon.Prelude.{ℕ, Bool, true, false, not, ◌&&◌, Option, none, some, List, [], if◌then◌else◌}
use logfalcon.Config.{Config, default_config}
use logfalcon.Sync.World.{
  World, SyncResult, result_success, result_already_empty, result_error, result_dry_run, led_busy,
}
use logfalcon.Sync.Orchestrator.{run}

pub record Flags : Type 0 where
  pub web_mode : Bool
  pub serial_port : List ℕ
  pub show_version : Bool
  pub dry_run : Bool

-- How the process ends: `main` returns, or `os.Exit` ends it on the spot.
pub data Exit : Type 0 where
  returned : Exit
  exited : ℕ → Exit

-- Whether the LED was left to the kernel, still is with the controller, or was given back by `Stop`.
pub data LedUse : Type 0 where
  led_unused led_held led_released : LedUse

pub record Process : Type 0 where
  pub exit : Exit
  pub led_use : LedUse
  pub world : World

-- The deferred `ledCtrl.Stop()`, which a return runs and `os.Exit` does not.
unfoldable pub deferred_stop : Exit → LedUse
deferred_stop returned = led_released
deferred_stop (exited code) = led_held

abbrev with_led : Exit → World → Process
unfolding deferred_stop
with_led exit w = record { exit = exit; led_use = deferred_stop exit; world = w }

-- `cfg`; `none` is an error of `Load`.
unfoldable pub config_or_default : Option Config → Config
config_or_default none = default_config
config_or_default (some c) = c

-- What the orchestrator reads of the configuration, where the reserve and the chunk size are these
-- numbers, and its `DryRun`.
unfoldable pub sync_config :
    (reserve chunk : ℕ) → (dry_run : Bool) → Config → logfalcon.Sync.World.Config
sync_config reserve chunk dry_run c = record {
  min_free_space_mb = reserve;
  storage_pressure_cleanup = c.storage_pressure_cleanup;
  erase_after_sync = c.erase_after_sync;
  flash_chunk_size = chunk;
  flash_read_compression = c.flash_read_compression;
  dry_run = dry_run;
}

-- The switch on the result.
unfoldable pub exit_of : SyncResult → Exit
exit_of result_success = returned
exit_of result_already_empty = returned
exit_of result_dry_run = returned
exit_of result_error = exited 1

-- Whether `ListenAndServe` returned nil.
unfoldable pub serve_exit : Bool → Exit
serve_exit true = returned
serve_exit false = exited 1

unfoldable pub lacks_port : List ℕ → Bool
lacks_port [] = true
lacks_port _ = false

module _ (sha256_hex : List ℕ → List ℕ) where
  unfoldable pub sync_mode : logfalcon.Sync.World.Config → World → Process
  unfolding exit_of with_led deferred_stop
  sync_mode cfg w =
      let (result, after) = run sha256_hex cfg (record w { led = led_busy }) in
      with_led (exit_of result) after

  -- `main`
  unfoldable pub main :
      Flags → (reserve chunk : ℕ) → Option Config → (served : Bool) → World → Process
  unfolding lacks_port config_or_default sync_config serve_exit with_led sync_mode deferred_stop
  main flags reserve chunk loaded served w =
      if flags.show_version
      then record { exit = exited 0; led_use = led_unused; world = w }
      else if not flags.web_mode && lacks_port flags.serial_port
      then record { exit = exited 1; led_use = led_unused; world = w }
      else if flags.web_mode
      then with_led (serve_exit served) w
      else sync_mode (sync_config reserve chunk flags.dry_run (config_or_default loaded)) w
