-- ===== src/Cmd/Ended.antt =====
-- cmd/logfalcon/main.go: the erase and the LED, from the command line to the end of the process.
use logfalcon.Prelude.{ℕ, ◌≡◌, ◌≢◌, ◌⊎◌, Bool, true, false, Option, List, []}
use logfalcon.Config.{Config}
use logfalcon.Sync.World.{World, SyncResult, result_error, led_busy}
use logfalcon.Sync.Orchestrator.{run}
use logfalcon.Sync.EraseSafety.{Idle, IsDocumented}
use logfalcon.Cmd.{
  Flags, Exit, returned, exited, LedUse, led_unused, led_held, led_released, Process,
  config_or_default, sync_config,
}

-- The erase command was not sent, or the flags ask for a sync that is no dry run, the configuration
-- for the erase, and the copy is documented.
pub record Erased (sha256_hex : List ℕ → List ℕ) (flags : Flags) (loaded : Option Config)
    (w : World) : Type 0 where
  pub no_version : flags.show_version ≡ false
  pub no_web : flags.web_mode ≡ false
  pub no_dry_run : flags.dry_run ≡ false
  pub wanted : (config_or_default loaded).erase_after_sync ≡ true
  pub copied : IsDocumented sha256_hex w

module _ (sha256_hex : List ℕ → List ℕ) (flags : Flags) (reserve chunk : ℕ) (loaded : Option Config)
    (served : Bool) (w : World) where
  -- The configuration of the sync, and its result.
  abbrev pub given_config : logfalcon.Sync.World.Config
  given_config = sync_config reserve chunk flags.dry_run (config_or_default loaded)

  abbrev pub sync_result : SyncResult
  sync_result = (run sha256_hex given_config (record w { led = led_busy })).0

  -- How the process ends, why, and what becomes of the LED.
  pub data Ending : Exit → LedUse → Type 0 where
    version_shown : flags.show_version ≡ true → Ending (exited 0) led_unused
    no_mode :
        flags.show_version ≡ false
        → flags.web_mode ≡ false
        → flags.serial_port ≡ []
        → Ending (exited 1) led_unused
    server_ended : flags.web_mode ≡ true → served ≡ true → Ending returned led_released
    server_failed : flags.web_mode ≡ true → served ≡ false → Ending (exited 1) led_held
    sync_ended : flags.web_mode ≡ false → sync_result ≢ result_error → Ending returned led_released
    sync_failed : flags.web_mode ≡ false → sync_result ≡ result_error → Ending (exited 1) led_held

  pub record IsEnded (p : Process) : Type 0 where
    pub erase : Idle p.world ⊎ Erased sha256_hex flags loaded p.world
    pub ending : Ending p.exit p.led_use
