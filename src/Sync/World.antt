-- ===== src/Sync/World.antt =====
-- What a sync of internal/sync/orchestrator.go runs in: the client, the output file, the LED, the
-- status, the manifest on the card, and what the operating system and the clock will answer.
use Prim.Native.String.{String}
use logfalcon.Prelude.{ℕ, ◌⊎◌, inl, inr, Bool, Option, List}
use logfalcon.Exec.{Outcome, ok, err, panic, Exec, raise, ◌>>◌}
use logfalcon.Msp.Client.{Client}
use logfalcon.Storage.Writer.{File, StreamWriter, abort}
use logfalcon.Sync.Status.{Status, Message, set_status}

-- The states of internal/led/controller.go.
pub data LedState : Type 0 where
  led_off led_booting led_ready led_busy led_done led_error : LedState

-- `SyncResult`; the first is Go's zero value.
pub data SyncResult : Type 0 where
  result_success result_already_empty result_error result_dry_run : SyncResult

-- The part of `Config` that a sync reads, and the `DryRun` of the orchestrator.
pub record Config : Type 0 where
  pub min_free_space_mb : ℕ
  pub storage_pressure_cleanup : Bool
  pub erase_after_sync : Bool
  pub flash_chunk_size : ℕ
  pub flash_read_compression : Bool
  pub dry_run : Bool

-- The manifest, without its time stamps and durations.
pub record Manifest : Type 0 where
  pub variant : List ℕ
  pub uid : List ℕ
  pub api_major : ℕ
  pub api_minor : ℕ
  pub blackbox_device : ℕ
  pub sha256 : List ℕ
  pub bytes : ℕ
  pub erase_attempted : Bool
  pub erase_completed : Bool

pub record World : Type 0 where
  pub client : Client
  pub writer : StreamWriter
  pub led : LedState
  pub status : Status
  pub manifest : Option Manifest
  -- Whether the port opens, the storage directory and the session directory can be made.
  pub port_opens : Bool
  pub storage_made : Bool
  pub session_made : Bool
  -- The output file, if it can be created.
  pub output : Option File
  -- What `FreeBytes` returns, call by call; `none` is an error, also afterwards.
  pub free_bytes : List (Option ℕ)
  -- Whether the manifest can be written, call by call; afterwards it cannot.
  pub manifest_writes : List Bool
  -- How many passes begin before the deadline of the sync, and of the wait for the erase.
  pub sync_passes : ℕ
  pub erase_passes : ℕ

-- A step of the sync. Its error is an early return of `run`, with the result to return.
abbrev pub Step : Type 0 → Type 0
Step A = Exec World SyncResult A

-- A change of the world that cannot fail.
abbrev pub modify : (World → World) → Step (Unit {0})
modify f w = (ok tt, f w)

abbrev pub set_led : LedState → Step (Unit {0})
set_led led = modify (λ w. record w { led = led })

abbrev pub show : String → Message → Step (Unit {0})
show state message = modify (λ w. record w { status = set_status state 0 message w.status })

-- A call of the client, both of whose results the caller looks at.
abbrev pub both_results : {E A : Type 0} → Outcome E A → Outcome SyncResult (A ⊎ E)
both_results (ok a) = ok (inl a)
both_results (err e) = ok (inr e)
both_results panic = panic

abbrev pub on_client : {E A : Type 0} → Exec Client E A → Step (A ⊎ E)
on_client m w = (both_results ((m w.client).0), record w { client = (m w.client).1 })

-- `o.LED.SetState(led.Error); SetStatus("error", 0, message); return ResultError`.
unfoldable pub fail : {A : Type 0} → Message → Step A
unfolding set_status
fail message = do set_led led_error; show "error" message; raise result_error

-- The same behind `writer.Abort()`.
unfoldable pub abort_with : {A : Type 0} → Message → Step A
unfolding fail abort
abort_with message = do modify (λ w. record w { writer = abort w.writer }); fail message
