-- ===== src/Sync/EraseSafety.antt =====
-- When the erase command of internal/sync/orchestrator.go goes out.
pub mod Preparing
pub mod Copying
pub mod Integrity
pub mod Verified
use logfalcon.Prelude.{ℕ, ◌≡◌, ◌⊎◌, Bool, true, false, some, List, length}
use logfalcon.Exec.{Outcome, ok, err, panic}
use logfalcon.Msp.Client.Unerased.{Unerased}
use logfalcon.Storage.Writer.{StreamWriter}
use logfalcon.Storage.Writer.Faithful.{IsFaithful}
use logfalcon.Sync.World.{World, Config, Manifest, SyncResult}

-- The port was not handed the erase command so far.
abbrev pub Idle : World → Type 0
Idle w = Unerased w.client

-- `P` of the value and the world where the step goes on; no erase command where it ends the sync.
abbrev pub Reaches : {A : Type 0} → (A → World → Type 0) → Outcome SyncResult A × World → Type 0
Reaches P (ok a, w) = P a w
Reaches P (err e, w) = Idle w
Reaches P (panic, w) = Idle w

-- No erase command, and the output file and its buffer hold what was copied.
abbrev pub Copying : World → Type 0
Copying w = Idle w × IsFaithful w.writer

-- After step 6: as above, and the output file was closed, and holds what was copied, synced; or it was
-- removed, behind a panic.
abbrev pub IsSettled : StreamWriter → Type 0
IsSettled w = ((w.file.content ≡ w.hashed) × (w.file.synced ≡ w.hashed)) ⊎ (w.file.removed ≡ true)

abbrev pub Copied : World → Type 0
Copied w = Copying w × IsSettled w.writer

-- The output file is there, holds exactly what was copied, also after a power loss, and its re-read gave
-- bytes with the hash of what was copied.
pub record IsChecked (sha256_hex : List ℕ → List ℕ) (w : StreamWriter) : Type 0 where
  pub there : w.file.removed ≡ false
  pub on_card : w.file.content ≡ w.hashed
  pub synced : w.file.synced ≡ w.hashed
  pub bytes : List ℕ
  pub read_back : w.file.read_back ≡ some bytes
  pub compared : sha256_hex bytes ≡ sha256_hex w.hashed

-- The copy is checked, and the manifest on the card describes it: its length, and its hash.
pub record IsDocumented (sha256_hex : List ℕ → List ℕ) (w : World) : Type 0 where
  pub checked : IsChecked sha256_hex w.writer
  pub document : Manifest
  pub written : w.manifest ≡ some document
  pub hash : document.sha256 ≡ sha256_hex w.writer.hashed
  pub size : document.bytes ≡ length w.writer.hashed
