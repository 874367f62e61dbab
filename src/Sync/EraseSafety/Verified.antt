-- ===== src/Sync/EraseSafety/Verified.antt =====
-- Steps 9 and 10, and the whole sync: the erase command goes out only behind a verified copy.
use mathlib.Core.Path.{subst}
use Prim.Native.String.{String}
use logfalcon.Prelude.{
  arith, ℕ, zero, suc, ◌≡◌, refl, ap, sym, ◌∙◌, ◌⊎◌, inl, inr, Bool, true, false, not, List,
  if◌then◌else◌, on_if, length,
}
use logfalcon.Exec.{Outcome, ok, err, panic, continue, continue_keeps, pure}
use logfalcon.Fc.Detector.{FcInfo}
use logfalcon.Msp.Client.{ClientError, DataflashSummary, get_dataflash_summary, erase_flash}
use logfalcon.Storage.Writer.{StreamWriter}
use logfalcon.Sync.Status.{text, set_fc_identity, clear_fc_identity}
use logfalcon.Sync.World.{led_busy, show, World, Config, Step, SyncResult, fail, on_client}
use logfalcon.Sync.FlashRead.{read_flash}
use logfalcon.Sync.Orchestrator.{
  verify_integrity, write_manifest, update_read, update_manifest_erase, is_erased, poll_erase,
  erase_sent, erase_ended, wait_for_erase, erase_verified, finish, copy_and_finish,
  prepare_and_copy, query_and_copy, identify_and_copy, run_steps, recover_run, run, open_port,
}
use logfalcon.Sync.Preparation.{identify_fc, query_flash_state, check_storage_and_prepare}
use logfalcon.Sync.EraseSafety.{Idle, Reaches, Copying, Copied, IsChecked, IsDocumented}
use logfalcon.Sync.EraseSafety.Preparing.{
  AnyIdle, open_port-Reaches, identify_fc-Reaches, query_flash_state-Reaches,
  check_storage_and_prepare-Reaches,
}
use logfalcon.Sync.EraseSafety.Copying.{read_flash-Reaches}
use logfalcon.Sync.EraseSafety.Integrity.{
  IsVerified, verify_integrity-Reaches, Documented, write_manifest-Reaches,
  update_read-IsDocumented,
}

-- The world in which a step begins that is announced on the LED and the dashboard.
abbrev busy : String → String → World → World
busy state message w = (show state (text message) (record w { led = led_busy })).1

abbrev shown : String → String → World → World
shown state message w = (show state (text message) w).1

module _ (sha256_hex : List ℕ → List ℕ) where
  -- What the erase does to the client and the LED concerns no copy.
  moved :
      (w v : World)
      → v.writer ≡ w.writer
      → v.manifest ≡ w.manifest
      → IsDocumented sha256_hex w
      → IsDocumented sha256_hex v
  moved w v e m d = record {
    checked = subst (IsChecked sha256_hex) (sym e) d.checked;
    document = d.document;
    written = m ∙ d.written;
    hash = d.hash ∙ ap (λ (x : StreamWriter). sha256_hex x.hashed) (sym e);
    size = d.size ∙ ap (λ (x : StreamWriter). length x.hashed) (sym e);
  }

  poll_erase-IsDocumented :
      (passes : ℕ) (w : World)
      → IsDocumented sha256_hex w
      → IsDocumented sha256_hex (poll_erase passes w).1
  unfolding poll_erase
  poll_erase-IsDocumented zero w d = d
  poll_erase-IsDocumented (suc passes) w d =
      continue_keeps (IsDocumented sha256_hex) (on_client get_dataflash_summary w) _
        (moved w _ refl refl d) (go (poll_erase-IsDocumented passes))
    where
      go :
          ((v : World)
            → IsDocumented sha256_hex v
            → IsDocumented sha256_hex (poll_erase passes v).1)
          → (found : DataflashSummary ⊎ ClientError) (v : World) → IsDocumented sha256_hex v
          → IsDocumented sha256_hex ((if is_erased found then pure true else poll_erase passes) v).1
      go ih found v k = on_if holds (is_erased found) _ _ (λ _. k) (λ _. ih v k)
        where
          holds : Step Bool → Type 0
          holds m = IsDocumented sha256_hex (m v).1

  erase_sent-IsDocumented :
      (sent : Unit {0} ⊎ ClientError) (w : World)
      → IsDocumented sha256_hex w
      → IsDocumented sha256_hex (erase_sent sent w).1
  unfolding erase_sent
  erase_sent-IsDocumented (inl sent) w d = poll_erase-IsDocumented w.erase_passes w d
  erase_sent-IsDocumented (inr e) w d = d

  erase_ended-IsDocumented :
      (erased : Bool) (w : World)
      → IsDocumented sha256_hex w
      → IsDocumented sha256_hex (erase_ended erased w).1
  unfolding erase_ended fail
  erase_ended-IsDocumented true w d = moved w _ refl refl d
  erase_ended-IsDocumented false w d = moved w _ refl refl d

  erase_verified-IsDocumented :
      (w : World) → IsDocumented sha256_hex w → IsDocumented sha256_hex (erase_verified w).1
  unfolding erase_verified wait_for_erase update_manifest_erase
  erase_verified-IsDocumented w d =
      continue_keeps (IsDocumented sha256_hex) (wait_for_erase begun) _
        (continue_keeps (IsDocumented sha256_hex) (on_client erase_flash begun) erase_sent
          (moved w _ refl refl d) erase_sent-IsDocumented)
        (λ erased v k.
          erase_ended-IsDocumented erased (update_read v.manifest erased v)
            (update_read-IsDocumented sha256_hex erased v.manifest v k refl))
    where
      begun : World
      begun = busy "erasing" "Erasing the FC flash now that the copy is verified." w

module _ (sha256_hex : List ℕ → List ℕ) (cfg : Config) where
  -- Why the erase command may go out.
  pub record IsSafe (w : World) : Type 0 where
    pub real_run : cfg.dry_run ≡ false
    pub wanted : cfg.erase_after_sync ≡ true
    pub copied : IsDocumented sha256_hex w

  abbrev pub Ends : World → Type 0
  Ends w = Idle w ⊎ IsSafe w

  Ends-continue :
      {A B : Type 0} (P : A → World → Type 0) (f : A → Step B) (r : Outcome SyncResult A × World)
      → Reaches P r
      → ((a : A) (w : World) → P a w → Ends (f a w).1)
      → Ends (continue r f).1
  Ends-continue P f (ok a, w) p h = h a w p
  Ends-continue P f (err e, w) p h = inl p
  Ends-continue P f (panic, w) p h = inl p

  finish-Ends : (w : World) → Documented sha256_hex w → Ends (finish sha256_hex cfg w).1
  unfolding finish
  finish-Ends w d =
      on_if holds cfg.dry_run _ _ (λ _. inl d.0)
        (λ real.
          on_if holds (not cfg.erase_after_sync) _ _ (λ _. inl d.0)
            (λ wanted. inr (record {
              real_run = real;
              wanted = ground (arith, wanted);
              copied = erase_verified-IsDocumented sha256_hex w d.1;
            })))
    where
      holds : Step SyncResult → Type 0
      holds m = Ends (m w).1

  copy_and_finish-Ends :
      (info : FcInfo) (used_size : ℕ) (w : World)
      → Copying w
      → Ends (copy_and_finish sha256_hex cfg info used_size w).1
  unfolding copy_and_finish
  copy_and_finish-Ends info used_size w h =
      Ends-continue (λ _. Copied) _ (read_flash cfg used_size begun)
        (read_flash-Reaches cfg used_size begun h)
        (λ _ v k.
          Ends-continue (IsVerified sha256_hex used_size) _
            (verify_integrity sha256_hex used_size (verifying v))
            (verify_integrity-Reaches sha256_hex used_size (verifying v) k)
            (λ hash u l.
              Ends-continue (λ _. Documented sha256_hex) _ (write_manifest info hash used_size u)
                (write_manifest-Reaches sha256_hex used_size hash info u l) (λ _. finish-Ends)))
    where
      begun : World
      begun = busy "syncing" "Copying blackbox flash to the Pi SD card." w

      verifying : World → World
      verifying v = busy "verifying" "Verifying the copied file before erase." v

  prepare_and_copy-Ends :
      (info : FcInfo) (used_size : ℕ) (w : World)
      → Idle w
      → Ends (prepare_and_copy sha256_hex cfg info used_size w).1
  unfolding prepare_and_copy
  prepare_and_copy-Ends info used_size w h =
      Ends-continue (λ _. Copying) (λ _. copy_and_finish sha256_hex cfg info used_size)
        (check_storage_and_prepare cfg used_size w)
        (check_storage_and_prepare-Reaches cfg used_size w h)
        (λ _. copy_and_finish-Ends info used_size)

  query_and_copy-Ends :
      (info : FcInfo) (w : World) → Idle w → Ends (query_and_copy sha256_hex cfg info w).1
  unfolding query_and_copy
  query_and_copy-Ends info w h =
      Ends-continue AnyIdle (prepare_and_copy sha256_hex cfg info) (query_flash_state querying)
        (query_flash_state-Reaches querying h) (prepare_and_copy-Ends info)
    where
      querying : World
      querying =
          shown "querying" "Reading blackbox flash usage from the FC."
            (record w { status = set_fc_identity info w.status })

  identify_and_copy-Ends : (w : World) → Idle w → Ends (identify_and_copy sha256_hex cfg w).1
  unfolding identify_and_copy
  identify_and_copy-Ends w h =
      Ends-continue AnyIdle (query_and_copy sha256_hex cfg) (identify_fc identifying)
        (identify_fc-Reaches identifying h) query_and_copy-Ends
    where
      identifying : World
      identifying =
          shown "identifying" "Checking the flight controller over MSP."
            (record w { status = clear_fc_identity w.status })

  run_steps-Ends : (w : World) → Idle w → Ends (run_steps sha256_hex cfg w).1
  unfolding run_steps
  run_steps-Ends w h =
      Ends-continue AnyIdle (λ _. identify_and_copy sha256_hex cfg) (open_port w)
        (open_port-Reaches w h) (λ _. identify_and_copy-Ends)

  recover_run-Ends :
      (r : Outcome SyncResult SyncResult × World) → Ends r.1 → Ends (recover_run sha256_hex cfg r).1
  unfolding recover_run
  recover_run-Ends (ok a, w) e = e
  recover_run-Ends (err a, w) e = e
  recover_run-Ends (panic, w) (inl h) = inl h
  recover_run-Ends (panic, w) (inr s) = inr (record {
    real_run = s.real_run;
    wanted = s.wanted;
    copied = moved sha256_hex w _ refl refl s.copied;
  })

  -- A sync that begins before the erase command was ever sent ends so, whatever the controller, the
  -- file system and the clock do, or it is no dry run, the erase is configured, the output file is there,
  -- holds exactly the bytes that were hashed and held them at its last good sync, its re-read gave bytes with
  -- the same SHA-256, and the manifest on the card has this SHA-256 and the number of the bytes.
  pub erase_only_verified : (w : World) → Idle w → Ends (run sha256_hex cfg w).1
  unfolding run
  erase_only_verified w h = recover_run-Ends (run_steps sha256_hex cfg w) (run_steps-Ends w h)
