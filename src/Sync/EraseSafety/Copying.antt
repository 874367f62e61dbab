-- ===== src/Sync/EraseSafety/Copying.antt =====
-- Step 6 hands the port no erase command, and on every path, errors and panics included, the output
-- file and its buffer hold what was hashed; where it goes on, the file is closed or removed.
use logfalcon.Prelude.{
  ℕ, zero, suc, ◌+◌, ◌≡◌, refl, ap, sym, ◌∙◌, ◌⊎◌, inl, inr, Bool, true, false, List, ◌++◌, ◌*◌,
  u32, ltb, leb, ◌==◌, if◌then◌else◌, on_if, length,
}
use logfalcon.Exec.{Outcome, ok, err, panic, continue, pure, ◌>>◌, continue_keeps}
use logfalcon.Msp.Client.{ClientError, receive_flash_read_response}
use logfalcon.Msp.Client.Unerased.{
  send_flash_read_request-Unerased, receive_flash_read_response-Unerased,
}
use logfalcon.Storage.Writer.{StreamWriter, write, flush, close, close_flushed, abort, file_sync}
use logfalcon.Storage.Writer.Buffer.{Moves, flush-Moves}
use logfalcon.Storage.Writer.Faithful.{IsFaithful, write-Accepts, file_sync-content}
use logfalcon.Storage.Writer.Copy.{file_close-content, close_flushed-IsClosed}
use logfalcon.Sync.Status.{Message}
use logfalcon.Sync.World.{World, Config, Step, SyncResult, fail, abort_with, on_client}
use logfalcon.Sync.FlashRead.{
  Next, max_consecutive_errors, chunk_size, request_at, primed, prime, retry, write_data,
  show_progress, log_progress, take_chunk, handle_chunk, read_loop, close_output, recover_read,
  read_flash,
}
use logfalcon.Sync.EraseSafety.{Copying, IsSettled, Copied, Reaches}

abort-IsFaithful : (w : StreamWriter) → IsFaithful w → IsFaithful (abort w)
unfolding abort
abort-IsFaithful w h = record {
  kept = ap (λ x. x ++ w.buf) (file_close-content w.file) ∙ h.kept;
  counted = h.counted;
}

close_flushed-IsFaithful :
    (w : StreamWriter) (r : Bool × StreamWriter)
    → Moves w r
    → IsFaithful w
    → IsFaithful (close_flushed r).1
unfolding close_flushed
close_flushed-IsFaithful w (true, w') m h = record {
  kept =
      ap (λ x. x ++ w'.buf) (file_close-content (file_sync w'.file).1 ∙ file_sync-content w'.file)
      ∙ m.totalled
      ∙ h.kept
      ∙ sym m.hashed;
  counted = m.counted ∙ h.counted ∙ ap length (sym m.hashed);
}
close_flushed-IsFaithful w (false, w') m h = record {
  kept = ap (λ x. x ++ w'.buf) (file_close-content w'.file) ∙ m.totalled ∙ h.kept ∙ sym m.hashed;
  counted = m.counted ∙ h.counted ∙ ap length (sym m.hashed);
}

close-IsFaithful : (w : StreamWriter) → IsFaithful w → IsFaithful (close w).1
unfolding close
close-IsFaithful w h = close_flushed-IsFaithful w (flush w) (flush-Moves w) h

-- A good `Close` settles the copy, and an abort removes it.
close-IsSettled : (w : StreamWriter) → IsFaithful w → (close w).0 ≡ true → IsSettled (close w).1
unfolding close
close-IsSettled w h good =
    let closed = close_flushed-IsClosed w (flush w) (flush-Moves w) good in
    inl (closed.content ∙ h.kept ∙ sym closed.hashed, closed.synced ∙ h.kept ∙ sym closed.hashed)

abort-IsSettled : (w : StreamWriter) → IsSettled (abort w)
unfolding abort
abort-IsSettled w = inr refl

-- Where the step goes on, the copy is settled.
abbrev IsFinished : Outcome SyncResult (Unit {0}) × World → Type 0
IsFinished (ok a, w) = Copied w
IsFinished (err e, w) = Copying w
IsFinished (panic, w) = Copying w

continue-IsFinished :
    (r : Outcome SyncResult (Unit {0}) × World) (f : Unit {0} → Step (Unit {0}))
    → Copying r.1
    → ((w : World) → Copying w → IsFinished (f tt w))
    → IsFinished (continue r f)
continue-IsFinished (ok tt, w) f h k = k w h
continue-IsFinished (err e, w) f h k = h
continue-IsFinished (panic, w) f h k = h

-- An error exit changes the writer, the LED and the status.
aborted : (w : World) → Copying w → Copying (record w { writer = abort w.writer })
aborted w h = (h.0, abort-IsFaithful w.writer h.1)

module _ (cfg : Config) (used_size : ℕ) where
  request_at-Copying :
      (address : ℕ) (w : World) → Copying w → Copying (request_at cfg used_size address w).1
  unfolding request_at
  request_at-Copying address w h =
      (send_flash_read_request-Unerased address _ cfg.flash_read_compression w.client h.0, h.1)

  primed-Copying :
      (sent : Unit {0} ⊎ ClientError) (w : World)
      → Copying w
      → Copying (primed cfg used_size sent w).1
  unfolding primed abort_with fail
  primed-Copying (inl sent) w h = h
  primed-Copying (inr e) w h = aborted w h

  prime-Copying : (w : World) → Copying w → Copying (prime cfg used_size w).1
  unfolding prime
  prime-Copying w h =
      continue_keeps Copying (request_at cfg used_size 0 w) _ (request_at-Copying 0 w h)
        primed-Copying

  close_output-IsFinished : (w : World) → Copying w → IsFinished (close_output cfg used_size w)
  unfolding close_output fail
  close_output-IsFinished w h =
      on_if holds (close w.writer).0 _ _ (λ good. (closed, close-IsSettled w.writer h.1 good))
        (λ _. closed)
    where
      after : World
      after = record w { writer = (close w.writer).1 }

      holds : Step (Unit {0}) → Type 0
      holds m = IsFinished (m after)

      closed : Copying after
      closed = (h.0, close-IsFaithful w.writer h.1)

  write_data-Copying :
      (bytes : List ℕ) (w : World) → Copying w → Copying (write_data cfg used_size bytes w).1
  unfolding write_data abort_with fail
  write_data-Copying bytes w h =
      on_if holds (write bytes w.writer).0.1 _ _ (λ _. written) (λ _. aborted after written)
    where
      after : World
      after = record w { writer = (write bytes w.writer).1 }

      holds : Step (Unit {0}) → Type 0
      holds m = Copying (m after).1

      written : Copying after
      written = (h.0, (write-Accepts bytes w.writer h.1).faithful)

  log_progress-Copying : (w : World) → Copying w → Copying (log_progress cfg used_size w).1
  unfolding log_progress
  log_progress-Copying w h =
      on_if holds (u32 (chunk_size cfg used_size * 64) == 0) _ _ (λ _. h) (λ _. h)
    where
      holds : Outcome SyncResult (Unit {0}) × World → Type 0
      holds r = Copying r.1

  -- The rest of the loop keeps the copy.
  module _ (next : Next)
      (goes_on : (a e : ℕ) (w : World) → Copying w → Copying (next a e w).1) where
    retry-Copying :
        (address errors : ℕ) (message : Message) (w : World)
        → Copying w
        → Copying (retry cfg used_size next address errors (abort_with message) w).1
    unfolding retry abort_with fail
    retry-Copying address errors message w h =
        on_if holds (leb max_consecutive_errors (errors + 1)) _ _ (λ _. aborted w h)
          (λ _.
            continue_keeps Copying (request_at cfg used_size address w) _
              (request_at-Copying address w h) (λ _. goes_on address (errors + 1)))
      where
        holds : Step (Unit {0}) → Type 0
        holds m = Copying (m w).1

    take_chunk-Copying :
        (address : ℕ) (bytes : List ℕ) (w : World)
        → Copying w
        → Copying (take_chunk cfg used_size next address bytes w).1
    unfolding take_chunk show_progress
    take_chunk-Copying address bytes w h =
        continue_keeps Copying ((if ltb next_addr used_size then asked else pure tt) w) _
          (on_if holds (ltb next_addr used_size) _ _
            (λ _.
              continue_keeps Copying (request_at cfg used_size next_addr w) _
                (request_at-Copying next_addr w h) (λ _ v k. k))
            (λ _. h))
          (λ _ v k.
            continue_keeps Copying (write_data cfg used_size bytes v) _
              (write_data-Copying bytes v k)
              (λ _ u l.
                continue_keeps Copying (log_progress cfg used_size (shown u))
                  (λ _. next next_addr 0) (log_progress-Copying (shown u) l)
                  (λ _. goes_on next_addr 0)))
      where
        next_addr : ℕ
        next_addr = u32 (address + u32 (length bytes))

        asked : Step (Unit {0})
        asked = do request_at cfg used_size next_addr; pure tt

        holds : Step (Unit {0}) → Type 0
        holds m = Copying (m w).1

        shown : World → World
        shown u = (show_progress cfg used_size next_addr u).1

    handle_chunk-Copying :
        (address errors : ℕ) (received : (ℕ × List ℕ) ⊎ ClientError) (w : World)
        → Copying w
        → Copying (handle_chunk cfg used_size next address errors received w).1
    unfolding handle_chunk
    handle_chunk-Copying address errors (inr e) w h = retry-Copying address errors _ w h
    handle_chunk-Copying address errors (inl (chunk_addr, bytes)) w h =
        on_if holds (chunk_addr == address) _ _
          (λ _.
            on_if holds (length bytes == 0) _ _ (λ _. h)
              (λ _. take_chunk-Copying address bytes w h))
          (λ _. retry-Copying address errors _ w h)
      where
        holds : Step (Unit {0}) → Type 0
        holds m = Copying (m w).1

  read_loop-Copying :
      (passes address errors : ℕ) (w : World)
      → Copying w
      → Copying (read_loop cfg used_size passes address errors w).1
  unfolding read_loop abort_with fail
  read_loop-Copying zero address errors w h =
      on_if holds (ltb address used_size) _ _ (λ _. aborted w h) (λ _. h)
    where
      holds : Step (Unit {0}) → Type 0
      holds m = Copying (m w).1
  read_loop-Copying (suc passes) address errors w h = go (read_loop-Copying passes)
    where
      holds : Step (Unit {0}) → Type 0
      holds m = Copying (m w).1

      go :
          ((a e : ℕ) (v : World) → Copying v → Copying (read_loop cfg used_size passes a e v).1)
          → Copying (read_loop cfg used_size (suc passes) address errors w).1
      go ih =
          on_if holds (ltb address used_size) _ _
            (λ _.
              continue_keeps Copying (on_client receive_flash_read_response w) _
                (receive_flash_read_response-Unerased w.client h.0, h.1)
                (handle_chunk-Copying (read_loop cfg used_size passes) ih address errors))
            (λ _. h)

  recover_read-Copied :
      (r : Outcome SyncResult (Unit {0}) × World)
      → IsFinished r
      → Reaches (λ _. Copied) (recover_read cfg used_size r)
  unfolding recover_read
  recover_read-Copied (ok a, w) h = h
  recover_read-Copied (err e, w) h = h.0
  recover_read-Copied (panic, w) h = (aborted w h, abort-IsSettled w.writer)

  pub read_flash-Reaches :
      (w : World) → Copying w → Reaches (λ _. Copied) (read_flash cfg used_size w)
  unfolding read_flash
  read_flash-Reaches w h = recover_read-Copied _ (
      continue-IsFinished (prime cfg used_size w) _ (prime-Copying w h) (λ v k.
        continue-IsFinished (read_loop cfg used_size w.sync_passes 0 0 v) _
          (read_loop-Copying w.sync_passes 0 0 v k) close_output-IsFinished))
