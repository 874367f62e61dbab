-- ===== src/Sync/FlashRead.antt =====
-- Step 6, `readFlash` of internal/sync/orchestrator.go: the pipelined read of the flash into the
-- output file.
pub mod Requests
use logfalcon.Prelude.{
  ℕ, zero, suc, ◌+◌, ◌-◌, ◌*◌, ◌/◌, ◌⊎◌, inl, inr, Bool, true, false, List, u16, u32, ◌==◌, ltb,
  leb, if◌then◌else◌, length,
}
use logfalcon.Exec.{Outcome, ok, err, panic, Exec, pure, raise, ◌>>=◌, ◌>>◌}
use logfalcon.Msp.Client.{ClientError, send_flash_read_request, receive_flash_read_response}
use logfalcon.Storage.Writer.{write, close, abort}
use logfalcon.Sync.Status.{text, set_status_sync}
use logfalcon.Sync.World.{
  World, Config, Step, SyncResult, led_error, modify, set_led, show, on_client, fail, abort_with,
}

abbrev pub max_consecutive_errors : ℕ
max_consecutive_errors = 5

-- The request size: a chunk, or what is left, as a 16-bit number.
unfoldable pub request_size : ℕ → ℕ → ℕ
request_size chunk_size remaining =
    if ltb (u16 remaining) chunk_size then u16 remaining else chunk_size

-- A pass of the loop goes on with `address` and `consecutiveErrors`.
abbrev pub Next : Type 0
Next = ℕ → ℕ → Step (Unit {0})

module _ (cfg : Config) (used_size : ℕ) where
  -- `uint16(cfg.FlashChunkSize)`.
  abbrev pub chunk_size : ℕ
  chunk_size = u16 cfg.flash_chunk_size

  -- A request for what stands at `address`.
  unfoldable pub request_at : ℕ → Step (Unit {0} ⊎ ClientError)
  unfolding request_size send_flash_read_request
  request_at address = on_client (
      send_flash_read_request address (request_size chunk_size (used_size - address))
        cfg.flash_read_compression)

  -- The first request.
  unfoldable pub primed : Unit {0} ⊎ ClientError → Step (Unit {0})
  unfolding abort_with
  primed (inl sent) = pure tt
  primed (inr e) = abort_with (text "Could not start reading flash data from the FC.")

  unfoldable pub prime : Step (Unit {0})
  unfolding request_at primed
  prime = do sent ← request_at 0; primed sent

  -- After an error or a wrong address: the same request again, a bounded number of times.
  unfoldable pub retry : Next → ℕ → ℕ → Step (Unit {0}) → Step (Unit {0})
  unfolding request_at
  retry next address errors give_up =
      if leb max_consecutive_errors (errors + 1)
      then give_up
      else (do request_at address; next address (errors + 1))

  -- `writer.Write(data)`.
  unfoldable pub write_data : List ℕ → Step (Unit {0})
  unfolding write abort_with
  write_data bytes w =
      let ((n, good), writer) = write bytes w.writer in
      (if good then pure tt else abort_with (text "Failed to write data to the output file."))
        (record w { writer = writer })

  -- `SetStatusSync`, with the progress in 32-bit arithmetic.
  unfoldable pub show_progress : ℕ → Step (Unit {0})
  unfolding set_status_sync
  show_progress address = modify (λ w. record w {
    status =
        set_status_sync "syncing" (u32 (address * 100) / used_size)
          (text "Copying blackbox flash to the Pi SD card.") address used_size w.status;
  })

  -- The test before the debug log divides by `uint32(chunkSize) * 64`.
  unfoldable pub log_progress : Step (Unit {0})
  log_progress w = if u32 (chunk_size * 64) == 0 then (panic, w) else (ok tt, w)

  -- A chunk with data: the next request goes out before the data is written.
  unfoldable pub take_chunk : Next → ℕ → List ℕ → Step (Unit {0})
  unfolding request_at write_data show_progress log_progress
  take_chunk next address bytes = do
    let next_addr = u32 (address + u32 (length bytes))
    if ltb next_addr used_size then (do request_at next_addr; pure tt) else pure tt
    write_data bytes
    show_progress next_addr
    log_progress
    next next_addr 0

  -- What came back for the request at `address`; no data is the end of the loop.
  unfoldable pub handle_chunk : Next → ℕ → ℕ → (ℕ × List ℕ) ⊎ ClientError → Step (Unit {0})
  unfolding retry take_chunk abort_with
  handle_chunk next address errors (inr e) =
      retry next address errors
        (abort_with (text "Too many FC read errors. Try another USB cable and sync again."))
  handle_chunk next address errors (inl (chunk_addr, bytes)) =
      if chunk_addr == address
      then (if length bytes == 0 then pure tt else take_chunk next address bytes)
      else retry next address errors
          (abort_with (text "The FC returned inconsistent data. Reconnect and try again."))

  -- The loop, with `passes` passes left before the deadline.
  unfoldable pub read_loop : ℕ → ℕ → ℕ → Step (Unit {0})
  unfolding handle_chunk receive_flash_read_response abort_with
  read_loop zero address errors =
      if ltb address used_size
      then abort_with (text "Sync timed out. The MSP protocol may have hung.")
      else pure tt
  read_loop (suc passes) address errors =
      let next = read_loop passes in
      if ltb address used_size
      then (do
        received ← on_client receive_flash_read_response
        handle_chunk next address errors received)
      else pure tt

  -- `writer.Close()`.
  unfoldable pub close_output : Step (Unit {0})
  unfolding close fail
  close_output w =
      let (good, writer) = close w.writer in
      (if good then pure tt else fail (text "Failed to finalize the output file."))
        (record w { writer = writer })

  -- The deferred `recover` of `readFlash`: after it, the result is Go's zero value, nil.
  unfoldable pub recover_read :
      Outcome SyncResult (Unit {0}) × World → Outcome SyncResult (Unit {0}) × World
  unfolding abort
  recover_read (ok _, w) = (ok tt, w)
  recover_read (err r, w) = (err r, w)
  recover_read (panic, w) =
      (do set_led led_error; show "error" (text "Unexpected error while copying flash data."))
        (record w { writer = abort w.writer })

  unfoldable pub read_flash : Step (Unit {0})
  unfolding prime read_loop close_output recover_read
  read_flash w = recover_read ((do prime; read_loop w.sync_passes 0 0; close_output) w)
