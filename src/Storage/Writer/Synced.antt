-- ===== src/Storage/Writer/Synced.antt =====
-- The periodic sync of internal/storage/writer.go: how much a power loss can cost.
use logfalcon.Prelude.{
  ℕ, ◌+◌, ◌-◌, ◌≤◌, ◌<◌, ◌≡◌, refl, sym, ap, ◌∙◌, ◌⊎◌, inl, inr, Bool, true, false, List, [], ◌++◌,
  arith, ◌==◌, ==_iff, leb, on_if, length, take, length-append, length-take,
}
use mathlib.Core.List.{append_assoc, append-nil}
use logfalcon.Storage.Writer.{
  File, StreamWriter, sync_threshold, flush, file_sync, buffer_write, sync_now, account, write,
}
use logfalcon.Storage.Writer.Buffer.{total, Takes, Moves, flush-Moves, buffer_write-Takes}
use logfalcon.Storage.Writer.Copy.{file_sync-synced}
use logfalcon.Storage.Writer.Faithful.{IsFaithful, counting, file_sync-content}

-- What was written is what the file held at its last sync and `rest`, and the writer knows how much the file
-- held then.
pub record IsTracked (w : StreamWriter) (rest : List ℕ) : Type 0 where
  pub kept : total w ≡ w.file.synced ++ rest
  pub offset : w.last_sync_offset ≡ length w.file.synced

-- A power loss can cost fewer bytes than the threshold.
abbrev pub IsSynced : StreamWriter → Type 0
IsSynced w = (rest : List ℕ) × (IsTracked w rest × (length rest < sync_threshold))

-- So it is, or the call returned an error.
abbrev pub SyncedOrFailed : (ℕ × Bool) × StreamWriter → Type 0
SyncedOrFailed r = IsSynced r.1 ⊎ (r.0.1 ≡ false)

-- What was counted is what is on its way into the file.
Counts : StreamWriter → Type 0
Counts w = w.bytes_written ≡ length (total w)

sync_now-IsSynced :
    (n : ℕ) (good : Bool) (w : StreamWriter) → Counts w → SyncedOrFailed (sync_now n good w)
unfolding sync_now Counts
sync_now-IsSynced n good w counted =
    on_if SyncedOrFailed (flush w).0 _ _
      (λ flushed.
        on_if SyncedOrFailed (file_sync (flush w).1.file).0 _ _
          (λ synced. inl ([], (tracked flushed synced, omega arith))) (λ _. inr refl))
      (λ _. inr refl)
  where
    f : File
    f = (flush w).1.file

    moved : Moves w (flush w)
    moved = flush-Moves w

    all_there : (flush w).0 ≡ true → total w ≡ f.content
    all_there e =
        sym moved.totalled ∙ ap (λ b. f.content ++ b) (moved.emptied e) ∙ append-nil f.content

    tracked :
        (flush w).0 ≡ true
        → (file_sync f).0 ≡ true
        → IsTracked
            (record ((flush w).1) {
              file = (file_sync f).1;
              last_sync_offset = (flush w).1.bytes_written;
            })
            []
    tracked e s = record {
      kept =
          ap (λ b. (file_sync f).1.content ++ b) (moved.emptied e)
          ∙ ap (λ c. c ++ []) (file_sync-content f ∙ sym (file_sync-synced f s));
      offset = moved.counted ∙ counted ∙ ap length (all_there e ∙ sym (file_sync-synced f s));
    }

account-IsSynced :
    (bytes : List ℕ) (n : ℕ) (good : Bool) (w : StreamWriter) (before rest : List ℕ)
    → n ≤ length bytes
    → total w ≡ before ++ take n bytes
    → w.bytes_written ≡ length before
    → before ≡ w.file.synced ++ rest
    → w.last_sync_offset ≡ length w.file.synced
    → length rest < sync_threshold
    → SyncedOrFailed (account bytes n good w)
unfolding account Counts
account-IsSynced bytes n good w before rest le t c k o lt =
    on_if SyncedOrFailed (n == 0) _ _
      (λ z.
        let none_taken : take n bytes ≡ [] = ap (λ m. take m bytes) ((==_iff n 0).0 z) in
        inl (
          rest,
          (
            record {
              kept = t ∙ ap (λ x. before ++ x) none_taken ∙ append-nil before ∙ k;
              offset = o;
            },
            lt,
          ),
        ))
      (λ _.
        on_if SyncedOrFailed (leb sync_threshold (w.bytes_written + n - w.last_sync_offset)) _ _
          (λ _. sync_now-IsSynced n good (counting bytes n w) all_counted)
          (λ small. inl (
            rest ++ take n bytes,
            (
              record {
                kept =
                    t
                    ∙ ap (λ x. x ++ take n bytes) k
                    ∙ append_assoc w.file.synced rest (take n bytes);
                offset = o;
              },
              few small,
            ),
          )))
  where
    before_size : length before ≡ length w.file.synced + length rest
    before_size = ap length k ∙ length-append w.file.synced rest

    all_counted : w.bytes_written + n ≡ length (total w)
    all_counted =
        omega (arith, c, le, length-append before (take n bytes), length-take n bytes, ap length t)

    few :
        leb sync_threshold (w.bytes_written + n - w.last_sync_offset) ≡ false
        → length (rest ++ take n bytes) < sync_threshold
    few small = ground (
      arith,
      small,
      c,
      o,
      le,
      before_size,
      length-append rest (take n bytes),
      length-take n bytes,
    )

-- From a faithful writer of which a power loss can cost less than 1 MiB, every `Write` that returns nil,
-- however long its data, leaves one of which it can cost less than 1 MiB: what was written is what the file
-- held at its last good `Sync`, and fewer bytes behind it.
pub write-IsSynced :
    (bytes : List ℕ) (w : StreamWriter) → IsFaithful w → IsSynced w → SyncedOrFailed (write bytes w)
unfolding write
write-IsSynced bytes w f (rest, (tracked, lt)) =
    account-IsSynced bytes r.0.0 r.0.1 r.1 (total w) rest t.bounded t.totalled
      (t.counted ∙ f.counted ∙ ap length (sym f.kept))
      (tracked.kept ∙ ap (λ s. s ++ rest) (sym t.same.0))
      (t.synced ∙ tracked.offset ∙ ap length (sym t.same.0)) lt
  where
    r : (ℕ × Bool) × StreamWriter
    r = buffer_write bytes w

    t : Takes bytes w r
    t = buffer_write-Takes bytes w
