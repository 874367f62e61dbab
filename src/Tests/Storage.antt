-- ===== src/Tests/Storage.antt =====
-- internal/storage/writer.go at concrete inputs.
use logfalcon.Prelude.{arith, ℕ, ◌≡◌, refl, true, false, none, some, List, [], ◌∷◌, length}
use mathlib.Core.List.{flatten}
use logfalcon.Storage.Writer.{
  File, new_stream_writer, file_write, flush, file_sync, file_close, close_flushed, close,
  direct_write, write_rest, buffer_write, sync_now, account, write, intact, verify_against_file,
}
use logfalcon.Storage.Writer.Faithful.{IsFaithful, Accepts, write-Accepts}
use logfalcon.Storage.Writer.Synced.{IsSynced, SyncedOrFailed, write-IsSynced}
use logfalcon.Storage.Writer.Copy.{write_all, copy_exact}

-- A file whose second `Write` fails after one byte.
abbrev a_file : File
a_file = record {
  content = [];
  synced = [];
  removed = false;
  read_back = none;
  writes = none ∷ some 1 ∷ [];
  syncs = true ∷ [];
  closes = true ∷ [];
  rereads = [];
}

a_writer-IsFaithful : IsFaithful (new_stream_writer a_file)
unfolding new_stream_writer
a_writer-IsFaithful = record { kept = refl; counted = refl }

write-Accepts_example :
    Accepts (7 ∷ 8 ∷ []) (new_stream_writer a_file) (write (7 ∷ 8 ∷ []) (new_stream_writer a_file))
write-Accepts_example = write-Accepts (7 ∷ 8 ∷ []) (new_stream_writer a_file) a_writer-IsFaithful

nothing_at_risk : IsSynced (new_stream_writer a_file)
unfolding new_stream_writer
nothing_at_risk = ([], (record { kept = refl; offset = refl }, omega arith))

write-IsSynced_example : SyncedOrFailed (write (7 ∷ 8 ∷ []) (new_stream_writer a_file))
write-IsSynced_example =
    write-IsSynced (7 ∷ 8 ∷ []) (new_stream_writer a_file) a_writer-IsFaithful nothing_at_risk

abbrev two_chunks : List (List ℕ)
two_chunks = (1 ∷ 2 ∷ []) ∷ (3 ∷ []) ∷ []

chunks_written : (write_all two_chunks (new_stream_writer a_file)).0 ≡ true
unfolding write_all write buffer_write account new_stream_writer flush file_write direct_write
    write_rest sync_now file_sync
chunks_written = refl

chunks_closed : (close (write_all two_chunks (new_stream_writer a_file)).1).0 ≡ true
unfolding write_all write buffer_write account new_stream_writer flush file_write direct_write
    write_rest sync_now file_sync close close_flushed file_close
chunks_closed = refl

-- The bytes behind their number stand for their hash.
abbrev a_hash : List ℕ → List ℕ
a_hash bytes = length bytes ∷ bytes

copy_exact_example :
    (let w = (close (write_all two_chunks (new_stream_writer a_file)).1).1 in
      (w.file.content ≡ flatten two_chunks)
      × (w.bytes_written ≡ length (flatten two_chunks))
      × ((verify_against_file a_hash
            (record w { file = record (w.file) { rereads = intact ∷ [] } })).0
          ≡ some (true, a_hash (flatten two_chunks))))
copy_exact_example = copy_exact a_hash two_chunks a_file chunks_written chunks_closed
