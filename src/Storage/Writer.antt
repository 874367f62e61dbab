-- ===== src/Storage/Writer.antt =====
-- internal/storage/writer.go: the buffered, hashed and periodically synced output file. What the
-- file system does is given in advance, as for a port; afterwards everything succeeds. The buffer is
-- the standard library's `bufio.Writer`, and SHA-256 is a parameter, a function of the bytes that a
-- hasher was given.
pub mod Buffer
pub mod Faithful
pub mod Copy
pub mod Synced
use logfalcon.Prelude.{
  ℕ, ◌+◌, ◌-◌, Bool, true, false, Option, none, some, List, [], ◌∷◌, ◌++◌, min, ◌==◌, ltb, leb,
  if◌then◌else◌, length, take, drop, bytes_eq,
}

abbrev pub buf_size : ℕ
buf_size = 262144

abbrev pub sync_threshold : ℕ
sync_threshold = 1048576

-- What `VerifyAgainstFile` meets when it opens and reads the file: the bytes that were written, other
-- bytes, or an error.
pub data Reread : Type 0 where
  intact open_fails read_fails : Reread
  altered : List ℕ → Reread

-- An open file: what it holds, what it held at the last good `Sync`, whether it is removed, what its last
-- re-read gave, and the results of the calls to come. `some n` is a `Write` that fails after `n` bytes.
pub record File : Type 0 where
  pub content : List ℕ
  pub synced : List ℕ
  pub removed : Bool
  pub read_back : Option (List ℕ)
  pub writes : List (Option ℕ)
  pub syncs : List Bool
  pub closes : List Bool
  pub rereads : List Reread

-- `StreamWriter`; `buf` and `buf_failed` are the bytes and the sticky error of the `bufio.Writer`,
-- `hashed` is what the hasher was given.
pub record StreamWriter : Type 0 where
  pub file : File
  pub buf : List ℕ
  pub buf_failed : Bool
  pub hashed : List ℕ
  pub bytes_written : ℕ
  pub last_sync_offset : ℕ

-- `NewStreamWriter`, for a file that could be created.
unfoldable pub new_stream_writer : File → StreamWriter
new_stream_writer f = record {
  file = record f { content = []; synced = []; removed = false; read_back = none };
  buf = [];
  buf_failed = false;
  hashed = [];
  bytes_written = 0;
  last_sync_offset = 0;
}

-- `Write` of `os.File`: the number of bytes written, and whether that was all.
unfoldable pub file_write : List ℕ → File → (ℕ × Bool) × File
file_write bytes f = elim f.writes [
  | [] ↦ ((length bytes, true), record f { content = f.content ++ bytes })
  | w ∷ rest ↦ elim w [
    | none ↦ ((length bytes, true), record f { content = f.content ++ bytes; writes = rest })
    | some n ↦ (
      (min n (length bytes), false),
      record f { content = f.content ++ take (min n (length bytes)) bytes; writes = rest },
    )
  ]
]

unfoldable pub file_sync : File → Bool × File
file_sync f = elim f.syncs [
  | [] ↦ (true, record f { synced = f.content })
  | s ∷ rest ↦ elim s [
    | true ↦ (true, record f { synced = f.content; syncs = rest })
    | false ↦ (false, record f { syncs = rest })
  ]
]

unfoldable pub file_close : File → Bool × File
file_close f = elim f.closes [ [] ↦ (true, f) | c ∷ rest ↦ (c, record f { closes = rest }) ]

-- `Flush` of `bufio.Writer`: a short write leaves the rest in the buffer, and its error stays.
unfoldable pub flush : StreamWriter → Bool × StreamWriter
unfolding file_write
flush w =
    let ((n, good), f) = file_write w.buf w.file in
    if w.buf_failed
    then (false, w)
    else if length w.buf == 0
    then (true, w)
    else if good
    then (true, record w { file = f; buf = [] })
    else (false, record w { file = f; buf = drop n w.buf; buf_failed = true })

-- A write past an empty buffer, straight to the file.
unfoldable pub direct_write : List ℕ → StreamWriter → (ℕ × Bool) × StreamWriter
unfolding file_write
direct_write bytes w =
    let ((n, good), f) = file_write bytes w.file in
    ((n, good), record w { file = f; buf_failed = if good then w.buf_failed else true })

-- The second pass of the loop of `bufio.Writer.Write`, after a flush: the buffer is empty, so what
-- does not fit goes straight to the file, and nothing is left for a third pass.
unfoldable pub write_rest : ℕ → List ℕ → StreamWriter → (ℕ × Bool) × StreamWriter
unfolding direct_write
write_rest n rest w =
    let ((k, good), w') = direct_write rest w in
    if leb (length rest) buf_size
    then ((n + length rest, true), record w { buf = w.buf ++ rest })
    else ((n + k, good), w')

-- `Write` of `bufio.Writer`.
unfoldable pub buffer_write : List ℕ → StreamWriter → (ℕ × Bool) × StreamWriter
unfolding flush direct_write write_rest
buffer_write bytes w =
    let room = buf_size - length w.buf in
    let (good, flushed) = flush (record w { buf = w.buf ++ take room bytes }) in
    if w.buf_failed
    then ((0, false), w)
    else if leb (length bytes) room
    then ((length bytes, true), record w { buf = w.buf ++ bytes })
    else if length w.buf == 0
    then direct_write bytes w
    else if good
    then write_rest room (drop room bytes) flushed
    else ((room, false), flushed)

-- The flush and sync at the threshold; `n` and `good` are what the buffer returned.
unfoldable pub sync_now : ℕ → Bool → StreamWriter → (ℕ × Bool) × StreamWriter
unfolding flush file_sync
sync_now n good w =
    let (flushed, w1) = flush w in
    let (synced, f) = file_sync w1.file in
    let w2 = record w1 { file = f } in
    if flushed
    then if synced
      then ((n, good), record w2 { last_sync_offset = w2.bytes_written })
      else ((n, false), w2)
    else ((n, false), w1)

-- What `Write` does with the `n` bytes that the buffer took.
unfoldable pub account : List ℕ → ℕ → Bool → StreamWriter → (ℕ × Bool) × StreamWriter
unfolding sync_now
account bytes n good w =
    let counted = record w {
      hashed = w.hashed ++ take n bytes;
      bytes_written = w.bytes_written + n;
    } in
    if n == 0
    then ((n, good), w)
    else if leb sync_threshold (counted.bytes_written - counted.last_sync_offset)
    then sync_now n good counted
    else ((n, good), counted)

-- `Write`: the number of bytes taken, and whether the error is nil.
unfoldable pub write : List ℕ → StreamWriter → (ℕ × Bool) × StreamWriter
unfolding buffer_write account
write bytes w = let ((n, good), w') = buffer_write bytes w in account bytes n good w'

-- What `Close` does after its flush: the sync, where the flush was good, and the close of the file,
-- on every branch.
unfoldable pub close_flushed : Bool × StreamWriter → Bool × StreamWriter
unfolding file_sync file_close
close_flushed (true, w) =
    let (synced, f) = file_sync w.file in
    let (closed, g) = file_close f in ((if synced then closed else false), record w { file = g })
close_flushed (false, w) = (false, record w { file = (file_close w.file).1 })

-- `Close`.
unfoldable pub close : StreamWriter → Bool × StreamWriter
unfolding flush close_flushed
close w = close_flushed (flush w)

-- `Abort`: `removed` says that the file was to be removed. Every caller drops the result.
unfoldable pub abort : StreamWriter → StreamWriter
unfolding file_close
abort w = record w { file = record ((file_close w.file).1) { removed = true } }

-- What re-reading the file gives; `none` is an error, as the `Open` of a removed file has.
unfoldable pub reread_there : Reread → File → Option (List ℕ)
reread_there intact f = some f.content
reread_there open_fails f = none
reread_there read_fails f = none
reread_there (altered bytes) f = some bytes

unfoldable pub reread : Reread → File → Option (List ℕ)
unfolding reread_there
reread r f = if f.removed then none else reread_there r f

-- `VerifyAgainstFile`: whether the hashes match, and the hash of the file; `none` is an error.
module _ (sha256_hex : List ℕ → List ℕ) where
  unfoldable pub compare_hashes : Option (List ℕ) → StreamWriter → Option (Bool × List ℕ)
  compare_hashes none w = none
  compare_hashes (some bytes) w =
      some (bytes_eq (sha256_hex bytes) (sha256_hex w.hashed), sha256_hex bytes)

  unfoldable pub verify_next : List Reread → StreamWriter → Option (Bool × List ℕ) × StreamWriter
  unfolding reread compare_hashes
  verify_next [] w =
      let found = reread intact w.file in
      (compare_hashes found w, record w { file = record (w.file) { read_back = found } })
  verify_next (r ∷ rest) w =
      let found = reread r w.file in
      (
        compare_hashes found w,
        record w { file = record (w.file) { read_back = found; rereads = rest } },
      )

  unfoldable pub verify_against_file : StreamWriter → Option (Bool × List ℕ) × StreamWriter
  unfolding verify_next
  verify_against_file w = verify_next w.file.rereads w
