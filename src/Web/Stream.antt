-- ===== src/Web/Stream.antt =====
-- internal/web/server.go: `streamChunked`, from an open file to the connection. The results of its calls
-- are given in advance.
pub mod Complete
pub mod Exact
use logfalcon.Prelude.{
  ℕ, zero, suc, ◌-◌, Bool, true, false, Option, none, some, List, [], ◌∷◌, ◌++◌, min, ◌==◌,
  if◌then◌else◌, length, take, drop,
}

abbrev pub file_chunk_size : ℕ
file_chunk_size = 1048576

-- A `Read` of a file: it fails, or it returns at most `n + 1` bytes, and at least one where there is one.
pub data ReadAnswer : Type 0 where
  read_fails : ReadAnswer
  at_most_suc : ℕ → ReadAnswer

-- The file from its offset on, what the client got, and the answers to come; afterwards every call does all
-- of its work. `some n` is a `Write` that fails after `n` bytes.
pub record Transfer : Type 0 where
  pub unread : List ℕ
  pub sent : List ℕ
  pub reads : List ReadAnswer
  pub writes : List (Option ℕ)

-- The bytes of a `Read` into `to_read` bytes; none of them is the end of the file, or an error.
unfoldable pub read_bytes : List ReadAnswer → ℕ → List ℕ → List ℕ
read_bytes [] to_read unread = take to_read unread
read_bytes (read_fails ∷ rest) to_read unread = []
read_bytes (at_most_suc n ∷ rest) to_read unread = take (min (suc n) to_read) unread

unfoldable pub rest_of {ℓ} : {A : Type ℓ} → List A → List A
rest_of [] = []
rest_of (x ∷ xs) = xs

-- A `Write` of `bytes`: whether it succeeds.
unfoldable pub write_bytes : List (Option ℕ) → List ℕ → Transfer → Bool × Transfer
write_bytes [] bytes t = (true, record t { sent = t.sent ++ bytes })
write_bytes (none ∷ rest) bytes t = (true, record t { sent = t.sent ++ bytes; writes = rest })
write_bytes (some n ∷ rest) bytes t =
    (false, record t { sent = t.sent ++ take n bytes; writes = rest })

-- The file after a `Read` that returned `bytes`.
abbrev pub after_read : List ℕ → Transfer → Transfer
after_read bytes t = record t { unread = drop (length bytes) t.unread; reads = rest_of t.reads }

-- What a round does with `bytes`, the result of its `Read`, which left the transfer `t`: `rest` is the loop
-- from the next round on. No bytes are the end of the file or an error, since a `Read` of an `os.File` into
-- a buffer that is not empty returns none else.
unfoldable pub stream_read : List ℕ → Transfer → Bool × Transfer → Option Transfer → Option Transfer
stream_read [] t (good, t') rest = some t
stream_read (b ∷ bytes) t (good, t') rest = if good then rest else some t'

-- The loop; every round but the last takes a byte off `remaining`, so that many rounds and one are enough.
unfoldable pub stream_loop : ℕ → ℕ → Transfer → Option Transfer
unfolding read_bytes rest_of write_bytes stream_read
stream_loop zero remaining t = none
stream_loop (suc fuel) remaining t =
    let bytes = read_bytes t.reads (min file_chunk_size remaining) t.unread in
    let read = after_read bytes t in
    let (good, written) = write_bytes t.writes bytes read in
    let rest = stream_loop fuel (remaining - length bytes) written in
    if remaining == 0 then some t else stream_read bytes read (good, written) rest

-- `streamChunked`
unfoldable pub stream_chunked : ℕ → Transfer → Option Transfer
unfolding stream_loop
stream_chunked length t = stream_loop (suc length) length t
