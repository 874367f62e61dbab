-- ===== src/Web/Stream/Exact.antt =====
-- internal/web/server.go: `streamChunked` sends all that it was asked for, where no call fails.
use logfalcon.Prelude.{
  ℕ, zero, suc, ◌+◌, ◌-◌, ◌≤◌, ◌<◌, ◌≡◌, refl, sym, true, false, Option, none, some, List, [], ◌∷◌,
  ◌++◌, min, arith, ◌==◌, ==_iff, on_if, length, take, drop, All, length-take, length-drop,
}
use logfalcon.Web.Stream.{
  file_chunk_size, ReadAnswer, read_fails, at_most_suc, Transfer, read_bytes, rest_of, write_bytes,
  after_read, stream_read, stream_loop, stream_chunked,
}
use logfalcon.Web.Stream.Complete.{read_bytes_next, sent_before, write_bytes_unread}
use mathlib.Core.List.{append-nil}

-- Reads and writes without an error.
abbrev pub IsSmoothRead : ReadAnswer → Type 0
IsSmoothRead read_fails = ⊥
IsSmoothRead (at_most_suc n) = Unit {0}

abbrev pub IsSmooth : Transfer → Type 0
IsSmooth t = All IsSmoothRead t.reads × All (λ w. w ≡ none) t.writes

smooth_rest : (reads : List ReadAnswer) → All IsSmoothRead reads → All IsSmoothRead (rest_of reads)
unfolding rest_of
smooth_rest [] h = tt
smooth_rest (r ∷ rs) h = h.1

-- Without an error a `Read` of a file that is not at its end returns something.
smooth_read :
    (reads : List ReadAnswer) (n : ℕ) (l : List ℕ)
    → All IsSmoothRead reads
    → 0 < n
    → 0 < length l
    → 0 < length (read_bytes reads n l)
unfolding read_bytes
smooth_read [] n l h p q = omega (arith, length-take n l)
smooth_read (read_fails ∷ rest) n l h p q = absurd h.0
smooth_read (at_most_suc k ∷ rest) n l h p q = omega (arith, length-take (min (suc k) n) l)

smooth_write :
    (writes : List (Option ℕ)) (bytes : List ℕ) (t : Transfer)
    → All (λ w. w ≡ none) writes
    → t.writes ≡ writes
    → ((write_bytes writes bytes t).0 ≡ true)
      × (All (λ w. w ≡ none) (write_bytes writes bytes t).1.writes
          × ((write_bytes writes bytes t).1.reads ≡ t.reads))
unfolding write_bytes
smooth_write [] bytes t h e = (refl, (rw e tt, refl))
smooth_write (none ∷ rest) bytes t h e = (refl, (h.1, refl))
smooth_write (some n ∷ rest) bytes t h e = cc h.0

-- The loop is through, and has sent `limit` bytes.
abbrev pub Sends : ℕ → Transfer → Option Transfer → Type 0
Sends limit t r = (t' : Transfer) × ((r ≡ some t') × (t'.sent ≡ t.sent ++ take limit t.unread))

round_Sends :
    (fuel limit : ℕ) (bytes : List ℕ) (t : Transfer)
    → take (length bytes) t.unread ≡ bytes
    → length bytes ≤ limit
    → 0 < length bytes
    → limit < suc fuel
    → limit ≤ length t.unread
    → IsSmooth t
    → ((n : ℕ) (u : Transfer)
        → n < fuel
        → n ≤ length u.unread
        → IsSmooth u
        → Sends n u (stream_loop fuel n u))
    → Sends limit t (
        stream_read bytes (after_read bytes t) (write_bytes t.writes bytes (after_read bytes t)) (
          stream_loop fuel
            (limit - length bytes)
            ((write_bytes t.writes bytes (after_read bytes t)).1)))
unfolding stream_read
round_Sends fuel limit [] t e h p lt enough smooth again = elim p [ ]
round_Sends fuel limit (b ∷ bytes) t e h p lt enough smooth again =
    let read = after_read (b ∷ bytes) t in
    let w = write_bytes t.writes (b ∷ bytes) read in
    let (good, (writes, reads)) = smooth_write t.writes (b ∷ bytes) read smooth.1 refl in
    let unread : w.1.unread ≡ drop (length (b ∷ bytes)) t.unread =
      write_bytes_unread t.writes (b ∷ bytes) read in
    let left : limit - length (b ∷ bytes) ≤ length w.1.unread =
      rw unread (omega (arith, enough, length-drop (length (b ∷ bytes)) t.unread)) in
    let (t', (q, s)) =
      again (limit - length (b ∷ bytes)) w.1 (omega (arith, lt, h)) left
        (rw reads (smooth_rest t.reads smooth.0), writes) in
    let whole : length (b ∷ bytes) + (limit - length (b ∷ bytes)) ≡ limit = omega (arith, h) in
    let sent = sent_before (limit - length (b ∷ bytes)) (b ∷ bytes) t t' e good s in
    rw good (t', (q, rw whole at sent))

nonzero : (n : ℕ) → (n == 0) ≡ false → 0 < n
nonzero n h = ground arith

stream_loop-Sends :
    (fuel limit : ℕ) (t : Transfer)
    → limit < fuel
    → limit ≤ length t.unread
    → IsSmooth t
    → Sends limit t (stream_loop fuel limit t)
unfolding stream_loop
stream_loop-Sends zero limit t lt enough smooth = elim lt [ ]
stream_loop-Sends (suc fuel) limit t lt enough smooth =
    let (e, h) = read_bytes_next t.reads (min file_chunk_size limit) t.unread in
    on_if (Sends limit t) (limit == 0) _ _
      (λ z.
        let zero_limit = (==_iff limit 0).0 z in
        (t, (refl, rw zero_limit (sym (append-nil t.sent)))))
      (λ z.
        let positive = nonzero limit z in
        round_Sends fuel limit _ t e (omega (arith, h))
          (smooth_read t.reads (min file_chunk_size limit) t.unread smooth.0
            (omega (arith, positive)) (omega (arith, positive, enough)))
          lt enough smooth (stream_loop-Sends fuel))

-- `streamChunked` sends the next `limit` bytes of the file, no more and no less, where the file has as
-- many, no call fails, and however short its reads are.
pub stream_chunked-Sends :
    (limit : ℕ) (t : Transfer)
    → limit ≤ length t.unread
    → IsSmooth t
    → Sends limit t (stream_chunked limit t)
unfolding stream_chunked
stream_chunked-Sends limit t enough smooth =
    stream_loop-Sends (suc limit) limit t (omega arith) enough smooth
