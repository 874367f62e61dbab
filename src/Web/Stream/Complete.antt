-- ===== src/Web/Stream/Complete.antt =====
-- internal/web/server.go: `streamChunked` ends, and sends the bytes of the file in their order.
use logfalcon.Prelude.{
  ℕ, zero, suc, ◌+◌, ◌-◌, ◌≤◌, ◌<◌, ◌≡◌, refl, sym, ap, ◌∙◌, true, Option, none, some, List, [],
  ◌∷◌, ◌++◌, min, arith, ◌==◌, on_if, length, take, drop, take_add, take_all, length-take,
}
use logfalcon.Web.Stream.{
  file_chunk_size, ReadAnswer, read_fails, at_most_suc, Transfer, read_bytes, write_bytes,
  after_read, stream_read, stream_loop, stream_chunked,
}
use mathlib.Core.List.{append-nil, append_assoc}

-- From `t` to `t'` the next `count` bytes of the file were sent.
pub record Streams (limit : ℕ) (t t' : Transfer) : Type 0 where
  pub count : ℕ
  pub within : count ≤ limit
  pub in_order : t'.sent ≡ t.sent ++ take count t.unread

take-length-take : (n : ℕ) (l : List ℕ) → take (length (take n l)) l ≡ take n l
take-length-take zero l = refl
take-length-take (suc n) [] = refl
take-length-take (suc n) (x ∷ l) = ap (◌∷◌ x) (take-length-take n l)

read_bytes_prefix :
    (reads : List ReadAnswer) (to_read : ℕ) (l : List ℕ)
    → (k : ℕ) × ((read_bytes reads to_read l ≡ take k l) × (k ≤ to_read))
unfolding read_bytes
read_bytes_prefix [] to_read l = (to_read, (refl, omega arith))
read_bytes_prefix (read_fails ∷ rest) to_read l = (0, (refl, omega arith))
read_bytes_prefix (at_most_suc n ∷ rest) to_read l = (min (suc n) to_read, (refl, omega arith))

-- A `Read` returns the next bytes of the file.
pub read_bytes_next :
    (reads : List ReadAnswer) (to_read : ℕ) (l : List ℕ)
    → (take (length (read_bytes reads to_read l)) l ≡ read_bytes reads to_read l)
      × (length (read_bytes reads to_read l) ≤ to_read)
read_bytes_next reads to_read l =
    let (k, (e, h)) = read_bytes_prefix reads to_read l in
    rw e (take-length-take k l, omega (arith, length-take k l))

take-take : (k n : ℕ) (l : List ℕ) → k ≤ n → take k (take n l) ≡ take k l
take-take zero n l h = refl
take-take (suc k) (suc n) [] h = refl
take-take (suc k) (suc n) (x ∷ l) h = ap (◌∷◌ x) (take-take k n l (omega arith))
take-take (suc k) zero l h = elim h [ ]

-- A `Write` sends some of its bytes, and leaves the file alone.
write_bytes_sent :
    (writes : List (Option ℕ)) (bytes : List ℕ) (t : Transfer)
    → (k : ℕ) × (((write_bytes writes bytes t).1.sent ≡ t.sent ++ take k bytes)
        × (k ≤ length bytes))
unfolding write_bytes
write_bytes_sent [] bytes t = (
  length bytes,
  (ap (◌++◌ t.sent) (sym (take_all (length bytes) bytes (omega arith))), omega arith),
)
write_bytes_sent (none ∷ rest) bytes t = (
  length bytes,
  (ap (◌++◌ t.sent) (sym (take_all (length bytes) bytes (omega arith))), omega arith),
)
write_bytes_sent (some n ∷ rest) bytes t = (
  length (take n bytes),
  (ap (◌++◌ t.sent) (sym (take-length-take n bytes)), omega (arith, length-take n bytes)),
)

write_bytes_all :
    (writes : List (Option ℕ)) (bytes : List ℕ) (t : Transfer)
    → (write_bytes writes bytes t).0 ≡ true
    → (write_bytes writes bytes t).1.sent ≡ t.sent ++ bytes
unfolding write_bytes
write_bytes_all [] bytes t h = refl
write_bytes_all (none ∷ rest) bytes t h = refl
write_bytes_all (some n ∷ rest) bytes t h = cc h

pub write_bytes_unread :
    (writes : List (Option ℕ)) (bytes : List ℕ) (t : Transfer)
    → (write_bytes writes bytes t).1.unread ≡ t.unread
unfolding write_bytes
write_bytes_unread [] bytes t = refl
write_bytes_unread (none ∷ rest) bytes t = refl
write_bytes_unread (some n ∷ rest) bytes t = refl

-- The loop is through.
abbrev pub Ends : ℕ → Transfer → Option Transfer → Type 0
Ends limit t r = (t' : Transfer) × ((r ≡ some t') × Streams limit t t')

nothing_sent : (limit : ℕ) (t t' : Transfer) → t'.sent ≡ t.sent → Streams limit t t'
nothing_sent limit t t' e = record {
  count = 0;
  within = omega arith;
  in_order = e ∙ sym (append-nil t.sent);
}

-- A round whose `Write` fails.
cut_short :
    (limit : ℕ) (bytes : List ℕ) (t : Transfer)
    → take (length bytes) t.unread ≡ bytes
    → length bytes ≤ limit
    → Streams limit t ((write_bytes t.writes bytes (after_read bytes t)).1)
cut_short limit bytes t e h =
    let (k, (s, b)) = write_bytes_sent t.writes bytes (after_read bytes t) in
    record {
      count = k;
      within = omega (arith, b, h);
      in_order = s ∙ ap (◌++◌ t.sent) (ap (take k) (sym e) ∙ take-take k (length bytes) t.unread b);
    }

-- What a round whose `Write` succeeds sends, put before what the rest of the loop sends.
pub sent_before :
    (count : ℕ) (bytes : List ℕ) (t t' : Transfer)
    → take (length bytes) t.unread ≡ bytes
    → (write_bytes t.writes bytes (after_read bytes t)).0 ≡ true
    → (let w = (write_bytes t.writes bytes (after_read bytes t)).1 in
        t'.sent ≡ w.sent ++ take count w.unread)
    → t'.sent ≡ t.sent ++ take (length bytes + count) t.unread
sent_before count bytes t t' e good s =
    let w = (write_bytes t.writes bytes (after_read bytes t)).1 in
    let tail = take count (drop (length bytes) t.unread) in
    let step : w.sent ++ take count w.unread ≡ (t.sent ++ bytes) ++ tail =
      rw
        (
          write_bytes_all t.writes bytes (after_read bytes t) good,
          write_bytes_unread t.writes bytes (after_read bytes t),
        )
        refl in
    rw (take_add (length bytes) count t.unread, e) (s ∙ step ∙ append_assoc t.sent bytes tail)

sent_on :
    (limit : ℕ) (bytes : List ℕ) (t t' : Transfer)
    → take (length bytes) t.unread ≡ bytes
    → length bytes ≤ limit
    → (write_bytes t.writes bytes (after_read bytes t)).0 ≡ true
    → Streams (limit - length bytes) ((write_bytes t.writes bytes (after_read bytes t)).1) t'
    → Streams limit t t'
sent_on limit bytes t t' e h good s = record {
  count = length bytes + s.count;
  within = omega (arith, h, s.within);
  in_order = sent_before s.count bytes t t' e good s.in_order;
}

round_Ends :
    (fuel limit : ℕ) (bytes : List ℕ) (t : Transfer)
    → take (length bytes) t.unread ≡ bytes
    → length bytes ≤ limit
    → limit < suc fuel
    → ((n : ℕ) (u : Transfer) → n < fuel → Ends n u (stream_loop fuel n u))
    → Ends limit t (
        stream_read bytes (after_read bytes t) (write_bytes t.writes bytes (after_read bytes t)) (
          stream_loop fuel
            (limit - length bytes)
            ((write_bytes t.writes bytes (after_read bytes t)).1)))
unfolding stream_read
round_Ends fuel limit [] t e h lt again =
    (after_read [] t, (refl, nothing_sent limit t (after_read [] t) refl))
round_Ends fuel limit (b ∷ bytes) t e h lt again =
    let w = write_bytes t.writes (b ∷ bytes) (after_read (b ∷ bytes) t) in
    on_if (Ends limit t) w.0 (stream_loop fuel (limit - length (b ∷ bytes)) w.1) (some w.1)
      (λ good.
        let (t', (q, s)) = again (limit - length (b ∷ bytes)) w.1 (omega (arith, lt, h)) in
        (t', (q, sent_on limit (b ∷ bytes) t t' e h good s)))
      (λ bad. (w.1, (refl, cut_short limit (b ∷ bytes) t e h)))

stream_loop-Ends :
    (fuel limit : ℕ) (t : Transfer) → limit < fuel → Ends limit t (stream_loop fuel limit t)
unfolding stream_loop
stream_loop-Ends zero limit t lt = elim lt [ ]
stream_loop-Ends (suc fuel) limit t lt =
    let (e, h) = read_bytes_next t.reads (min file_chunk_size limit) t.unread in
    on_if (Ends limit t) (limit == 0) _ _ (λ z. (t, (refl, nothing_sent limit t t refl)))
      (λ z. round_Ends fuel limit _ t e (omega (arith, h)) lt (stream_loop-Ends fuel))

-- `streamChunked` ends, whatever its reads and writes do, and what it has sent by then is a run of at most
-- `length` next bytes of the file, in their order.
pub stream_chunked-Ends : (limit : ℕ) (t : Transfer) → Ends limit t (stream_chunked limit t)
unfolding stream_chunked
stream_chunked-Ends limit t = stream_loop-Ends (suc limit) limit t (omega arith)
