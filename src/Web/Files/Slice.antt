-- ===== src/Web/Files/Slice.antt =====
-- internal/web/server.go: what `sendFile` sends for a range of two numbers, and for one without a start.
use logfalcon.Prelude.{
  ℕ, zero, suc, ◌+◌, ◌-◌, ◌*◌, ◌^◌, ◌≤◌, ◌<◌, ◌≡◌, refl, ap, true, false, none, some, List, [], ◌∷◌,
  ◌++◌, min, arith, ◌==◌, ==_refl, leb, lt→ltb, on_if, bytes_eq, length, take, drop, All,
  length-drop, Bool-cases, inl, inr,
}
use logfalcon.Prelude.Ints.{pos, int_leb, int_ltb, pred_int}
use logfalcon.Web.Text.{has_prefix, cut, is_digit, digits_value, magnitude, signed, parse_int}
use logfalcon.Web.Stream.{Transfer}
use logfalcon.Web.Stream.Exact.{IsSmoothRead, stream_chunked-Sends}
use logfalcon.Web.Files.{
  Served, Reply, streamed, from_to, bytes_unit, first_byte, last_byte, clamped, in_size, both_bytes,
  asked_spec, asked, range_length, opened, stream_from, reply_asked, send_file,
}
use logfalcon.Web.Files.Range.{Lacks, minus_le}

pub cut_at :
    (sep : ℕ) (before after : List ℕ)
    → Lacks sep before
    → cut sep (before ++ sep ∷ after) ≡ some (before, after)
unfolding cut
cut_at sep [] after h = rw (==_refl sep) refl
cut_at sep (c ∷ before) after h = rw (h.0, cut_at sep before after h.1) refl

-- A text of digits has no sign.
digits_Lack : (acc v : ℕ) (s : List ℕ) → digits_value acc s ≡ some v → Lacks b'-' s
unfolding digits_value
digits_Lack acc v [] h = tt
digits_Lack acc v (c ∷ s) h = elim (Bool-cases (is_digit c)) [
  | inl d ↦ (not_dash d, digits_Lack (acc * 10 + (c - b'0')) v s (rw d at h))
  | inr d ↦ absurd (cc (h, d))
]
  where
    not_dash : is_digit c ≡ true → (c == b'-') ≡ false
    not_dash d = ground arith

first_digit : (c v : ℕ) (s : List ℕ) → magnitude (c ∷ s) ≡ some v → is_digit c ≡ true
unfolding magnitude digits_value
first_digit c v s h = elim (Bool-cases (is_digit c)) [ inl d ↦ d | inr d ↦ absurd (cc (h, d)) ]

not_minus : (c : ℕ) → is_digit c ≡ true → (c == b'-') ≡ false
not_minus c d = ground arith

not_plus : (c : ℕ) → is_digit c ≡ true → (c == b'+') ≡ false
not_plus c d = ground arith

-- What `magnitude` reads, `parse_int` reads as well.
parse_magnitude :
    (c v : ℕ) (s : List ℕ)
    → magnitude (c ∷ s) ≡ some v
    → v < 2 ^ 63
    → parse_int (c ∷ s) ≡ some (pos v)
unfolding parse_int signed
parse_magnitude c v s h lt =
    let d = first_digit c v s h in rw (not_minus c d, not_plus c d, h, lt→ltb v (2 ^ 63) lt) refl

-- The last byte, moved back into the file.
clamped_last : (size last : ℕ) → 0 < size → clamped size (pos last) ≡ pos (min last (size - 1))
unfolding clamped int_leb pred_int
clamped_last zero last h = elim h [ ]
clamped_last (suc size) last h =
    on_if (λ e. e ≡ pos (min last (suc size - 1))) (leb (suc size) last) (pos size) (pos last)
      (λ e. ap pos (low e)) (λ e. ap pos (high e))
  where
    low : leb (suc size) last ≡ true → size ≡ min last (suc size - 1)
    low e = ground arith

    high : leb (suc size) last ≡ false → last ≡ min last (suc size - 1)
    high e = ground arith

in_size_inside :
    (size start end : ℕ)
    → start ≤ end
    → start < size
    → in_size size (pos start) (pos end) ≡ from_to (pos start) (pos end)
unfolding in_size int_leb int_ltb
in_size_inside size start end le lt = ground arith

-- The header of a range: what it asks for.
asked_range :
    (size start last c : ℕ) (before after : List ℕ)
    → Lacks b'-' before
    → first_byte before ≡ some (pos start)
    → magnitude (c ∷ after) ≡ some last
    → last < 2 ^ 63
    → start ≤ last
    → start < size
    → asked size (bytes_unit ++ before ++ b'-' ∷ c ∷ after)
      ≡ from_to (pos start) (pos (min last (size - 1)))
unfolding asked has_prefix asked_spec both_bytes last_byte
asked_range size start last c before after lacks first h lt le inside =
    rw
      (
        cut_at b'-' before (c ∷ after) lacks,
        first,
        parse_magnitude c last after h lt,
        clamped_last size last (omega (arith, inside)),
      )
      (in_size_inside size start (min last (size - 1)) (omega (arith, le, inside)) inside)

-- The response is the bytes of the file from `start` to `end`.
abbrev pub IsSlice : Served → ℕ → ℕ → Reply → Type 0
IsSlice f start end r =
    (r.status ≡ 206)
    × ((t : Transfer) × ((r.body ≡ streamed (some t))
          × (t.sent ≡ take (end + 1 - start) (drop start f.bytes))))

module _ (f : Served) (if_none_match : List ℕ) (stat_good : f.stat_good ≡ true)
    (open_good : f.open_good ≡ true) (seek_good : f.seek_good ≡ true)
    (changed : bytes_eq if_none_match f.etag ≡ false)
    (smooth : All IsSmoothRead f.reads × All (λ w. w ≡ none) f.writes) where
  reply_IsSlice :
      (start end : ℕ)
      → start ≤ end
      → end < length f.bytes
      → IsSlice f start end (reply_asked f (from_to (pos start) (pos end)))
  unfolding reply_asked range_length stream_from
  reply_IsSlice start end le lt =
      let fits : end + 1 - start ≤ length (drop start f.bytes) =
        omega (arith, lt, length-drop start f.bytes) in
      let (t, (e, s)) = stream_chunked-Sends (end + 1 - start) (opened f start) fits smooth in
      rw (minus_le (end + 1) start (omega (arith, le)), seek_good) (refl, (t, (ap streamed e, s)))

  send_IsSlice :
      (range_header : List ℕ) (start end : ℕ)
      → asked (length f.bytes) range_header ≡ from_to (pos start) (pos end)
      → start ≤ end
      → end < length f.bytes
      → IsSlice f start end (send_file f if_none_match range_header)
  unfolding send_file
  send_IsSlice range_header start end e le lt =
      rw (stat_good, changed, open_good, e) (reply_IsSlice start end le lt)

  -- A request for the range from `start` to `last`, both in decimal and below 2^63, where the range is not
  -- empty and begins in the file, is answered by exactly those bytes of the file that there are, if the file
  -- opens, is not the one the client has, and no call fails.
  pub send_file-IsSlice :
      (start last c d : ℕ) (before after : List ℕ)
      → magnitude (c ∷ before) ≡ some start
      → magnitude (d ∷ after) ≡ some last
      → last < 2 ^ 63
      → start ≤ last
      → start < length f.bytes
      → IsSlice f start
          (min last (length f.bytes - 1))
          (send_file f if_none_match (bytes_unit ++ (c ∷ before) ++ b'-' ∷ d ∷ after))
  unfolding first_byte magnitude
  send_file-IsSlice start last c d before after h k lt le inside =
      let lacks = digits_Lack 0 start (c ∷ before) h in
      let first = parse_magnitude c start before h (omega (arith, lt, le)) in
      send_IsSlice _ start (min last (length f.bytes - 1))
        (asked_range (length f.bytes) start last d (c ∷ before) after lacks first k lt le inside)
        (omega (arith, le, inside)) (omega (arith, inside))

  -- A request for `bytes=-last`, in decimal, which asks for the last `last` bytes of the file, is answered
  -- by its first `last + 1` bytes, as far as there are so many.
  pub send_file_suffix-IsSlice :
      (last d : ℕ) (after : List ℕ)
      → magnitude (d ∷ after) ≡ some last
      → last < 2 ^ 63
      → 0 < length f.bytes
      → IsSlice f 0
          (min last (length f.bytes - 1))
          (send_file f if_none_match (bytes_unit ++ b'-' ∷ d ∷ after))
  unfolding first_byte
  send_file_suffix-IsSlice last d after k lt inside =
      send_IsSlice _ 0 (min last (length f.bytes - 1))
        (asked_range (length f.bytes) 0 last d [] after tt refl k lt (omega arith) inside)
        (omega arith) (omega (arith, inside))
