-- ===== src/Web/Files/Range.antt =====
-- internal/web/server.go: the ranges that `sendFile` serves, whatever the headers are.
use logfalcon.Prelude.{
  leb-false, ℕ, zero, suc, ◌+◌, ◌-◌, ◌^◌, ◌≤◌, ◌<◌, ◌≡◌, refl, ap, ◌⊎◌, inl, inr, false, not, ◌||◌,
  Option, none, some, List, [], ◌∷◌, arith, ◌==◌, ltb, leb, on_if, Bool, Bool-cases, true, bytes_eq,
  bytes_eq_sound, length, take, drop, All,
}
use logfalcon.Prelude.Ints.{ℤ, pos, negsuc, int_leb, int_ltb, pred_int}
use logfalcon.Web.Text.{has_prefix, cut, parse_int, signed, magnitude}
use logfalcon.Web.Stream.{Transfer, stream_chunked}
use logfalcon.Web.Stream.Complete.{stream_chunked-Ends}
use logfalcon.Web.Files.{
  Served, satisfied, unsatisfied, Body, empty, page, streamed, Reply, Asked, whole, refused,
  from_to, bytes_unit, first_byte, last_byte, clamped, in_size, both_bytes, asked_spec, asked,
  minus, range_length, opened, stream_from, reply_asked, bodiless, send_file,
}

-- `sep` does not occur.
abbrev pub Lacks : ℕ → List ℕ → Type 0
Lacks sep = All (λ c. (c == sep) ≡ false)

-- What stands before the first `sep` has none.
abbrev CutWell : ℕ → Option (List ℕ × List ℕ) → Type 0
CutWell sep none = Unit {0}
CutWell sep (some (before, after)) = Lacks sep before

cut_well : (sep : ℕ) (s : List ℕ) → CutWell sep (cut sep s)
unfolding cut
cut_well sep [] = tt
cut_well sep (c ∷ s) =
    on_if (CutWell sep) (c == sep) _ _ (λ e. tt) (λ e. longer (cut sep s) e (cut_well sep s))
  where
    longer :
        (r : Option (List ℕ × List ℕ))
        → (c == sep) ≡ false
        → CutWell sep r
        → CutWell sep (elim r [ none ↦ none | some (before, after) ↦ some (c ∷ before, after) ])
    longer none e h = tt
    longer (some (before, after)) e h = (e, h)

-- A number that is not negative, if it is one.
abbrev IsNatural : Option ℤ → Type 0
IsNatural none = Unit {0}
IsNatural (some (pos n)) = Unit {0}
IsNatural (some (negsuc n)) = ⊥

unsigned_IsNatural : (n : Option ℕ) → IsNatural (signed false n)
unfolding signed
unsigned_IsNatural none = tt
unsigned_IsNatural (some n) = on_if IsNatural (ltb n (2 ^ 63)) _ _ (λ _. tt) (λ _. tt)

first_byte-IsNatural : (s : List ℕ) → Lacks b'-' s → IsNatural (first_byte s)
unfolding first_byte parse_int
first_byte-IsNatural [] h = tt
first_byte-IsNatural (c ∷ s) h = rw h.0 (
    on_if IsNatural (c == b'+') _ _ (λ _. unsigned_IsNatural (magnitude s))
      (λ _. unsigned_IsNatural (magnitude (c ∷ s))))

-- What is asked for lies in the file.
pub data IsInside (size : ℕ) : Asked → Type 0 where
  all_of_it : IsInside size whole
  nothing : IsInside size refused
  inside :
      (start end : ℕ) → start ≤ end → end < size → IsInside size (from_to (pos start) (pos end))

in_size-IsInside :
    (size start : ℕ) (end : ℤ)
    → int_leb (pos size) end ≡ false
    → IsInside size (in_size size (pos start) end)
unfolding in_size int_ltb int_leb
in_size-IsInside size start (pos end) h =
    on_if (IsInside size) (ltb end start || leb size start) _ _ (λ _. nothing)
      (λ e. inside start end (in_bounds e) (leb-false size end h))
  where
    in_bounds : (ltb end start || leb size start) ≡ false → start ≤ end
    in_bounds e = ground arith
in_size-IsInside size start (negsuc end) h = nothing

clamped_small : (size : ℕ) (end : ℤ) → int_leb (pos size) (clamped size end) ≡ false
unfolding clamped int_leb pred_int
clamped_small size end =
    on_if (λ e. int_leb (pos size) e ≡ false) (int_leb (pos size) end) (pred_int size) end
      (λ _. pred_small size) (λ h. h)
  where
    pred_small : (n : ℕ) → int_leb (pos n) (pred_int n) ≡ false
    pred_small zero = refl
    pred_small (suc n) = ground arith

both_bytes-IsInside :
    (size : ℕ) (start end : Option ℤ) → IsNatural start → IsInside size (both_bytes size start end)
unfolding both_bytes
both_bytes-IsInside size none end h = nothing
both_bytes-IsInside size (some start) none h = nothing
both_bytes-IsInside size (some (pos start)) (some end) h =
    in_size-IsInside size start (clamped size end) (clamped_small size end)
both_bytes-IsInside size (some (negsuc start)) (some end) h = absurd h

asked_spec-IsInside :
    (size : ℕ) (parts : Option (List ℕ × List ℕ))
    → CutWell b'-' parts
    → IsInside size (asked_spec size parts)
unfolding asked_spec
asked_spec-IsInside size none h = all_of_it
asked_spec-IsInside size (some (before, after)) h =
    both_bytes-IsInside size (first_byte before) (last_byte size after)
      (first_byte-IsNatural before h)

asked-IsInside : (size : ℕ) (range_header : List ℕ) → IsInside size (asked size range_header)
unfolding asked
asked-IsInside size range_header =
    on_if (IsInside size) (has_prefix range_header bytes_unit) _ _
      (λ _. asked_spec-IsInside size _ (cut_well b'-' (drop 6 range_header))) (λ _. all_of_it)

-- A body that is the bytes of the file from `start` on, at most `limit` of them and maybe cut short; none
-- where `Seek` fails.
abbrev pub IsPart : Served → ℕ → ℕ → Body → Type 0
IsPart f start limit body =
    ((body ≡ empty) × (f.seek_good ≡ false))
    ⊎ ((t : Transfer) × (k : ℕ) × ((body ≡ streamed (some t))
          × ((k ≤ limit) × (t.sent ≡ take k (drop start f.bytes)))))

-- A response that tells the truth: none of the file, with the status that says why; all of it under its
-- length; or a range that lies in the file, under its length and its place.
pub data IsHonest (f : Served) (if_none_match range_header : List ℕ) : Reply → Type 0 where
  not_there : f.stat_good ≡ false → IsHonest f if_none_match range_header (bodiless 404 page)
  not_modified : if_none_match ≡ f.etag → IsHonest f if_none_match range_header (bodiless 304 empty)
  not_opened : f.open_good ≡ false → IsHonest f if_none_match range_header (bodiless 500 page)
  unsatisfiable :
      has_prefix range_header bytes_unit ≡ true
      → IsHonest f if_none_match range_header (record {
        status = 416;
        content_length = none;
        content_range = some (unsatisfied (length f.bytes));
        body = empty;
      })
  full :
      (body : Body)
      → IsPart f 0 (length f.bytes) body
      → IsHonest f if_none_match range_header (record {
        status = 200;
        content_length = some (pos (length f.bytes));
        content_range = none;
        body = body;
      })
  partial :
      (start end : ℕ) (body : Body)
      → start ≤ end
      → end < length f.bytes
      → IsPart f start (end + 1 - start) body
      → IsHonest f if_none_match range_header (record {
        status = 206;
        content_length = some (pos (end + 1 - start));
        content_range = some (satisfied (pos start) (pos end) (length f.bytes));
        body = body;
      })

streamed_IsPart :
    (f : Served) (start limit : ℕ)
    → IsPart f start limit (streamed (stream_chunked limit (opened f start)))
streamed_IsPart f start limit =
    let (t, (e, s)) = stream_chunked-Ends limit (opened f start) in
    inr (t, s.count, (ap streamed e, (s.within, s.in_order)))

stream_from-IsPart :
    (f : Served) (start limit : ℕ) → IsPart f start limit (stream_from f (pos start) (pos limit))
unfolding stream_from
stream_from-IsPart f start limit =
    on_if (IsPart f start limit) f.seek_good _ _ (λ _. streamed_IsPart f start limit)
      (λ e. inl (refl, e))

pub minus_le : (m n : ℕ) → n ≤ m → minus m n ≡ pos (m - n)
unfolding minus
minus_le m n h = ground arith

reply_asked-IsHonest :
    (f : Served) (if_none_match range_header : List ℕ) (a : Asked)
    → IsInside (length f.bytes) a
    → (a ≡ refused → has_prefix range_header bytes_unit ≡ true)
    → IsHonest f if_none_match range_header (reply_asked f a)
unfolding reply_asked range_length
reply_asked-IsHonest f m h _ all_of_it p = full _ (streamed_IsPart f 0 (length f.bytes))
reply_asked-IsHonest f m h _ nothing p = unsatisfiable (p refl)
reply_asked-IsHonest f m h _ (inside start end le lt) p =
    rw (minus_le (end + 1) start (omega arith))
      (partial start end _ le lt (stream_from-IsPart f start (end + 1 - start)))

not-true : (b : Bool) → not b ≡ true → b ≡ false
not-true b h = ground arith

-- Only a header of a range of bytes is refused.
refused_range :
    (size : ℕ) (range_header : List ℕ)
    → asked size range_header ≡ refused
    → has_prefix range_header bytes_unit ≡ true
unfolding asked
refused_range size range_header h = elim (Bool-cases (has_prefix range_header bytes_unit)) [
  | inl e ↦ e
  | inr e ↦ absurd (cc (rw e at h))
]

-- `sendFile` answers every request with a response that tells the truth: no part of the file with the
-- status 404 where there is none, 304 where the client has it, 500 where it cannot be opened, and 416 with
-- its size where a range of bytes was asked for; with the status 200 the file, and with 206 the range named
-- in Content-Range, which lies in the file, is not empty and has the length in Content-Length. What is sent
-- are the bytes of that range in their order, maybe cut short by an error.
pub send_file-IsHonest :
    (f : Served) (if_none_match range_header : List ℕ)
    → IsHonest f if_none_match range_header (send_file f if_none_match range_header)
unfolding send_file
send_file-IsHonest f if_none_match range_header =
    on_if (IsHonest f if_none_match range_header) (not f.stat_good) _ _
      (λ e. not_there (not-true f.stat_good e))
      (λ _.
        on_if (IsHonest f if_none_match range_header) (bytes_eq if_none_match f.etag) _ _
          (λ e. not_modified (bytes_eq_sound if_none_match f.etag e))
          (λ _.
            on_if (IsHonest f if_none_match range_header) (not f.open_good) _ _
              (λ e. not_opened (not-true f.open_good e))
              (λ _.
                reply_asked-IsHonest f if_none_match range_header _
                  (asked-IsInside (length f.bytes) range_header)
                  (refused_range (length f.bytes) range_header))))
