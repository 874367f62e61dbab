-- ===== src/Web/Files.antt =====
-- internal/web/server.go: `sendFile`, its ranges included. The pages of errors are not modelled, and of the
-- headers only the length and the range.
pub mod Range
pub mod Slice
use logfalcon.Prelude.{
  ℕ, ◌+◌, ◌-◌, Bool, true, false, ◌||◌, not, Option, none, some, List, [], ◌∷◌, ◌==◌, leb,
  if◌then◌else◌, bytes_eq, length, drop,
}
use logfalcon.Prelude.Ints.{ℤ, pos, negsuc, int_leb, int_ltb, pred_int}
use logfalcon.Web.Text.{has_prefix, cut, parse_int}
use logfalcon.Web.Stream.{ReadAnswer, Transfer, stream_chunked}

-- A file as `sendFile` meets it: whether `Stat`, `Open` and `Seek` succeed, its ETag, its bytes, and the
-- answers to the reads and writes to come.
pub record Served : Type 0 where
  pub stat_good : Bool
  pub open_good : Bool
  pub seek_good : Bool
  pub etag : List ℕ
  pub bytes : List ℕ
  pub reads : List ReadAnswer
  pub writes : List (Option ℕ)

-- The header Content-Range: `bytes */size`, or `bytes start-end/size`.
pub data ContentRange : Type 0 where
  unsatisfied : ℕ → ContentRange
  satisfied : ℤ → ℤ → ℕ → ContentRange

-- The body of a response; `streamed` holds what `streamChunked` did.
pub data Body : Type 0 where
  empty page : Body
  streamed : Option Transfer → Body

pub record Reply : Type 0 where
  pub status : ℕ
  pub content_length : Option ℤ
  pub content_range : Option ContentRange
  pub body : Body

-- What a Range header asks for: `whole` where it is not one that the function reads.
pub data Asked : Type 0 where
  whole refused : Asked
  from_to : ℤ → ℤ → Asked

abbrev pub bytes_unit : List ℕ
bytes_unit = b'b' ∷ b'y' ∷ b't' ∷ b'e' ∷ b's' ∷ b'=' ∷ []

-- The number before the dash, and the one behind it.
unfoldable pub first_byte : List ℕ → Option ℤ
unfolding parse_int
first_byte [] = some (pos 0)
first_byte (c ∷ s) = parse_int (c ∷ s)

unfoldable pub last_byte : ℕ → List ℕ → Option ℤ
unfolding parse_int pred_int
last_byte size [] = some (pred_int size)
last_byte size (c ∷ s) = parse_int (c ∷ s)

-- `if end >= size { end = size - 1 }`
unfoldable pub clamped : ℕ → ℤ → ℤ
unfolding int_leb pred_int
clamped size end = if int_leb (pos size) end then pred_int size else end

unfoldable pub in_size : ℕ → ℤ → ℤ → Asked
unfolding int_leb int_ltb
in_size size start end =
    if int_ltb end start || int_leb (pos size) start then refused else from_to start end

unfoldable pub both_bytes : ℕ → Option ℤ → Option ℤ → Asked
unfolding clamped in_size
both_bytes size none end = refused
both_bytes size (some start) none = refused
both_bytes size (some start) (some end) = in_size size start (clamped size end)

unfoldable pub asked_spec : ℕ → Option (List ℕ × List ℕ) → Asked
unfolding first_byte last_byte both_bytes
asked_spec size none = whole
asked_spec size (some (before, after)) = both_bytes size (first_byte before) (last_byte size after)

unfoldable pub asked : ℕ → List ℕ → Asked
unfolding has_prefix cut asked_spec
asked size range_header =
    if has_prefix range_header bytes_unit
    then asked_spec size (cut b'-' (drop 6 range_header))
    else whole

-- `m - n`
unfoldable pub minus : ℕ → ℕ → ℤ
minus m n = if leb n m then pos (m - n) else negsuc (n - m - 1)

-- `end - start + 1`
unfoldable pub range_length : ℤ → ℤ → ℤ
unfolding minus
range_length (pos s) (pos e) = minus (e + 1) s
range_length (pos s) (negsuc e) = minus 0 (s + e)
range_length (negsuc s) (pos e) = pos (s + e + 2)
range_length (negsuc s) (negsuc e) = minus (s + 1) e

-- The file opened and positioned; a position below 0 is an error of `Seek`.
abbrev pub opened : Served → ℕ → Transfer
opened f offset = record {
  unread = drop offset f.bytes;
  sent = [];
  reads = f.reads;
  writes = f.writes;
}

unfoldable pub stream_from : Served → ℤ → ℤ → Body
unfolding stream_chunked
stream_from f (pos offset) (pos n) =
    if f.seek_good then streamed (stream_chunked n (opened f offset)) else empty
stream_from f (pos offset) (negsuc n) = empty
stream_from f (negsuc offset) n = empty

unfoldable pub reply_asked : Served → Asked → Reply
unfolding range_length stream_from
reply_asked f whole = record {
  status = 200;
  content_length = some (pos (length f.bytes));
  content_range = none;
  body = streamed (stream_chunked (length f.bytes) (opened f 0));
}
reply_asked f refused = record {
  status = 416;
  content_length = none;
  content_range = some (unsatisfied (length f.bytes));
  body = empty;
}
reply_asked f (from_to start end) = record {
  status = 206;
  content_length = some (range_length start end);
  content_range = some (satisfied start end (length f.bytes));
  body = stream_from f start (range_length start end);
}

abbrev pub bodiless : ℕ → Body → Reply
bodiless status body = record {
  status = status;
  content_length = none;
  content_range = none;
  body = body;
}

-- `sendFile`
unfoldable pub send_file : Served → (if_none_match range_header : List ℕ) → Reply
unfolding asked reply_asked
send_file f if_none_match range_header =
    if not f.stat_good
    then bodiless 404 page
    else if bytes_eq if_none_match f.etag
    then bodiless 304 empty
    else if not f.open_good
    then bodiless 500 page
    else reply_asked f (asked (length f.bytes) range_header)
