-- ===== src/Msp/Framing/Safety.antt =====
-- The decoder never indexes out of range, and every frame that it delivers is well formed.
use logfalcon.Prelude.{
  ℕ, ◌+◌, ◌*◌, ◌≤◌, ◌<◌, ◌≡◌, refl, ◌⊎◌, inl, inr, Bool, true, false, List, [], ◌∷◌, arith, IsByte,
  All, All-append, bit_or_bytes, ◌==◌, if◌then◌else◌, length, length-set, length-take,
}
use logfalcon.Msp.Framing.{
  Frame, State, idle, proto_v1_m, direction, v1_len, v1_code, v1_payload, v1_checksum, v2_flag,
  v2_code_lo, v2_code_hi, v2_len_lo, v2_len_hi, v2_payload, v2_checksum, FrameDecoder,
  new_frame_decoder, is_direction, reset, dispatch, process, feed, finish,
}
use logfalcon.Msp.Framing.Steps.{grow_fits, Ensures, Ensures-resume, feed-nil, feed-cons}

pub record IsFrame (f : Frame) : Type 0 where
  pub versioned : (f.version ≡ 1) ⊎ (f.version ≡ 2)
  pub directed : is_direction f.direction ≡ true
  pub code_fits : f.code < 65536
  pub payload_fits : length f.payload < 65536

abbrev is_reading : State → Bool
is_reading v1_payload = true
is_reading v2_payload = true
is_reading _ = false

abbrev has_direction : State → Bool
has_direction idle = false
has_direction proto_v1_m = false
has_direction direction = false
has_direction _ = true

pub record IsValid (d : FrameDecoder) : Type 0 where
  pub fits : d.payload_len ≤ length d.payload_buf
  pub header : length d.v2_header ≡ 5
  pub header_fits : d.v2_header_len ≤ 5
  pub reading : is_reading d.state ≡ true → (d.payload_len ≡ d.size) × (d.payload_idx < d.size)
  pub size_fits : d.size < 65536
  pub size_lo : d.state ≡ v2_len_hi → d.size < 256
  pub len_fits : d.payload_len < 65536
  pub code_fits : d.code < 65536
  pub code_lo : d.state ≡ v2_code_hi → d.code < 256
  pub directed : has_direction d.state ≡ true → is_direction d.direction ≡ true
  pub delivered : All IsFrame d.frames

finish-IsValid :
    (version : ℕ) (right : Bool) (d : FrameDecoder)
    → (version ≡ 1) ⊎ (version ≡ 2)
    → has_direction d.state ≡ true
    → IsValid d
    → IsValid (finish version right d)
unfolding finish
finish-IsValid version true d v s h = record {
  fits = omega arith;
  header = h.header;
  header_fits = omega arith;
  reading = λ e. cc;
  size_fits = omega arith;
  size_lo = λ e. omega arith;
  len_fits = omega arith;
  code_fits = omega arith;
  code_lo = λ e. omega arith;
  directed = λ e. cc;
  delivered = All-append IsFrame d.frames _ h.delivered (
    record {
      versioned = v;
      directed = h.directed s;
      code_fits = h.code_fits;
      payload_fits = omega (arith, length-take d.payload_len d.payload_buf, h.len_fits);
    },
    tt,
  );
}
finish-IsValid version false d v s h = ground arith

reset-IsValid : (d : FrameDecoder) → IsValid d → IsValid (reset d)
unfolding reset
reset-IsValid d h = ground arith

choose-IsValid :
    (t : Bool) (d e : FrameDecoder) → IsValid d → IsValid e → IsValid (if t then d else e)
choose-IsValid true d e g h = g
choose-IsValid false d e g h = h

dispatch-IsValid :
    (s : State) (d : FrameDecoder) (b : ℕ)
    → d.state ≡ s
    → IsByte b
    → IsValid d
    → Ensures IsValid (dispatch s d b)
unfolding dispatch
dispatch-IsValid idle d b e hb h = choose-IsValid (b == b'$') _ d (ground arith) h
dispatch-IsValid proto_v1_m d b e hb h =
    choose-IsValid (b == b'M') _ _ (ground arith)
      (choose-IsValid (b == b'X') _ _ (ground arith) (reset-IsValid d h))
dispatch-IsValid direction d b e hb h = ground arith
dispatch-IsValid v1_len d b e hb h = ground arith
dispatch-IsValid v1_code d b e hb h = ground (arith, grow_fits d.payload_buf d.size)
dispatch-IsValid v1_payload d b e hb h = ground (arith, length-set d.payload_buf d.payload_idx b)
dispatch-IsValid v1_checksum d b e hb h = finish-IsValid 1 _ d (inl refl) (ground arith) h
dispatch-IsValid v2_flag d b e hb h = ground (arith, length-set d.v2_header 0 b)
dispatch-IsValid v2_code_lo d b e hb h = ground (arith, length-set d.v2_header 1 b)
dispatch-IsValid v2_code_hi d b e hb h =
    ground (arith, length-set d.v2_header 2 b, bit_or_bytes d.code b)
dispatch-IsValid v2_len_lo d b e hb h = ground (arith, length-set d.v2_header 3 b)
dispatch-IsValid v2_len_hi d b e hb h = ground (
  arith,
  length-set d.v2_header 4 b,
  bit_or_bytes d.size b,
  grow_fits d.payload_buf (d.size + b * 256),
)
dispatch-IsValid v2_payload d b e hb h = ground (arith, length-set d.payload_buf d.payload_idx b)
dispatch-IsValid v2_checksum d b e hb h = finish-IsValid 2 _ d (inr refl) (ground arith) h

-- A byte, in a valid state: no panic, and a valid state.
process-IsValid : (d : FrameDecoder) (b : ℕ) → IsByte b → IsValid d → Ensures IsValid (process d b)
unfolding process
process-IsValid d b hb h = dispatch-IsValid d.state d b refl hb h

pub new_frame_decoder-IsValid : IsValid new_frame_decoder
unfolding new_frame_decoder
new_frame_decoder-IsValid = ground arith

-- Any bytes, from a valid state: no panic, a valid state, and only well-formed frames.
pub feed-IsValid :
    (bytes : List ℕ) (d : FrameDecoder)
    → All IsByte bytes
    → IsValid d
    → Ensures IsValid (feed d bytes)
feed-IsValid [] d all h = rw feed-nil h
feed-IsValid (b ∷ bytes) d all h = rw feed-cons (
    Ensures-resume IsValid IsValid (process d b) bytes (process-IsValid d b all.0 h)
      (λ e p. feed-IsValid bytes e all.1 p))
