-- ===== src/Msp/Framing/Arrival.antt =====
-- What the decoder does with a whole frame around any checksum byte: it comes to the comparison with
-- the frame's fields in place.
use logfalcon.Prelude.{
  ℕ, ◌*◌, ◌/◌, ◌<◌, ◌≡◌, refl, ap, sym, ◌∙◌, Bool, some, List, [], ◌∷◌, ◌++◌, arith, u8, u16,
  bit_or, bit_xor, bit_or_bytes, zero-bit_xor, ◌==◌, length, take, take_all, set,
}
use logfalcon.Msp.Crc.{xor_from, crc8_xor, crc8_dvbs2}
use logfalcon.Msp.Crc.Bounds.{crc8_dvbs2-append}
use logfalcon.Msp.Framing.{
  State, v1_payload, v1_checksum, v2_payload, v2_checksum, FrameDecoder, payload, process, feed,
  reset, begin_payload, end_payload, finish, expected_v2, put_payload,
}
use logfalcon.Msp.Framing.Steps.{resume, feed-append}
use logfalcon.Msp.Framing.Payload.{stored, ticks, receive}
use logfalcon.Msp.Framing.Wire.{
  Direction, to_fc, from_fc, error, direction_byte, header_v2, preamble, wire_v1, wire_v2, check_v1,
  check_v2, IsReady,
}

-- `e` is the decoder as the last byte, the checksum, finds it.
pub record Arrives (version : ℕ) (right : Bool) (dir : Direction) (code : ℕ) (content : List ℕ)
    (d : FrameDecoder) (bytes : List ℕ) (e : FrameDecoder) : Type 0 where
  pub fed : feed d bytes ≡ some (finish version right e)
  pub frames : e.frames ≡ d.frames
  pub direction : e.direction ≡ direction_byte dir
  pub code_read : e.code ≡ code
  pub content_read : payload e ≡ content
  pub header : length e.v2_header ≡ 5

one_v1 :
    (d : FrameDecoder) (b : ℕ)
    → d.state ≡ v1_payload
    → d.payload_idx < d.payload_len
    → process d b ≡ some (end_payload v1_checksum (stored bit_xor d b))
unfolding process put_payload
one_v1 d b s h = ground arith

one_v2 :
    (d : FrameDecoder) (b : ℕ)
    → d.state ≡ v2_payload
    → d.payload_idx < d.payload_len
    → process d b ≡ some (end_payload v2_checksum (stored (λ c b. c) d b))
unfolding process put_payload
one_v2 d b s h = ground arith

-- The decoder behind the five bytes of a v1 header.
abbrev headed_v1 : FrameDecoder → ℕ → ℕ → ℕ → FrameDecoder
headed_v1 d dir size code = record (reset d) {
  state = State.v1_code;
  version = 1;
  direction = dir;
  size = size;
  code = code;
  checksum = bit_xor size code;
}

header_v1_lem :
    (d : FrameDecoder) (dir : Direction) (size code : ℕ) (rest : List ℕ)
    → feed (reset d) (preamble b'M' dir ++ (size ∷ code ∷ rest))
      ≡ feed
          (begin_payload v1_payload v1_checksum (headed_v1 d (direction_byte dir) size code))
          rest
unfolding feed process reset direction_byte
header_v1_lem d to_fc size code rest = refl
header_v1_lem d from_fc size code rest = refl
header_v1_lem d error size code rest = refl

-- The running checksum of v1 is the checksum over the body.
ticks-xor_from : (bytes : List ℕ) (c : ℕ) → ticks bit_xor c bytes ≡ xor_from c bytes
unfolding ticks xor_from
ticks-xor_from [] c = refl
ticks-xor_from (b ∷ bytes) c = ticks-xor_from bytes (bit_xor c b)

check_v1_lem :
    (code : ℕ) (content : List ℕ)
    → ticks bit_xor (bit_xor (length content) code) content ≡ check_v1 code content
unfolding crc8_xor
check_v1_lem code content =
    ticks-xor_from content _
    ∙ ap (λ t. xor_from (bit_xor t code) content) (sym (zero-bit_xor (length content)))

last_v1 :
    (d : FrameDecoder) (check : ℕ)
    → d.state ≡ v1_checksum
    → feed d (check ∷ []) ≡ some (finish 1 (check == d.checksum) d)
unfolding feed process
last_v1 d check s = ground arith

pub arrival_v1 :
    (d : FrameDecoder) (dir : Direction) (code : ℕ) (content : List ℕ) (check : ℕ)
    → IsReady d
    → (e : FrameDecoder) × Arrives 1
        (check == check_v1 code content)
        dir
        code
        content
        d
        (wire_v1 dir code content check)
        e
unfolding resume reset
arrival_v1 d dir code content check h =
    let head : FrameDecoder = headed_v1 d (direction_byte dir) (length content) code in
    let (e, r) = receive v1_payload v1_checksum bit_xor one_v1 content head refl refl in
    (
      e,
      record {
        fed =
            ap (λ t. feed t (wire_v1 dir code content check)) (sym h.at_rest)
            ∙ header_v1_lem d dir (length content) code (content ++ check ∷ [])
            ∙ feed-append _ content (check ∷ [])
            ∙ rw (r.fed) (
                last_v1 e check r.state
                ∙ ap (λ t. some (finish 1 (check == t) e))
                    (r.checksum ∙ check_v1_lem code content));
        frames = r.same.frames;
        direction = r.same.direction;
        code_read = r.same.code;
        content_read = r.content;
        header = ap length r.same.v2_header ∙ h.header;
      },
    )

-- The decoder behind the eight bytes of a v2 header.
abbrev headed_v2 : FrameDecoder → ℕ → ℕ → ℕ → ℕ → FrameDecoder
headed_v2 d dir flag code size = record (reset d) {
  state = State.v2_len_hi;
  version = 2;
  direction = dir;
  code = bit_or (u8 code) (u16 (u8 (code / 256) * 256));
  size = bit_or (u8 size) (u8 (size / 256) * 256);
  v2_header =
      set (set (set (set (set d.v2_header 0 flag) 1 (u8 code)) 2 (u8 (code / 256))) 3 (u8 size)) 4
        (u8 (size / 256));
  v2_header_len = 5;
}

header_v2_lem :
    (d : FrameDecoder) (dir : Direction) (flag code size : ℕ) (rest : List ℕ)
    → feed (reset d) (preamble b'X' dir ++ (header_v2 flag code size ++ rest))
      ≡ feed
          (begin_payload v2_payload v2_checksum (headed_v2 d (direction_byte dir) flag code size))
          rest
unfolding feed process reset direction_byte
header_v2_lem d to_fc flag code size rest = refl
header_v2_lem d from_fc flag code size rest = refl
header_v2_lem d error flag code size rest = refl

word_read : (w : ℕ) → w < 65536 → bit_or (u8 w) (u8 (w / 256) * 256) ≡ w
word_read w h = bit_or_bytes (u8 w) (u8 (w / 256)) (omega arith) ∙ omega arith

code_read_lem : (code : ℕ) → code < 65536 → bit_or (u8 code) (u16 (u8 (code / 256) * 256)) ≡ code
code_read_lem code h = ap (λ t. bit_or (u8 code) t) (omega arith) ∙ word_read code h

five_written :
    (xs : List ℕ) (a b c d e : ℕ)
    → length xs ≡ 5
    → set (set (set (set (set xs 0 a) 1 b) 2 c) 3 d) 4 e ≡ a ∷ b ∷ c ∷ d ∷ e ∷ []
five_written (v ∷ w ∷ x ∷ y ∷ z ∷ []) a b c d e h = refl
five_written [] a b c d e h = absurd (omega arith)
five_written (v ∷ []) a b c d e h = absurd (omega arith)
five_written (v ∷ w ∷ []) a b c d e h = absurd (omega arith)
five_written (v ∷ w ∷ x ∷ []) a b c d e h = absurd (omega arith)
five_written (v ∷ w ∷ x ∷ y ∷ []) a b c d e h = absurd (omega arith)
five_written (v ∷ w ∷ x ∷ y ∷ z ∷ t ∷ xs) a b c d e h = absurd (omega arith)

-- The CRC taken in two parts, header and payload, is the CRC over both.
expected_v2_lem :
    (e : FrameDecoder) (header content : List ℕ)
    → e.v2_header ≡ header
    → e.v2_header_len ≡ length header
    → payload e ≡ content
    → expected_v2 e ≡ crc8_dvbs2 (header ++ content) 0
unfolding expected_v2
expected_v2_lem e header content eh el ec =
    ap (λ t. crc8_dvbs2 (payload e) (crc8_dvbs2 t 0)) written
    ∙ ap (λ t. crc8_dvbs2 t (crc8_dvbs2 header 0)) ec
    ∙ sym (crc8_dvbs2-append header content 0)
  where
    written : take e.v2_header_len e.v2_header ≡ header
    written = ap (λ t. take e.v2_header_len t) eh ∙ take_all _ header (omega arith)

last_v2 :
    (d : FrameDecoder) (check : ℕ)
    → d.state ≡ v2_checksum
    → feed d (check ∷ []) ≡ some (finish 2 (check == expected_v2 d) d)
unfolding feed process
last_v2 d check s = ground arith

pub arrival_v2 :
    (d : FrameDecoder) (dir : Direction) (flag code : ℕ) (content : List ℕ) (check : ℕ)
    → code < 65536
    → length content < 65536
    → IsReady d
    → (e : FrameDecoder) × Arrives 2
        (check == check_v2 flag code content)
        dir
        code
        content
        d
        (wire_v2 dir flag code content check)
        e
unfolding resume reset
arrival_v2 d dir flag code content check hc hl h =
    let size = length content in
    let head : FrameDecoder = headed_v2 d (direction_byte dir) flag code size in
    let (e, r) =
      receive v2_payload v2_checksum (λ c b. c) one_v2 content head refl (word_read size hl) in
    let written : e.v2_header ≡ header_v2 flag code size =
      r.same.v2_header
      ∙ five_written d.v2_header flag (u8 code) (u8 (code / 256)) (u8 size) (u8 (size / 256))
          h.header in
    let summed : expected_v2 e ≡ check_v2 flag code content =
      expected_v2_lem e (header_v2 flag code size) content written r.same.v2_header_len r.content in
    (
      e,
      record {
        fed =
            ap (λ t. feed t (wire_v2 dir flag code content check)) (sym h.at_rest)
            ∙ header_v2_lem d dir flag code size (content ++ check ∷ [])
            ∙ feed-append _ content (check ∷ [])
            ∙ rw r.fed (last_v2 e check r.state ∙ ap (λ t. some (finish 2 (check == t) e)) summed);
        frames = r.same.frames;
        direction = r.same.direction;
        code_read = r.same.code ∙ code_read_lem code hc;
        content_read = r.content;
        header = ap length written;
      },
    )
