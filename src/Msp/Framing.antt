-- ===== src/Msp/Framing.antt =====
-- internal/msp/framing.go: the MSP v1 and v2 encoders and the streaming decoder of 14 states.
pub mod Steps
pub mod Growth
pub mod Safety
pub mod Payload
pub mod Wire
pub mod Arrival
pub mod RoundTrip
pub mod Requests
pub mod Rejection
use logfalcon.Prelude.{
  ℕ, zero, suc, ◌+◌, ◌*◌, ◌/◌, ◌<◌, Bool, true, false, ◌||◌, Option, none, some, List, [], ◌∷◌,
  ◌++◌, u8, u16, bit_or, bit_xor, ◌==◌, ltb, if◌then◌else◌, length, take, set, replicate,
}
use logfalcon.Msp.Crc.{crc8_xor, crc8_dvbs2}

-- `Frame`.
pub record Frame : Type 0 where
  pub version : ℕ
  pub direction : ℕ
  pub code : ℕ
  pub payload : List ℕ

-- The decoder states, in the order of the constants.
pub data State : Type 0 where
  idle proto_v1_m direction : State
  v1_len v1_code v1_payload v1_checksum : State
  v2_flag v2_code_lo v2_code_hi v2_len_lo v2_len_hi v2_payload v2_checksum : State

-- `FrameDecoder`. The slice `payload` is always a prefix of `payload_buf`, or nil, and shares its
-- array: `payload_len` is its length, 0 for nil. `length payload_buf` is its capacity.
pub record FrameDecoder : Type 0 where
  pub frames : List Frame
  pub state : State
  pub version : ℕ
  pub direction : ℕ
  pub code : ℕ
  pub size : ℕ
  pub payload_len : ℕ
  pub payload_buf : List ℕ
  pub payload_idx : ℕ
  pub checksum : ℕ
  pub v2_header : List ℕ
  pub v2_header_len : ℕ

-- `d.payload`.
abbrev pub payload : FrameDecoder → List ℕ
payload d = take d.payload_len d.payload_buf

unfoldable pub new_frame_decoder : FrameDecoder
new_frame_decoder = record {
  frames = [];
  state = idle;
  version = 0;
  direction = 0;
  code = 0;
  size = 0;
  payload_len = 0;
  payload_buf = [];
  payload_idx = 0;
  checksum = 0;
  v2_header = replicate 5 0;
  v2_header_len = 0;
}

-- `reset` keeps the frames, the buffer and the header array.
unfoldable pub reset : FrameDecoder → FrameDecoder
reset d = record d {
  state = idle;
  version = 0;
  direction = 0;
  code = 0;
  size = 0;
  payload_len = 0;
  payload_idx = 0;
  checksum = 0;
  v2_header_len = 0;
}

-- `if d.size > cap(d.payloadBuf) { d.payloadBuf = make([]byte, d.size) }`.
unfoldable pub grow : List ℕ → ℕ → List ℕ
grow buf size = if ltb (length buf) size then replicate size 0 else buf

-- What both protocols do once the size is known.
unfoldable pub begin_payload : State → State → FrameDecoder → FrameDecoder
unfolding grow
begin_payload reading done d = if d.size == 0 then record d { state = done } else record d {
  payload_buf = grow d.payload_buf d.size;
  payload_len = d.size;
  payload_idx = 0;
  state = reading;
}

-- `d.payload[d.payloadIdx] = b; d.payloadIdx++`. `none` is the run-time panic of an index that is
-- out of range of the slice.
unfoldable pub put_payload : FrameDecoder → ℕ → Option FrameDecoder
put_payload d b =
    if ltb d.payload_idx d.payload_len
    then some (record d {
      payload_buf = set d.payload_buf d.payload_idx b;
      payload_idx = d.payload_idx + 1;
    })
    else none

-- `if d.payloadIdx == d.size { d.state = ... }`.
unfoldable pub end_payload : State → FrameDecoder → FrameDecoder
end_payload done d = if d.payload_idx == d.size then record d { state = done } else d

-- `d.v2Header[i] = b; d.v2HeaderLen = i + 1`, at the five fixed indices.
unfoldable pub put_header : FrameDecoder → ℕ → ℕ → FrameDecoder
put_header d i b = record d { v2_header = set d.v2_header i b; v2_header_len = i + 1 }

-- The copy of the payload that a frame keeps, appended where the checksum is right; then `reset`.
unfoldable pub finish : ℕ → Bool → FrameDecoder → FrameDecoder
unfolding reset
finish version right d = reset (
    if right
    then record d {
      frames =
          d.frames
          ++ (record {
            version = version;
            direction = d.direction;
            code = d.code;
            payload = payload d;
          })
            ∷ [];
    }
    else d)

-- The CRC that `stateV2Checksum` expects.
unfoldable pub expected_v2 : FrameDecoder → ℕ
expected_v2 d = crc8_dvbs2 (payload d) (crc8_dvbs2 (take d.v2_header_len d.v2_header) 0)

unfoldable pub is_direction : ℕ → Bool
is_direction b = b == b'<' || b == b'>' || b == b'!'

unfoldable pub and_then : Option FrameDecoder → (FrameDecoder → FrameDecoder) → Option FrameDecoder
and_then none f = none
and_then (some d) f = some (f d)

-- The cases of `process`.
unfoldable pub dispatch : State → FrameDecoder → ℕ → Option FrameDecoder
unfolding reset begin_payload put_payload end_payload put_header finish is_direction and_then
dispatch idle d b = some (if b == b'$' then record d { state = proto_v1_m } else d)
dispatch proto_v1_m d b = some (
    if b == b'M'
    then record d { version = 1; state = direction }
    else if b == b'X'
    then record d { version = 2; state = direction }
    else reset d)
dispatch direction d b = some (
    if is_direction b
    then record d { direction = b; state = if d.version == 1 then v1_len else v2_flag }
    else reset d)
dispatch v1_len d b = some (record d { size = b; checksum = b; state = v1_code })
dispatch v1_code d b =
    some (
      begin_payload v1_payload v1_checksum (record d { code = b; checksum = bit_xor d.checksum b }))
dispatch v1_payload d b =
    and_then (put_payload d b)
      (λ e. end_payload v1_checksum (record e { checksum = bit_xor e.checksum b }))
dispatch v1_checksum d b = some (finish 1 (b == d.checksum) d)
dispatch v2_flag d b = some (record (put_header d 0 b) { state = v2_code_lo })
dispatch v2_code_lo d b = some (record (put_header d 1 b) { code = b; state = v2_code_hi })
dispatch v2_code_hi d b =
    some (record (put_header d 2 b) { code = bit_or d.code (u16 (b * 256)); state = v2_len_lo })
dispatch v2_len_lo d b = some (record (put_header d 3 b) { size = b; state = v2_len_hi })
dispatch v2_len_hi d b = some (
    begin_payload v2_payload v2_checksum
      (record (put_header d 4 b) { size = bit_or d.size (b * 256) }))
dispatch v2_payload d b = and_then (put_payload d b) (end_payload v2_checksum)
dispatch v2_checksum d b = some (finish 2 (b == expected_v2 d) d)

unfoldable pub process : FrameDecoder → ℕ → Option FrameDecoder
unfolding dispatch
process d b = dispatch d.state d b

-- `Feed`; a panic of `process` is a panic of `Feed`.
unfoldable pub feed : FrameDecoder → List ℕ → Option FrameDecoder
feed d [] = some d
feed d (b ∷ bytes) = elim (process d b) [ none ↦ none | some d' ↦ feed d' bytes ]

-- `EncodeV1`: the checksum is over what stands behind the preamble.
unfoldable pub encode_v1 : ℕ → List ℕ → List ℕ
encode_v1 code payload =
    let body = u8 (length payload) ∷ code ∷ payload in
    b'$' ∷ b'M' ∷ b'<' ∷ (body ++ crc8_xor body ∷ [])

-- `EncodeV2`.
unfoldable pub encode_v2 : ℕ → List ℕ → List ℕ
encode_v2 code payload =
    let size = length payload in
    let body = 0 ∷ u8 code ∷ u8 (code / 256) ∷ u8 size ∷ u8 (size / 256) ∷ payload in
    b'$' ∷ b'X' ∷ b'<' ∷ (body ++ crc8_dvbs2 body 0 ∷ [])
