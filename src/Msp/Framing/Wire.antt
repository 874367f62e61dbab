-- ===== src/Msp/Framing/Wire.antt =====
-- The frames of MSP as they stand on the wire: the documented format, independent of the encoders.
use logfalcon.Prelude.{ℕ, ◌/◌, ◌<◌, ◌≡◌, refl, List, [], ◌∷◌, ◌++◌, arith, u8, length}
use logfalcon.Msp.Crc.{crc8_xor, crc8_dvbs2}
use logfalcon.Msp.Framing.{FrameDecoder, reset, encode_v1, encode_v2}

-- The direction bytes of constants.go.
pub data Direction : Type 0 where
  to_fc from_fc error : Direction

unfoldable pub direction_byte : Direction → ℕ
direction_byte to_fc = b'<'
direction_byte from_fc = b'>'
direction_byte error = b'!'

-- What the two checksums cover.
abbrev pub body_v1 : ℕ → List ℕ → List ℕ
body_v1 code payload = length payload ∷ code ∷ payload

-- A 16-bit number goes low byte first.
abbrev pub header_v2 : ℕ → ℕ → ℕ → List ℕ
header_v2 flag code size = flag ∷ u8 code ∷ u8 (code / 256) ∷ u8 size ∷ u8 (size / 256) ∷ []

abbrev pub preamble : ℕ → Direction → List ℕ
preamble letter dir = b'$' ∷ letter ∷ direction_byte dir ∷ []

-- A frame of either protocol around a given checksum.
abbrev pub wire_v1 : Direction → ℕ → List ℕ → ℕ → List ℕ
wire_v1 dir code payload check = preamble b'M' dir ++ (body_v1 code payload ++ check ∷ [])

abbrev pub wire_v2 : Direction → ℕ → ℕ → List ℕ → ℕ → List ℕ
wire_v2 dir flag code payload check =
    preamble b'X' dir ++ (header_v2 flag code (length payload) ++ (payload ++ check ∷ []))

abbrev pub check_v1 : ℕ → List ℕ → ℕ
check_v1 code payload = crc8_xor (body_v1 code payload)

abbrev pub check_v2 : ℕ → ℕ → List ℕ → ℕ
check_v2 flag code payload = crc8_dvbs2 (header_v2 flag code (length payload) ++ payload) 0

-- Between frames: nothing is left of an earlier frame.
pub record IsReady (d : FrameDecoder) : Type 0 where
  pub at_rest : reset d ≡ d
  pub header : length d.v2_header ≡ 5

-- A request that fits its length field is a frame in the direction of the controller.
pub encode_v1-wire_v1 :
    (code : ℕ) (payload : List ℕ)
    → length payload < 256
    → encode_v1 code payload ≡ wire_v1 to_fc code payload (check_v1 code payload)
unfolding encode_v1 direction_byte
encode_v1-wire_v1 code payload h =
    let e : u8 (length payload) ≡ length payload = omega arith in rw e

pub encode_v2-wire_v2 :
    (code : ℕ) (payload : List ℕ)
    → encode_v2 code payload ≡ wire_v2 to_fc 0 code payload (check_v2 0 code payload)
unfolding encode_v2 direction_byte
encode_v2-wire_v2 code payload = refl
