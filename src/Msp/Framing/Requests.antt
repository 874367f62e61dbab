-- ===== src/Msp/Framing/Requests.antt =====
-- internal/msp/framing.go: the requests of both protocols, as the encoders write them and a decoder reads them.
use logfalcon.Prelude.{ℕ, ◌<◌, List, [], ◌∷◌, length}
use logfalcon.Msp.Framing.{Frame, FrameDecoder, encode_v1, encode_v2}
use logfalcon.Msp.Framing.Wire.{to_fc, IsReady}
use logfalcon.Msp.Framing.RoundTrip.{Delivers, frame_of, decode-encode_v1, decode-encode_v2}

-- A request: its code and payload, and the protocol.
pub data Request : Type 0 where
  v1_request : ℕ → List ℕ → Request
  v2_request : ℕ → List ℕ → Request

-- The code of v2, and the lengths, fit their fields.
abbrev pub IsEncodable : Request → Type 0
IsEncodable (v1_request code payload) = length payload < 256
IsEncodable (v2_request code payload) = (code < 65536) × (length payload < 65536)

abbrev pub encoded : Request → List ℕ
encoded (v1_request code payload) = encode_v1 code payload
encoded (v2_request code payload) = encode_v2 code payload

abbrev pub requested : Request → Frame
requested (v1_request code payload) = frame_of 1 to_fc code payload
requested (v2_request code payload) = frame_of 2 to_fc code payload

-- A request of either protocol that fits its length field, and in v2 its code field: a decoder
-- between frames delivers exactly the frame that was encoded, in the direction of the controller,
-- and is between frames again.
pub decode-encode :
    (d : FrameDecoder) (r : Request)
    → IsEncodable r
    → IsReady d
    → (e : FrameDecoder) × Delivers d (encoded r) (requested r ∷ []) e
decode-encode d (v1_request code payload) l h = decode-encode_v1 d code payload l h
decode-encode d (v2_request code payload) l h = decode-encode_v2 d code payload l.0 l.1 h
