-- ===== src/Tests/Framing.antt =====
-- internal/msp/framing.go and crc.go at concrete inputs.
use logfalcon.Prelude.{ℕ, ◌≡◌, ◌≢◌, refl, some, List, [], ◌∷◌, ◌++◌, arith, map}
use mathlib.Core.List.{flatten}
use logfalcon.Msp.Crc.{crc8_dvbs2, crc8_xor, xor_from}
use logfalcon.Msp.Crc.Detection.{single_byte_detected}
use logfalcon.Msp.Framing.{FrameDecoder, new_frame_decoder, feed}
use logfalcon.Msp.Framing.Wire.{direction_byte, from_fc, wire_v2, check_v2, IsReady}
use logfalcon.Msp.Framing.Safety.{IsValid, feed-IsValid, new_frame_decoder-IsValid}
use logfalcon.Msp.Framing.Steps.{Ensures}
use logfalcon.Msp.Framing.RoundTrip.{
  Message, v1, v2, Delivers, message_frame, stream, feed_chunks, deliver_chunks,
  new_frame_decoder-IsReady,
}
use logfalcon.Msp.Framing.Requests.{v2_request, encoded, requested, decode-encode}
use logfalcon.Msp.Framing.Rejection.{
  right_check, with_check, wrong_checksum_dropped, changed_byte_dropped,
}

abbrev two_messages : List Message
two_messages = v1 from_fc 2 (66 ∷ 84 ∷ []) ∷ v2 from_fc 0 300 (7 ∷ []) ∷ []

-- The bytes of the two messages, cut inside each of them.
abbrev three_chunks : List (List ℕ)
three_chunks =
    (b'$' ∷ b'M' ∷ b'>' ∷ 2 ∷ 2 ∷ [])
    ∷ (66 ∷ 84 ∷ 22 ∷ b'$' ∷ b'X' ∷ [])
    ∷ (b'>' ∷ 0 ∷ 44 ∷ 1 ∷ 1 ∷ 0 ∷ 7 ∷ 189 ∷ [])
    ∷ []

three_chunks-stream : flatten three_chunks ≡ stream two_messages
unfolding stream direction_byte crc8_xor xor_from crc8_dvbs2 flatten
three_chunks-stream = refl

deliver_chunks_example :
    (e : FrameDecoder) × (feed_chunks new_frame_decoder three_chunks ≡ some e)
    × (e.frames ≡ new_frame_decoder.frames ++ map message_frame two_messages)
    × IsReady e
deliver_chunks_example =
    deliver_chunks two_messages three_chunks new_frame_decoder
      (omega arith, ((omega arith, omega arith), tt)) three_chunks-stream new_frame_decoder-IsReady

wrong : 0 ≢ right_check (v1 from_fc 2 (66 ∷ []))
unfolding crc8_xor xor_from
wrong = omega arith

wrong_checksum_dropped_example :
    (e : FrameDecoder) × Delivers new_frame_decoder (with_check (v1 from_fc 2 (66 ∷ [])) 0) [] e
wrong_checksum_dropped_example =
    wrong_checksum_dropped (v1 from_fc 2 (66 ∷ [])) new_frame_decoder 0 (omega arith) wrong
      new_frame_decoder-IsReady

changed_byte_dropped_example :
    (e : FrameDecoder) × Delivers new_frame_decoder
      (wire_v2 from_fc 0 71 (5 ∷ 9 ∷ 6 ∷ []) (check_v2 0 71 (5 ∷ 8 ∷ 6 ∷ [])))
      []
      e
changed_byte_dropped_example =
    changed_byte_dropped new_frame_decoder from_fc 0 71 8 9 (5 ∷ []) (6 ∷ []) (omega arith)
      (omega arith) (omega arith, tt) (omega arith, tt) (omega arith) (omega arith) (omega arith)
      (omega arith) new_frame_decoder-IsReady

abbrev corrupt_bytes : List ℕ
corrupt_bytes = b'$' ∷ b'X' ∷ b'>' ∷ 255 ∷ 255 ∷ 255 ∷ 1 ∷ 0 ∷ 255 ∷ 0 ∷ b'$' ∷ []

feed-IsValid_example : Ensures IsValid (feed new_frame_decoder corrupt_bytes)
feed-IsValid_example =
    feed-IsValid corrupt_bytes new_frame_decoder (ground arith) new_frame_decoder-IsValid

decode-encode_example :
    (e : FrameDecoder) × Delivers new_frame_decoder
      (encoded (v2_request 300 (3 ∷ [])))
      (requested (v2_request 300 (3 ∷ [])) ∷ [])
      e
decode-encode_example =
    decode-encode new_frame_decoder (v2_request 300 (3 ∷ [])) (omega arith, omega arith)
      new_frame_decoder-IsReady

single_byte_detected_example :
    crc8_dvbs2 ((1 ∷ []) ++ 3 ∷ 2 ∷ []) 0 ≢ crc8_dvbs2 ((1 ∷ []) ++ 4 ∷ 2 ∷ []) 0
single_byte_detected_example =
    single_byte_detected (1 ∷ []) (2 ∷ []) 0 3 4 (omega arith, tt) (omega arith, tt) (omega arith)
      (omega arith) (omega arith) (omega arith)
