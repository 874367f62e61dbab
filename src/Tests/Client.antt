-- ===== src/Tests/Client.antt =====
-- internal/msp/client.go at concrete inputs.
use logfalcon.Prelude.{arith, true, false, [], ◌∷◌, ◌++◌, map, List, ◌≡◌, refl}
use mathlib.Core.List.{flatten}
use logfalcon.Exec.{ok}
use logfalcon.Msp.Port.{Port, read, read_eof}
use logfalcon.Msp.Crc.{crc8_xor, xor_from}
use logfalcon.Msp.Framing.{new_frame_decoder}
use logfalcon.Msp.Framing.Safety.{new_frame_decoder-IsValid}
use logfalcon.Msp.Framing.Wire.{from_fc, direction_byte, IsReady}
use logfalcon.Msp.Framing.RoundTrip.{
  Message, v1, message_bytes, message_frame, new_frame_decoder-IsReady,
}
use logfalcon.Msp.Client.{
  new_client, request, receive, get_api_version, get_fc_variant, get_fc_version, get_uid,
  get_blackbox_config, get_dataflash_summary, erase_flash,
}
use logfalcon.Msp.Constants.{from_fc_byte}
use logfalcon.Msp.Client.Answered.{Piece, piece_read, piece_bytes, request_answered}
use logfalcon.Msp.Client.Sound.{IsSound, IsResponse, Keeps, Anything, receive-Keeps, commands-Keeps}

-- A port that delivers the API version in two pieces.
abbrev a_port : Port
a_port = record {
  reads = read (b'$' ∷ b'M' ∷ b'>' ∷ 3 ∷ []) ∷ read_eof (1 ∷ 0 ∷ 1 ∷ 45 ∷ 46 ∷ []) ∷ [];
  writes = true ∷ [];
  rounds = 5 ∷ [];
  sent = [];
}

new_client-IsSound : IsSound (new_client a_port)
unfolding new_client
new_client-IsSound = record {
  decoding = new_frame_decoder-IsValid;
  keyed = tt;
  bytes = ground arith;
}

receive-Keeps_example : Keeps (IsResponse 1) (receive 1 (new_client a_port))
receive-Keeps_example = receive-Keeps 1 (new_client a_port) new_client-IsSound

commands-Keeps_example :
    Keeps Anything (get_api_version (new_client a_port))
    × Keeps Anything (get_fc_variant (new_client a_port))
    × Keeps Anything (get_fc_version (new_client a_port))
    × Keeps Anything (get_uid (new_client a_port))
    × Keeps Anything (get_blackbox_config (new_client a_port))
    × Keeps Anything (get_dataflash_summary (new_client a_port))
    × Keeps (Anything {A = Unit {0}}) (erase_flash (new_client a_port))
commands-Keeps_example = commands-Keeps (new_client a_port) new_client-IsSound

-- The reply to the query for the variant, in two pieces, the second with `io.EOF`.
abbrev answer : Message
answer = v1 from_fc 2 (73 ∷ 78 ∷ 65 ∷ 86 ∷ [])

abbrev two_pieces : List Piece
two_pieces = (false, b'$' ∷ b'M' ∷ b'>' ∷ 4 ∷ 2 ∷ 73 ∷ []) ∷ (true, 78 ∷ 65 ∷ 86 ∷ 22 ∷ []) ∷ []

abbrev answering : Port
answering = record {
  reads = map piece_read two_pieces ++ [];
  writes = true ∷ [];
  rounds = 2 ∷ [];
  sent = [];
}

two_pieces-answer : flatten (map piece_bytes two_pieces) ≡ message_bytes answer
unfolding flatten direction_byte crc8_xor xor_from
two_pieces-answer = refl

is_response : (message_frame answer).direction ≡ from_fc_byte
unfolding direction_byte
is_response = refl

starts-IsReady : IsReady (new_client answering).decoder
unfolding new_client
starts-IsReady = new_frame_decoder-IsReady

starts_empty : (new_client answering).decoder.frames ≡ []
unfolding new_client new_frame_decoder
starts_empty = refl

port_reads : (new_client answering).port.reads ≡ map piece_read two_pieces ++ []
unfolding new_client
port_reads = refl

port_writes : (new_client answering).port.writes ≡ true ∷ []
unfolding new_client
port_writes = refl

port_rounds : (new_client answering).port.rounds ≡ 2 ∷ []
unfolding new_client
port_rounds = refl

request_answered_example :
    (request (message_frame answer).code [] (new_client answering)).0 ≡ ok (message_frame answer)
request_answered_example =
    request_answered answer two_pieces [] (new_client answering) [] [] 2 [] (omega arith)
      is_response starts-IsReady starts_empty two_pieces-answer port_reads port_writes port_rounds
      (omega arith)
