-- ===== src/Msp/Client.antt =====
-- internal/msp/client.go: the synchronous client over a serial port.
pub mod Sound
pub mod FlashRead
pub mod Unerased
pub mod Answered
use logfalcon.Prelude.{
  ℕ, zero, suc, ◌+◌, ◌-◌, ◌*◌, ◌/◌, ◌%◌, Bool, true, false, not, ◌&&◌, Option, none, some, List, [],
  ◌∷◌, ◌++◌, u8, bit_and, ◌==◌, ltb, if◌then◌else◌, length, get_elem?, get_or, take, drop, bytes_eq,
}
use logfalcon.Exec.{Outcome, ok, err, panic, Exec, pure, raise, ◌>>=◌, ◌>>◌}
use logfalcon.Fc.Versions.{btfl_variant}
use logfalcon.Msp.Framing.{Frame, FrameDecoder, new_frame_decoder, feed, encode_v1, encode_v2}
use logfalcon.Msp.Huffman.{HuffmanError, decoded, failed, huffman_decode}
use logfalcon.Msp.Constants.{
  dataflash_compression_huffman, from_fc_byte, msp_api_version, msp_blackbox_config,
  msp_dataflash_erase, msp_dataflash_read, msp_dataflash_summary, msp_fc_variant, msp_fc_version,
  msp_uid,
}
use logfalcon.Msp.Port.{Read, read, read_eof, read_error, Port, next_read, write, next_rounds}
use logfalcon.Msp.PendingFrames.{Pending, find, delete, put}

-- The errors, without their texts.
pub data ClientError : Type 0 where
  write_failed read_failed payload_too_short : ClientError
  timeout : ℕ → ClientError
  huffman_failed : HuffmanError → ClientError

-- `Client`; the timeout is in the port's `rounds`.
pub record Client : Type 0 where
  pub port : Port
  pub decoder : FrameDecoder
  pub pending : Pending
  pub fc_variant : List ℕ

unfoldable pub new_client : Port → Client
unfolding new_frame_decoder
new_client port = record { port = port; decoder = new_frame_decoder; pending = []; fc_variant = [] }

abbrev pub M : Type 0 → Type 0
M A = Exec Client ClientError A

-- A frame that is already encoded, to the port.
unfoldable pub write_frame : List ℕ → M (Unit {0})
unfolding write
write_frame bytes c =
    let (success, port) = write bytes c.port in
    (if success then ok tt else err write_failed, record c { port = port })

-- `code` is a byte in `Send` and `Request`, and 16 bits in `SendV2` and `Receive`.
unfoldable pub send : ℕ → List ℕ → M (Unit {0})
unfolding write_frame
send code payload = write_frame (encode_v1 code payload)

unfoldable pub send_v2 : ℕ → List ℕ → M (Unit {0})
unfolding write_frame
send_v2 code payload = write_frame (encode_v2 code payload)

-- The frames of responses, put under their codes; later frames replace earlier ones.
unfoldable pub drain : List Frame → Pending → Pending
drain [] pending = pending
drain (f ∷ frames) pending =
    drain frames (if f.direction == from_fc_byte then put f.code f pending else pending)

-- `c.decoder.Feed(buf[:n])` and the loop that drains the decoder.
unfoldable pub take_in : List ℕ → M (Unit {0})
unfolding drain
take_in bytes c = elim (feed c.decoder bytes) [
  | none ↦ (panic, c)
  | some d ↦
      (ok tt, record c { decoder = record d { frames = [] }; pending = drain d.frames c.pending })
]

-- What a `Read` returned, taken in.
unfoldable pub handle_read : Read × Port → M (Unit {0})
handle_read (read bytes, port) c = take_in bytes (record c { port = port })
handle_read (read_eof bytes, port) c = take_in bytes (record c { port = port })
handle_read (read_error, port) c = (err read_failed, record c { port = port })

unfoldable pub poll : M (Unit {0})
unfolding next_read take_in handle_read
poll c = handle_read (next_read c.port) c

-- `if f, ok := c.pending[code]; ok { delete(c.pending, code); return f, nil }`, or go on.
unfoldable pub claim : ℕ → M Frame → M Frame
claim code otherwise c = elim (find code c.pending) [
  | some f ↦ (ok f, record c { pending = delete code c.pending })
  | none ↦ otherwise c
]

-- The loop of `Receive`: `rounds` more passes of its clock test.
unfoldable pub receive_loop : ℕ → ℕ → M Frame
unfolding claim poll
receive_loop zero code = raise (timeout code)
receive_loop (suc rounds) code = do poll; claim code (receive_loop rounds code)

unfoldable pub wait_for : ℕ → M Frame
unfolding next_rounds receive_loop
wait_for code c =
    let (rounds, port) = next_rounds c.port in receive_loop rounds code (record c { port = port })

unfoldable pub receive : ℕ → M Frame
unfolding claim wait_for
receive code = claim code (wait_for code)

unfoldable pub flush_frames : ℕ → M (Unit {0})
flush_frames code c = (ok tt, record c { pending = delete code c.pending })

unfoldable pub request : ℕ → List ℕ → M Frame
unfolding flush_frames send receive
request code payload = do flush_frames code; send code payload; receive code

-- A payload that must have at least `n` bytes.
abbrev pub need : ℕ → List ℕ → M (Unit {0})
need n payload = if ltb (length payload) n then raise payload_too_short else pure tt

-- `p[i]`, which panics out of range.
unfoldable pub index : List ℕ → ℕ → M ℕ
index p i c = elim (get_elem? p i) [ none ↦ (panic, c) | some b ↦ (ok b, c) ]

unfoldable pub get_api_version : M (ℕ × ℕ)
unfolding request index
get_api_version = do
  f ← request msp_api_version []
  need 3 f.payload
  major ← index f.payload 1
  minor ← index f.payload 2
  pure (major, minor)

unfoldable pub get_fc_variant : M (List ℕ)
unfolding request
get_fc_variant = do f ← request msp_fc_variant []; pure f.payload

-- A byte in decimal, as `%d` prints it.
unfoldable pub decimal_byte : ℕ → List ℕ
decimal_byte n =
    if ltb n 10
    then (b'0' + n) ∷ []
    else if ltb n 100
    then (b'0' + n / 10) ∷ (b'0' + n % 10) ∷ []
    else (b'0' + n / 100) ∷ (b'0' + n / 10 % 10) ∷ (b'0' + n % 10) ∷ []

unfoldable pub get_fc_version : M (List ℕ)
unfolding request index
get_fc_version = do
  f ← request msp_fc_version []
  need 3 f.payload
  major ← index f.payload 0
  minor ← index f.payload 1
  patch ← index f.payload 2
  pure (decimal_byte major ++ b'.' ∷ (decimal_byte minor ++ b'.' ∷ decimal_byte patch))

hex_digit : ℕ → ℕ
hex_digit n = if ltb n 10 then b'0' + n else b'a' + (n - 10)

-- `hex.EncodeToString`.
unfoldable pub hex_encode : List ℕ → List ℕ
unfolding hex_digit
hex_encode [] = []
hex_encode (b ∷ bytes) = hex_digit (b / 16) ∷ hex_digit (b % 16) ∷ hex_encode bytes

unfoldable pub get_uid : M (List ℕ)
unfolding request hex_encode
get_uid = do f ← request msp_uid []; pure (hex_encode f.payload)

unfoldable pub get_blackbox_config : M ℕ
unfolding request index
get_blackbox_config = do f ← request msp_blackbox_config []; need 1 f.payload; index f.payload 0

pub record DataflashSummary : Type 0 where
  pub flags : ℕ
  pub sectors : ℕ
  pub total_size : ℕ
  pub used_size : ℕ
  pub supported : Bool
  pub ready : Bool

-- `binary.LittleEndian.Uint16` and `Uint32` at an offset.
abbrev pub uint16_at : List ℕ → ℕ → ℕ
uint16_at p i = get_or p i 0 + get_or p (i + 1) 0 * 256

abbrev pub uint32_at : List ℕ → ℕ → ℕ
uint32_at p i = uint16_at p i + uint16_at p (i + 2) * 65536

-- `Uint32(p[i : i + 4])`, which panics out of range.
unfoldable pub index_uint32 : List ℕ → ℕ → M ℕ
unfolding index
index_uint32 p i = do
  b0 ← index p i
  b1 ← index p (i + 1)
  b2 ← index p (i + 2)
  b3 ← index p (i + 3)
  pure (b0 + b1 * 256 + (b2 + b3 * 256) * 65536)

unfoldable pub summary_of : List ℕ → M DataflashSummary
unfolding index index_uint32
summary_of p = do
  flags ← index p 0
  sectors ← index_uint32 p 1
  total_size ← index_uint32 p 5
  used_size ← index_uint32 p 9
  pure (record {
    flags = flags;
    sectors = sectors;
    total_size = total_size;
    used_size = used_size;
    supported = not (bit_and flags 0x01 == 0);
    ready = not (bit_and flags 0x02 == 0);
  })

unfoldable pub get_dataflash_summary : M DataflashSummary
unfolding request summary_of
get_dataflash_summary = do
  f ← request msp_dataflash_summary []
  need 13 f.payload
  summary_of f.payload

-- `PutUint16` and `PutUint32`.
abbrev pub put_uint16 : ℕ → List ℕ
put_uint16 n = u8 n ∷ u8 (n / 256) ∷ []

abbrev pub put_uint32 : ℕ → List ℕ
put_uint32 n = put_uint16 n ++ put_uint16 (n / 65536)

-- The payload of a flash read request; compression is forced off unless the FC is Betaflight.
unfoldable pub flash_read_payload : List ℕ → ℕ → ℕ → Bool → List ℕ
flash_read_payload variant address size compression =
    put_uint32 address
    ++ (put_uint16 size ++ (if bytes_eq variant btfl_variant && compression then 1 else 0) ∷ [])

unfoldable pub send_flash_read_request : ℕ → ℕ → Bool → M (Unit {0})
unfolding send_v2 flash_read_payload
send_flash_read_request address size compression c =
    send_v2 msp_dataflash_read (flash_read_payload c.fc_variant address size compression) c

-- The data behind `addr(4) + dataSize(2) + compressionType(1)`.
unfoldable pub btfl_data : List ℕ → Outcome ClientError (List ℕ)
btfl_data p =
    let raw = take (uint16_at p 4) (drop 7 p) in
    if get_or p 6 0 == dataflash_compression_huffman
    then if ltb (length raw) 2
      then err payload_too_short
      else elim (huffman_decode (drop 2 raw) (uint16_at raw 0)) [
        | decoded out ↦ ok out
        | failed e ↦ err (huffman_failed e)
      ]
    else ok raw

abbrev with_address : ℕ → Outcome ClientError (List ℕ) → Outcome ClientError (ℕ × List ℕ)
with_address address (ok bytes) = ok (address, bytes)
with_address address (err e) = err e
with_address address panic = panic

unfoldable pub parse_flash_read : List ℕ → List ℕ → Outcome ClientError (ℕ × List ℕ)
unfolding btfl_data
parse_flash_read variant p =
    if ltb (length p) 4
    then err payload_too_short
    else if bytes_eq variant btfl_variant
    then if ltb (length p) 7
      then err payload_too_short
      else with_address (uint32_at p 0) (btfl_data p)
    else ok (uint32_at p 0, drop 4 p)

unfoldable pub receive_flash_read_response : M (ℕ × List ℕ)
unfolding receive parse_flash_read
receive_flash_read_response = do
  f ← receive msp_dataflash_read
  λ c. (parse_flash_read c.fc_variant f.payload, c)

unfoldable pub read_flash_chunk : ℕ → ℕ → Bool → M (ℕ × List ℕ)
unfolding send_flash_read_request receive_flash_read_response
read_flash_chunk address size compression = do
  send_flash_read_request address size compression
  receive_flash_read_response

unfoldable pub erase_flash : M (Unit {0})
unfolding send
erase_flash = send msp_dataflash_erase []
