-- ===== src/Msp/Client/FlashRead.antt =====
-- The replies to MSP_DATAFLASH_READ: each of the three formats is read back exactly.
use logfalcon.Prelude.{
  ℕ, suc, ◌+◌, ◌*◌, ◌/◌, ◌<◌, ◌≡◌, List, ◌∷◌, ◌++◌, arith, IsByte, All, u8, length, take_all,
  bytes_eq,
}
use logfalcon.Exec.{ok}
use logfalcon.Fc.Versions.{btfl_variant, inav_variant}
use logfalcon.Msp.Huffman.RoundTrip.{input_bits, encode_bits, huffman_decode-encode}
use logfalcon.Msp.Client.{put_uint16, put_uint32, btfl_data, parse_flash_read}

-- A reply of the controller: Betaflight's two formats, and iNav's.
pub data FlashReply : Type 0 where
  plain : ℕ → List ℕ → FlashReply
  compressed : ℕ → List ℕ → List ℕ → List ℕ → FlashReply
  inav : ℕ → List ℕ → FlashReply

abbrev pub reply_variant : FlashReply → List ℕ
reply_variant (plain address content) = btfl_variant
reply_variant (compressed address content packed padding) = btfl_variant
reply_variant (inav address content) = inav_variant

-- The payloads: `addr(4) + dataSize(2) + compressionType(1) + data`, where compressed data begins
-- with its number of characters, and `addr(4) + data`.
abbrev pub reply_payload : FlashReply → List ℕ
reply_payload (plain address content) =
    put_uint32 address ++ (put_uint16 (length content) ++ 0 ∷ content)
reply_payload (compressed address content packed padding) =
    put_uint32 address
    ++ (put_uint16 (suc (suc (length packed))) ++ 1 ∷ (put_uint16 (length content) ++ packed))
reply_payload (inav address content) = put_uint32 address ++ content

-- What the controller read out of its flash.
abbrev pub reply_content : FlashReply → ℕ × List ℕ
reply_content (plain address content) = (address, content)
reply_content (compressed address content packed padding) = (address, content)
reply_content (inav address content) = (address, content)

-- An address has 32 bits and a length 16; compressed data is the codes of bytes, padded.
abbrev pub ReplyFits : FlashReply → Type 0
ReplyFits (plain address content) = (address < 4294967296) × (length content < 65536)
ReplyFits (compressed address content packed padding) =
    (address < 4294967296)
    × (length content < 65536)
    × (length packed < 65534)
    × All IsByte content
    × (input_bits packed ≡ encode_bits content ++ padding)
ReplyFits (inav address content) = address < 4294967296

word16 : (n : ℕ) → n < 65536 → u8 n + u8 (n / 256) * 256 ≡ n
word16 n h = omega arith

word32 :
    (n : ℕ)
    → n < 4294967296
    → u8 n + u8 (n / 256) * 256 + (u8 (n / 65536) + u8 (n / 65536 / 256) * 256) * 65536 ≡ n
word32 n h = omega arith

-- Whatever a controller of either variant read out of its flash, in whichever format it replies, is
-- what the client makes of the payload, with the address.
pub parse-reply :
    (r : FlashReply)
    → ReplyFits r
    → parse_flash_read (reply_variant r) (reply_payload r) ≡ ok (reply_content r)
unfolding parse_flash_read btfl_data bytes_eq
parse-reply (plain address content) (h, k) =
    rw (word16 (length content) k, take_all (length content) content (omega arith))
      (rw (word32 address h) (ground arith))
parse-reply (compressed address content packed padding) (h, k, l, b, e) =
    let decoded_by = huffman_decode-encode packed content padding b e in
    let bound : suc (suc (length packed)) < 65536 = omega arith in
    rw (word16 (suc (suc (length packed))) bound, take_all (length packed) packed (omega arith))
      (rw (word16 (length content) k, decoded_by) (rw (word32 address h) (ground arith)))
parse-reply (inav address content) h = rw (word32 address h) (ground arith)
