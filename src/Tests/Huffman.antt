-- ===== src/Tests/Huffman.antt =====
-- internal/msp/huffman.go and the flash read replies at concrete inputs.
use logfalcon.Prelude.{◌≡◌, refl, [], ◌∷◌, ◌++◌, arith}
use logfalcon.Exec.{ok}
use logfalcon.Msp.Huffman.{decoded, huffman_decode}
use logfalcon.Msp.Huffman.Codes.{code_of, find_code, same_symbol}
use logfalcon.Msp.Huffman.Tree.{raw_tree, raw_tree_head}
use logfalcon.Msp.Huffman.RoundTrip.{input_bits, encode_bits, huffman_decode-encode}
use logfalcon.Msp.Client.{parse_flash_read}
use logfalcon.Msp.Client.FlashRead.{
  FlashReply, plain, reply_variant, reply_payload, reply_content, parse-reply,
}

two_zeros : input_bits (243 ∷ []) ≡ encode_bits (0 ∷ 0 ∷ []) ++ 0 ∷ 0 ∷ 1 ∷ 1 ∷ []
unfolding encode_bits code_of find_code same_symbol raw_tree raw_tree_head
two_zeros = refl

huffman_decode-encode_example : huffman_decode (243 ∷ []) 2 ≡ decoded (0 ∷ 0 ∷ [])
huffman_decode-encode_example =
    huffman_decode-encode (243 ∷ []) (0 ∷ 0 ∷ []) (0 ∷ 0 ∷ 1 ∷ 1 ∷ [])
      (omega arith, (omega arith, tt)) two_zeros

abbrev a_reply : FlashReply
a_reply = plain 65536 (72 ∷ 32 ∷ 80 ∷ [])

parse-reply_example :
    parse_flash_read (reply_variant a_reply) (reply_payload a_reply) ≡ ok (reply_content a_reply)
parse-reply_example = parse-reply a_reply (omega arith, omega arith)
