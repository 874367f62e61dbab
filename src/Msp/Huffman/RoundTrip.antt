-- ===== src/Msp/Huffman/RoundTrip.antt =====
-- Compressed data comes back: decoding inverts the table's own encoding.
use mathlib.Core.Path.{subst}
use mathlib.Core.List.{append_assoc, append-nil}
use logfalcon.Prelude.{
  ℕ, zero, suc, ◌+◌, ◌-◌, ◌*◌, ◌/◌, ◌%◌, ◌^◌, ◌<◌, ◌≡◌, refl, ap, sym, ◌∙◌, false, List, [], ◌∷◌,
  ◌++◌, arith, IsByte, All, u8, ◌==◌, length, length-append, get_or,
}
use logfalcon.Msp.Huffman.Tree.{byte}
use logfalcon.Msp.Huffman.{
  found, huffman_lookup, bit_at, next_symbol, decode_loop, decoded, huffman_decode, max_code_len,
}
use logfalcon.Msp.Huffman.Codes.{code_of}
use logfalcon.Msp.Huffman.Decode.{Spells, next_symbol-code_of}

-- The `n` low bits of a number, highest first.
abbrev pub bits : ℕ → ℕ → List ℕ
bits zero code = []
bits (suc n) code = (code / 2 ^ n % 2) ∷ bits n code

-- The bits of the input in the order in which the decoder reads them.
abbrev pub input_bits : List ℕ → List ℕ
input_bits [] = []
input_bits (b ∷ input) = bits 8 b ++ input_bits input

-- The reference encoder: the codes of the bytes one after another.
unfoldable pub encode_bits : List ℕ → List ℕ
encode_bits [] = []
encode_bits (v ∷ bytes) = bits (code_of v).code_len (code_of v).code ++ encode_bits bytes

length-bits : (n code : ℕ) → length (bits n code) ≡ n
length-bits zero code = refl
length-bits (suc n) code = ap suc (length-bits n code)

length-input_bits : (input : List ℕ) → length (input_bits input) ≡ length input * 8
length-input_bits [] = refl
length-input_bits (b ∷ input) = omega (arith, length-input_bits input)

bit_at-get_or :
    (input : List ℕ) (pos : ℕ)
    → pos < length input * 8
    → bit_at input pos ≡ get_or (input_bits input) pos 0
unfolding bit_at
bit_at-get_or [] pos h = absurd (omega arith)
bit_at-get_or (b ∷ input) zero h = refl
bit_at-get_or (b ∷ input) (suc zero) h = refl
bit_at-get_or (b ∷ input) (suc (suc zero)) h = refl
bit_at-get_or (b ∷ input) (suc (suc (suc zero))) h = refl
bit_at-get_or (b ∷ input) (suc (suc (suc (suc zero)))) h = refl
bit_at-get_or (b ∷ input) (suc (suc (suc (suc (suc zero))))) h = refl
bit_at-get_or (b ∷ input) (suc (suc (suc (suc (suc (suc zero)))))) h = refl
bit_at-get_or (b ∷ input) (suc (suc (suc (suc (suc (suc (suc zero))))))) h = refl
bit_at-get_or (b ∷ input) (suc (suc (suc (suc (suc (suc (suc (suc pos)))))))) h =
    let p : ℕ = suc (suc (suc (suc (suc (suc (suc (suc pos))))))) in
    let next_byte : p / 8 ≡ suc (pos / 8) = omega arith in
    let same_bit : p % 8 ≡ pos % 8 = omega arith in
    ap (λ t. get_or (b ∷ input) t 0 / 2 ^ (7 - p % 8) % 2) next_byte
    ∙ ap (λ t. get_or input (pos / 8) 0 / 2 ^ (7 - t) % 2) same_bit
    ∙ bit_at-get_or input pos (omega arith)

get_or_middle :
    (before : List ℕ) (x : ℕ) (after : List ℕ) → get_or (before ++ x ∷ after) (length before) 0 ≡ x
get_or_middle [] x after = refl
get_or_middle (b ∷ before) x after = get_or_middle before x after

-- A code among the bits of the input is spelled there.
spelled_by_bits :
    (input before after : List ℕ) (n code : ℕ)
    → input_bits input ≡ before ++ (bits n code ++ after)
    → Spells input (length before) n code
spelled_by_bits input before after zero code h = tt
spelled_by_bits input before after (suc n) code h =
    let x : ℕ = code / 2 ^ n % 2 in
    let rest : List ℕ = bits n code ++ after in
    let inside : length before < length input * 8 = omega (
      arith,
      ap (λ (t : List ℕ). length t) h,
      length-input_bits input,
      length-append before (x ∷ rest),
    ) in
    (
      inside,
      bit_at-get_or input (length before) inside
          ∙ ap (λ t. get_or t (length before) 0) h
          ∙ get_or_middle before x rest,
      subst (λ k. Spells input k n code) (length-append before (x ∷ []))
          (spelled_by_bits input (before ++ x ∷ []) after n code
            (h ∙ sym (append_assoc before (x ∷ []) rest))),
    )

decode_spelled :
    (input before after bytes out : List ℕ)
    → All IsByte bytes
    → input_bits input ≡ before ++ (encode_bits bytes ++ after)
    → decode_loop huffman_lookup input (length bytes) (length before) out ≡ decoded (out ++ bytes)
unfolding decode_loop encode_bits
decode_spelled input before after [] out all h = rw append-nil
decode_spelled input before after (v ∷ bytes) out all h =
    let code : List ℕ = bits (code_of v).code_len (code_of v).code in
    let rest : List ℕ = encode_bits bytes ++ after in
    let placed : input_bits input ≡ before ++ (code ++ rest) =
      h ∙ ap (λ t. before ++ t) (append_assoc code (encode_bits bytes) after) in
    let step : next_symbol huffman_lookup input max_code_len 1 0 (length before)
        ≡ found (byte v) (length before + (code_of v).code_len) =
      next_symbol-code_of input v (length before) all.0
        (spelled_by_bits input before rest (code_of v).code_len (code_of v).code placed) in
    let there : length (before ++ code) ≡ length before + (code_of v).code_len =
      length-append before code
      ∙ ap (λ t. length before + t) (length-bits (code_of v).code_len _) in
    let same : u8 v ≡ v = omega arith in
    rw (decode_loop, step)
      (rw (← there, same)
        (decode_spelled input (before ++ code) after bytes (out ++ v ∷ []) all.1
            (placed ∙ sym (append_assoc before code rest))
          ∙ ap decoded (append_assoc out (v ∷ []) bytes)))

-- Input whose bits are the codes of some bytes, with any padding behind them, decodes to exactly
-- those bytes when as many are asked for.
pub huffman_decode-encode :
    (input bytes padding : List ℕ)
    → All IsByte bytes
    → input_bits input ≡ encode_bits bytes ++ padding
    → huffman_decode input (length bytes) ≡ decoded bytes
unfolding huffman_decode
huffman_decode-encode input [] padding all h = refl
huffman_decode-encode input (v ∷ bytes) padding all h =
    let nonzero : (suc (length bytes) == 0) ≡ false = ground arith in
    rw nonzero (decode_spelled input [] padding (v ∷ bytes) [] all h)
