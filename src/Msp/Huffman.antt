-- ===== src/Msp/Huffman.antt =====
-- internal/msp/huffman.go: the code table and the decoder of compressed flash data.
pub mod Tree
pub mod Codes
pub mod Decode
pub mod Bounds
pub mod RoundTrip
use logfalcon.Prelude.{
  ℕ, zero, suc, ◌+◌, ◌-◌, ◌*◌, ◌/◌, ◌%◌, ◌^◌, Bool, true, false, ◌&&◌, ◌||◌, Option, none, some,
  List, [], ◌∷◌, ◌++◌, bit_or, u8, ◌==◌, ltb, leb, if◌then◌else◌, length, get_or,
}
use logfalcon.Msp.Huffman.Tree.{Symbol, byte, huffman_eof, HuffmanEntry, raw_tree}

abbrev pub max_code_len : ℕ
max_code_len = 12

-- The order of the insertion sort: by length, then by code.
after_key : HuffmanEntry → HuffmanEntry → Bool
after_key e key = ltb key.code_len e.code_len || (e.code_len == key.code_len && ltb key.code e.code)

-- One round of the insertion sort. The prefix that is sorted already is held backwards, so its head
-- is `defaultTree[j]` for the inner loop, which moves larger entries up.
sink : HuffmanEntry → List HuffmanEntry → List HuffmanEntry
unfolding after_key
sink key [] = key ∷ []
sink key (e ∷ sorted) = if after_key e key then e ∷ sink key sorted else key ∷ e ∷ sorted

sort_onto : List HuffmanEntry → List HuffmanEntry → List HuffmanEntry
unfolding sink
sort_onto sorted [] = sorted
sort_onto sorted (key ∷ rest) = sort_onto (sink key sorted) rest

reverse_onto : List HuffmanEntry → List HuffmanEntry → List HuffmanEntry
reverse_onto [] acc = acc
reverse_onto (e ∷ es) acc = reverse_onto es (e ∷ acc)

unfoldable pub default_tree : List HuffmanEntry
unfolding sort_onto reverse_onto raw_tree
default_tree = reverse_onto (sort_onto [] raw_tree) []

-- `huffmanLookup[huffmanKey{codeLen, code}]` over the entries as `init` assigns them: a later entry
-- with the same key would win.
unfoldable pub lookup_in : List HuffmanEntry → ℕ → ℕ → Option Symbol
lookup_in [] code_len code = none
lookup_in (e ∷ es) code_len code =
    let later = lookup_in es code_len code in
    elim later [
      | some value ↦ some value
      | none ↦ if e.code_len == code_len && e.code == code then some e.value else none
    ]

unfoldable pub huffman_lookup : ℕ → ℕ → Option Symbol
huffman_lookup = lookup_in default_tree

pub data HuffmanError : Type 0 where
  unexpected_end : HuffmanError
  invalid_code : ℕ → HuffmanError

pub data Decoded : Type 0 where
  decoded : List ℕ → Decoded
  failed : HuffmanError → Decoded

-- Bit `bit_pos`, most significant first within each byte. It is read only below `totalBits`.
unfoldable pub bit_at : List ℕ → ℕ → ℕ
bit_at input bit_pos = get_or input (bit_pos / 8) 0 / 2 ^ (7 - bit_pos % 8) % 2

-- What the loop over `codeLen` comes to: a symbol and the next position, the end of the input, or
-- no code of at most `max_code_len` bits.
pub data Found : Type 0 where
  found : Symbol → ℕ → Found
  ended : Found
  unmatched : ℕ → Found

-- `if val, ok := ...; ok` inside the loop: the symbol, or what the longer codes give.
abbrev pub pick : Option Symbol → ℕ → Found → Found
pick (some symbol) pos longer = found symbol pos
pick none pos longer = longer

module _ (lookup : ℕ → ℕ → Option Symbol) (input : List ℕ) where
  unfoldable pub next_symbol : ℕ → ℕ → ℕ → ℕ → Found
  next_symbol zero code_len code bit_pos = unmatched bit_pos
  next_symbol (suc rounds) code_len code bit_pos =
      let code' : ℕ = bit_or (code * 2) (bit_at input bit_pos) in
      let longer = next_symbol rounds (code_len + 1) code' (bit_pos + 1) in
      if leb (length input * 8) bit_pos
      then ended
      else pick (lookup code_len code') (bit_pos + 1) longer

  -- The loop over the output, `remaining` bytes short of `charCount`.
  unfoldable pub decode_loop : ℕ → ℕ → List ℕ → Decoded
  decode_loop zero bit_pos out = decoded out
  decode_loop (suc remaining) bit_pos out = elim (next_symbol max_code_len 1 0 bit_pos) [
    | ended ↦ failed unexpected_end
    | unmatched pos ↦ failed (invalid_code pos)
    | found symbol pos ↦ elim symbol [
      | huffman_eof ↦ decoded out
      | byte value ↦ decode_loop remaining pos (out ++ u8 value ∷ [])
    ]
  ]

unfoldable pub huffman_decode : List ℕ → ℕ → Decoded
huffman_decode input char_count =
    if char_count == 0 then decoded [] else decode_loop huffman_lookup input char_count 0 []
