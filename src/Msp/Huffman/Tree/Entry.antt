-- ===== src/Msp/Huffman/Tree/Entry.antt =====
-- An entry of the table of internal/msp/huffman.go.
use logfalcon.Prelude.{ℕ}

-- `Value`: a byte, or `HuffmanEOF`, the constant -1.
pub data Symbol : Type 0 where
  byte : ℕ → Symbol
  huffman_eof : Symbol

pub record HuffmanEntry : Type 0 where
  pub value : Symbol
  pub code_len : ℕ
  pub code : ℕ

abbrev pub entry : ℕ → ℕ → ℕ → HuffmanEntry
entry value code_len code = record { value = byte value; code_len = code_len; code = code }

abbrev pub eof_entry : ℕ → ℕ → HuffmanEntry
eof_entry code_len code = record { value = huffman_eof; code_len = code_len; code = code }
