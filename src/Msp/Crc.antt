-- ===== src/Msp/Crc.antt =====
-- internal/msp/crc.go: the checksums of MSP v1 and v2 frames.
pub mod Bounds
pub mod Detection
use logfalcon.Prelude.{
  ℕ, zero, suc, ◌+◌, ◌*◌, List, [], ◌∷◌, u8, bit_and, bit_xor, ◌==◌, if◌then◌else◌, get_or,
}

-- One round of the inner loop of `init`: a shift, and the polynomial 0xD5 where bit 7 fell out.
crc_round : ℕ → ℕ
crc_round crc = if bit_and crc 0x80 == 0 then u8 (crc * 2) else bit_xor (u8 (crc * 2)) 0xD5

pub crc_rounds : ℕ → ℕ → ℕ
unfolding crc_round
crc_rounds zero crc = crc
crc_rounds (suc bits) crc = crc_rounds bits (crc_round crc)

-- The entries from `i` on, `n` of them: the outer loop of `init`.
pub table_from : ℕ → ℕ → List ℕ
unfolding crc_rounds
table_from zero i = []
table_from (suc n) i = crc_rounds 8 (u8 i) ∷ table_from n (i + 1)

pub crc8_table : List ℕ
unfolding table_from
crc8_table = table_from 256 0

unfoldable pub xor_from : ℕ → List ℕ → ℕ
xor_from crc [] = crc
xor_from crc (b ∷ rest) = xor_from (bit_xor crc b) rest

unfoldable pub crc8_xor : List ℕ → ℕ
unfolding xor_from
crc8_xor bytes = xor_from 0 bytes

-- An index is the exclusive or of two bytes, so it lies in the table.
unfoldable pub crc8_dvbs2 : List ℕ → ℕ → ℕ
unfolding crc8_table
crc8_dvbs2 [] initial = initial
crc8_dvbs2 (b ∷ bytes) initial = crc8_dvbs2 bytes (get_or crc8_table (bit_xor initial b) 0)
