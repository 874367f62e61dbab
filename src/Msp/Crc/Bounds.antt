-- ===== src/Msp/Crc/Bounds.antt =====
-- The checksums of bytes are bytes, and they can be computed piece by piece.
use logfalcon.Prelude.{
  ℕ, zero, suc, ◌+◌, ◌<◌, ◌≡◌, refl, List, [], ◌∷◌, ◌++◌, arith, ap, ◌∙◌, true, IsByte, All,
  bit_xor-IsByte, get_or, all_below, all_below_sound, ltb, ltb→lt,
}
use logfalcon.Msp.Crc.{crc_rounds, table_from, crc8_table, crc8_dvbs2}

-- The table holds at `i` what the inner loop makes of `i`.
table_from-get_or :
    (n i k : ℕ) → k < n → i + n < 257 → get_or (table_from n i) k 0 ≡ crc_rounds 8 (i + k)
unfolding table_from
table_from-get_or zero i k h l = absurd (omega arith)
table_from-get_or (suc n) i zero h l = ap (crc_rounds 8) (omega arith)
table_from-get_or (suc n) i (suc k) h l =
    table_from-get_or n (i + 1) k (omega arith) (omega arith) ∙ ap (crc_rounds 8) (omega arith)

pub crc8_table-get_or : (k : ℕ) → IsByte k → get_or crc8_table k 0 ≡ crc_rounds 8 k
unfolding crc8_table
crc8_table-get_or k h = table_from-get_or 256 0 k h (omega arith) ∙ ap (crc_rounds 8) (omega arith)

rounds_are_bytes : all_below (λ x. ltb (crc_rounds 8 x) 256) 256 ≡ true
unfolding crc_rounds all_below
rounds_are_bytes = refl

pub crc8_table-IsByte : (k : ℕ) → IsByte k → IsByte (get_or crc8_table k 0)
crc8_table-IsByte k h =
    rw (crc8_table-get_or k h)
      (ltb→lt _ _ (all_below_sound (λ x. ltb (crc_rounds 8 x) 256) 256 k rounds_are_bytes h))

-- A checksum of bytes is a byte.
pub crc8_dvbs2-IsByte :
    (bytes : List ℕ) (initial : ℕ)
    → All IsByte bytes
    → IsByte initial
    → IsByte (crc8_dvbs2 bytes initial)
unfolding crc8_dvbs2
crc8_dvbs2-IsByte [] initial all h = h
crc8_dvbs2-IsByte (b ∷ bytes) initial all h =
    crc8_dvbs2-IsByte bytes _ all.1 (crc8_table-IsByte _ (bit_xor-IsByte initial b h all.0))

pub crc8_dvbs2-append :
    (xs ys : List ℕ) (initial : ℕ)
    → crc8_dvbs2 (xs ++ ys) initial ≡ crc8_dvbs2 ys (crc8_dvbs2 xs initial)
unfolding crc8_dvbs2
crc8_dvbs2-append [] ys initial = refl
crc8_dvbs2-append (x ∷ xs) ys initial = crc8_dvbs2-append xs ys _
