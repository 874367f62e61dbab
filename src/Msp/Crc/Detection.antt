-- ===== src/Msp/Crc/Detection.antt =====
-- Within bytes the CRC step is invertible, so a change of one byte always changes the CRC.
use logfalcon.Prelude.{
  ℕ, zero, suc, ◌+◌, ◌/◌, ◌%◌, ◌≡◌, ◌≢◌, refl, ap, sym, ◌∙◌, List, [], ◌∷◌, ◌++◌, true, IsByte, All,
  bit_xor, bit_xor-IsByte, bit_xor_comm, bit_xor_cancel, get_or, all_below, all_below_sound, ◌==◌,
  ==_iff, if◌then◌else◌,
}
use logfalcon.Msp.Crc.{crc_rounds, crc8_table, crc8_dvbs2}
use logfalcon.Msp.Crc.Bounds.{
  crc8_table-get_or, crc8_table-IsByte, crc8_dvbs2-IsByte, crc8_dvbs2-append,
}

-- A round backwards: the lowest bit of the result says whether the polynomial was added.
unround : ℕ → ℕ
unround crc = if crc % 2 == 0 then crc / 2 else bit_xor crc 0xD5 / 2 + 128

unrounds : ℕ → ℕ → ℕ
unfolding unround
unrounds zero crc = crc
unrounds (suc bits) crc = unround (unrounds bits crc)

rounds_undone : all_below (λ x. unrounds 8 (crc_rounds 8 x) == x) 256 ≡ true
unfolding crc_rounds all_below unrounds
rounds_undone = refl

unrounds-crc_rounds : (x : ℕ) → IsByte x → unrounds 8 (crc_rounds 8 x) ≡ x
unrounds-crc_rounds x h =
    (==_iff _ x).0 (all_below_sound (λ x. unrounds 8 (crc_rounds 8 x) == x) 256 x rounds_undone h)

crc8_table_injective :
    (x y : ℕ) → IsByte x → IsByte y → get_or crc8_table x 0 ≡ get_or crc8_table y 0 → x ≡ y
crc8_table_injective x y g h e =
    sym (unrounds-crc_rounds x g)
    ∙ ap (unrounds 8) (sym (crc8_table-get_or x g) ∙ e ∙ crc8_table-get_or y h)
    ∙ unrounds-crc_rounds y h

-- Different states before the same bytes are different states after them.
crc8_dvbs2_injective :
    (bytes : List ℕ) (x y : ℕ)
    → All IsByte bytes
    → IsByte x
    → IsByte y
    → crc8_dvbs2 bytes x ≡ crc8_dvbs2 bytes y
    → x ≡ y
unfolding crc8_dvbs2
crc8_dvbs2_injective [] x y all g h e = e
crc8_dvbs2_injective (b ∷ bytes) x y all g h e = bit_xor_cancel x y b (
    crc8_table_injective _ _ xb yb
      (crc8_dvbs2_injective bytes _ _ all.1 (crc8_table-IsByte _ xb) (crc8_table-IsByte _ yb) e))
  where
    xb : IsByte (bit_xor x b)
    xb = bit_xor-IsByte x b g all.0

    yb : IsByte (bit_xor y b)
    yb = bit_xor-IsByte y b h all.0

crc8_dvbs2_head :
    (bytes : List ℕ) (initial a b : ℕ)
    → All IsByte bytes
    → IsByte initial
    → IsByte a
    → IsByte b
    → crc8_dvbs2 (a ∷ bytes) initial ≡ crc8_dvbs2 (b ∷ bytes) initial
    → a ≡ b
unfolding crc8_dvbs2
crc8_dvbs2_head bytes i a b all hi ha hb e = bit_xor_cancel a b i (
    bit_xor_comm a i
    ∙ crc8_table_injective _ _ ia ib
        (crc8_dvbs2_injective bytes _ _ all (crc8_table-IsByte _ ia) (crc8_table-IsByte _ ib) e)
    ∙ bit_xor_comm i b)
  where
    ia : IsByte (bit_xor i a)
    ia = bit_xor-IsByte i a hi ha

    ib : IsByte (bit_xor i b)
    ib = bit_xor-IsByte i b hi hb

pub crc8_dvbs2-middle :
    (before after : List ℕ) (initial a b : ℕ)
    → All IsByte before
    → All IsByte after
    → IsByte initial
    → IsByte a
    → IsByte b
    → crc8_dvbs2 (before ++ a ∷ after) initial ≡ crc8_dvbs2 (before ++ b ∷ after) initial
    → a ≡ b
crc8_dvbs2-middle before after i a b hx hy hi ha hb e =
    crc8_dvbs2_head after (crc8_dvbs2 before i) a b hy (crc8_dvbs2-IsByte before i hx hi) ha hb
      (sym (crc8_dvbs2-append before (a ∷ after) i) ∙ e ∙ crc8_dvbs2-append before (b ∷ after) i)

-- Two byte strings that differ in exactly one byte, anywhere, have different CRC8-DVB-S2 values,
-- from every initial value that is a byte.
pub single_byte_detected :
    (before after : List ℕ) (initial a b : ℕ)
    → All IsByte before
    → All IsByte after
    → IsByte initial
    → IsByte a
    → IsByte b
    → a ≢ b
    → crc8_dvbs2 (before ++ a ∷ after) initial ≢ crc8_dvbs2 (before ++ b ∷ after) initial
single_byte_detected before after i a b hx hy hi ha hb ne e =
    ne (crc8_dvbs2-middle before after i a b hx hy hi ha hb e)
