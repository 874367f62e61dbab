-- ===== src/Msp/Huffman/Decode.antt =====
-- What the decoder makes of a code that stands in the input.
use mathlib.Core.Path.{subst}
use native.Mathlib.Nat.{pow-suc, div-eq_of_lt, div-div-eq-div-mul}
use logfalcon.Prelude.{
  ℕ, zero, suc, ◌+◌, ◌-◌, ◌*◌, ◌/◌, ◌%◌, ◌^◌, ◌≤◌, ◌<◌, ◌≡◌, ap, sym, ◌∙◌, false, List, arith,
  IsByte, bit_or, bit_or_lowest, leb, length,
}
use logfalcon.Msp.Huffman.Tree.{byte, HuffmanEntry}
use logfalcon.Msp.Huffman.{huffman_lookup, bit_at, found, pick, next_symbol, max_code_len}
use logfalcon.Msp.Huffman.Codes.{code_of, IsCode, code_of-IsCode}

-- The `n` low bits of `code` stand in the input from `pos` on, highest first.
abbrev pub Spells : List ℕ → ℕ → ℕ → ℕ → Type 0
Spells input pos zero code = Unit
Spells input pos (suc n) code =
    (pos < length input * 8) × (bit_at input pos ≡ code / 2 ^ n % 2) × Spells input (pos + 1) n code

half_step : (code n : ℕ) → code / 2 ^ suc n ≡ code / 2 ^ n / 2
half_step code n = ap (λ t. code / t) (pow-suc 2 n) ∙ sym (div-div-eq-div-mul code (2 ^ n) 2)

-- The loop's `(code << 1) | bit`.
bit_appended : (code n : ℕ) → bit_or (code / 2 ^ suc n * 2) (code / 2 ^ n % 2) ≡ code / 2 ^ n
bit_appended code n = rw half_step (bit_or_lowest (code / 2 ^ n))

module _ (input : List ℕ) (code rounds code_len n pos : ℕ) where
  -- One round of the loop, where there is a bit left to read.
  round_lem :
      Spells input pos (suc n) code
      → next_symbol huffman_lookup input (suc rounds) code_len (code / 2 ^ suc n) pos
        ≡ pick
            (huffman_lookup code_len (code / 2 ^ n))
            (pos + 1)
            (next_symbol huffman_lookup input rounds (code_len + 1) (code / 2 ^ n) (pos + 1))
  unfolding next_symbol
  round_lem s =
      let appended : bit_or (code / 2 ^ suc n * 2) (bit_at input pos) ≡ code / 2 ^ n =
        ap (λ t. bit_or (code / 2 ^ suc n * 2) t) s.1 ∙ bit_appended code n in
      let not_ended : leb (length input * 8) pos ≡ false = ground (arith, s.0) in
      rw (next_symbol, appended, not_ended)

module _ (input : List ℕ) (v : ℕ) (e : HuffmanEntry) (h : IsCode v e) where
  spelled :
      (n rounds len pos : ℕ)
      → len + suc n ≡ e.code_len
      → suc n ≤ rounds
      → Spells input pos (suc n) e.code
      → next_symbol huffman_lookup input rounds (len + 1) (e.code / 2 ^ suc n) pos
        ≡ found (byte v) (pos + suc n)
  spelled n zero len pos l r s = absurd (omega arith)
  spelled zero (suc rounds) len pos l r s =
      round_lem input e.code rounds (len + 1) 0 pos s
      ∙ ap
          (λ t.
            pick t (pos + 1)
              (next_symbol huffman_lookup input rounds (len + 1 + 1) (e.code / 2 ^ 0) (pos + 1)))
          (ap (λ k. huffman_lookup k (e.code / 1)) l
            ∙ ap (huffman_lookup e.code_len) (omega arith)
            ∙ h.hit)
  spelled (suc n) (suc rounds) len pos l r s =
      round_lem input e.code rounds (len + 1) (suc n) pos s
      ∙ ap
          (λ t.
            pick t (pos + 1) (
              next_symbol huffman_lookup input rounds (len + 1 + 1) (e.code / 2 ^ suc n) (pos + 1)))
          (ap (λ k. huffman_lookup k (e.code / 2 ^ suc n)) (omega arith)
            ∙ h.miss (suc n) (omega arith) (omega arith))
      ∙ spelled n rounds (len + 1) (pos + 1) (omega arith) (omega arith) s.2
      ∙ ap (found (byte v)) (omega arith)

-- The loop finds exactly the code that stands at `pos`, and ends behind it.
pub next_symbol-code_of :
    (input : List ℕ) (v pos : ℕ)
    → IsByte v
    → Spells input pos (code_of v).code_len (code_of v).code
    → next_symbol huffman_lookup input max_code_len 1 0 pos
      ≡ found (byte v) (pos + (code_of v).code_len)
next_symbol-code_of input v pos h s =
    let e : HuffmanEntry = code_of v in
    let c : IsCode v e = code_of-IsCode v h in
    let n : ℕ = e.code_len - 1 in
    let l : suc n ≡ e.code_len = omega arith in
    let start : e.code / 2 ^ suc n ≡ 0 = div-eq_of_lt (rw l c.fits) in
    ap (λ t. next_symbol huffman_lookup input 12 1 t pos) (sym start)
    ∙ spelled input v e c n 12 0 pos (omega arith) (omega arith)
        (subst (λ k. Spells input pos k e.code) (sym l) s)
    ∙ ap (λ t. found (byte v) (pos + t)) l
