-- ===== src/Msp/Huffman/Bounds.antt =====
-- The decoder never writes more than it was asked for, and writes only bytes.
use logfalcon.Prelude.{
  ℕ, zero, suc, ◌+◌, ◌≤◌, ◌≡◌, refl, Option, List, [], ◌∷◌, ◌++◌, arith, IsByte, All, All-append,
  u8, ◌==◌, Bool-cases, inl, inr, length, length-append,
}
use logfalcon.Msp.Huffman.Tree.{Symbol, byte, huffman_eof}
use logfalcon.Msp.Huffman.{
  Found, found, ended, unmatched, next_symbol, decode_loop, Decoded, decoded, failed,
  huffman_lookup, huffman_decode, max_code_len,
}

abbrev pub Within : ℕ → Decoded → Type 0
Within n (decoded out) = (length out ≤ n) × All IsByte out
Within n (failed e) = Unit

module _ (lookup : ℕ → ℕ → Option Symbol) (input : List ℕ) (n : ℕ) where
  loop-Within :
      (remaining pos : ℕ) (out : List ℕ)
      → length out + remaining ≤ n
      → All IsByte out
      → Within n (decode_loop lookup input remaining pos out)
  unfolding decode_loop
  loop-Within zero pos out l all = (omega arith, all)
  loop-Within (suc remaining) pos out l all =
      go (next_symbol lookup input max_code_len 1 0 pos) refl (λ v next.
        loop-Within remaining next (out ++ u8 v ∷ []) (omega (arith, length-append out (u8 v ∷ [])))
          (All-append IsByte out (u8 v ∷ []) all (omega arith, tt)))
    where
      go :
          (f : Found)
          → next_symbol lookup input max_code_len 1 0 pos ≡ f
          → ((v next : ℕ) → Within n (decode_loop lookup input remaining next (out ++ u8 v ∷ [])))
          → Within n (decode_loop lookup input (suc remaining) pos out)
      go ended e ih = rw (decode_loop, e) tt
      go (unmatched p) e ih = rw (decode_loop, e) tt
      go (found (byte v) p) e ih = rw (decode_loop, e) (ih v p)
      go (found huffman_eof p) e ih = rw (decode_loop, e) (omega arith, all)

-- Whatever the input, corrupt or not, a result has at most `char_count` elements, all of them bytes.
pub huffman_decode-Within :
    (input : List ℕ) (char_count : ℕ) → Within char_count (huffman_decode input char_count)
unfolding huffman_decode
huffman_decode-Within input n = elim (Bool-cases (n == 0)) [
  | inl e ↦ rw e (omega arith, tt)
  | inr e ↦ rw e (loop-Within huffman_lookup input n n 0 [] (omega arith) tt)
]
