-- ===== src/Msp/Huffman/Codes.antt =====
-- The code is prefix-free: no shorter prefix of a code is a code.
use native.Mathlib.Decide.{ℕ_discrete}
use logfalcon.Prelude.{
  ℕ, zero, suc, ◌-◌, ◌/◌, ◌^◌, ◌≡◌, refl, Bool, true, false, ◌&&◌, Option, none, some, List, [],
  ◌∷◌, ◌==◌, ltb, leb, all_below, all_below_sound, ◌≤◌, ◌<◌, ap, sym, ==_iff, arith, IsByte,
  and_true, ltb→lt, leb→le, if◌then◌else◌,
}
use logfalcon.Msp.Huffman.Tree.{Symbol, byte, huffman_eof, HuffmanEntry, eof_entry, raw_tree}
use logfalcon.Msp.Huffman.{lookup_in, default_tree, huffman_lookup}

unfoldable pub same_symbol : Symbol → Symbol → Bool
same_symbol (byte v) (byte w) = v == w
same_symbol huffman_eof huffman_eof = true
same_symbol _ _ = false

is_value : Symbol → Option Symbol → Bool
unfolding same_symbol
is_value value none = false
is_value value (some found) = same_symbol value found

is_none : Option Symbol → Bool
is_none none = true
is_none (some found) = false

-- The prefixes of `code` that are `k` bits shorter, for every `k` from 1 up to `cut`.
no_prefix : List HuffmanEntry → ℕ → ℕ → ℕ → Bool
unfolding lookup_in is_none
no_prefix tree zero code_len code = true
no_prefix tree (suc cut) code_len code =
    is_none (lookup_in tree (code_len - suc cut) (code / 2 ^ suc cut))
    && no_prefix tree cut code_len code

unfoldable pub find_code : List HuffmanEntry → ℕ → HuffmanEntry
find_code [] v = eof_entry 0 0
find_code (e ∷ es) v =
    let later = find_code es v in if same_symbol e.value (byte v) then e else later

-- The entry of the table for a byte.
unfoldable pub code_of : ℕ → HuffmanEntry
unfolding find_code same_symbol raw_tree
code_of = find_code raw_tree

-- The byte has a code, of 1 to 12 bits, which decodes to it and has no code as a shorter prefix.
is_code : List HuffmanEntry → ℕ → HuffmanEntry → Bool
is_code tree v e =
    leb 1 e.code_len
    && (leb e.code_len 12
        && (ltb e.code (2 ^ e.code_len)
            && (is_value (byte v) (lookup_in tree e.code_len e.code)
                && no_prefix tree (e.code_len - 1) e.code_len e.code)))

codes_checked : all_below (λ v. is_code default_tree v (code_of v)) 256 ≡ true
unfolding is_code no_prefix is_value code_of default_tree all_below
codes_checked = refl

-- The same facts, as the decoder's proof uses them.
pub record IsCode (v : ℕ) (e : HuffmanEntry) : Type 0 where
  pub nonempty : 1 ≤ e.code_len
  pub short : e.code_len ≤ 12
  pub fits : e.code < 2 ^ e.code_len
  pub hit : huffman_lookup e.code_len e.code ≡ some (byte v)
  pub miss :
      (cut : ℕ)
      → 0 < cut
      → cut < e.code_len
      → huffman_lookup (e.code_len - cut) (e.code / 2 ^ cut) ≡ none

is_none_lem : (o : Option Symbol) → is_none o ≡ true → o ≡ none
unfolding is_none
is_none_lem none h = refl
is_none_lem (some s) h = cc

is_value_lem : (v : ℕ) (o : Option Symbol) → is_value (byte v) o ≡ true → o ≡ some (byte v)
unfolding is_value same_symbol
is_value_lem v none h = cc
is_value_lem v (some (byte w)) h = ap (λ (t : ℕ). some (byte t)) (sym ((==_iff v w).0 h))
is_value_lem v (some huffman_eof) h = cc

no_prefix_lem :
    (tree : List HuffmanEntry) (cut code_len code k : ℕ)
    → no_prefix tree cut code_len code ≡ true
    → 0 < k
    → k ≤ cut
    → lookup_in tree (code_len - k) (code / 2 ^ k) ≡ none
unfolding no_prefix
no_prefix_lem tree zero code_len code k h p q = absurd (omega arith)
no_prefix_lem tree (suc cut) code_len code k h p q =
    let (first, others) = and_true _ _ h in
    elim (ℕ_discrete k (suc cut)) [
      | yes e ↦ rw e (is_none_lem _ first)
      | no ne ↦ no_prefix_lem tree cut code_len code k others p (omega arith)
    ]

is_code_parts :
    (tree : List HuffmanEntry) (v : ℕ) (e : HuffmanEntry)
    → is_code tree v e ≡ true
    → (leb 1 e.code_len ≡ true)
      × (leb e.code_len 12 ≡ true)
      × (ltb e.code (2 ^ e.code_len) ≡ true)
      × (is_value (byte v) (lookup_in tree e.code_len e.code) ≡ true)
      × (no_prefix tree (e.code_len - 1) e.code_len e.code ≡ true)
unfolding is_code
is_code_parts tree v e h =
    let (a, p) = and_true (leb 1 e.code_len) (leb e.code_len 12 && rest1) h in
    let (b, q) = and_true (leb e.code_len 12) rest1 p in
    let (c, r) = and_true (ltb e.code (2 ^ e.code_len)) rest2 q in
    let (d, f) = and_true (is_value (byte v) (lookup_in tree e.code_len e.code)) rest3 r in
    (a, b, c, d, f)
  where
    rest3 : Bool
    rest3 = no_prefix tree (e.code_len - 1) e.code_len e.code

    rest2 : Bool
    rest2 = is_value (byte v) (lookup_in tree e.code_len e.code) && rest3

    rest1 : Bool
    rest1 = ltb e.code (2 ^ e.code_len) && rest2

pub code_of-IsCode : (v : ℕ) → IsByte v → IsCode v (code_of v)
unfolding huffman_lookup
code_of-IsCode v h =
    let e : HuffmanEntry = code_of v in
    let all : is_code default_tree v e ≡ true =
      all_below_sound (λ w. is_code default_tree w (code_of w)) 256 v codes_checked h in
    let (a, b, c, d, f) = is_code_parts default_tree v e all in
    record {
      nonempty = leb→le _ _ a;
      short = leb→le _ _ b;
      fits = ltb→lt _ _ c;
      hit = is_value_lem v _ d;
      miss = λ cut p q.
          no_prefix_lem default_tree (e.code_len - 1) e.code_len e.code cut f p (omega arith);
    }
