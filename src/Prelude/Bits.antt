-- ===== src/Prelude/Bits.antt =====
-- Machine words and the bit operations of Go on them, as arithmetic.
use Prim.Native.Nat.{
  ℕ, zero, suc, ◌+◌, ◌*◌, ◌/◌, ◌%◌, ◌≤◌, ◌<◌, ◌^◌, max, bit_or, bit_xor, digits, differ,
  bit_or-bitwise, bit_xor-bitwise,
}
use mathlib.Core.Path.{◌≡◌, refl, ap}
use native.Mathlib.Nat.{pow-suc}
use native.Mathlib.Omega.{arith}

-- `byte(x)`, `uint16(x)` and `uint32(x)`.
abbrev pub u8 : ℕ → ℕ
u8 n = n % 256

abbrev pub u16 : ℕ → ℕ
u16 n = n % 65536

abbrev pub u32 : ℕ → ℕ
u32 n = n % 4294967296

abbrev pub IsByte : ℕ → Type 0
IsByte b = b < 256

module _ (z : ℕ → ℕ) (f : ℕ → ℕ → ℕ) where
  -- Two amounts of fuel that cover the number give the same digits.
  digits-fuel : (n m a b : ℕ) → a ≤ n → a ≤ m → digits z f n a b ≡ digits z f m a b
  digits-fuel zero zero a b g h = refl
  digits-fuel zero (suc m) zero b g h = refl
  digits-fuel zero (suc m) (suc a) b g h = absurd (omega arith)
  digits-fuel (suc n) zero zero b g h = refl
  digits-fuel (suc n) zero (suc a) b g h = absurd (omega arith)
  digits-fuel (suc n) (suc m) zero b g h = refl
  digits-fuel (suc n) (suc m) (suc a) b g h =
      omega (arith, digits-fuel n m (suc a / 2) (b / 2) (omega arith) (omega arith))

  digits_unfold :
      (a b : ℕ)
      → digits z f (suc a) (suc a) b
        ≡ digits z f (suc a / 2) (suc a / 2) (b / 2) * 2 + f (suc a % 2) (b % 2)
  digits_unfold a b =
      omega (arith, digits-fuel a (suc a / 2) (suc a / 2) (b / 2) (omega arith) (omega arith))

-- The lowest digit that `bit_or` and `bit_xor` compute, and the digits above it.
pub bit_or_digit : (a b : ℕ) → bit_or a b ≡ bit_or (a / 2) (b / 2) * 2 + max (a % 2) (b % 2)
bit_or_digit zero b = omega (arith, bit_or-bitwise 0 b, bit_or-bitwise 0 (b / 2))
bit_or_digit (suc a) b = omega (
  arith,
  bit_or-bitwise (suc a) b,
  bit_or-bitwise (suc a / 2) (b / 2),
  digits_unfold (λ y. y) max a b,
)

-- Of two digits, `differ` says whether they are different.
abbrev flip_digit : ℕ → ℕ → ℕ
flip_digit a b = (a + b) % 2

differ-flip_digit : (a b : ℕ) → a < 2 → b < 2 → differ a b ≡ flip_digit a b
differ-flip_digit zero b g h = omega arith
differ-flip_digit (suc zero) zero g h = refl
differ-flip_digit (suc zero) (suc zero) g h = refl
differ-flip_digit (suc zero) (suc (suc b)) g h = absurd (omega arith)
differ-flip_digit (suc (suc a)) b g h = absurd (omega arith)

pub bit_xor_digit : (a b : ℕ) → bit_xor a b ≡ bit_xor (a / 2) (b / 2) * 2 + (a % 2 + b % 2) % 2
bit_xor_digit zero b = omega (arith, bit_xor-bitwise 0 b, bit_xor-bitwise 0 (b / 2))
bit_xor_digit (suc a) b = omega (
  arith,
  bit_xor-bitwise (suc a) b,
  bit_xor-bitwise (suc a / 2) (b / 2),
  digits_unfold (λ y. y) differ a b,
  differ-flip_digit (suc a % 2) (b % 2) (omega arith) (omega arith),
)

pub zero-bit_or : (b : ℕ) → bit_or 0 b ≡ b
zero-bit_or b = bit_or-bitwise 0 b

pub zero-bit_xor : (b : ℕ) → bit_xor 0 b ≡ b
zero-bit_xor b = bit_xor-bitwise 0 b

bit_xor_lt_pow : (k a b : ℕ) → a < 2 ^ k → b < 2 ^ k → bit_xor a b < 2 ^ k
bit_xor_lt_pow zero a b g h =
    let e : a ≡ 0 = omega arith in let f : b ≡ 0 = omega arith in rw (e, f) (omega arith)
bit_xor_lt_pow (suc k) a b g h = omega (
  arith,
  pow-suc 2 k,
  bit_xor_digit a b,
  bit_xor_lt_pow k (a / 2) (b / 2) (omega (arith, pow-suc 2 k)) (omega (arith, pow-suc 2 k)),
)

-- `^` on bytes is a byte.
pub bit_xor-IsByte : (a b : ℕ) → IsByte a → IsByte b → IsByte (bit_xor a b)
bit_xor-IsByte a b g h = bit_xor_lt_pow 8 a b g h

bit_xor_cancel_fuel : (n a b c : ℕ) → a ≤ n → b ≤ n → c ≤ n → bit_xor a c ≡ bit_xor b c → a ≡ b
bit_xor_cancel_fuel zero a b c p q r e = omega arith
bit_xor_cancel_fuel (suc n) a b c p q r e =
    let halves : a / 2 ≡ b / 2 =
      bit_xor_cancel_fuel n (a / 2) (b / 2) (c / 2) (omega arith) (omega arith) (omega arith)
        (omega (arith, bit_xor_digit a c, bit_xor_digit b c)) in
    omega (arith, ap (λ (t : ℕ). bit_xor t (c / 2)) halves, bit_xor_digit a c, bit_xor_digit b c)

pub bit_xor_cancel : (a b c : ℕ) → bit_xor a c ≡ bit_xor b c → a ≡ b
bit_xor_cancel a b c e =
    bit_xor_cancel_fuel (a + b + c) a b c (omega arith) (omega arith) (omega arith) e

bit_xor_comm_fuel : (n a b : ℕ) → a ≤ n → b ≤ n → bit_xor a b ≡ bit_xor b a
bit_xor_comm_fuel zero a b p q =
    let e : a ≡ 0 = omega arith in let f : b ≡ 0 = omega arith in rw (e, f)
bit_xor_comm_fuel (suc n) a b p q = omega (
  arith,
  bit_xor_digit a b,
  bit_xor_digit b a,
  bit_xor_comm_fuel n (a / 2) (b / 2) (omega arith) (omega arith),
)

pub bit_xor_comm : (a b : ℕ) → bit_xor a b ≡ bit_xor b a
bit_xor_comm a b = bit_xor_comm_fuel (a + b) a b (omega arith) (omega arith)

bit_or_byte_fuel : (k lo hi : ℕ) → lo < 2 ^ k → bit_or lo (hi * 2 ^ k) ≡ lo + hi * 2 ^ k
bit_or_byte_fuel zero lo hi h =
    let e : lo ≡ 0 = omega arith in rw e (omega (arith, zero-bit_or (hi * 2 ^ 0)))
bit_or_byte_fuel (suc k) lo hi h =
    let e : hi * 2 ^ suc k ≡ 2 * (hi * 2 ^ k) =
      omega (arith, ap (λ (t : ℕ). hi * t) (pow-suc 2 k)) in
    let half : hi * 2 ^ suc k / 2 ≡ hi * 2 ^ k = omega arith in
    let rest = bit_or_byte_fuel k (lo / 2) hi (omega (arith, pow-suc 2 k)) in
    omega (arith, bit_or_digit lo (hi * 2 ^ suc k), ap (λ (t : ℕ). bit_or (lo / 2) t) half, rest)

-- `lo | hi << 8` puts two bytes together.
pub bit_or_bytes : (lo hi : ℕ) → IsByte lo → bit_or lo (hi * 256) ≡ lo + hi * 256
bit_or_bytes lo hi h = bit_or_byte_fuel 8 lo hi h

bit_or-zero_fuel : (n a : ℕ) → a ≤ n → bit_or a 0 ≡ a
bit_or-zero_fuel n zero h = zero-bit_or 0
bit_or-zero_fuel zero (suc a) h = absurd (omega arith)
bit_or-zero_fuel (suc n) (suc a) h =
    omega (arith, bit_or_digit (suc a) 0, bit_or-zero_fuel n (suc a / 2) (omega arith))

-- `x << 1 | bit`, read backwards.
pub bit_or_lowest : (x : ℕ) → bit_or (x / 2 * 2) (x % 2) ≡ x
bit_or_lowest x =
    let halves : x / 2 * 2 / 2 ≡ x / 2 = omega arith in
    let none_left : x % 2 / 2 ≡ 0 = omega arith in
    let high : bit_or (x / 2 * 2 / 2) (x % 2 / 2) ≡ x / 2 =
      rw (halves, none_left) (bit_or-zero_fuel (x / 2) (x / 2) (omega arith)) in
    omega (arith, bit_or_digit (x / 2 * 2) (x % 2))
