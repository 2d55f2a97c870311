-- ===== src/Prelude/Xor.antt =====
-- `^` can be undone, also in the low bits alone, and `&` with a mask of ones takes the low bits.
use Prim.Native.Nat.{ℕ, zero, suc, ◌+◌, ◌*◌, ◌/◌, ◌%◌, ◌^◌, ◌≤◌, ◌<◌, bit_and, bit_xor, differ}
use mathlib.Core.Path.{◌≡◌, refl, sym, ap, ◌∙◌}
use native.Mathlib.Nat.{pow-suc}
use native.Mathlib.Omega.{arith}
use geekchatserver.Prelude.Bits.{bit_and_digit, bit_xor_step, differ-lt, bit_and-le, zero-bit_xor}

-- The number that the lowest k binary digits stand for, and the number without them.
unfoldable pub low_bits : ℕ → ℕ → ℕ
low_bits zero x = 0
low_bits (suc k) x = x % 2 + 2 * low_bits k (x / 2)

unfoldable pub high_bits : ℕ → ℕ → ℕ
high_bits zero x = x
high_bits (suc k) x = high_bits k (x / 2)

ones : ℕ → ℕ
ones zero = 0
ones (suc k) = 2 * ones k + 1

bit_and-ones : (k x : ℕ) → bit_and x (ones k) ≡ low_bits k x
unfolding ones low_bits
bit_and-ones zero x = omega (arith, bit_and-le x x 0 (omega arith))
bit_and-ones (suc k) x =
    omega (arith, bit_and_digit x (2 * ones k + 1), half_ones (ones k), bit_and-ones k (x / 2))
  where
    half : (n : ℕ) → (2 * n + 1) / 2 ≡ n
    half n = omega arith

    half_ones : (n : ℕ) → bit_and (x / 2) ((2 * n + 1) / 2) ≡ bit_and (x / 2) n
    half_ones n = rw (half n) refl

differ_cancel : (a b c : ℕ) → a < 2 → b < 2 → c < 2 → differ a c ≡ differ b c → a ≡ b
differ_cancel zero zero c h k l e = refl
differ_cancel (suc zero) (suc zero) c h k l e = refl
differ_cancel zero (suc zero) zero h k l e = omega arith
differ_cancel zero (suc zero) (suc zero) h k l e = omega arith
differ_cancel (suc zero) zero zero h k l e = omega arith
differ_cancel (suc zero) zero (suc zero) h k l e = omega arith
differ_cancel _ _ _ h k l e = absurd (omega arith)

pub differ_comm : (a b : ℕ) → differ a b ≡ differ b a
differ_comm zero zero = refl
differ_comm zero (suc b) = refl
differ_comm (suc a) zero = refl
differ_comm (suc a) (suc b) = differ_comm a b

pub bit_xor_parity : (a b : ℕ) → bit_xor a b % 2 ≡ differ (a % 2) (b % 2)
bit_xor_parity a b =
    omega (arith, bit_xor_step a b, differ-lt (a % 2) (b % 2) (omega arith) (omega arith))

pub bit_xor_half : (a b : ℕ) → bit_xor a b / 2 ≡ bit_xor (a / 2) (b / 2)
bit_xor_half a b =
    omega (arith, bit_xor_step a b, differ-lt (a % 2) (b % 2) (omega arith) (omega arith))

comm_below : (n a b : ℕ) → a ≤ n → b ≤ n → bit_xor a b ≡ bit_xor b a
comm_below zero zero zero h k = refl
comm_below zero (suc a) b h k = absurd (omega arith)
comm_below zero zero (suc b) h k = absurd (omega arith)
comm_below (suc n) a b h k = omega (
  arith,
  bit_xor_step a b,
  bit_xor_step b a,
  differ_comm (a % 2) (b % 2),
  comm_below n (a / 2) (b / 2) (omega arith) (omega arith),
)

pub bit_xor_comm : (a b : ℕ) → bit_xor a b ≡ bit_xor b a
bit_xor_comm a b = comm_below (a + b) a b (omega arith) (omega arith)

-- The low bits of `a ^ c` and `c` determine those of `a`.
pub low_bits_cancel :
    (k a b c : ℕ)
    → low_bits k (bit_xor a c) ≡ low_bits k (bit_xor b c)
    → low_bits k a ≡ low_bits k b
unfolding low_bits
low_bits_cancel zero a b c e = refl
low_bits_cancel (suc k) a b c e =
    let parity =
      differ_cancel (a % 2) (b % 2) (c % 2) (omega arith) (omega arith) (omega arith)
        (omega (arith, bit_xor_parity a c, bit_xor_parity b c)) in
    let halves =
      low_bits_cancel k (a / 2) (b / 2) (c / 2)
        (rw (← bit_xor_half a c, ← bit_xor_half b c) (omega arith)) in
    omega arith

pub high_bits_xor :
    (k a b : ℕ) → high_bits k (bit_xor a b) ≡ bit_xor (high_bits k a) (high_bits k b)
unfolding high_bits
high_bits_xor zero a b = refl
high_bits_xor (suc k) a b = rw (bit_xor_half a b) (high_bits_xor k (a / 2) (b / 2))

pub low_bits_small : (k x : ℕ) → x < 2 ^ k → low_bits k x ≡ x
unfolding low_bits
low_bits_small zero x h = omega arith
low_bits_small (suc k) x h =
    omega (arith, pow-suc 2 k, low_bits_small k (x / 2) (omega (arith, pow-suc 2 k)))

pub high_bits_small : (k x : ℕ) → x < 2 ^ k → high_bits k x ≡ 0
unfolding high_bits
high_bits_small zero x h = omega arith
high_bits_small (suc k) x h = high_bits_small k (x / 2) (omega (arith, pow-suc 2 k))

-- `a ^ c` and `c` determine `a`.
pub bit_xor_cancel : (k a b c : ℕ) → a < 2 ^ k → b < 2 ^ k → bit_xor a c ≡ bit_xor b c → a ≡ b
bit_xor_cancel k a b c h l e =
    sym (low_bits_small k a h) ∙ low_bits_cancel k a b c (ap (low_bits k) e) ∙ low_bits_small k b l

pub low_bits_8 : (x : ℕ) → low_bits 8 x ≡ x % 256
unfolding low_bits
low_bits_8 x = omega arith

pub bit_and_byte : (x : ℕ) → bit_and x 0xFF ≡ low_bits 8 x
unfolding ones
bit_and_byte x = bit_and-ones 8 x

pub bit_and_three_bytes : (x : ℕ) → bit_and x 0x00FFFFFF ≡ low_bits 24 x
unfolding ones
bit_and_three_bytes x = bit_and-ones 24 x

pub high_bits_8 : (x : ℕ) → high_bits 8 x ≡ x / 2 ^ 8
unfolding high_bits
high_bits_8 x = omega arith

pub high_bits_24 : (x : ℕ) → high_bits 24 x ≡ x / 2 ^ 24
unfolding high_bits
high_bits_24 x = omega arith

pub low_bits-lt : (k x : ℕ) → low_bits k x < 2 ^ k
unfolding low_bits
low_bits-lt zero x = omega arith
low_bits-lt (suc k) x = omega (arith, pow-suc 2 k, low_bits-lt k (x / 2))

pub bit_xor-zero : (x : ℕ) → bit_xor x 0 ≡ x
bit_xor-zero x = bit_xor_comm x 0 ∙ zero-bit_xor x
