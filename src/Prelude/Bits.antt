-- ===== src/Prelude/Bits.antt =====
-- Laws of `&`, `^` and `>>` at variables, from the digit recursion that the native operations
-- stand for.
use Prim.Native.Nat.{
  ℕ, zero, suc, ◌+◌, ◌*◌, ◌/◌, ◌%◌, ◌^◌, ◌≤◌, ◌<◌, min, bit_and, bit_xor, digits, differ,
  bit_and-bitwise, bit_xor-bitwise,
}
use mathlib.Core.Path.{◌≡◌, refl}
use native.Mathlib.Nat.{pow-suc}
use native.Mathlib.Omega.{arith}

-- x >> k.
infixl 75 ◌>>>◌
abbrev pub ◌>>>◌ : ℕ → ℕ → ℕ
x >>> k = x / 2 ^ k

-- Fuel that the number does not exceed is enough for its digits.
module _ (z : ℕ → ℕ) (f : ℕ → ℕ → ℕ) where
  settled : (x y k l : ℕ) → x ≤ k → x ≤ l → digits z f k x y ≡ digits z f l x y
  settled zero y zero zero below below' = refl
  settled zero y zero (suc l) below below' = refl
  settled zero y (suc k) zero below below' = refl
  settled zero y (suc k) (suc l) below below' = refl
  settled (suc x) y zero l below below' = absurd (omega arith)
  settled (suc x) y (suc k) zero below below' = absurd (omega arith)
  settled (suc x) y (suc k) (suc l) below below' =
      let halves = settled (suc x / 2) (y / 2) k l (omega arith) (omega arith) in omega arith

zero-bit_and : (y : ℕ) → bit_and 0 y ≡ 0
zero-bit_and y = bit_and-bitwise 0 y

pub zero-bit_xor : (y : ℕ) → bit_xor 0 y ≡ y
zero-bit_xor y = bit_xor-bitwise 0 y

-- The lowest binary digit of `&`, and the others.
pub bit_and_digit : (x y : ℕ) → bit_and x y ≡ min (x % 2) (y % 2) + 2 * bit_and (x / 2) (y / 2)
bit_and_digit zero y = omega (arith, zero-bit_and (y / 2), zero-bit_and y)
bit_and_digit (suc x) y =
    let halves = bit_and-bitwise (suc x / 2) (y / 2) in
    let enough =
      settled (λ _. 0) min (suc x / 2) (y / 2) x (suc x / 2) (omega arith) (omega arith) in
    omega (arith, bit_and-bitwise (suc x) y)

-- The lowest binary digit of `^`, and the others.
pub bit_xor_step : (x y : ℕ) → bit_xor x y ≡ bit_xor (x / 2) (y / 2) * 2 + differ (x % 2) (y % 2)
bit_xor_step zero y =
    let low : differ 0 (y % 2) ≡ y % 2 = refl in omega (arith, zero-bit_xor (y / 2), zero-bit_xor y)
bit_xor_step (suc x) y =
    let halves = bit_xor-bitwise (suc x / 2) (y / 2) in
    let enough =
      settled (λ y. y) differ (suc x / 2) (y / 2) x (suc x / 2) (omega arith) (omega arith) in
    omega (arith, bit_xor-bitwise (suc x) y)

-- `a & b` is at most the mask `b`.
pub bit_and-le : (k x y : ℕ) → x ≤ k → bit_and x y ≤ y
bit_and-le k zero y below = omega (arith, zero-bit_and y)
bit_and-le zero (suc x) y below = absurd (omega arith)
bit_and-le (suc k) (suc x) y below =
    let halves = bit_and-le k (suc x / 2) (y / 2) (omega arith) in
    omega (arith, bit_and_digit (suc x) y)

-- `a & 0x0F`.
pub bit_and_fifteen : (x : ℕ) → bit_and x 15 ≡ x % 16
bit_and_fifteen x =
    let none_left = bit_and-le (x / 2 / 2 / 2 / 2) (x / 2 / 2 / 2 / 2) 0 (omega arith) in
    omega (
      arith,
      bit_and_digit (x / 2 / 2 / 2) 1,
      bit_and_digit (x / 2 / 2) 3,
      bit_and_digit (x / 2) 7,
      bit_and_digit x 15,
    )

pub differ-lt : (a b : ℕ) → a < 2 → b < 2 → differ a b < 2
differ-lt zero b h k = k
differ-lt (suc a) zero h k = h
differ-lt (suc a) (suc b) h k = differ-lt a b (omega arith) (omega arith)

-- `^` of two words of k bits is one.
pub bit_xor-lt : (k a b : ℕ) → a < 2 ^ k → b < 2 ^ k → bit_xor a b < 2 ^ k
bit_xor-lt zero a b h l = rw (eq_zero a h, zero-bit_xor) l
  where
    eq_zero : (a : ℕ) → a < 1 → a ≡ 0
    eq_zero a h = omega arith
bit_xor-lt (suc k) a b h l = omega (
  arith,
  bit_xor_step a b,
  pow-suc 2 k,
  differ-lt (a % 2) (b % 2) (omega arith) (omega arith),
  bit_xor-lt k (a / 2) (b / 2) (omega (arith, pow-suc 2 k)) (omega (arith, pow-suc 2 k)),
)
