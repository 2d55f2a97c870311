-- ===== src/Prelude/Swap.antt =====
-- The order of two `^` does not matter, and a number is the `^` of its low and its high bits.
use Prim.Native.Nat.{ℕ, zero, suc, ◌+◌, ◌*◌, ◌/◌, ◌%◌, ◌^◌, ◌≤◌, ◌<◌, bit_xor, differ}
use mathlib.Core.Path.{◌≡◌, refl, sym, ap, ap₂, ◌∙◌}
use native.Mathlib.Nat.{pow-suc}
use native.Mathlib.Omega.{arith}
use geekchatserver.Prelude.Bits.{bit_xor_step, zero-bit_xor}
use geekchatserver.Prelude.Xor.{low_bits, high_bits, differ_comm, bit_xor_parity, bit_xor_half}

differ_swap : (a b c : ℕ) → a < 2 → b < 2 → c < 2 → differ (differ a b) c ≡ differ (differ a c) b
differ_swap zero b c h k l = differ_comm b c
differ_swap (suc zero) zero zero h k l = refl
differ_swap (suc zero) zero (suc zero) h k l = refl
differ_swap (suc zero) zero (suc (suc c)) h k l = absurd (omega arith)
differ_swap (suc zero) (suc zero) zero h k l = refl
differ_swap (suc zero) (suc zero) (suc zero) h k l = refl
differ_swap (suc zero) (suc (suc b)) c h k l = absurd (omega arith)
differ_swap (suc zero) (suc zero) (suc (suc c)) h k l = absurd (omega arith)
differ_swap (suc (suc a)) b c h k l = absurd (omega arith)

swap_below :
    (n a b c : ℕ) → a ≤ n → b ≤ n → c ≤ n → bit_xor (bit_xor a b) c ≡ bit_xor (bit_xor a c) b
swap_below zero a b c h k l = rw (none_below a h, none_below b k, none_below c l) refl
  where
    none_below : (a : ℕ) → a ≤ 0 → a ≡ 0
    none_below a h = omega arith
swap_below (suc n) a b c h k l =
    bit_xor_step (bit_xor a b) c
    ∙ ap₂ (λ (x y : ℕ). x * 2 + y)
        (ap (λ (x : ℕ). bit_xor x (c / 2)) (bit_xor_half a b)
          ∙ swap_below n (a / 2) (b / 2) (c / 2) (omega arith) (omega arith) (omega arith)
          ∙ ap (λ (x : ℕ). bit_xor x (b / 2)) (sym (bit_xor_half a c)))
        (ap (λ (x : ℕ). differ x (c % 2)) (bit_xor_parity a b)
          ∙ differ_swap (a % 2) (b % 2) (c % 2) (omega arith) (omega arith) (omega arith)
          ∙ ap (λ (x : ℕ). differ x (b % 2)) (sym (bit_xor_parity a c)))
    ∙ sym (bit_xor_step (bit_xor a c) b)

pub bit_xor_swap : (a b c : ℕ) → bit_xor (bit_xor a b) c ≡ bit_xor (bit_xor a c) b
bit_xor_swap a b c = swap_below (a + b + c) a b c (omega arith) (omega arith) (omega arith)

-- An even number leaves the lowest digit.
pub bit_xor_even_parity : (a h : ℕ) → bit_xor a (2 * h) % 2 ≡ a % 2
bit_xor_even_parity a h =
    bit_xor_parity a (2 * h) ∙ ap (differ (a % 2)) (even h) ∙ differ_comm (a % 2) 0
  where
    even : (h : ℕ) → (2 * h) % 2 ≡ 0
    even h = omega arith

pub bit_xor_even_half : (a h : ℕ) → bit_xor a (2 * h) / 2 ≡ bit_xor (a / 2) h
bit_xor_even_half a h = bit_xor_half a (2 * h) ∙ ap (bit_xor (a / 2)) (double h)
  where
    double : (h : ℕ) → (2 * h) / 2 ≡ h
    double h = omega arith

pub power_doubled : (k n : ℕ) → 2 ^ suc k * n ≡ 2 * (2 ^ k * n)
power_doubled k n = rw (pow-suc 2 k) (grind arith)

-- A number is its low and its high bits.
pub low_high_bits : (k x : ℕ) → bit_xor (low_bits k x) (2 ^ k * high_bits k x) ≡ x
unfolding low_bits high_bits
low_high_bits zero x = zero-bit_xor (1 * x) ∙ omega arith
low_high_bits (suc k) x =
    let low = x % 2 + 2 * low_bits k (x / 2) in
    let high = 2 ^ k * high_bits k (x / 2) in
    ap (bit_xor low) (power_doubled k (high_bits k (x / 2)))
    ∙ joined (bit_xor low (2 * high)) x (bit_xor_even_parity low high ∙ low_parity) (
        bit_xor_even_half low high
        ∙ ap (λ (n : ℕ). bit_xor n high) low_half
        ∙ low_high_bits k (x / 2))
  where
    low_parity : (x % 2 + 2 * low_bits k (x / 2)) % 2 ≡ x % 2
    low_parity = omega arith

    low_half : (x % 2 + 2 * low_bits k (x / 2)) / 2 ≡ low_bits k (x / 2)
    low_half = omega arith

    joined : (n x : ℕ) → n % 2 ≡ x % 2 → n / 2 ≡ x / 2 → n ≡ x
    joined n x e f = omega arith
