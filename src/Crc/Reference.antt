-- ===== src/Crc/Reference.antt =====
-- crc32/crc32.c against the definition of CRC-32 by single bits, with the polynomial 0xEDB88320.
use geekchatserver.Prelude.{
  ℕ, zero, suc, ◌*◌, ◌/◌, ◌%◌, ◌^◌, ◌<◌, ◌≡◌, inl, inr, refl, sym, ap, ap₂, ◌∙◌, [], ◌∷◌, arith,
  bit_xor, bit_xor-zero, low_bits, high_bits_8, high_bits, low_high_bits, power_doubled,
  bit_xor_swap, bit_xor_even_parity, bit_xor_even_half, low_bits_small, high_bits_xor,
  high_bits_small, Bytes, All, if◌then◌else◌, true, ◌==◌, ==_iff, Bool-cases,
}
use geekchatserver.Crc.Table.{crc32_tab}
use geekchatserver.Crc.{crc32_step, crc32_update, crc32_classic, crc32_init}
use geekchatserver.Crc.Detect.{crc32_step-lt}
use geekchatserver.Crc.Errors.{all_below, all_below_lem, entry, index, index-lt, step_parts}

-- One bit: the lowest digit goes out, and where it was a one the polynomial is taken off.
pub bit_round : ℕ → ℕ
bit_round x = if x % 2 == 1 then bit_xor (x / 2) 0xEDB88320 else x / 2

pub bit_rounds : ℕ → ℕ → ℕ
bit_rounds zero x = x
bit_rounds (suc k) x = bit_rounds k (bit_round x)

-- A byte goes into the low digits, and eight bits go out.
pub bitwise_update : Bytes → ℕ → ℕ
bitwise_update [] val = val
bitwise_update (b ∷ buf) val = bitwise_update buf (bit_rounds 8 (bit_xor val b))

-- It starts from all ones, and all digits are turned over at the end.
pub crc32_bitwise : Bytes → ℕ
crc32_bitwise buf = bit_xor (bitwise_update buf 0xFFFFFFFF) 0xFFFFFFFF

-- What stands above the lowest digit is only shifted by a round.
round_above : (a h : ℕ) → bit_round (bit_xor a (2 * h)) ≡ bit_xor (bit_round a) h
unfolding bit_round
round_above a h = elim (Bool-cases (a % 2 == 1)) [
  | inl e ↦
      rw (bit_xor_even_parity a h, bit_xor_even_half a h, e) (bit_xor_swap (a / 2) h 0xEDB88320)
  | inr e ↦ rw (bit_xor_even_parity a h, bit_xor_even_half a h, e) refl
]

rounds_above : (k a h : ℕ) → bit_rounds k (bit_xor a (2 ^ k * h)) ≡ bit_xor (bit_rounds k a) h
unfolding bit_rounds
rounds_above zero a h = ap (bit_xor a) (once h)
  where
    once : (h : ℕ) → 2 ^ 0 * h ≡ h
    once h = omega arith
rounds_above (suc k) a h =
    ap (λ (n : ℕ). bit_rounds k (bit_round (bit_xor a n))) (power_doubled k h)
    ∙ ap (bit_rounds k) (round_above a (2 ^ k * h))
    ∙ rounds_above k (bit_round a) h

-- The table holds what eight rounds make of its index.
entries : all_below 256 (λ i. entry i == bit_rounds 8 i) ≡ true
unfolding all_below entry crc32_tab bit_rounds bit_round
entries = refl

entry_rounds : (i : ℕ) → i < 256 → entry i ≡ bit_rounds 8 i
entry_rounds i h =
    (==_iff (entry i) (bit_rounds 8 i)).0
      (all_below_lem 256 (λ i. entry i == bit_rounds 8 i) i entries h)

step_rounds : (val b : ℕ) → val < 2 ^ 32 → b < 256 → crc32_step val b ≡ bit_rounds 8 (bit_xor val b)
unfolding index
step_rounds val b h k =
    step_parts val b
    ∙ ap₂ bit_xor (entry_rounds (index val b) (index-lt val b))
        (low_bits_small 24 (val / 2 ^ 8) (omega arith) ∙ sym above)
    ∙ sym (rounds_above 8 (low_bits 8 (bit_xor val b)) (high_bits 8 (bit_xor val b)))
    ∙ ap (bit_rounds 8) (low_high_bits 8 (bit_xor val b))
  where
    above : high_bits 8 (bit_xor val b) ≡ val / 2 ^ 8
    above =
        high_bits_xor 8 val b
        ∙ ap (bit_xor (high_bits 8 val)) (high_bits_small 8 b k)
        ∙ bit_xor-zero (high_bits 8 val)
        ∙ high_bits_8 val

update_rounds :
    (buf : Bytes) (val : ℕ)
    → All (λ b. b < 256) buf
    → val < 2 ^ 32
    → crc32_update buf val ≡ bitwise_update buf val
unfolding crc32_update bitwise_update
update_rounds [] val all h = refl
update_rounds (b ∷ buf) val all h =
    update_rounds buf (crc32_step val b) all.1 (crc32_step-lt val b)
    ∙ ap (bitwise_update buf) (step_rounds val b h all.0)

-- The checksum of bytes by the table is their CRC-32 by single bits: from all ones, each byte is taken
-- into the low digits and eight times the lowest digit goes out, with the polynomial 0xEDB88320 taken
-- off where it was a one; at the end all digits are turned over.
pub crc32_classic-crc32_bitwise :
    (buf : Bytes) → All (λ b. b < 256) buf → crc32_classic buf ≡ crc32_bitwise buf
unfolding crc32_classic crc32_bitwise
crc32_classic-crc32_bitwise buf all =
    ap (λ (n : ℕ). bit_xor n 0xFFFFFFFF) (update_rounds buf crc32_init all (omega arith))
