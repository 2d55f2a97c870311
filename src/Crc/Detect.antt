-- ===== src/Crc/Detect.antt =====
-- crc32/crc32.c: the checksum is a 32-bit word.
use geekchatserver.Prelude.{
  ℕ, zero, suc, ◌^◌, ◌<◌, ◌≡◌, refl, [], ◌∷◌, arith, bit_and, bit_xor, ◌>>>◌, bit_xor-lt,
  bit_and-le, Bytes, get_or, ltb, ◌&&◌, Bool, true,
}
use geekchatserver.Crc.Table.{crc32_tab}
use geekchatserver.Crc.{crc32_step, crc32_update, crc32_classic, crc32_init}

all_lt : ℕ → Bytes → Bool
all_lt n [] = true
all_lt n (x ∷ xs) = ltb x n && all_lt n xs

get_or-lt : (n : ℕ) (xs : Bytes) (i : ℕ) → all_lt n xs ≡ true → 0 < n → get_or xs i 0 < n
unfolding all_lt
get_or-lt n [] i h p = p
get_or-lt n (x ∷ xs) zero h p = ground arith
get_or-lt n (x ∷ xs) (suc i) h p = ground (arith, get_or-lt n xs i)

crc32_tab-lt : all_lt (2 ^ 32) crc32_tab ≡ true
unfolding all_lt crc32_tab
crc32_tab-lt = refl

pub crc32_entry-lt : (i : ℕ) → get_or crc32_tab i 0 < 2 ^ 32
crc32_entry-lt i = get_or-lt (2 ^ 32) crc32_tab i crc32_tab-lt (omega arith)

pub crc32_step-lt : (val b : ℕ) → crc32_step val b < 2 ^ 32
unfolding crc32_step
crc32_step-lt val b =
    let i = bit_and (bit_xor val b) 255 in
    let high = bit_and (val >>> 8) 0x00FFFFFF in
    bit_xor-lt 32 (get_or crc32_tab i 0) high (crc32_entry-lt i)
      (omega (arith, bit_and-le (val >>> 8) (val >>> 8) 0x00FFFFFF (omega arith)))

pub crc32_update-lt : (buf : Bytes) (val : ℕ) → val < 2 ^ 32 → crc32_update buf val < 2 ^ 32
unfolding crc32_update
crc32_update-lt [] val h = h
crc32_update-lt (b ∷ buf) val h = crc32_update-lt buf (crc32_step val b) (crc32_step-lt val b)

-- The checksum fits the 32-bit field of the packet head.
pub crc32_classic-lt : (buf : Bytes) → crc32_classic buf < 2 ^ 32
unfolding crc32_classic
crc32_classic-lt buf =
    bit_xor-lt 32 (crc32_update buf crc32_init) crc32_init
      (crc32_update-lt buf crc32_init (omega arith)) (omega arith)
