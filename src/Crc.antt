-- ===== src/Crc.antt =====
-- crc32/crc32.c and crc32/crc32.h. The byte is read through a `char`, whose sign extension the
-- mask `& 0xFF` cuts off again, so bytes are numbers below 256 here.
mod Table
pub mod Detect
pub mod Errors
pub mod Reference
use geekchatserver.Prelude.{
  ℕ, zero, suc, ◌+◌, ◌-◌, ◌*◌, ◌/◌, ◌%◌, ◌^◌, ◌≤◌, ◌<◌, ◌≡◌, ◌≢◌, ◌↔◌, ◌⊎◌, inl, inr, refl, sym, ap,
  ap₂, ◌∙◌, ◌≡⟨◌⟩◌, ◌∎, subst, fun_ext, List, [], ◌∷◌, ◌++◌, map, append-nil, append_assoc, arith,
  bit_and, bit_xor, ◌>>>◌, bit_and_fifteen, bit_xor_step, bit_xor-lt, bit_and-le, Bytes, same,
  same_self, eq_of_same, String, codes, get_elem?, get_or, length, take, drop, length-append,
  length-take, length-drop, take-append-drop, take-append, drop-append, take_all, take_prefix,
  drop_prefix, drop_all, All, ltb, leb, if◌then◌else◌, ◌&&◌, ◌||◌, not, Bool, true, false, ◌==◌,
  ==_iff, ==_self, ltb→lt, leb→le, lt→ltb, ge→ltb, Bool-cases, Option-cases, Option, none, some,
  is_some, ℤ, pos, negsuc, neg, is_neg,
}
use Table.{crc32_tab}

abbrev pub crc32_init : ℕ
crc32_init = 0xffffffff

-- One round of the loop of `crc32_update`.
unfoldable pub crc32_step : ℕ → ℕ → ℕ
unfolding crc32_tab
crc32_step val b =
    bit_xor (get_or crc32_tab (bit_and (bit_xor val b) 0xFF) 0) (bit_and (val >>> 8) 0x00FFFFFF)

unfoldable pub crc32_update : Bytes → ℕ → ℕ
unfolding crc32_step
crc32_update [] val = val
crc32_update (b ∷ buf) val = crc32_update buf (crc32_step val b)

unfoldable pub crc32_classic : Bytes → ℕ
unfolding crc32_update
crc32_classic buf = bit_xor (crc32_update buf crc32_init) crc32_init

-- The check value of the CRC-32 of "123456789".
crc32_classic_check : crc32_classic (codes "123456789") ≡ 0xcbf43926
unfolding crc32_classic
crc32_classic_check = refl
