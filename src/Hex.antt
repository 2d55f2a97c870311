-- ===== src/Hex.antt =====
-- hex.h: `hex_to_ascii`. The buffer dump of the same file only prints.
pub mod Decode
use geekchatserver.Prelude.{
  ℕ, zero, suc, ◌+◌, ◌-◌, ◌*◌, ◌/◌, ◌%◌, ◌^◌, ◌≤◌, ◌<◌, ◌≡◌, ◌≢◌, ◌↔◌, ◌⊎◌, inl, inr, refl, sym, ap,
  ap₂, ◌∙◌, ◌≡⟨◌⟩◌, ◌∎, subst, fun_ext, List, [], ◌∷◌, ◌++◌, map, append-nil, append_assoc, arith,
  bit_and, bit_xor, ◌>>>◌, bit_and_fifteen, bit_xor_step, bit_xor-lt, bit_and-le, Bytes, same,
  same_self, eq_of_same, String, codes, get_elem?, get_or, length, take, drop, length-append,
  length-take, length-drop, take-append-drop, take-append, drop-append, take_all, take_prefix,
  drop_prefix, drop_all, All, ltb, leb, if◌then◌else◌, ◌&&◌, ◌||◌, not, Bool, true, false, ◌==◌,
  ==_iff, ==_self, ltb→lt, leb→le, lt→ltb, ge→ltb, Bool-cases, Option-cases, Option, none, some,
  is_some, ℤ, pos, negsuc, neg, is_neg,
}

abbrev numlists : Bytes
numlists = codes "0123456789ABCDEF"

-- The two characters that one byte of `src` gives.
unfoldable pub high_digit : ℕ → ℕ
high_digit b = get_or numlists (bit_and (b >>> 4) 15) 0

unfoldable pub low_digit : ℕ → ℕ
low_digit b = get_or numlists (bit_and (b >>> 0) 15) 0

-- What the loop writes to `dst`, with no terminator.
unfoldable pub hex_to_ascii : Bytes → Bytes
unfolding high_digit low_digit
hex_to_ascii [] = []
hex_to_ascii (b ∷ src) = high_digit b ∷ low_digit b ∷ hex_to_ascii src
