-- ===== src/Hex/Decode.antt =====
-- hex.h: what `hex_to_ascii` writes, read back by an independent decoder.
use geekchatserver.Prelude.{
  ℕ, zero, suc, ◌+◌, ◌-◌, ◌*◌, ◌/◌, ◌%◌, ◌<◌, ◌≡◌, refl, ap, [], ◌∷◌, arith, Bytes, length, All,
  leb, if◌then◌else◌, ◌&&◌, Bool, true, false, ◌==◌, ==_iff, Option, none, some,
}
use geekchatserver.Hex.{hex_to_ascii, high_digit, low_digit}

-- The value of an upper-case hexadecimal digit.
unfoldable pub digit_value : ℕ → Option ℕ
digit_value c =
    if leb b'0' c && leb c b'9'
    then some (c - b'0')
    else if leb b'A' c && leb c b'F'
    then some (c - b'A' + 10)
    else none

abbrev pair_digits : Option ℕ → Option ℕ → Option Bytes → Option Bytes
pair_digits (some h) (some l) (some rest) = some ((h * 16 + l) ∷ rest)
pair_digits _ _ _ = none

-- Two digits make a byte; anything else is no encoding.
unfoldable pub ascii_to_hex : Bytes → Option Bytes
unfolding digit_value
ascii_to_hex [] = some []
ascii_to_hex (h ∷ []) = none
ascii_to_hex (h ∷ l ∷ rest) = pair_digits (digit_value h) (digit_value l) (ascii_to_hex rest)

abbrev is_value : Option ℕ → ℕ → Bool
is_value none v = false
is_value (some w) v = w == v

is_value-eq : (o : Option ℕ) (v : ℕ) → is_value o v ≡ true → o ≡ some v
is_value-eq none v h = cc
is_value-eq (some w) v h = ap some ((==_iff w v).0 h)

-- A digit that `hex_to_ascii` computes from a byte has the value that it stands for: checked at
-- each byte below a bound.
module _ (digit value : ℕ → ℕ) where
  agree : ℕ → Bool
  agree zero = true
  agree (suc bound) = agree bound && is_value (digit_value (digit bound)) (value bound)

  agree-digit_value :
      (b bound : ℕ)
      → b < bound
      → agree bound ≡ true
      → is_value (digit_value (digit b)) (value b) ≡ true
  unfolding agree
  agree-digit_value b zero below checked = absurd (omega arith)
  agree-digit_value b (suc bound) below checked = ground (arith, agree-digit_value b bound)

high_table : agree high_digit (λ b. b / 16) 256 ≡ true
unfolding agree digit_value high_digit
high_table = refl

low_table : agree low_digit (λ b. b % 16) 256 ≡ true
unfolding agree digit_value low_digit
low_table = refl

abbrev pub IsByte : ℕ → Type 0
IsByte b = b < 256

digit_value-high_digit : (b : ℕ) → IsByte b → digit_value (high_digit b) ≡ some (b / 16)
digit_value-high_digit b h =
    is_value-eq (digit_value (high_digit b)) (b / 16)
      (agree-digit_value high_digit (λ b. b / 16) b 256 h high_table)

digit_value-low_digit : (b : ℕ) → IsByte b → digit_value (low_digit b) ≡ some (b % 16)
digit_value-low_digit b h =
    is_value-eq (digit_value (low_digit b)) (b % 16)
      (agree-digit_value low_digit (λ b. b % 16) b 256 h low_table)

-- Decoding what the server encoded gives the raw bytes back, so no two raw tokens, seeds or
-- digests of bytes share a text.
pub ascii_to_hex-hex_to_ascii :
    (src : Bytes) → All IsByte src → ascii_to_hex (hex_to_ascii src) ≡ some src
unfolding hex_to_ascii ascii_to_hex
ascii_to_hex-hex_to_ascii [] h = refl
ascii_to_hex-hex_to_ascii (b ∷ src) h =
    rw
      (digit_value-high_digit b h.0, digit_value-low_digit b h.0, ascii_to_hex-hex_to_ascii src h.1)
      (ap (λ (t : ℕ). some (t ∷ src)) (omega arith))

pub hex_to_ascii-injective :
    (xs ys : Bytes) → All IsByte xs → All IsByte ys → hex_to_ascii xs ≡ hex_to_ascii ys → xs ≡ ys
hex_to_ascii-injective xs ys p q e =
    cc (ascii_to_hex-hex_to_ascii xs p, ascii_to_hex-hex_to_ascii ys q, ap ascii_to_hex e)

-- Each byte takes two characters: 16 random bytes fill the 32 characters of a token.
pub length-hex_to_ascii : (src : Bytes) → length (hex_to_ascii src) ≡ 2 * length src
unfolding hex_to_ascii
length-hex_to_ascii [] = refl
length-hex_to_ascii (b ∷ src) = omega (arith, length-hex_to_ascii src)
