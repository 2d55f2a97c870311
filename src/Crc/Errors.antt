-- ===== src/Crc/Errors.antt =====
-- crc32/crc32.c: what the checksum tells apart.
use geekchatserver.Prelude.{
  ℕ, zero, suc, ◌+◌, ◌/◌, ◌%◌, ◌^◌, ◌<◌, ◌≡◌, refl, sym, ap, ◌∙◌, [], ◌∷◌, ◌++◌, arith, bit_xor,
  bit_xor_comm, bit_xor_cancel, bit_xor-zero, low_bits, low_bits-lt, high_bits_24, high_bits,
  low_bits_8, low_bits_cancel, low_bits_small, high_bits_xor, high_bits_small, bit_and_byte,
  bit_and_three_bytes, Bytes, get_or, if◌then◌else◌, ◌&&◌, Bool, true, ◌==◌, ==_iff,
}
use geekchatserver.Crc.Table.{crc32_tab}
use geekchatserver.Crc.Detect.{crc32_step-lt, crc32_update-lt}
use geekchatserver.Crc.{crc32_step, crc32_update, crc32_classic, crc32_init}

-- The index of the first entry whose top byte is `top`, counted from `i`.
index_of_top : ℕ → Bytes → ℕ → ℕ
index_of_top top [] i = i
index_of_top top (x ∷ xs) i =
    let later = index_of_top top xs (i + 1) in if x / 2 ^ 24 == top then i else later

unfoldable pub all_below : ℕ → (ℕ → Bool) → Bool
all_below zero p = true
all_below (suc n) p = p n && all_below n p

pub all_below_lem : (n : ℕ) (p : ℕ → Bool) (i : ℕ) → all_below n p ≡ true → i < n → p i ≡ true
unfolding all_below
all_below_lem zero p i h lt = absurd (omega arith)
all_below_lem (suc n) p i h lt = ground (arith, all_below_lem n p i)

unfoldable pub entry : ℕ → ℕ
entry i = get_or crc32_tab i 0

-- The top byte of an entry of the table gives its index.
top_bytes : all_below 256 (λ i. index_of_top (entry i / 2 ^ 24) crc32_tab 0 == i) ≡ true
unfolding all_below index_of_top entry crc32_tab
top_bytes = refl

entry_injective : (i j : ℕ) → i < 256 → j < 256 → entry i / 2 ^ 24 ≡ entry j / 2 ^ 24 → i ≡ j
entry_injective i j h k e =
    let found = λ (n : ℕ) (l : n < 256).
      (==_iff _ n).0
        (all_below_lem 256 (λ i. index_of_top (entry i / 2 ^ 24) crc32_tab 0 == i) n top_bytes l) in
    sym (found i h) ∙ ap (λ t. index_of_top t crc32_tab 0) e ∙ found j k

unfoldable pub index : ℕ → ℕ → ℕ
index val b = low_bits 8 (bit_xor val b)

pub index-lt : (val b : ℕ) → index val b < 256
unfolding index
index-lt val b = low_bits-lt 8 (bit_xor val b)

pub step_parts :
    (val b : ℕ) → crc32_step val b ≡ bit_xor (entry (index val b)) (low_bits 24 (val / 2 ^ 8))
unfolding crc32_step entry index
step_parts val b = rw (bit_and_byte (bit_xor val b), bit_and_three_bytes (val / 256)) refl

-- The shifted value has no top byte, so that of a step is that of the entry.
step_top : (val b : ℕ) → crc32_step val b / 2 ^ 24 ≡ entry (index val b) / 2 ^ 24
step_top val b =
    let t = entry (index val b) in
    let low = low_bits 24 (val / 2 ^ 8) in
    sym (high_bits_24 (crc32_step val b))
    ∙ ap (high_bits 24) (step_parts val b)
    ∙ high_bits_xor 24 t low
    ∙ ap (bit_xor (high_bits 24 t)) (high_bits_small 24 low (low_bits-lt 24 (val / 2 ^ 8)))
    ∙ bit_xor-zero (high_bits 24 t)
    ∙ high_bits_24 t

step_index :
    (val val' b b' : ℕ) → crc32_step val b ≡ crc32_step val' b' → index val b ≡ index val' b'
step_index val val' b b' e =
    entry_injective (index val b) (index val' b') (index-lt val b) (index-lt val' b')
      (sym (step_top val b) ∙ ap (λ t. t / 2 ^ 24) e ∙ step_top val' b')

-- A step can be undone.
step_value :
    (val val' b : ℕ)
    → val < 2 ^ 32
    → val' < 2 ^ 32
    → crc32_step val b ≡ crc32_step val' b
    → val ≡ val'
unfolding index
step_value val val' b h k e =
    let same_index = step_index val val' b b e in
    let low : val % 256 ≡ val' % 256 =
      sym (low_bits_8 val) ∙ low_bits_cancel 8 val val' b same_index ∙ low_bits_8 val' in
    let high =
      same_high (entry (index val b)) (val / 2 ^ 8) (val' / 2 ^ 8) (omega arith) (omega arith) (
        sym (step_parts val b)
        ∙ e
        ∙ step_parts val' b
        ∙ ap (λ i. bit_xor (entry i) (low_bits 24 (val' / 2 ^ 8))) (sym same_index)) in
    omega arith
  where
    same_high :
        (t x y : ℕ)
        → x < 2 ^ 24
        → y < 2 ^ 24
        → bit_xor t (low_bits 24 x) ≡ bit_xor t (low_bits 24 y)
        → x ≡ y
    same_high t x y h k e = bit_xor_cancel 24 x y t h k (
        bit_xor_comm x t
        ∙ ap (bit_xor t) (sym (low_bits_small 24 x h))
        ∙ e
        ∙ ap (bit_xor t) (low_bits_small 24 y k)
        ∙ bit_xor_comm t y)

step_byte : (val b b' : ℕ) → b < 256 → b' < 256 → crc32_step val b ≡ crc32_step val b' → b ≡ b'
unfolding index
step_byte val b b' h k e =
    sym (low_bits_small 8 b h)
    ∙ low_bits_cancel 8 b b' val (
        ap (low_bits 8) (bit_xor_comm b val)
        ∙ step_index val val b b' e
        ∙ ap (low_bits 8) (bit_xor_comm val b'))
    ∙ low_bits_small 8 b' k

update_value :
    (buf : Bytes) (val val' : ℕ)
    → val < 2 ^ 32
    → val' < 2 ^ 32
    → crc32_update buf val ≡ crc32_update buf val'
    → val ≡ val'
unfolding crc32_update
update_value [] val val' h k e = e
update_value (b ∷ buf) val val' h k e = step_value val val' b h k (
    update_value buf (crc32_step val b) (crc32_step val' b) (crc32_step-lt val b)
      (crc32_step-lt val' b) e)

update_byte :
    (pre post : Bytes) (val x y : ℕ)
    → x < 256
    → y < 256
    → crc32_update (pre ++ x ∷ post) val ≡ crc32_update (pre ++ y ∷ post) val
    → x ≡ y
unfolding crc32_update
update_byte [] post val x y h k e = step_byte val x y h k (
    update_value post (crc32_step val x) (crc32_step val y) (crc32_step-lt val x)
      (crc32_step-lt val y) e)
update_byte (b ∷ pre) post val x y h k e = update_byte pre post (crc32_step val b) x y h k e

-- Two texts of bytes that differ in just one place have different checksums.
pub crc32_classic_byte :
    (pre post : Bytes) (x y : ℕ)
    → x < 256
    → y < 256
    → crc32_classic (pre ++ x ∷ post) ≡ crc32_classic (pre ++ y ∷ post)
    → x ≡ y
unfolding crc32_classic
crc32_classic_byte pre post x y h k e =
    let init = crc32_init in
    let lt = λ (z : ℕ). crc32_update-lt (pre ++ z ∷ post) init (omega arith) in
    update_byte pre post init x y h k (
      bit_xor_cancel 32 (crc32_update (pre ++ x ∷ post) init) (crc32_update (pre ++ y ∷ post) init)
        init (lt x) (lt y) e)
