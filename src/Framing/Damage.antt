-- ===== src/Framing/Damage.antt =====
-- server.c, crc32/crc32.c: a packet that was damaged on its way.
use geekchatserver.Prelude.{
  ℕ, suc, ◌+◌, ◌-◌, ◌^◌, ◌<◌, ◌≡◌, ◌≢◌, inl, inr, refl, sym, ap, ◌∙◌, [], ◌∷◌, ◌++◌, append_assoc,
  arith, Bytes, length, take, drop, length-append, take_prefix, if◌then◌else◌, ◌==◌, ==_iff,
  Bool-cases,
}
use geekchatserver.Crc.{crc32_classic}
use geekchatserver.Crc.Detect.{crc32_classic-lt}
use geekchatserver.Crc.Errors.{crc32_classic_byte}
use geekchatserver.Framing.{
  head_size, crc_size, read16, read32, write16, write32, read_head, sizeof_raw_packet, crc_error,
  next_frame,
}
use geekchatserver.Framing.Cut.{next_frame_whole, size_of}
use geekchatserver.Framing.Roundtrip.{tail_of}

ne_of_mismatch : {A : Type 0} (a b : ℕ) (x y : A) → a ≢ b → (if a == b then x else y) ≡ y
ne_of_mismatch a b x y h = elim (Bool-cases (a == b)) [
  | inl e ↦ absurd (h ((==_iff a b).0 e))
  | inr e ↦ rw e refl
]

-- A checksum, a length, and as many bytes as the length and the type need.
module _ (c l a b : ℕ) (body more : Bytes) (hc : c < 2 ^ 32) (hl : l < 65536)
    (whole : length body ≡ l) where
  abbrev stream : Bytes
  stream = write32 c ++ (write16 l ++ (a ∷ b ∷ (body ++ more)))

  head_crc32 : (read_head stream).crc32 ≡ c
  unfolding read_head read32 read16 write32 write16
  head_crc32 = omega arith

  head_size_of : size_of stream ≡ head_size + l
  unfolding read_head read32 read16 write32 write16 sizeof_raw_packet
  head_size_of = omega arith

  length-stream : length stream ≡ head_size + l + length more
  unfolding write32 write16
  length-stream = omega (arith, length-append body more)

  under_crc :
      (n : ℕ)
      → n ≡ head_size + l
      → take (n - crc_size) (drop crc_size stream) ≡ write16 l ++ (a ∷ b ∷ body)
  unfolding write32 write16
  under_crc n e = rw (eq n e) (take_prefix (write16 l ++ (a ∷ b ∷ body)) more)
    where
      eq : (n : ℕ) → n ≡ head_size + l → n - 4 ≡ suc (suc (suc (suc (length body))))
      eq n e = omega arith

  -- A checksum that is not that of the bytes behind it.
  next_frame-mismatch :
      c ≢ crc32_classic (write16 l ++ (a ∷ b ∷ body)) → next_frame stream ≡ crc_error
  next_frame-mismatch wrong =
      next_frame_whole stream (omega (arith, length-stream))
        (omega (arith, length-stream, head_size_of))
      ∙ ne_of_mismatch _ _ _ _ (λ e.
        wrong (sym head_crc32 ∙ sym e ∙ ap crc32_classic (under_crc (size_of stream) head_size_of)))

-- The same, where the bytes after the length are not taken apart.
refused :
    (c l : ℕ) (after more : Bytes)
    → c < 2 ^ 32
    → l < 65536
    → length after ≡ l + 2
    → c ≢ crc32_classic (write16 l ++ after)
    → next_frame (write32 c ++ (write16 l ++ (after ++ more))) ≡ crc_error
refused c l [] more hc hl whole wrong = absurd (omega arith)
refused c l (a ∷ []) more hc hl whole wrong = absurd (omega arith)
refused c l (a ∷ b ∷ body) more hc hl whole wrong =
    next_frame-mismatch c l a b body more hc hl (omega arith) wrong

length-write16 : (n : ℕ) → length (write16 n) ≡ 2
unfolding write16
length-write16 n = refl

-- What a packet may have become on its way: another checksum in its head, or one other byte in its
-- type or its payload.
pub data Damaged (type : ℕ) (payload : Bytes) : Bytes → Type 0 where
  checksum :
      (c : ℕ)
      → c < 2 ^ 32
      → c ≢ crc32_classic (tail_of type payload)
      → Damaged type payload (write32 c ++ tail_of type payload)
  byte :
      (pre post : Bytes) (x y : ℕ)
      → x < 256
      → y < 256
      → x ≢ y
      → write16 type ++ payload ≡ pre ++ x ∷ post
      → Damaged type payload (
          write32 (crc32_classic (tail_of type payload))
          ++ (write16 (length payload) ++ (pre ++ y ∷ post)))

-- Whatever follows it, a damaged packet is found to be so.
pub next_frame-Damaged :
    (type : ℕ) (payload more : Bytes) {bytes : Bytes}
    → length payload < 65536
    → Damaged type payload bytes
    → next_frame (bytes ++ more) ≡ crc_error
next_frame-Damaged type payload more h (checksum c hc wrong) =
    ap next_frame (regroup (write32 c) (write16 (length payload)) (write16 type ++ payload))
    ∙ refused c (length payload) (write16 type ++ payload) more hc h
        (omega (arith, length-append (write16 type) payload, length-write16 type)) wrong
  where
    regroup : (u v w : Bytes) → (u ++ (v ++ w)) ++ more ≡ u ++ (v ++ (w ++ more))
    regroup u v w = append_assoc u (v ++ w) more ∙ ap (λ t. u ++ t) (append_assoc v w more)
next_frame-Damaged type payload more h (byte pre post x y hx hy differ split) =
    ap next_frame (regroup (write32 c) len (pre ++ y ∷ post))
    ∙ refused c (length payload) (pre ++ y ∷ post) more (crc32_classic-lt (tail_of type payload)) h
        same_length (λ e. differ (crc32_classic_byte (len ++ pre) post x y hx hy (other e)))
  where
    c : ℕ
    c = crc32_classic (tail_of type payload)

    len : Bytes
    len = write16 (length payload)

    regroup : (u v w : Bytes) → (u ++ (v ++ w)) ++ more ≡ u ++ (v ++ (w ++ more))
    regroup u v w = append_assoc u (v ++ w) more ∙ ap (λ t. u ++ t) (append_assoc v w more)

    same_length : length (pre ++ y ∷ post) ≡ length payload + 2
    same_length = omega (
      arith,
      length-append pre (y ∷ post),
      length-append pre (x ∷ post),
      length-append (write16 type) payload,
      length-write16 type,
      ap length split,
    )

    other :
        crc32_classic (tail_of type payload) ≡ crc32_classic (len ++ (pre ++ y ∷ post))
        → crc32_classic ((len ++ pre) ++ x ∷ post) ≡ crc32_classic ((len ++ pre) ++ y ∷ post)
    other e =
        ap crc32_classic (append_assoc len pre (x ∷ post))
        ∙ ap (λ t. crc32_classic (len ++ t)) (sym split)
        ∙ e
        ∙ ap crc32_classic (sym (append_assoc len pre (y ∷ post)))
