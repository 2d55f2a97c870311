-- ===== src/Framing/Roundtrip.antt =====
-- server.c and packet.c: a packet that was built is cut out again.
use geekchatserver.Prelude.{
  ℕ, suc, ◌+◌, ◌-◌, ◌*◌, ◌/◌, ◌%◌, ◌^◌, ◌<◌, ◌≡◌, refl, sym, ap, ap₂, ◌∙◌, List, [], ◌∷◌, ◌++◌,
  append_assoc, arith, Bytes, length, take, drop, length-append, take_prefix, drop_prefix, All,
  if◌then◌else◌, ◌==◌, ==_iff,
}
use geekchatserver.Crc.{crc32_classic}
use geekchatserver.Crc.Detect.{crc32_classic-lt}
use geekchatserver.Framing.{
  head_size, crc_size, RawPacketHead, read16, read32, write16, write32, read_head,
  sizeof_raw_packet, crc_error, packet, next_frame, raw_packet,
}
use geekchatserver.Framing.Cut.{next_frame_whole}
use geekchatserver.Framing.Chunks.{Split, frames, frames_packet}

abbrev pub tail_of : ℕ → Bytes → Bytes
tail_of type payload = write16 (length payload) ++ (write16 type ++ payload)

module _ (c l t : ℕ) (body : Bytes) (hc : c < 2 ^ 32) (hl : l < 65536) (ht : t < 65536) where
  read_head-words :
      read_head (write32 c ++ (write16 l ++ (write16 t ++ body)))
      ≡ record { crc32 = c; packet_len = l; type = t }
  unfolding read_head read32 read16 write32 write16
  read_head-words = λ i. record { crc32 = crc i; packet_len = len i; type = typ i }
    where
      crc :
          c % 256
            + 256 * (c / 256 % 256)
            + 65536 * (c / 65536 % 256 + 256 * (c / 65536 / 256 % 256))
          ≡ c
      crc = omega arith

      len : l % 256 + 256 * (l / 256 % 256) ≡ l
      len = omega arith

      typ : t % 256 + 256 * (t / 256 % 256) ≡ t
      typ = omega arith

if_match :
    (a b : ℕ) {body body' rest rest' : Bytes}
    → a ≡ b
    → body ≡ body'
    → rest ≡ rest'
    → (if a == b then packet body rest else crc_error) ≡ packet body' rest'
if_match a b e p q = rw ((==_iff a b).1 e) (ap₂ packet p q)

abbrev packet_head : ℕ → Bytes → RawPacketHead
packet_head type payload = record {
  crc32 = crc32_classic (tail_of type payload);
  packet_len = length payload;
  type = type;
}

module _ (type : ℕ) (payload more : Bytes) (h : length payload < 65536) (k : type < 65536) where
  -- The head that a receiver reads off a packet.
  pub read_head-raw_packet : read_head (raw_packet type payload ++ more) ≡ packet_head type payload
  unfolding raw_packet write32 write16
  read_head-raw_packet =
      read_head-words (crc32_classic (tail_of type payload)) (length payload) type (payload ++ more)
        (crc32_classic-lt (tail_of type payload)) h k

  length-raw_packet :
      length (raw_packet type payload ++ more) ≡ head_size + length payload + length more
  unfolding raw_packet write32 write16
  length-raw_packet = omega (arith, length-append payload more)

  size_of-raw_packet :
      sizeof_raw_packet (read_head (raw_packet type payload ++ more)) ≡ head_size + length payload
  unfolding sizeof_raw_packet
  size_of-raw_packet = rw read_head-raw_packet

  crc_matches-raw_packet :
      (n : ℕ)
      → n ≡ head_size + length payload
      → take (n - crc_size) (drop crc_size (raw_packet type payload ++ more)) ≡ tail_of type payload
  unfolding raw_packet write32 write16
  crc_matches-raw_packet n e = rw (eq n e) (take_prefix (tail_of type payload) more)
    where
      eq : (n : ℕ) → n ≡ head_size + length payload → n - 4 ≡ length (tail_of type payload)
      eq n e = omega arith

  body_of-raw_packet :
      (n : ℕ)
      → n ≡ head_size + length payload
      → take (n - head_size) (drop head_size (raw_packet type payload ++ more)) ≡ payload
  unfolding raw_packet write32 write16
  body_of-raw_packet n e = rw (eq n e) (take_prefix payload more)
    where
      eq : (n : ℕ) → n ≡ head_size + length payload → n - 8 ≡ length payload
      eq n e = omega arith

  rest-raw_packet :
      (n : ℕ) → n ≡ head_size + length payload → drop n (raw_packet type payload ++ more) ≡ more
  unfolding raw_packet write32 write16
  rest-raw_packet n e = rw (eq n e) (drop_prefix payload more)
    where
      eq :
          (n : ℕ)
          → n ≡ head_size + length payload
          → n ≡ suc (suc (suc (suc (suc (suc (suc (suc (length payload))))))))
      eq n e = omega arith

  -- What a sender wrote, a receiver cuts out: its payload, and no byte of what follows. The
  -- payload must fit the 16 bits of the length, and the type its own 16 bits.
  pub next_frame-raw_packet : next_frame (raw_packet type payload ++ more) ≡ packet payload more
  next_frame-raw_packet =
      let buf = raw_packet type payload ++ more in
      let size = size_of-raw_packet in
      let n = sizeof_raw_packet (read_head buf) in
      next_frame_whole buf (omega (arith, length-raw_packet))
        (omega (arith, length-raw_packet, size))
      ∙ if_match (crc32_classic (take (n - crc_size) (drop crc_size buf))) (read_head buf).crc32
          (ap crc32_classic (crc_matches-raw_packet n size)
            ∙ sym (ap (λ (t : RawPacketHead). t.crc32) read_head-raw_packet))
          (body_of-raw_packet n size) (rest-raw_packet n size)

-- Packets on the wire, one behind the other.
abbrev pub raw_packets : ℕ → List Bytes → Bytes
raw_packets type [] = []
raw_packets type (p ∷ ps) = raw_packet type p ++ raw_packets type ps

abbrev pub FitsLength : Bytes → Type 0
FitsLength payload = length payload < 65536

-- A stream of well-formed packets, with anything behind it, is handed on packet by packet, in
-- order and each once; what lies behind is then treated as if it stood alone.
pub frames-raw_packets :
    (type : ℕ) (ps : List Bytes) (more : Bytes)
    → type < 65536
    → All FitsLength ps
    → frames (raw_packets type ps ++ more) ≡ record {
      packets = ps ++ (frames more).packets;
      rest = (frames more).rest;
      failed = (frames more).failed;
    }
frames-raw_packets type [] more k h = refl
frames-raw_packets type (p ∷ ps) more k h =
    ap frames (append_assoc (raw_packet type p) (raw_packets type ps) more)
    ∙ frames_packet (raw_packet type p ++ (raw_packets type ps ++ more)) p
        (raw_packets type ps ++ more)
        (next_frame-raw_packet type p (raw_packets type ps ++ more) h.0 k)
        (omega (arith, length-raw_packet type p (raw_packets type ps ++ more) h.0 k))
    ∙ ap (λ (t : Split). record { packets = p ∷ t.packets; rest = t.rest; failed = t.failed })
        (frames-raw_packets type ps more k h.1)
