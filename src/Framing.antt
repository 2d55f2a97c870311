-- ===== src/Framing.antt =====
-- packet.h and the framing half of server.c and packet.c: how packets lie in a byte stream, and how
-- `try_make_net_packet` cuts them out again. A `struct raw_packet` is read and written through a
-- cast of the buffer; integers are little-endian, as on the machines that the server runs on.
pub mod Cut
pub mod Chunks
pub mod Roundtrip
pub mod Bounds
pub mod Damage
use geekchatserver.Prelude.{
  ℕ, zero, suc, ◌+◌, ◌-◌, ◌*◌, ◌/◌, ◌%◌, ◌^◌, ◌≤◌, ◌<◌, ◌≡◌, ◌≢◌, ◌↔◌, ◌⊎◌, inl, inr, refl, sym, ap,
  ap₂, ◌∙◌, ◌≡⟨◌⟩◌, ◌∎, subst, fun_ext, List, [], ◌∷◌, ◌++◌, map, append-nil, append_assoc, arith,
  bit_and, bit_xor, ◌>>>◌, bit_and_fifteen, bit_xor_step, bit_xor-lt, bit_and-le, Bytes, same,
  same_self, eq_of_same, String, codes, get_elem?, get_or, length, take, drop, length-append,
  length-take, length-drop, take-append-drop, take-append, drop-append, take_all, take_prefix,
  drop_prefix, drop_all, All, ltb, leb, if◌then◌else◌, ◌&&◌, ◌||◌, not, Bool, true, false, ◌==◌,
  ==_iff, ==_self, ltb→lt, leb→le, lt→ltb, ge→ltb, Bool-cases, Option-cases, Option, none, some,
  is_some, ℤ, pos, negsuc, neg, is_neg,
}
use geekchatserver.Crc.{crc32_classic}

abbrev pub server_max_packets : ℕ
server_max_packets = 4096

-- `sizeof(struct raw_packet_head)`: 4 bytes of CRC, 2 of length, 2 of type.
abbrev pub head_size : ℕ
head_size = 8

-- `sizeof(struct crc32_raw_packet)`: where the data under the CRC begins.
abbrev pub crc_size : ℕ
crc_size = 4

abbrev pub raw_packet_buffer_max : ℕ
raw_packet_buffer_max = server_max_packets - head_size

abbrev pub packet_type_unencry : ℕ
packet_type_unencry = 1

pub record RawPacketHead : Type 0 where
  pub crc32 : ℕ
  pub packet_len : ℕ
  pub type : ℕ

-- A field of 2 or 4 bytes at an offset.
unfoldable pub read16 : Bytes → ℕ → ℕ
read16 buf i = get_or buf i 0 + 256 * get_or buf (i + 1) 0

unfoldable pub read32 : Bytes → ℕ → ℕ
unfolding read16
read32 buf i = read16 buf i + 65536 * read16 buf (i + 2)

unfoldable pub write16 : ℕ → Bytes
write16 n = (n % 256) ∷ (n / 256 % 256) ∷ []

unfoldable pub write32 : ℕ → Bytes
unfolding write16
write32 n = write16 n ++ write16 (n / 65536)

unfoldable pub read_head : Bytes → RawPacketHead
unfolding read32
read_head buf = record { crc32 = read32 buf 0; packet_len = read16 buf 4; type = read16 buf 6 }

unfoldable pub sizeof_raw_packet : RawPacketHead → ℕ
sizeof_raw_packet head = head_size + head.packet_len

-- The bytes that a sender writes for a payload: the length goes into 16 bits, and the CRC covers
-- all that follows it.
unfoldable pub raw_packet : ℕ → Bytes → Bytes
unfolding write32 write16
raw_packet type payload =
    let tail = write16 (length payload) ++ (write16 type ++ payload) in
    write32 (crc32_classic tail) ++ tail

-- One round of `try_make_net_packet` on the bytes that the buffer holds.
pub data Frame : Type 0 where
  not_a_packet : Frame
  crc_error : Frame
  packet : Bytes → Bytes → Frame

unfoldable pub next_frame : Bytes → Frame
unfolding read_head sizeof_raw_packet
next_frame buf =
    if ltb (length buf) head_size
    then not_a_packet
    else let size = sizeof_raw_packet (read_head buf) in
      if ltb (length buf) size
      then not_a_packet
      else if crc32_classic (take (size - crc_size) (drop crc_size buf)) == (read_head buf).crc32
      then packet (take (size - head_size) (drop head_size buf)) (drop size buf)
      else crc_error
