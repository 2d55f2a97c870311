-- ===== src/Packet/Respond.antt =====
-- packet.c, server_errno.h: a JSON object becomes a packet on the socket of a client.
use geekchatserver.Prelude.{
  ℕ, zero, suc, ◌%◌, [], ◌∷◌, ◌++◌, Bytes, codes, take, leb, if◌then◌else◌, ℤ, pos, neg,
}
use geekchatserver.Platform.{Platform}
use geekchatserver.State.{M, pure, fault, ◌>>=◌, ◌>>◌, client_at, write_to}
use geekchatserver.Framing.{raw_packet, raw_packet_buffer_max, packet_type_unencry}

abbrev pub serr_success : ℕ
serr_success = 0x0000

abbrev pub serr_err : ℕ
serr_err = 0xFF01

abbrev pub serr_is_online : ℕ
serr_is_online = 0xFF02

abbrev pub serr_usr_not_exist : ℕ
serr_usr_not_exist = 0xFF03

abbrev pub serr_pwd_err : ℕ
serr_pwd_err = 0xFF04

abbrev pub serr_force_logout : ℕ
serr_force_logout = 0xFF05

abbrev pub serr_not_method : ℕ
serr_not_method = 0xFF06

abbrev pub serr_arg : ℕ
serr_arg = 0xFF07

unfoldable pub zeros : ℕ → Bytes
zeros zero = []
zeros (suc n) = 0 ∷ zeros n

module _ ⦃p : Platform⦄ where
  open p use {Json}

  unfoldable pub build_simplify_json : Json → Bytes → ℤ → Json
  build_simplify_json json method err =
      let bare = p.json_object_del (p.json_object_del json (codes "method")) (codes "errno") in
      let named = p.json_object_set_new bare (codes "method") (p.json_string method) in
      p.json_object_set_new named (codes "errno") (p.json_integer err)

  -- The packet in the zeroed buffer `respond` of 4096 bytes; the length goes into 16 bits. A length
  -- beyond the buffer makes the CRC and the write run over its end.
  unfoldable pub json_to_raw_packet : Json → ℕ → M Bytes
  unfolding zeros
  json_to_raw_packet json type =
      let (size, text) = p.json_dumpb json raw_packet_buffer_max in
      let packet_len = size % 65536 in
      if leb packet_len raw_packet_buffer_max
      then pure (raw_packet type (take packet_len (text ++ zeros packet_len)))
      else fault

  -- `alloc_raw_packet`, `json_to_raw_packet` and `respond_raw_packet` in a row.
  unfoldable pub respond_json : ℕ → Json → M (Unit {0})
  unfolding json_to_raw_packet
  respond_json c json = do
    ct ← client_at c
    bytes ← json_to_raw_packet json packet_type_unencry
    write_to ct.fd bytes

  -- The end of every method: the name and the code go into the answer, which is sent.
  unfoldable pub respond : ℕ → Json → Bytes → ℤ → M ℤ
  unfolding build_simplify_json respond_json
  respond c json method err = do respond_json c (build_simplify_json json method err); pure (pos 0)

  unfoldable pub respond_method_not_found : ℕ → M (Unit {0})
  unfolding build_simplify_json respond_json
  respond_method_not_found c =
      respond_json c (build_simplify_json p.json_object (codes "null") (neg serr_not_method))
