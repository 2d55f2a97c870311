-- ===== src/Client/Packets.antt =====
-- client.c: packets that are sent and received.
use geekchatserver.Prelude.{
  ℕ, ◌+◌, ◌-◌, ◌%◌, ◌∷◌, Bytes, length, take, drop, ltb, leb, if◌then◌else◌, not, Option, none,
  some, ℤ, pos, negsuc, is_neg,
}
use geekchatserver.Platform.{Platform}
use geekchatserver.Client.{
  packet_buffer_size, C, pure, fault, ◌>>=◌, ◌>>◌, get, modify, read_socket, overwrite, add_size,
  sub_size,
}
use geekchatserver.Framing.{
  head_size, raw_packet_buffer_max, packet_type_unencry, raw_packet, read_head, sizeof_raw_packet,
}

module _ ⦃p : Platform⦄ where
  -- The text goes behind the head in `send_buffer`, where older bytes stand behind it.
  unfoldable pub send_json_object : p.Json → C (Unit {0})
  send_json_object json = do
    ct ← get
    let (size, text) = p.json_dumpb json raw_packet_buffer_max
    let packet_len = size % 65536
    let body = overwrite text (drop head_size ct.send_buffer)
    let bytes = raw_packet packet_type_unencry (take packet_len body)
    if not (leb packet_len raw_packet_buffer_max)
        then fault
        else modify (λ c. record c {
          send_buffer = overwrite bytes ct.send_buffer;
          written = bytes ∷ ct.written;
        })

  -- The result of `read` is written over the start of the buffer, whatever `recv_offset` says.
  unfoldable pub recv_buffer : C ℤ
  unfolding add_size
  recv_buffer = do
    ret ← read_socket
    elim ret [
      | none ↦ pure (negsuc 0)
      | some bytes ↦ do
        modify (λ ct. record ct {
          recv_buffer = overwrite bytes ct.recv_buffer;
          recv_offset = add_size ct.recv_offset (length bytes);
        })
        pure (pos (length bytes))
    ]

  -- The JSON is `none` where `*json` is left as it was. The length in the head is not tested against
  -- what was read; a packet beyond the buffer is read out of bounds.
  unfoldable pub recv_json_object : C (ℤ × Option p.Json)
  unfolding recv_buffer sub_size
  recv_json_object = do
    ret ← recv_buffer
    ct ← get
    let len = (read_head ct.recv_buffer).packet_len
    if is_neg ret
        then pure (negsuc 0, none)
        else if not (leb (head_size + len) packet_buffer_size)
        then fault
        else elim (p.json_loadb (take len (drop head_size ct.recv_buffer))) [
          | none ↦ pure (negsuc 0, none)
          | some json ↦ do
            modify (λ c. record c { recv_offset = sub_size ct.recv_offset (head_size + len) })
            pure (ret, some json)
        ]

  -- `memcpy(buf, buf + size, n)`, as a move of overlapping bytes.
  abbrev pub move_down : Bytes → ℕ → ℕ → Bytes
  move_down buffer size n = overwrite (take n (drop size buffer)) buffer

  -- What is done with a whole packet at the start of the buffer. The result is 0 also when the
  -- payload is no JSON; then the packet stays.
  unfoldable pub take_json : ℕ → ℕ → C (ℤ × Option p.Json)
  take_json n packet_size = do
    ct ← get
    if not (leb packet_size packet_buffer_size)
        then fault
        else elim (p.json_loadb (take (packet_size - head_size) (drop head_size ct.recv_buffer))) [
          | none ↦ pure (pos 0, none)
          | some json ↦ if not (leb n packet_buffer_size) then fault else do
            modify (λ c. record c {
              recv_offset = pos (n - packet_size);
              recv_buffer = move_down ct.recv_buffer packet_size (n - packet_size);
            })
            pure (pos 0, some json)
        ]

  -- A negative offset passes the first test, whose comparison is unsigned, and fails the second.
  unfoldable pub fetch_json : C (ℤ × Option p.Json)
  unfolding sizeof_raw_packet take_json
  fetch_json = do
    ct ← get
    elim ct.recv_offset [
      | negsuc m ↦ pure (negsuc 0, none)
      | pos n ↦
          if ltb n head_size
          then pure (negsuc 0, none)
          else let packet_size = sizeof_raw_packet (read_head ct.recv_buffer) in
            if ltb n packet_size then pure (negsuc 0, none) else take_json n packet_size
    ]
