-- ===== src/Server/Receive.antt =====
-- server.c: `try_make_net_packet` and `client_socket`.
use geekchatserver.Prelude.{
  ℕ, zero, suc, ◌-◌, ◌++◌, Bytes, length, take, ltb, if◌then◌else◌, Bool, true, false, ◌==◌, Option,
  none, some,
}
use geekchatserver.Platform.{Platform}
use geekchatserver.State.{M, pure, ◌>>=◌, ◌>>◌, get, deref, client_at, set_client, with_timers}
use geekchatserver.Server.Clients.{free_client_socket, fd_name}
use geekchatserver.Packet.Dispatch.{dispatch_packet}
use geekchatserver.Framing.{
  not_a_packet, crc_error, packet, next_frame, head_size, server_max_packets,
}
use geekchatserver.Timer.{client_timer, kick_timer}

-- What `epoll_wait` reports for a client: its descriptor, whether EPOLLHUP or EPOLLERR is set,
-- whether EPOLLIN is, and the bytes that wait in the socket.
pub record Event : Type 0 where
  pub fd : ℕ
  pub hangup : Bool
  pub readable : Bool
  pub incoming : Bytes

-- The room that `read` is given: `sizeof(ct->buffer) - buffer_offset - sizeof(struct raw_packet_head)`.
abbrev pub read_room : Bytes → ℕ
read_room buffer = server_max_packets - length buffer - head_size

module _ ⦃p : Platform⦄ where
  -- The fuel bounds the packets that are cut out of one buffer; `none` of the result says that it
  -- ran out, `some true` is the result 0 and `some false` the result -1.
  unfoldable pub try_make_net_packet : ℕ → ℕ → M (Option Bool)
  try_make_net_packet zero c = pure none
  try_make_net_packet (suc fuel) c = do
    ct ← client_at c
    elim (next_frame ct.buffer) [
      | not_a_packet ↦ pure (some true)
      | crc_error ↦ pure (some false)
      | packet payload rest ↦ do
        ret ← dispatch_packet c payload
        ct' ← client_at c
        set_client c (some (record ct' { buffer = rest }))
        elim (ltb 0 (length rest)) [ true ↦ try_make_net_packet fuel c | false ↦ pure (some true) ]
    ]

  -- The branch of EPOLLIN: one `read`, the packets in the buffer, and the timer of the client.
  unfoldable pub receive : ℕ → Bytes → M (Unit {0})
  receive c incoming = do
    ct ← client_at c
    let chunk = take (read_room ct.buffer) incoming
    if length chunk == 0 then free_client_socket c else do
      set_client c (some (record ct { buffer = ct.buffer ++ chunk }))
      ret ← try_make_net_packet (suc server_max_packets) c
      ok ← deref ret
      with_timers (λ now ts. kick_timer now ts (client_timer c))
      if ok then pure tt else free_client_socket c

  unfoldable pub client_socket : Event → M (Unit {0})
  client_socket ev = do
    sv ← get
    elim (p.hashmap_get sv.clients_map (fd_name ev.fd)) [
      | none ↦ pure tt
      | some c ↦
          if ev.hangup
          then free_client_socket c
          else if ev.readable
          then receive c ev.incoming
          else pure tt
    ]
