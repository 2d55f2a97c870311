-- ===== src/Server/Damage.antt =====
-- server.c: a damaged packet on a connection.
use geekchatserver.Prelude.{
  ℕ, ◌≤◌, ◌<◌, ◌≡◌, ap, ◌∙◌, subst, List, ◌++◌, append-nil, Bytes, length, All, not, true, false,
  ◌==◌, none, some,
}
use geekchatserver.Platform.{Platform}
use geekchatserver.State.{Client, Server, ◌>>◌, with_timers}
use geekchatserver.Timer.{client_timer, kick_timer}
use geekchatserver.Server.Clients.{free_client_socket}
use geekchatserver.Framing.{raw_packet_buffer_max}
use geekchatserver.Framing.Chunks.{Split, frames, frames_error}
use geekchatserver.Framing.Roundtrip.{raw_packets, FitsLength, frames-raw_packets}
use geekchatserver.Framing.Damage.{Damaged, next_frame-Damaged}
use geekchatserver.Server.Receive.{receive}
use geekchatserver.Server.Stream.{with_buffer, Handled}
use geekchatserver.Server.Reading.{chunk_of, receive_lem, kick_then}

frames-Damaged :
    (type : ℕ) (ps : List Bytes) (payload bytes more : Bytes)
    → type < 65536
    → All FitsLength ps
    → length payload < 65536
    → Damaged type payload bytes
    → frames (raw_packets type ps ++ (bytes ++ more))
      ≡ record { packets = ps; rest = bytes ++ more; failed = true }
frames-Damaged type ps payload bytes more k fits h damaged =
    let good = frames-raw_packets type ps (bytes ++ more) k fits in
    let bad = frames_error (bytes ++ more) (next_frame-Damaged type payload more h damaged) in
    good
    ∙ ap (λ (t : Split). record { packets = ps ++ t.packets; rest = t.rest; failed = t.failed }) bad
    ∙ ap (λ (qs : List Bytes). record { packets = qs; rest = bytes ++ more; failed = true })
        (append-nil ps)

module _ ⦃p : Platform⦄ where
  -- A read after which a client's buffer holds well-formed packets and then a damaged one, with
  -- another checksum in its head or one other byte in its type or payload, if there is no fault: the
  -- packets before it are dispatched, in order, and in the state after them the buffer begins with the
  -- damaged packet. All that the read does from there is to kick the timer of the client and to free
  -- the client, so that neither the damaged packet nor anything behind it is dispatched.
  pub receive-Damaged :
      (c type : ℕ) (ps : List Bytes) (payload bytes more incoming : Bytes) (sv : Server)
      (ct : Client) (x : Unit {0}) (sv' : Server)
      → sv.clients c ≡ some ct
      → length ct.buffer ≤ raw_packet_buffer_max
      → (length (chunk_of ct.buffer incoming) == 0) ≡ false
      → type < 65536
      → All FitsLength ps
      → length payload < 65536
      → Damaged type payload bytes
      → ct.buffer ++ chunk_of ct.buffer incoming ≡ raw_packets type ps ++ (bytes ++ more)
      → receive c incoming sv ≡ some (x, sv')
      → (mid : Server) × (waiting : Client) × Handled c ps
          (with_buffer sv c ct (ct.buffer ++ chunk_of ct.buffer incoming))
          mid
        × (mid.clients c ≡ some waiting)
        × (waiting.buffer ≡ bytes ++ more)
        × ((with_timers (λ now ts. kick_timer now ts (client_timer c)) >> free_client_socket c) mid
            ≡ some (tt, sv'))
        × (sv'.clients c ≡ none)
  receive-Damaged c type ps payload bytes more incoming sv ct x sv' known bound some_bytes k fits h
        damaged held run =
      let read = receive_lem c incoming sv ct x sv' known bound some_bytes run in
      let split = ap frames held ∙ frames-Damaged type ps payload bytes more k fits h damaged in
      let start = with_buffer sv c ct (ct.buffer ++ chunk_of ct.buffer incoming) in
      (
        read.mid,
        read.waiting,
        subst (λ (s : Split). Handled c s.packets start read.mid) split read.handled,
        read.held.0,
        read.held.1 ∙ ap (λ (s : Split). s.rest) split,
        subst (λ (s : Split). kick_then c (not s.failed) read.mid ≡ some (tt, sv')) split
            read.ended,
        read.closed (ap (λ (s : Split). s.failed) split),
      )
