-- ===== src/Server/Reading.antt =====
-- server.c: what a readable connection leaves behind: its packets are handled, and the rest of its
-- bytes stays in the buffer, within its bound, or the connection is freed.
use geekchatserver.Prelude.{
  ℕ, suc, ◌≤◌, ◌≡◌, refl, sym, ap, ◌∙◌, subst, ◌++◌, arith, Bytes, length, take, length-append,
  length-take, if◌then◌else◌, ◌&&◌, ◌||◌, not, Bool, true, false, ◌==◌, Option, none, some,
}
use geekchatserver.Platform.{Platform}
use geekchatserver.State.{
  Client, Server, M, pure, ◌>>=◌, ◌>>◌, get, deref, when, client_at, set_client, set_clients_map,
  with_timers,
}
use geekchatserver.State.Bind.{bind_inv, pure_inv, with_timers_inv, update_self}
use geekchatserver.Timer.{client_timer, kick_timer, is_timer_effective, del_timer}
use geekchatserver.Framing.{server_max_packets, raw_packet_buffer_max}
use geekchatserver.Framing.Chunks.{frames}
use geekchatserver.Framing.Bounds.{rest-frames-le}
use geekchatserver.Users.Refs.{unbind_user, is_user_bind}
use geekchatserver.Server.Clients.{fd_name, free_client_socket}
use geekchatserver.Server.Receive.{client_socket, Event, try_make_net_packet, read_room, receive}
use geekchatserver.Server.Stream.{with_buffer, Handled, try_make-frames}

module _ ⦃p : Platform⦄ where
  -- Whatever a command starts from, it ends with the memory of the client freed.
  pub record Frees (c : ℕ) {A : Type 0} (m : M A) : Type 0 where
    pub freed : (sv : Server) (x : A) (sv' : Server) → m sv ≡ some (x, sv') → sv'.clients c ≡ none

  pub Frees-bind :
      {c : ℕ} {A B : Type 0} (m : M A) {f : A → M B} → ((a : A) → Frees c (f a)) → Frees c (m >>= f)
  Frees-bind m {f} after = record {
    freed = λ sv x sv' h. let (a, mid, _, run) = bind_inv m f sv h in (after a).freed mid x sv' run;
  }

  Frees-set_client : (c : ℕ) → Frees c (set_client c none)
  Frees-set_client c = record {
    freed = λ sv x sv' h.
        ap (λ (t : Server). t.clients c) (sym (pure_inv h).1) ∙ update_self sv.clients c none;
  }

  pub free_client_socket-Frees : (c : ℕ) → Frees c (free_client_socket c)
  unfolding free_client_socket
  free_client_socket-Frees c = Frees-bind (client_at c) (λ ct. Frees-bind get (λ sv.
      Frees-bind (set_clients_map (p.hashmap_remove sv.clients_map ct.name).1) (λ _.
        Frees-bind (is_user_bind ct.usr) (λ bound. Frees-bind (pure ct.usr) (λ usr.
          Frees-bind (when bound (deref usr >>= unbind_user)) (λ _. Frees-bind get (λ sv'.
            Frees-bind
              (when (is_timer_effective sv'.timers_list (client_timer c))
                (with_timers (λ now ts. del_timer ts (client_timer c))))
              (λ _. Frees-set_client c))))))))

  -- The bytes that one `read` adds.
  abbrev pub chunk_of : Bytes → Bytes → Bytes
  chunk_of buffer incoming = take (read_room buffer) incoming

  -- The end of `client_socket`, with the result of `try_make_net_packet`.
  abbrev pub kick : ℕ → M (Unit {0})
  kick c = with_timers (λ now ts. kick_timer now ts (client_timer c))

  abbrev pub keep_or_free : ℕ → Bool → M (Unit {0})
  keep_or_free c ok = if ok then pure tt else free_client_socket c

  abbrev pub kick_then : ℕ → Bool → M (Unit {0})
  kick_then c ok = kick c >> keep_or_free c ok

  -- `client_socket` after `read` has filled the buffer.
  after_read : ℕ → M (Unit {0})
  after_read c = do
    ret ← try_make_net_packet (suc server_max_packets) c
    ok ← deref ret
    kick_then c ok

  kicked_keeps :
      (c : ℕ) (ok : Bool) (sv : Server) (x : Unit {0}) (sv' : Server) {ct : Client}
      → sv.clients c ≡ some ct
      → ok ≡ true
      → kick_then c ok sv ≡ some (x, sv')
      → sv'.clients c ≡ some ct
  kicked_keeps c false sv x sv' known e run = cc
  kicked_keeps c true sv x sv' known e run =
      let (y, mid, h, r) = bind_inv (kick c) (λ _. pure tt) sv run in
      let (ts, same_else) =
        with_timers_inv (λ now ts. kick_timer now ts (client_timer c)) sv y mid h in
      ap (λ (t : Server). t.clients c) (sym (pure_inv r).1 ∙ same_else) ∙ known

  kicked_silent :
      (c : ℕ) (ok : Bool) (sv : Server) (x : Unit {0}) (sv' : Server)
      → ok ≡ true
      → kick_then c ok sv ≡ some (x, sv')
      → sv'.sent ≡ sv.sent
  kicked_silent c false sv x sv' e run = cc
  kicked_silent c true sv x sv' e run =
      let (y, mid, h, r) = bind_inv (kick c) (λ _. pure tt) sv run in
      let (ts, same_else) =
        with_timers_inv (λ now ts. kick_timer now ts (client_timer c)) sv y mid h in
      ap (λ (t : Server). t.sent) (sym (pure_inv r).1 ∙ same_else)

  kicked_frees :
      (c : ℕ) (ok : Bool) (sv : Server) (x : Unit {0}) (sv' : Server)
      → ok ≡ false
      → kick_then c ok sv ≡ some (x, sv')
      → sv'.clients c ≡ none
  kicked_frees c true sv x sv' e run = cc
  kicked_frees c false sv x sv' e run =
      (Frees-bind (kick c) (λ _. free_client_socket-Frees c)).freed sv x sv' run

  receive_reads :
      (c : ℕ) (incoming : Bytes) (sv : Server) {ct : Client}
      → sv.clients c ≡ some ct
      → (length (chunk_of ct.buffer incoming) == 0) ≡ false
      → receive c incoming sv
        ≡ after_read c (with_buffer sv c ct (ct.buffer ++ chunk_of ct.buffer incoming))
  unfolding receive after_read
  receive_reads c incoming sv known h = ground arith

  -- What a read leaves behind, for the bytes that the buffer held then.
  pub record WasRead (c : ℕ) (stream : Bytes) (sv sv' : Server) : Type 0 where
    pub mid : Server
    pub handled : Handled c (frames stream).packets sv mid
    pub waiting : Client
    pub held : (mid.clients c ≡ some waiting) × (waiting.buffer ≡ (frames stream).rest)
    pub ended : kick_then c (not (frames stream).failed) mid ≡ some (tt, sv')
    pub kept :
        (frames stream).failed ≡ false
        → (ct : Client) × (sv'.clients c ≡ some ct)
          × (ct.buffer ≡ (frames stream).rest)
          × (length ct.buffer ≤ raw_packet_buffer_max)
    pub silent : (frames stream).failed ≡ false → sv'.sent ≡ mid.sent
    pub closed : (frames stream).failed ≡ true → sv'.clients c ≡ none

  pub chunk_fits :
      (buffer incoming : Bytes)
      → length buffer ≤ raw_packet_buffer_max
      → length (buffer ++ chunk_of buffer incoming) ≤ raw_packet_buffer_max
  chunk_fits buffer incoming h = omega (
    arith,
    length-append buffer (chunk_of buffer incoming),
    length-take (read_room buffer) incoming,
  )

  after_read_lem :
      (c : ℕ) (sv : Server) (ct : Client) (x : Unit {0}) (sv' : Server)
      → sv.clients c ≡ some ct
      → length ct.buffer ≤ raw_packet_buffer_max
      → after_read c sv ≡ some (x, sv')
      → WasRead c ct.buffer sv sv'
  unfolding after_read
  after_read_lem c sv ct x sv' known h run =
      let s = frames ct.buffer in
      let (ret, mid, h1, r1) =
        bind_inv (try_make_net_packet (suc server_max_packets) c)
          (λ ret. deref ret >>= λ ok. kick_then c ok) sv run in
      let parsed =
        try_make-frames (suc server_max_packets) c sv ct ret mid known (omega arith) h1 in
      let end : kick_then c (not s.failed) mid ≡ some (x, sv') =
        subst (λ (t : Option Bool). (deref t >>= λ ok. kick_then c ok) mid ≡ some (x, sv'))
          parsed.result r1 in
      record {
        mid = mid;
        handled = parsed.handled;
        waiting = parsed.after;
        held = (parsed.alive, parsed.kept);
        ended = end;
        kept = λ good. (
          parsed.after,
          kicked_keeps c (not s.failed) mid x sv' parsed.alive (rw good refl) end,
          parsed.kept,
          omega (arith, rest-frames-le ct.buffer, ap length parsed.kept),
        );
        silent = λ good. kicked_silent c (not s.failed) mid x sv' (rw good refl) end;
        closed = λ bad. kicked_frees c (not s.failed) mid x sv' (rw bad refl) end;
      }

  -- A readable connection whose buffer is within its bound, and that sends something: if there is
  -- no fault, the packets in the buffer and the new bytes are dispatched in order; then, with no
  -- bad CRC, the rest stays in the buffer of the connection, within the bound again, and nothing is
  -- sent after the packets, and with one, the connection is freed. All that is done after the packets
  -- is to kick the timer of the connection and, with a bad CRC, to free it. The fuel of `try_make_net_packet` is enough.
  pub receive_lem :
      (c : ℕ) (incoming : Bytes) (sv : Server) (ct : Client) (x : Unit {0}) (sv' : Server)
      → sv.clients c ≡ some ct
      → length ct.buffer ≤ raw_packet_buffer_max
      → (length (chunk_of ct.buffer incoming) == 0) ≡ false
      → receive c incoming sv ≡ some (x, sv')
      → WasRead c
          (ct.buffer ++ chunk_of ct.buffer incoming)
          (with_buffer sv c ct (ct.buffer ++ chunk_of ct.buffer incoming))
          sv'
  receive_lem c incoming sv ct x sv' known h some_bytes run =
      let buffer = ct.buffer ++ chunk_of ct.buffer incoming in
      after_read_lem c (with_buffer sv c ct buffer) (record ct { buffer = buffer }) x sv'
        (update_self sv.clients c (some (record ct { buffer = buffer })))
        (chunk_fits ct.buffer incoming h) (sym (receive_reads c incoming sv known some_bytes) ∙ run)

  -- The connection is closed, or there is nothing to read, or no room to read it.
  abbrev pub closes : Event → Client → Bool
  closes ev ct = ev.hangup || (ev.readable && (length (chunk_of ct.buffer ev.incoming) == 0))

  closing_run :
      (ev : Event) (c : ℕ) (sv : Server) {ct : Client}
      → p.hashmap_get sv.clients_map (fd_name ev.fd) ≡ some c
      → sv.clients c ≡ some ct
      → closes ev ct ≡ true
      → client_socket ev sv ≡ free_client_socket c sv
  unfolding client_socket receive
  closing_run ev c sv found known e = ground arith

  -- A client that is found by its descriptor and whose connection is reported as hung up, or as
  -- readable where the read gives no bytes (because none wait or the buffer has no room), is freed,
  -- if there is no fault.
  pub client_socket-closes :
      (ev : Event) (c : ℕ) (sv : Server) (ct : Client) (x : Unit {0}) (sv' : Server)
      → p.hashmap_get sv.clients_map (fd_name ev.fd) ≡ some c
      → sv.clients c ≡ some ct
      → closes ev ct ≡ true
      → client_socket ev sv ≡ some (x, sv')
      → sv'.clients c ≡ none
  client_socket-closes ev c sv ct x sv' found known e run =
      (free_client_socket-Frees c).freed sv x sv' (sym (closing_run ev c sv found known e) ∙ run)
