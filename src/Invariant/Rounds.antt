-- ===== src/Invariant/Rounds.antt =====
-- server.c: the consistency of the server outlasts every event, and every round of the loop of `main`.
use geekchatserver.Prelude.{
  ℕ, zero, suc, ◌≤◌, ◌≡◌, refl, List, [], ◌∷◌, ◌++◌, arith, Bytes, length, take, ltb, true, false,
  ◌==◌, none, some,
}
use geekchatserver.Platform.{Platform}
use geekchatserver.State.{Client, Server, M, ◌>>=◌, ◌>>◌, update, client_at, set_client}
use geekchatserver.Framing.{
  raw_packet_buffer_max, server_max_packets, next_frame, not_a_packet, crc_error, packet, Frame,
}
use geekchatserver.Server.Clients.{fd_name}
use geekchatserver.Server.Receive.{client_socket, Event, try_make_net_packet, read_room, receive}
use geekchatserver.Server.Loop.{
  Happening, connection, client_event, handle_event, handle_events, server_round, set_now,
}
use geekchatserver.Invariant.Rules.{
  Always, Always-of, Always-bind, Always-pure, Always-get, Always-deref, Always-if, Always-bool,
  Always-option,
}
use geekchatserver.Invariant.Leads.{
  Leads, Leads-of, Leads-bind, Leads-if, Leads-client_at, Leads-Always, Always→Leads, Leads→Always,
}
use geekchatserver.Invariant.Release.{Always-free_client_socket}
use geekchatserver.Packet.Dispatch.{dispatch_packet}
use geekchatserver.State.Bind.{pure_inv}
use geekchatserver.Framing.Bounds.{next_frame-lt}
use geekchatserver.Server.Reading.{chunk_fits}
use geekchatserver.Invariant.Stable.{Always-kick_client}
use geekchatserver.Invariant.Methods.{Always-dispatch_packet}
use geekchatserver.Invariant.Consistent.{
  IsConsistent, WithClient, client_edited, BearsSent-IsConsistent, IsStable-IsConsistent,
  BearsLooper-IsConsistent,
}
use geekchatserver.Invariant.Events.{Always-handle_timer_list}
use geekchatserver.Invariant.Accepting.{Always-accept_new_client}

module _ ⦃p : Platform⦄ (table : p.Map) where
  Leads-frame :
      {P Q : Server → Type 0} {A : Type 0} (frame : Frame) {m n : M A} {f : Bytes → Bytes → M A}
      → Leads P Q m
      → Leads P Q n
      → ((payload rest : Bytes) → frame ≡ packet payload rest → Leads P Q (f payload rest))
      → Leads P Q
          (elim frame [ not_a_packet ↦ m | crc_error ↦ n | packet payload rest ↦ f payload rest ])
  Leads-frame not_a_packet k l q = k
  Leads-frame crc_error k l q = l
  Leads-frame (packet payload rest) k l q = q payload rest refl

  -- The client that is read holds at most what its buffer has room for.
  Always-held :
      {A : Type 0} (c : ℕ) {f : Client → M A}
      → ((ct : Client)
          → length ct.buffer ≤ raw_packet_buffer_max
          → Leads (WithClient table c ct) (IsConsistent table) (f ct))
      → Always (IsConsistent table) (client_at c >>= f)
  Always-held c {f = f} keep = Leads→Always (
      Leads-client_at c (λ ct. record {
        leads =
            λ sv a sv' h run. (keep ct ((h.0.clients_sound c ct h.1).fits)).leads sv a sv' h run;
      }))

  -- The client has another buffer.
  Leads-refill :
      (c : ℕ) (ct : Client) (buffer : Bytes)
      → length buffer ≤ raw_packet_buffer_max
      → Leads
          (WithClient table c ct)
          (IsConsistent table)
          (set_client c (some (record ct { buffer = buffer })))
  Leads-refill c ct buffer fits =
      let ct' = record ct { buffer = buffer } in
      Leads-of (λ sv. record sv { clients = update sv.clients c (some ct') })
        (λ sv b sv' r. (pure_inv r).1)
        (λ sv h.
          client_edited table sv c ct ct' h.1 refl
            (record { fits = fits; named = (h.0.clients_sound c ct h.1).named }) h.0)

  -- What follows once the client has another buffer.
  Leads-refilled :
      (c : ℕ) (ct : Client) (buffer : Bytes) {A : Type 0} {m : M A}
      → length buffer ≤ raw_packet_buffer_max
      → Always (IsConsistent table) m
      → Leads
          (WithClient table c ct)
          (IsConsistent table)
          (set_client c (some (record ct { buffer = buffer })) >> m)
  Leads-refilled c ct buffer fits keep =
      Leads-bind (IsConsistent table) (Leads-refill c ct buffer fits) (λ _. Always→Leads keep)

  Always-dispatch :
      (c : ℕ) (payload : Bytes) → Always (IsConsistent table) (dispatch_packet c payload)
  Always-dispatch =
      Always-dispatch_packet (IsStable-IsConsistent table) (BearsSent-IsConsistent table)
        (BearsLooper-IsConsistent table)

  Always-try_make_net_packet :
      (fuel c : ℕ) → Always (IsConsistent table) (try_make_net_packet fuel c)
  unfolding try_make_net_packet
  Always-try_make_net_packet zero c = Always-pure none
  Always-try_make_net_packet (suc fuel) c =
      let again = Always-try_make_net_packet fuel c in
      Always-held c (λ ct fits.
        Leads-frame (next_frame ct.buffer) (Leads-Always (Always-pure (some true)))
          (Leads-Always (Always-pure (some false)))
          (λ payload rest e. Leads-Always (
            Always-bind (Always-dispatch c payload) (λ _. Always-held c (λ ct' _.
              Leads-refilled c ct' rest (omega (arith, fits, next_frame-lt ct.buffer e))
                (Always-bool (ltb 0 (length rest)) (Always-pure (some true)) again))))))

  Always-receive : (c : ℕ) (incoming : Bytes) → Always (IsConsistent table) (receive c incoming)
  unfolding receive
  Always-receive c incoming = Always-held c (λ ct fits.
      Leads-if (length (take (read_room ct.buffer) incoming) == 0)
        (Leads-Always (Always-free_client_socket table c))
        (Leads-refilled c ct (ct.buffer ++ take (read_room ct.buffer) incoming)
          (chunk_fits ct.buffer incoming fits)
          (Always-bind (Always-try_make_net_packet (suc server_max_packets) c) (λ ret.
            Always-bind (Always-deref ret) (λ ok.
              Always-bind (Always-kick_client (IsStable-IsConsistent table) c)
                (λ _. Always-if ok (Always-pure tt) (Always-free_client_socket table c)))))))

  Always-client_socket : (ev : Event) → Always (IsConsistent table) (client_socket ev)
  unfolding client_socket
  Always-client_socket ev = Always-bind Always-get (λ sv.
      Always-option (p.hashmap_get sv.clients_map (fd_name ev.fd)) (Always-pure tt) (λ c.
        Always-if ev.hangup (Always-free_client_socket table c)
          (Always-if ev.readable (Always-receive c ev.incoming) (Always-pure tt))))

  Always-handle_events : (evs : List Happening) → Always (IsConsistent table) (handle_events evs)
  unfolding handle_events handle_event
  Always-handle_events [] = Always-pure tt
  Always-handle_events (connection ev ∷ evs) =
      Always-bind (Always-bind (Always-accept_new_client table ev) (λ _. Always-pure tt))
        (λ _. Always-handle_events evs)
  Always-handle_events (client_event ev ∷ evs) =
      Always-bind (Always-client_socket ev) (λ _. Always-handle_events evs)

  Always-set_now : (now : ℕ) → Always (IsConsistent table) (set_now now)
  Always-set_now now =
      Always-of (λ sv. record sv { now = now }) (λ sv b sv' r. (pure_inv r).1)
        (λ sv h. record {
          timers = h.timers;
          client_timers = h.client_timers;
          clients_named = h.clients_named;
          clients_fresh = h.clients_fresh;
          clients_sound = h.clients_sound;
          methods_map = h.methods_map;
        })

  pub Always-server_round :
      (now : ℕ) (evs : List Happening) → Always (IsConsistent table) (server_round now evs)
  unfolding server_round
  Always-server_round now evs = Always-bind (Always-set_now now) (λ _.
      Always-bind (Always-handle_events evs) (λ _.
        Always-handle_timer_list (IsStable-IsConsistent table) (BearsSent-IsConsistent table)
          (Always-free_client_socket table)))

  -- The part of a round before the timers.
  pub Always-server_events :
      (now : ℕ) (evs : List Happening)
      → Always (IsConsistent table) (set_now now >> handle_events evs)
  Always-server_events now evs = Always-bind (Always-set_now now) (λ _. Always-handle_events evs)
