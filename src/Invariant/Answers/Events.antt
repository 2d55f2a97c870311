-- ===== src/Invariant/Answers/Events.antt =====
-- server.c, packet.c: a packet that arrives on a socket is answered on that socket.
use geekchatserver.Prelude.{
  ℕ, ◌^◌, ◌≤◌, ◌<◌, ◌≡◌, refl, sym, ap, ◌∙◌, subst, List, [], ◌∷◌, ◌++◌, arith, Bytes, eq_of_same,
  codes, get_elem?, length, true, false, ◌==◌, some, ℤ,
}
use geekchatserver.Platform.{Platform}
use mathlib.Core.Option.{some-injective}
use geekchatserver.State.{Client, Server}
use geekchatserver.State.Bind.{update_self}
use geekchatserver.Framing.{packet, next_frame}
use geekchatserver.Framing.Bounds.{next_frame-lt}
use geekchatserver.Framing.Chunks.{Split, frames, frames_packet, frames_waiting}
use geekchatserver.Framing.Cut.{next_frame_short}
use geekchatserver.Methods.Field.{field}
use geekchatserver.Packet.Dispatch.{methods, Method, call_method, dispatch_packet}
use geekchatserver.Packet.Table.{HasRoom, methods_table}
use geekchatserver.Server.Clients.{fd_name}
use geekchatserver.Server.Names.{fd_name-injective}
use geekchatserver.Server.Main.{Reach}
use geekchatserver.Server.Receive.{client_socket, Event, receive}
use geekchatserver.Server.Reading.{chunk_of, receive_lem, WasRead}
use geekchatserver.Server.Stream.{with_buffer, Handled}
use geekchatserver.Invariant.Consistent.{IsConsistent}
use geekchatserver.Invariant.Sound.{Each}
use geekchatserver.Invariant.Reach.{Reach-IsConsistent}
use geekchatserver.Invariant.Answers.Requests.{request-Answered, is_answered, passed_on}

module _ ⦃p : Platform⦄ where
  -- The descriptors of the clients are not negative as an `int`.
  abbrev pub HasInts : Server → Type 0
  HasInts sv = Each (λ ct. ct.fd < 2 ^ 31) sv.clients

  -- The client that the name of a descriptor leads to is the one of that descriptor.
  found_by_fd :
      (table : p.Map) (sv : Server)
      → IsConsistent table sv
      → HasInts sv
      → (fd c : ℕ) (ct : Client) → fd < 2 ^ 31
      → p.hashmap_get sv.clients_map (fd_name fd) ≡ some c
      → sv.clients c ≡ some ct
      → ct.fd ≡ fd
  found_by_fd table sv h ints fd c ct small found known =
      let (t, there, label) = h.clients_named (fd_name fd) c found in
      let equal : t ≡ ct = some-injective t ct (sym there ∙ known) in
      fd_name-injective ct.fd fd (ints c ct known) small (
        sym (h.clients_sound c ct known).named
        ∙ ap (λ (x : Client). x.name) (sym equal)
        ∙ eq_of_same t.name (fd_name fd) label)

  one_packet :
      (buf payload : Bytes)
      → next_frame buf ≡ packet payload []
      → frames buf ≡ record { packets = payload ∷ []; rest = []; failed = false }
  unfolding frames
  one_packet buf payload e =
      frames_packet buf payload [] e (next_frame-lt buf e)
      ∙ rw (frames_waiting [] (next_frame_short [] (omega arith))) refl

  dispatch_run :
      (c : ℕ) (payload method : Bytes) (json : p.Json) (sv : Server)
      → p.json_loadb payload ≡ some json
      → field json (codes "method") ≡ some method
      → dispatch_packet c payload sv ≡ call_method c json method sv
  unfolding dispatch_packet
  dispatch_run c payload method json sv loaded named = rw (loaded, named, dispatch_packet) refl

  receiving_run :
      (ev : Event) (c : ℕ) (sv : Server)
      → ev.hangup ≡ false
      → ev.readable ≡ true
      → p.hashmap_get sv.clients_map (fd_name ev.fd) ≡ some c
      → client_socket ev sv ≡ receive c ev.incoming sv
  unfolding client_socket
  receiving_run ev c sv up ready found = rw (found, up, ready) refl

  -- The one packet of a stream that was read.
  handled_one :
      (c : ℕ) (payload stream : Bytes) (sv sv' : Server)
      → next_frame stream ≡ packet payload []
      → WasRead c stream sv sv'
      → (ret : ℤ) × (mid : Server) × (dispatch_packet c payload sv ≡ some (ret, mid))
        × (sv'.sent ≡ mid.sent)
  handled_one c payload stream sv sv' e read =
      let split = one_packet stream payload e in
      let (ret, mid, ct, rest, ran, _, moved) =
        subst (λ (s : Split). Handled c s.packets sv read.mid) split read.handled in
      (
        ret,
        mid,
        ran,
        read.silent (ap (λ (s : Split). s.failed) split) ∙ ap (λ (t : Server). t.sent) (sym moved),
      )

  -- In every state that the server reaches, where the map had memory for every method and the
  -- descriptors are not negative as an `int`: the socket of a client is readable, and what is read
  -- makes the bytes that waited in the buffer one packet, a request for a method of the table other
  -- than the one that acknowledges a message. If there is no fault, the request is answered: the
  -- newest packet that has been sent then is on the descriptor of the event, and it is the only one
  -- that has been sent, but for the request to send a message, which may have passed the message on
  -- in one packet before.
  pub reached_request_answered :
      (mysql : p.Conn) (random : p.Rand) (sv : Server)
      → Reach mysql random sv
      → HasRoom
      → HasInts sv
      → (ev : Event) (c : ℕ) (ct : Client) → ev.hangup ≡ false
      → ev.readable ≡ true
      → ev.fd < 2 ^ 31
      → p.hashmap_get sv.clients_map (fd_name ev.fd) ≡ some c
      → sv.clients c ≡ some ct
      → (length (chunk_of ct.buffer ev.incoming) == 0) ≡ false
      → (payload : Bytes) (json : p.Json) (i : ℕ) (x : Method)
      → next_frame (ct.buffer ++ chunk_of ct.buffer ev.incoming) ≡ packet payload []
      → p.json_loadb payload ≡ some json
      → get_elem? methods i ≡ some x
      → field json (codes "method") ≡ some x.name
      → is_answered x.name ≡ true
      → (u : Unit {0}) (sv' : Server) → client_socket ev sv ≡ some (u, sv')
      → (answer : Bytes) × (others : List (ℕ × Bytes)) × (sv'.sent
          ≡ (ev.fd, answer) ∷ others ++ sv.sent)
        × (length others ≤ passed_on x.name)
  reached_request_answered mysql random sv reach room ints ev c ct up ready small found known
        some_bytes payload json i x whole loaded e named expects u sv' run =
      let h = Reach-IsConsistent mysql random sv reach in
      let buffer = ct.buffer ++ chunk_of ct.buffer ev.incoming in
      let filled = record ct { buffer = buffer } in
      let here = with_buffer sv c ct buffer in
      let read =
        receive_lem c ev.incoming sv ct u sv' known (h.clients_sound c ct known).fits some_bytes
          (sym (receiving_run ev c sv up ready found) ∙ run) in
      let (ret, mid, ran, silent) = handled_one c payload buffer here sv' whole read in
      let (answer, others, sent, few) =
        (request-Answered here h.methods_map room i x c filled json e expects
          (update_self sv.clients c (some filled)) ret mid
          (sym (dispatch_run c payload x.name json here loaded named) ∙ ran)).answer in
      let on = found_by_fd methods_table sv h ints ev.fd c ct small found known in
      (answer, others, silent ∙ sent ∙ ap (λ (fd : ℕ). (fd, answer) ∷ others ++ sv.sent) on, few)
