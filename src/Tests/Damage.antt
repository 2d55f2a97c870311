-- ===== src/Tests/Damage.antt =====
-- Damaged packets on a connection.
use geekchatserver.Prelude.{◌≡◌, refl, [], ◌∷◌, ◌++◌, arith, Bytes, same, codes, length, none, some}
use geekchatserver.State.{Client, Server, update}
use geekchatserver.Timer.{del_timer, unlink, is_timer_effective, kick_timer, client_timer}
use geekchatserver.Tests.Toy.{toy}
use geekchatserver.Tests.States.{some_client, start, state_of}
use geekchatserver.Crc.{crc32_classic}
use geekchatserver.Framing.{raw_packet, next_frame, write16, write32}
use geekchatserver.Framing.Roundtrip.{tail_of}
use geekchatserver.Framing.Damage.{Damaged, byte}
use geekchatserver.Methods.Field.{field}
use geekchatserver.Packet.Dispatch.{dispatch_packet, call_method}
use geekchatserver.Packet.Respond.{respond_method_not_found}
use geekchatserver.Users.Refs.{is_user_bind}
use geekchatserver.State.{with_timers, ◌>>◌}
use geekchatserver.Server.Clients.{free_client_socket}
use geekchatserver.Server.Receive.{try_make_net_packet, receive}
use geekchatserver.Server.Stream.{with_buffer, Handled}
use geekchatserver.Server.Damage.{receive-Damaged}

abbrev quiet_client : Client
quiet_client = record some_client { buffer = [] }

-- A client that holds no bytes, with its timer.
abbrev quiet : Server
quiet = record start {
  clients = update (λ b. none) 1 (some quiet_client);
  timers_list = record { owner = client_timer 1; timeout = 1900; delay_sec = 1800 } ∷ [];
}

-- The packet of "ask", of which "axk" arrived.
abbrev damaged : Bytes
damaged =
    write32 (crc32_classic (tail_of 1 (codes "ask")))
    ++ (write16 (length (codes "ask")) ++ ((1 ∷ 0 ∷ b'a' ∷ []) ++ b'x' ∷ codes "k"))

damaged-Damaged : Damaged 1 (codes "ask") damaged
unfolding write16
damaged-Damaged =
    byte (1 ∷ 0 ∷ b'a' ∷ []) (codes "k") b's' b'x' (omega arith) (omega arith) (omega arith) refl

abbrev incoming : Bytes
incoming = (raw_packet 1 (codes "x") ++ []) ++ (damaged ++ codes "abc")

abbrev after_damage : Server
after_damage = state_of (receive 1 incoming quiet)

received : receive 1 incoming quiet ≡ some (tt, after_damage)
unfolding start toy same crc32_classic receive try_make_net_packet next_frame raw_packet
    dispatch_packet field call_method respond_method_not_found kick_timer free_client_socket
    is_timer_effective del_timer unlink is_user_bind write16 write32
received = refl

receive-Damaged_example :
    (mid : Server) × (waiting : Client) × Handled 1
      (codes "x" ∷ [])
      (with_buffer quiet 1 quiet_client incoming)
      mid
    × (mid.clients 1 ≡ some waiting)
    × (waiting.buffer ≡ damaged ++ codes "abc")
    × ((with_timers (λ now ts. kick_timer now ts (client_timer 1)) >> free_client_socket 1) mid
        ≡ some (tt, after_damage))
    × (after_damage.clients 1 ≡ none)
unfolding raw_packet crc32_classic write16 write32
receive-Damaged_example =
    receive-Damaged 1 1 (codes "x" ∷ []) (codes "ask") damaged (codes "abc") incoming quiet
      quiet_client tt after_damage refl (omega arith) refl (omega arith) (omega arith) (omega arith)
      damaged-Damaged refl received
