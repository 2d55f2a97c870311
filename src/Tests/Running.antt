-- ===== src/Tests/Running.antt =====
-- The running server: from its start through a round in which a client connects and sends, and a
-- client that has been idle.
use geekchatserver.Prelude.{
  ◌≡◌, refl, List, [], ◌∷◌, ◌++◌, arith, same, codes, get_elem?, Bool, true, false, Option, none,
  some, pos,
}
use geekchatserver.State.{Server}
use geekchatserver.Tests.Toy.{toy}
use geekchatserver.Tests.States.{start, state_of}
use geekchatserver.Crc.{crc32_classic}
use geekchatserver.Framing.{raw_packet, next_frame}
use geekchatserver.Timer.{
  client_timer, add_timer, del_timer, kick_timer, is_timer_effective, timeout_of, next_owner,
  unlink,
}
use geekchatserver.Methods.Field.{field}
use geekchatserver.Methods.Stubs.{method_com_hello_request, acknowledge}
use geekchatserver.Packet.Dispatch.{
  methods, Method, init_methods_maps, put_methods, dispatch_packet, call_method,
}
use geekchatserver.Packet.Table.{methods_table, HasRoom}
use geekchatserver.Packet.Respond.{respond_json}
use geekchatserver.Server.Clients.{
  accept_new_client, fd_name, free_client_socket, client_timeout_handler,
}
use geekchatserver.Server.Receive.{client_socket, receive, try_make_net_packet}
use geekchatserver.Server.Accepting.{accepted_fd}
use geekchatserver.Server.Loop.{
  Happening, connection, client_event, server_round, handle_event, handle_events, handle_timer_list,
  timer_loop, fire,
}
use geekchatserver.Mysql.Connection.{init_mysql}
use geekchatserver.Tokens.Pool.{init_random_pool}
use geekchatserver.Server.Main.{
  blank, init_timer, init_token, init_users_map, init_memory, init_server, Reach, booted, round,
}
use geekchatserver.Users.Refs.{is_user_bind}
use geekchatserver.Invariant.Consistent.{IsConsistent}
use geekchatserver.Invariant.Reach.{Reach-IsConsistent, reached_handler, reached_round_ends}
use geekchatserver.Invariant.Idle.{idle_client_freed}

abbrev pub flag_of : Option (Bool × Server) → Bool
flag_of none = false
flag_of (some (b, sv)) = b

abbrev pub begun : Server
begun = state_of (init_server (blank start.mysql start.random))

pub begun_reached : Reach start.mysql start.random begun
unfolding init_memory init_mysql init_random_pool init_server blank init_timer init_token
    init_users_map init_methods_maps toy start
begun_reached = booted begun (pos 0) refl refl

-- A client connects on descriptor 5 and sends a packet and three bytes more.
abbrev happenings : List Happening
happenings =
    connection (accepted_fd 5)
    ∷ client_event (record {
      fd = 5;
      hangup = false;
      readable = true;
      incoming = raw_packet 1 (codes "com.hello.request") ++ codes "abc";
    })
    ∷ []

abbrev served : Server
served = state_of (server_round 100 happenings begun)

served_run :
    server_round 100 happenings begun ≡ some (flag_of (server_round 100 happenings begun), served)
unfolding init_memory init_mysql init_random_pool init_server blank init_timer init_token
    init_users_map init_methods_maps put_methods start methods toy same server_round handle_events
    handle_event handle_timer_list timer_loop accept_new_client fd_name add_timer is_timer_effective
    client_socket receive try_make_net_packet next_frame crc32_classic raw_packet dispatch_packet
    field call_method method_com_hello_request acknowledge respond_json kick_timer timeout_of
    next_owner
served_run = refl

served_reached : Reach start.mysql start.random served
served_reached =
    round begun served 100 happenings (flag_of (server_round 100 happenings begun)) begun_reached
      served_run

Reach-IsConsistent_example : IsConsistent methods_table served
Reach-IsConsistent_example = Reach-IsConsistent start.mysql start.random served served_reached

pub toy-HasRoom : HasRoom
unfolding toy
toy-HasRoom m k v = ((k, v) ∷ m, refl)

abbrev pub hello : Method
hello = record { name = codes "com.hello.request"; handler = method_com_hello_request }

pub hello_first : get_elem? methods 0 ≡ some hello
unfolding methods
hello_first = refl

reached_handler_example :
    call_method 0 toy.json_object hello.name served
    ≡ method_com_hello_request 0 toy.json_object served
reached_handler_example =
    reached_handler start.mysql start.random served served_reached toy-HasRoom 0 hello 0
      toy.json_object hello_first

reached_round_ends_example : flag_of (server_round 100 happenings begun) ≡ true
reached_round_ends_example =
    reached_round_ends start.mysql start.random begun begun_reached 100 happenings
      (flag_of (server_round 100 happenings begun)) served served_run

-- The timer of the client at address 1 is due, that of the client at address 9 is not.
abbrev idle : Server
idle = record start {
  timers_list =
      record { owner = client_timer 1; timeout = 90; delay_sec = 60 }
      ∷ record { owner = client_timer 9; timeout = 150; delay_sec = 60 }
      ∷ [];
}

idle_run : handle_timer_list idle ≡ some (true, state_of (handle_timer_list idle))
unfolding start toy same handle_timer_list timer_loop timeout_of next_owner del_timer unlink fire
    client_timeout_handler free_client_socket is_user_bind is_timer_effective
idle_run = refl

idle_client_freed_example : (state_of (handle_timer_list idle)).clients 1 ≡ none
unfolding start
idle_client_freed_example =
    idle_client_freed 1 (record { owner = client_timer 1; timeout = 90; delay_sec = 60 })
      (record { owner = client_timer 9; timeout = 150; delay_sec = 60 } ∷ []) idle true
      (state_of (handle_timer_list idle)) refl refl (omega arith) idle_run
