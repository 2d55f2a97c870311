-- ===== src/Tests/Requests.antt =====
-- Concrete runs: the answer to a request that arrives in two parts.
use geekchatserver.Prelude.{
  ℕ, ◌^◌, ◌≤◌, ◌<◌, ◌≡◌, refl, sym, subst, List, [], ◌∷◌, ◌++◌, arith, Bytes, same, codes, length,
  take, drop, All, true, false, Option, none, some, negsuc, neg,
}
use geekchatserver.Packet.Wire.{Fits, not_found, wire, text_of}
use geekchatserver.Framing.{packet}
use geekchatserver.Invariant.Answers.Unknown.{reached_unknown_answered}
use geekchatserver.State.{Server}
use geekchatserver.Tests.Toy.{toy}
use geekchatserver.Tests.States.{start, state_of}
use geekchatserver.Crc.{crc32_classic}
use geekchatserver.Framing.{raw_packet, next_frame}
use geekchatserver.Timer.{add_timer, kick_timer, is_timer_effective, timeout_of, next_owner}
use geekchatserver.Methods.Field.{field}
use geekchatserver.Methods.Stubs.{method_com_hello_request, acknowledge}
use geekchatserver.Packet.Dispatch.{
  Method, methods, init_methods_maps, put_methods, dispatch_packet, call_method,
}
use geekchatserver.Packet.Respond.{respond_json}
use geekchatserver.Server.Clients.{accept_new_client, fd_name}
use geekchatserver.Server.Receive.{client_socket, receive, try_make_net_packet}
use geekchatserver.Server.Accepting.{accepted_fd}
use geekchatserver.Server.Loop.{
  Happening, connection, client_event, server_round, handle_event, handle_events, handle_timer_list,
  timer_loop,
}
use geekchatserver.Mysql.Connection.{init_mysql}
use geekchatserver.Tokens.Pool.{init_random_pool}
use geekchatserver.Server.Main.{
  blank, init_timer, init_token, init_users_map, init_memory, init_server, Reach, round,
}
use geekchatserver.Tests.Toy.{toy}
use geekchatserver.Tests.Running.{begun, begun_reached, toy-HasRoom, hello, hello_first, flag_of}
use geekchatserver.Invariant.Sound.{Each, Each-set}
use geekchatserver.Invariant.Answers.Requests.{passed_on}
use geekchatserver.Invariant.Answers.Events.{HasInts, reached_request_answered}
use geekchatserver.Server.Receive.{Event}
use geekchatserver.Server.Clients.{new_client}
use geekchatserver.State.{Client, update}

abbrev request : Bytes
request = raw_packet 1 (codes "com.hello.request")

-- A client connects on descriptor 5 and sends the first four bytes of a packet.
abbrev first_part : List Happening
first_part =
    connection (accepted_fd 5)
    ∷ client_event (record { fd = 5; hangup = false; readable = true; incoming = take 4 request })
    ∷ []

abbrev halfway : Server
halfway = state_of (server_round 100 first_part begun)

abbrev waiting_client : Client
waiting_client = record (new_client 5 (codes "5")) { buffer = take 4 request }

halfway_run :
    server_round 100 first_part begun ≡ some (flag_of (server_round 100 first_part begun), halfway)
unfolding init_memory init_mysql init_random_pool init_server blank init_timer init_token
    init_users_map init_methods_maps put_methods start methods toy same server_round handle_events
    handle_event handle_timer_list timer_loop accept_new_client fd_name add_timer is_timer_effective
    client_socket receive try_make_net_packet next_frame crc32_classic raw_packet dispatch_packet
    field call_method method_com_hello_request acknowledge respond_json kick_timer timeout_of
    next_owner
halfway_run = refl

halfway_reached : Reach start.mysql start.random halfway
halfway_reached =
    round begun halfway 100 first_part (flag_of (server_round 100 first_part begun)) begun_reached
      halfway_run

halfway_clients :
    halfway.clients
    ≡ update (update (λ c. none) 0 (some (new_client 5 (codes "5")))) 0 (some waiting_client)
unfolding init_memory init_mysql init_random_pool init_server blank init_timer init_token
    init_users_map init_methods_maps put_methods start methods toy same server_round handle_events
    handle_event handle_timer_list timer_loop accept_new_client fd_name add_timer is_timer_effective
    client_socket receive try_make_net_packet next_frame crc32_classic raw_packet dispatch_packet
    field call_method method_com_hello_request acknowledge respond_json kick_timer timeout_of
    next_owner
halfway_clients = refl

halfway-HasInts : HasInts halfway
halfway-HasInts =
    subst (λ (clients : ℕ → Option Client). Each (λ ct. ct.fd < 2 ^ 31) clients)
      (sym halfway_clients)
      (Each-set (update (λ c. none) 0 (some (new_client 5 (codes "5"))))
        (Each-set (λ c. none) (λ c ct e. absurd (nobody e)) 0 (new_client 5 (codes "5"))
          (omega arith))
        0 waiting_client (omega arith))
  where
    nobody : {ct : Client} → none ≡ some ct → ⊥
    nobody e = cc

-- The rest of the packet.
abbrev second_part : Event
second_part = record { fd = 5; hangup = false; readable = true; incoming = drop 4 request }

abbrev answered : Server
answered = state_of (client_socket second_part halfway)

answered_run : client_socket second_part halfway ≡ some (tt, answered)
unfolding init_memory init_mysql init_random_pool init_server blank init_timer init_token
    init_users_map init_methods_maps put_methods start methods toy same server_round handle_events
    handle_event handle_timer_list timer_loop accept_new_client fd_name add_timer is_timer_effective
    client_socket receive try_make_net_packet next_frame crc32_classic raw_packet dispatch_packet
    field call_method method_com_hello_request acknowledge respond_json kick_timer timeout_of
    next_owner
answered_run = refl

found_waiting : toy.hashmap_get halfway.clients_map (fd_name 5) ≡ some 0
unfolding init_memory init_mysql init_random_pool init_server blank init_timer init_token
    init_users_map init_methods_maps put_methods start methods toy same server_round handle_events
    handle_event handle_timer_list timer_loop accept_new_client fd_name add_timer is_timer_effective
    client_socket receive try_make_net_packet next_frame crc32_classic raw_packet dispatch_packet
    field call_method method_com_hello_request acknowledge respond_json kick_timer timeout_of
    next_owner
found_waiting = refl

has_waiting : halfway.clients 0 ≡ some waiting_client
unfolding init_memory init_mysql init_random_pool init_server blank init_timer init_token
    init_users_map init_methods_maps put_methods start methods toy same server_round handle_events
    handle_event handle_timer_list timer_loop accept_new_client fd_name add_timer is_timer_effective
    client_socket receive try_make_net_packet next_frame crc32_classic raw_packet dispatch_packet
    field call_method method_com_hello_request acknowledge respond_json kick_timer timeout_of
    next_owner
has_waiting = refl

abbrev hello_json : toy.Json
hello_json =
    toy.json_object_set_new toy.json_object (codes "method")
      (toy.json_string (codes "com.hello.request"))

loaded : toy.json_loadb (codes "com.hello.request") ≡ some hello_json
unfolding toy same
loaded = refl

method_named : field hello_json (codes "method") ≡ some hello.name
unfolding toy field same
method_named = refl

reached_request_answered_example :
    (answer : Bytes) × (others : List (ℕ × Bytes)) × (answered.sent
      ≡ (5, answer) ∷ others ++ halfway.sent)
    × (length others ≤ passed_on hello.name)
unfolding raw_packet next_frame crc32_classic same
reached_request_answered_example =
    reached_request_answered start.mysql start.random halfway halfway_reached toy-HasRoom
      halfway-HasInts second_part 0 waiting_client refl refl (omega arith) found_waiting has_waiting
      refl (codes "com.hello.request") hello_json 0 hello refl loaded hello_first method_named refl
      tt answered answered_run

-- A packet that names the method "x".
abbrev odd_json : toy.Json
odd_json = toy.json_object_set_new toy.json_object (codes "method") (toy.json_string (codes "x"))

odd_loaded : toy.json_loadb (codes "x") ≡ some odd_json
unfolding toy same
odd_loaded = refl

odd_named : field odd_json (codes "method") ≡ some (codes "x")
unfolding toy field same
odd_named = refl

no_entry : All (λ (m : Method). same m.name (codes "x") ≡ false) methods
unfolding methods same
no_entry = ground arith

small : Fits not_found
unfolding toy
small = omega arith

reached_unknown_answered_example :
    (answer : toy.Json) × (toy.json_object_get answer (codes "errno")
      ≡ some (toy.json_integer (neg 0xFF06)))
    × (toy.json_object_get answer (codes "method") ≡ some (toy.json_string (codes "null")))
    × ((k : Bytes)
        → same (codes "errno") k ≡ false
        → same (codes "method") k ≡ false
        → toy.json_object_get answer k ≡ toy.json_object_get toy.json_object k)
    × (dispatch_packet 0 (codes "x") halfway
        ≡ some (negsuc 0, record halfway { sent = (5, wire answer) ∷ halfway.sent }))
    × (next_frame (wire answer) ≡ packet (text_of answer) [])
reached_unknown_answered_example =
    reached_unknown_answered start.mysql start.random halfway halfway_reached 0 waiting_client
      has_waiting (codes "x") odd_json (codes "x") odd_loaded odd_named no_entry small
