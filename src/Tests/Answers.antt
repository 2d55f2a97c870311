-- ===== src/Tests/Answers.antt =====
-- Answers, tokens and reads at concrete states of the server.
use geekchatserver.Prelude.{
  ℕ, ◌≡◌, refl, [], ◌∷◌, ◌++◌, arith, same, codes, true, false, ◌==◌, none, some, pos,
}
use geekchatserver.State.{Server, inc}
use geekchatserver.Timer.{del_timer, unlink, is_timer_effective, add_timer}
use geekchatserver.Tests.Toy.{toy}
use geekchatserver.Tests.States.{some_user, some_client, start, state_of}
use geekchatserver.Crc.{crc32_classic}
use geekchatserver.Timer.{kick_timer, client_timer}
use geekchatserver.Framing.{raw_packet, next_frame}
use geekchatserver.Methods.Field.{field}
use geekchatserver.Packet.Dispatch.{dispatch_packet, call_method}
use geekchatserver.Packet.Respond.{respond_method_not_found}
use geekchatserver.Server.Receive.{client_socket, Event, try_make_net_packet, receive}
use geekchatserver.Server.Stream.{with_buffer}
use geekchatserver.Server.Reading.{client_socket-closes, receive_lem, WasRead, chunk_of}
use geekchatserver.Tokens.Registry.{try_effect_token}
use geekchatserver.Tokens.Auth.{get_usr_by_token}
use geekchatserver.State.{null, User, update}
use geekchatserver.Server.Clients.{free_client_socket, accept_new_client, fd_name}
use geekchatserver.Server.Accepting.{accept_new_client_lem, accepted_fd, IsAccepted}
use geekchatserver.Users.Load.{user_memory_free_handler}
use geekchatserver.Users.Refs.{is_user_bind, bind_user_to_client}
use geekchatserver.Users.Rebind.{bind_user_to_client_twice}
use geekchatserver.Users.Expiry.{user_memory_free_handler_lem}
use geekchatserver.Tokens.Lookup.{try_effect_token-get_usr_by_token}

has_user : start.users 2 ≡ some some_user
unfolding start
has_user = refl

-- The user has no token in the database.
try_effect_token-get_usr_by_token_example :
    (sv' : Server) × (sv'' : Server) × (try_effect_token 2 start ≡ some (pos 0, sv'))
    × (get_usr_by_token 1 [] sv' ≡ some ((pos 0, some 2), sv''))
    × (sv''.users 2 ≡ some (record some_user { use_cnt = inc (inc some_user.use_cnt) }))
unfolding toy start same
try_effect_token-get_usr_by_token_example =
    try_effect_token-get_usr_by_token 2 1 start some_user (([], 2) ∷ []) has_user refl refl

-- The client has a timer, as each connection has.
abbrev ticking : Server
ticking = record start {
  timers_list = record { owner = client_timer 1; timeout = 1900; delay_sec = 1800 } ∷ [];
}

abbrev after_receive : Server
after_receive = state_of (receive 1 (codes "d") ticking)

received : receive 1 (codes "d") ticking ≡ some (tt, after_receive)
unfolding start toy same crc32_classic receive try_make_net_packet next_frame raw_packet
    dispatch_packet field call_method respond_method_not_found kick_timer
received = refl

has_ticking : ticking.clients 1 ≡ some some_client
unfolding start
has_ticking = refl

receive_lem_example :
    WasRead 1
      (some_client.buffer ++ chunk_of some_client.buffer (codes "d"))
      (with_buffer ticking 1 some_client
        (some_client.buffer ++ chunk_of some_client.buffer (codes "d")))
      after_receive
unfolding raw_packet
receive_lem_example =
    receive_lem 1 (codes "d") ticking some_client tt after_receive has_ticking (omega arith) refl
      received

free_name : toy.hashmap_get start.clients_map (fd_name 7) ≡ none
unfolding start toy same fd_name
free_name = refl

accept_new_client_lem_example :
    (sv' : Server) × (accept_new_client (accepted_fd 7) start ≡ some (true, sv'))
    × IsAccepted 7 start.mallocs start sv'
unfolding start toy is_timer_effective
accept_new_client_lem_example =
    accept_new_client_lem 7 start
      ((fd_name 7, 3) ∷ (toy.hashmap_remove start.clients_map (fd_name 7)).1) refl free_name refl tt
      refl

-- A user that the cache and its token refer to.
abbrev idle_user : User
idle_user = record some_user {
  token = codes "T";
  friends = record { is_inited = false; num_of_friends = 0; buffer = null };
}

unfoldable idle : Server
unfolding toy start
idle = record start {
  users = update start.users 2 (some idle_user);
  tokens_map = (codes "T", 2) ∷ [];
}

has_idle : idle.users 2 ≡ some idle_user
unfolding idle
has_idle = refl

token_known : toy.hashmap_get idle.tokens_map idle_user.token ≡ some 2
unfolding idle same
token_known = refl

user_memory_free_handler_lem_example :
    (sv' : Server) × (user_memory_free_handler 2 idle ≡ some (tt, sv'))
    × (sv'.users 2 ≡ none)
    × (toy.hashmap_get sv'.users_map (codes "root") ≡ none)
    × (toy.hashmap_get sv'.tokens_map (codes "T") ≡ none)
    × ((c : ℕ) → (2 == c) ≡ false → sv'.users c ≡ idle.users c)
user_memory_free_handler_lem_example =
    user_memory_free_handler_lem 2 idle idle_user 2 has_idle refl token_known refl refl

abbrev after_bind : Server
after_bind = state_of (bind_user_to_client 2 1 start)

bound : bind_user_to_client 2 1 start ≡ some (tt, after_bind)
unfolding start bind_user_to_client add_timer is_timer_effective
bound = refl

bind_user_to_client_twice_example : bind_user_to_client 2 1 after_bind ≡ none
unfolding start
bind_user_to_client_twice_example = bind_user_to_client_twice 2 2 1 start tt after_bind tt bound

-- The client has closed its end, and the server has no user for it.
abbrev hangup : Event
hangup = record { fd = 5; hangup = true; readable = false; incoming = [] }

abbrev after_hangup : Server
after_hangup = state_of (client_socket hangup ticking)

hung_up : client_socket hangup ticking ≡ some (tt, after_hangup)
unfolding start toy same client_socket free_client_socket fd_name is_timer_effective del_timer
    unlink is_user_bind
hung_up = refl

known_client : toy.hashmap_get ticking.clients_map (fd_name 5) ≡ some 1
unfolding start toy same fd_name
known_client = refl

client_socket-closes_example : after_hangup.clients 1 ≡ none
unfolding toy
client_socket-closes_example =
    client_socket-closes hangup 1 ticking some_client tt after_hangup known_client has_ticking refl
      hung_up
