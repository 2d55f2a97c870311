-- ===== src/Tests/Session.antt =====
-- The server at concrete states: a stream, logins, queries and friends.
use geekchatserver.Prelude.{
  ◌≡◌, ◌↔◌, refl, [], ◌∷◌, arith, Bytes, same, codes, true, false, Option, none, some, pos, is_neg,
}
use geekchatserver.State.{User, Server, ◌>>◌, update}
use geekchatserver.Tests.Toy.{toy}
use geekchatserver.Tests.States.{some_user, some_client, start, state_of}
use geekchatserver.Framing.{raw_packet, next_frame}
use geekchatserver.Framing.Chunks.{frames}
use geekchatserver.Server.Receive.{try_make_net_packet}
use geekchatserver.Server.Stream.{Parsed, try_make-frames}
use geekchatserver.Packet.Dispatch.{dispatch_packet, call_method}
use geekchatserver.Packet.Respond.{respond_method_not_found, serr_pwd_err}
use geekchatserver.Methods.Field.{field}
use geekchatserver.Crc.{crc32_classic}
use geekchatserver.Mysql.{
  result_round, affected_round, retry_loop, retry_count, affect_one_row, mysql_real_query_affected,
}
use geekchatserver.Mysql.Retry.{Outcome, retry_loop_lem, affect_one_row_lem}
use geekchatserver.Friends.Cache.{free_friends}
use geekchatserver.Friends.Refresh.{free_friends_twice}
use geekchatserver.Hex.{hex_to_ascii}
use geekchatserver.Methods.Login.{check_login, accept_login, expected_crypto, fail_put}
use geekchatserver.Methods.Login.Security.{login_sound, login_once}
use geekchatserver.Tokens.Auth.{alloc_new_token, store_token_to_mysql, get_random_bytes}
use geekchatserver.Tokens.Registry.{try_effect_token, is_token_effective, free_token}
use geekchatserver.Users.Refs.{user_get, user_put, bind_user_to_client}
use geekchatserver.Packet.Respond.{respond}
use geekchatserver.Timer.{is_timer_effective, add_timer}

-- The packet names no method, and three bytes of the next packet are there.
abbrev answered : Server
unfolding toy
answered = record start {
  clients = update start.clients 1 (some (record some_client { buffer = codes "abc" }));
  sent = (5, raw_packet 1 []) ∷ [];
}

answered_run : try_make_net_packet 20 1 start ≡ some (some true, answered)
unfolding start toy same crc32_classic try_make_net_packet next_frame raw_packet dispatch_packet
    field call_method respond_method_not_found
answered_run = refl

try_make-frames_example : Parsed 1 (frames some_client.buffer) start (some true) answered
unfolding raw_packet start
try_make-frames_example =
    try_make-frames 20 1 start some_client (some true) answered refl (omega arith) answered_run

retry_loop_lem_example : Outcome (result_round (codes "select 1")) 2 start.mysql
retry_loop_lem_example = retry_loop_lem (result_round (codes "select 1")) 2 start.mysql

one_row :
    affect_one_row (codes "update") (pos 0) start
    ≡ some (pos 0, state_of (affect_one_row (codes "update") (pos 0) start))
unfolding start toy affect_one_row mysql_real_query_affected retry_loop affected_round
one_row = refl

affect_one_row_lem_example :
    (is_neg (pos 0) ≡ false)
    ↔ ((retry_loop (affected_round (codes "update")) retry_count start.mysql).err ≡ 0)
      × ((retry_loop (affected_round (codes "update")) retry_count start.mysql).value ≡ pos 1)
affect_one_row_lem_example =
    affect_one_row_lem (codes "update") 0 start (pos 0)
      (state_of (affect_one_row (codes "update") (pos 0) start)) one_row

free_friends_twice_example : (free_friends 2 >> free_friends 2) start ≡ none
unfolding start
free_friends_twice_example = free_friends_twice 2 start some_user (codes "lisi" ∷ []) refl refl

-- A user that was given a seed, and the digest that it has to send.
abbrev seeded_user : User
seeded_user = record some_user {
  seed = codes "0123456789ABCDEF0123456789ABCDEF";
  is_seed_existed = true;
}

abbrev seeded : Server
seeded = record start { users = update (λ b. none) 2 (some seeded_user) }

abbrev proof_text : Bytes
proof_text = expected_crypto seeded_user

logged_in :
    check_login 1 2 proof_text seeded ≡ some (pos 0, state_of (check_login 1 2 proof_text seeded))
unfolding start toy same crc32_classic check_login expected_crypto hex_to_ascii accept_login
    alloc_new_token get_random_bytes is_token_effective free_token store_token_to_mysql
    mysql_real_query_affected retry_loop affected_round try_effect_token user_get
    bind_user_to_client user_put respond raw_packet is_timer_effective add_timer
logged_in = refl

abbrev user_or : Option User → User
user_or none = some_user
user_or (some u) = u

abbrev after_login : Server
after_login = state_of (check_login 1 2 proof_text seeded)

abbrev online_user : User
online_user = user_or (after_login.users 2)

user_online : (after_login.users 2 ≡ some online_user) × (online_user.is_online ≡ true)
unfolding start toy same crc32_classic check_login expected_crypto hex_to_ascii accept_login
    alloc_new_token get_random_bytes is_token_effective free_token store_token_to_mysql
    mysql_real_query_affected retry_loop affected_round try_effect_token user_get
    bind_user_to_client user_put respond raw_packet is_timer_effective add_timer
user_online = (refl, refl)

login_sound_example :
    (seeded_user.is_seed_existed ≡ true) × (expected_crypto seeded_user ≡ proof_text)
unfolding start toy
login_sound_example =
    login_sound 1 2 proof_text seeded after_login (pos 0) seeded_user online_user refl refl
      logged_in user_online.0 user_online.1

abbrev after_accept : Server
after_accept = state_of (accept_login 1 2 seeded)

accepted :
    (accept_login 1 2 seeded ≡ some (pos 0, after_accept))
    × (after_accept.users 2 ≡ some (user_or (after_accept.users 2)))
unfolding start toy same crc32_classic check_login expected_crypto hex_to_ascii accept_login
    alloc_new_token get_random_bytes is_token_effective free_token store_token_to_mysql
    mysql_real_query_affected retry_loop affected_round try_effect_token user_get
    bind_user_to_client user_put respond raw_packet is_timer_effective add_timer
accepted = (refl, refl)

login_once_example :
    check_login 7 2 proof_text after_accept ≡ fail_put 7 2 serr_pwd_err after_accept
login_once_example =
    login_once 1 2 7 proof_text seeded after_accept (pos 0) (user_or (after_accept.users 2))
      accepted.0 accepted.1
