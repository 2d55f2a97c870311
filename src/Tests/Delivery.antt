-- ===== src/Tests/Delivery.antt =====
-- Friends that are listed, and a message from its delivery to the mark that it was read.
use geekchatserver.Prelude.{
  ◌≤◌, ◌≡◌, ◌⊎◌, refl, List, [], ◌∷◌, arith, Bytes, same, codes, length, true, false, Option, none,
  some, is_some, pos,
}
use geekchatserver.Platform.{Platform, Row}
use geekchatserver.State.{null, User, Client, Server, ◌>>◌, update, dec}
use geekchatserver.Crc.{crc32_classic}
use geekchatserver.Mysql.{mysql_real_query_affected, affected_round}
use geekchatserver.Tokens.Registry.{free_token}
use geekchatserver.Users.Frame.{account}
use geekchatserver.Methods.Logout.{logout_user, invalid_token_to_mysql}
use geekchatserver.Methods.Logout.Offline.{logout_user_lem}
use geekchatserver.Framing.{raw_packet}
use geekchatserver.Hex.{hex_to_ascii}
use geekchatserver.Tokens.Auth.{get_random_bytes}
use geekchatserver.Packet.Respond.{respond}
use geekchatserver.Methods.LoginSeed.{give_seed, build_new_seed}
use geekchatserver.Methods.Login.{check_login, accept_login, fixed}
use geekchatserver.Client.Login.{login_crypto}
use geekchatserver.Client.Seeded.{give_seed-check_login}
use geekchatserver.Server.Clients.{client_timeout_handler}
use geekchatserver.Server.Stale.{client_timeout_handler_stale}
use geekchatserver.Timer.{is_timer_effective, looper_timer, client_timer}
use geekchatserver.Mysql.{affect_one_row, retry_loop, result_round}
use geekchatserver.Users.Refs.{user_put}
use geekchatserver.Tokens.Registry.{is_token_effective, is_token_in_memory}
use geekchatserver.Methods.FriendsList.{list_friends, list_answer}
use geekchatserver.Friends.Load.{friends_query}
use geekchatserver.Friends.Loaded.{list_friends_lem, loaded, texts_of}
use geekchatserver.Messages.Deliver.{message_json}
use geekchatserver.Packet.Respond.{serr_success}
use geekchatserver.Packet.Table.{HasRoom}
use geekchatserver.Packet.Wire.{wire, text_of}
use geekchatserver.Client.{ClientStruct}
use geekchatserver.Client.Requests.{recv_respond}
use geekchatserver.Client.Loop.{recv_message}
use geekchatserver.Client.Fetch.{Holds}
use geekchatserver.Client.Served.{KeepsTexts}
use geekchatserver.Client.Delivered.{delivered_acknowledged}
use geekchatserver.Tests.Toy.{toy}
use geekchatserver.Tests.States.{start, some_client, some_user, state_of}
use geekchatserver.Tests.Terminal.{talking, client_with, client_with-Holds}

toy-HasRoom : HasRoom
unfolding toy
toy-HasRoom m k v = ((k, v) ∷ m, refl)

-- A user whose friends are in the database only: one row, of the name "root".
abbrev lonely_user : User
lonely_user = record some_user {
  friends = record { is_inited = false; num_of_friends = 0; buffer = null };
}

abbrev lonely : Server
lonely = record start { users = update (λ b. none) 2 (some lonely_user) }

abbrev friend_rows : List Row
friend_rows = (some (codes "root") ∷ some (codes "root") ∷ none ∷ []) ∷ []

answered_rows :
    ((retry_loop (result_round (friends_query (codes "root"))) 2 lonely.mysql).err ≡ 0)
    × ((retry_loop (result_round (friends_query (codes "root"))) 2 lonely.mysql).value
        ≡ some friend_rows)
unfolding start toy retry_loop result_round friends_query
answered_rows = (refl, refl)

has_memory : toy.malloc lonely.mallocs ≡ true
unfolding toy
has_memory = refl

list_friends_lem_example :
    (array : toy.Json) × (list_friends 1 2 lonely
      ≡ (user_put 2
            >> list_answer 1
                (toy.json_object_set_new toy.json_object (codes "friends") array)
                serr_success)
          (loaded lonely 2 lonely_user friend_rows))
    × (toy.json_array_values array ≡ some (texts_of friend_rows))
unfolding toy
list_friends_lem_example =
    list_friends_lem 1 2 lonely lonely_user friend_rows refl refl answered_rows.0 answered_rows.1
      has_memory toy-HasRoom ((codes "root", refl, omega arith, refl), tt)

-- A platform on which every text parses to one message.
abbrev mail : toy.Json
mail = message_json some_user some_user (codes "7") (codes "hi")

abbrev post : Platform
unfolding toy
post = talking mail

abbrev letter : post.Json
letter = message_json ⦃p = post⦄ some_user some_user (codes "7") (codes "hi")

letter_loads : post.json_loadb (text_of ⦃p = post⦄ letter) ≡ some letter
unfolding talking toy message_json
letter_loads = refl

post_texts : KeepsTexts ⦃p = post⦄
unfolding talking toy
post_texts t = refl

post_small : (j : post.Json) → (post.json_dumpb j 4088).0 ≤ 4088
unfolding talking toy
post_small j = omega arith

abbrev incoming : List (Option Bytes)
incoming = some (wire ⦃p = post⦄ letter) ∷ []

delivered_acknowledged_example :
    (ct' : ClientStruct) × (recv_message ⦃p = post⦄ (client_with [] incoming)
      ≡ some (some (pos 0), ct'))
    × (ct'.written ≡ wire ⦃p = post⦄ (recv_respond ⦃p = post⦄ (codes "7") (codes "T")) ∷ [])
    × Holds [] ct'
delivered_acknowledged_example =
    delivered_acknowledged ⦃p = post⦄ (client_with [] incoming) some_user some_user (codes "7")
      (codes "hi") [] post_texts (client_with-Holds [] incoming (omega arith)) refl
      (post_small letter) letter_loads
      (post_small (recv_respond ⦃p = post⦄ (codes "7") (codes "T")))

-- The token "T" stands for the user at address 2.
abbrev reader : User
reader = record some_user { token = codes "T" }

abbrev reading : Server
unfolding toy
reading = record start {
  users = update (λ b. none) 2 (some reader);
  tokens_map = (codes "T", 2) ∷ [];
}

-- The user at address 2 asks for a seed.
abbrev asker : Server
asker = record start { users = update (λ b. none) 2 (some some_user) }

abbrev random_bytes : Bytes
random_bytes = 0 ∷ 0 ∷ 0 ∷ 0 ∷ 0 ∷ 0 ∷ 0 ∷ 0 ∷ 0 ∷ 0 ∷ 0 ∷ 0 ∷ 0 ∷ 0 ∷ 0 ∷ 0 ∷ []

abbrev with_seed : Server
with_seed = state_of (give_seed 1 2 asker)

abbrev seeded_user : User
seeded_user = record some_user {
  seed = hex_to_ascii random_bytes;
  is_seed_existed = true;
  use_cnt = dec some_user.use_cnt;
}

gave_seed :
    ((toy.random_read 16 asker.random).0 ≡ some random_bytes)
    × (give_seed 1 2 asker ≡ some (pos 0, with_seed))
    × (with_seed.users 2 ≡ some seeded_user)
unfolding start toy same give_seed build_new_seed get_random_bytes user_put respond raw_packet
    crc32_classic
gave_seed = (refl, refl, refl)

sixteen : length random_bytes ≡ 16
sixteen = refl

give_seed-check_login_example :
    check_login 7 2 (login_crypto (hex_to_ascii random_bytes) (fixed 32 (codes "root"))) with_seed
    ≡ accept_login 7 2 with_seed
give_seed-check_login_example =
    give_seed-check_login 1 7 2 asker with_seed (pos 0) some_user seeded_user random_bytes refl refl
      gave_seed.0 sixteen gave_seed.1 gave_seed.2

-- The user at address 2 was on the connection at address 1 and is now on that at address 9.
abbrev stale_client : Client
stale_client = record some_client { usr = some 2 }

abbrev back_user : User
back_user = record some_user { client = some 9 }

abbrev two_clients : Server
two_clients = record start {
  users = update (λ b. none) 2 (some back_user);
  clients = update (update (λ b. none) 9 (some stale_client)) 1 (some stale_client);
}

no_timers :
    (is_timer_effective two_clients.timers_list (looper_timer 9) ≡ false)
    × (is_timer_effective two_clients.timers_list (client_timer 1) ≡ false)
unfolding start is_timer_effective
no_timers = (refl, refl)

client_timeout_handler_stale_example :
    (sv' : Server) × (client_timeout_handler 1 two_clients ≡ some (tt, sv'))
    × (sv'.clients 9 ≡ some (record stale_client { usr = none }))
    × (sv'.users 2 ≡ some (record back_user { client = none }))
client_timeout_handler_stale_example =
    client_timeout_handler_stale 1 9 2 two_clients stale_client stale_client back_user refl refl
      refl refl refl refl no_timers.0 no_timers.1

-- The user at address 2 is online, and logs out from the client at address 1.
abbrev online_user : User
online_user = record some_user { token = codes "T"; is_online = true; use_cnt = pos 3 }

abbrev online : Server
online = record reading { users = update (λ b. none) 2 (some online_user) }

abbrev offline : Server
offline = state_of (logout_user 1 2 online)

abbrev offline_user : User
offline_user = record online_user { is_online = false; use_cnt = pos 1 }

logged_out :
    (logout_user 1 2 online ≡ some (pos 0, offline)) × (offline.users 2 ≡ some offline_user)
unfolding start toy same logout_user is_token_effective is_token_in_memory invalid_token_to_mysql
    affect_one_row mysql_real_query_affected retry_loop affected_round free_token user_put respond
    raw_packet crc32_classic
logged_out = (refl, refl)

logout_user_lem_example :
    (account offline_user ≡ account online_user)
    ⊎ ((is_some (toy.hashmap_get online.tokens_map (codes "T")) ≡ true)
        × (account offline_user ≡ account (record online_user { is_online = false })))
logout_user_lem_example =
    logout_user_lem 1 2 online offline (pos 0) online_user offline_user refl logged_out.0
      logged_out.1
