-- ===== src/Client/Requests.antt =====
-- client.c: the requests of the client, as JSON, and the commands of its menu.
use geekchatserver.Prelude.{Bytes, same, String, codes, if◌then◌else◌, false, none, some, ℤ, pos}
use geekchatserver.Platform.{Platform}
use geekchatserver.Client.{C, pure, fault, ◌>>=◌, ◌>>◌, get, modify, scan_word}
use geekchatserver.Client.Packets.{send_json_object, recv_json_object}

module _ ⦃p : Platform⦄ where
  abbrev with_text : p.Json → String → Bytes → p.Json
  with_text json key value = p.json_object_set_new json (codes key) (p.json_string value)

  abbrev with_method : String → p.Json
  with_method method = with_text p.json_object "method" (codes method)

  unfoldable pub seed_request : Bytes → p.Json
  seed_request username = with_text (with_method "com.login.seed.request") "username" username

  unfoldable pub login_request : Bytes → Bytes → p.Json
  login_request crypto username =
      with_text (with_text (with_method "com.login.request") "crypto" crypto) "username" username

  unfoldable pub sendto_request : Bytes → Bytes → Bytes → p.Json
  sendto_request message token sendto =
      with_text
        (with_text (with_text (with_method "com.message.sendto.request") "message" message) "token"
          token)
        "sendto" sendto

  unfoldable pub logout_request : Bytes → p.Json
  logout_request token = with_text (with_method "com.logout.bytoken.request") "token" token

  unfoldable pub friends_add_request : Bytes → Bytes → p.Json
  friends_add_request token friend =
      with_text (with_text (with_method "com.friends.add.request") "token" token) "friend" friend

  unfoldable pub register_request : Bytes → Bytes → p.Json
  register_request username password =
      with_text (with_text (with_method "com.register.request") "username" username) "password"
        password

  unfoldable pub friends_list_request : Bytes → p.Json
  friends_list_request token = with_text (with_method "com.friends.list.request") "token" token

  unfoldable pub recv_respond : Bytes → Bytes → p.Json
  recv_respond uuid token =
      p.json_object_set_new
        (with_text (with_text (with_method "com.message.recv.respond") "uuid" uuid) "token" token)
        (codes "errno") (p.json_integer (pos 0))

  unfoldable pub scan_send_message : C ℤ
  scan_send_message = do
    sendto ← scan_word 30
    message ← scan_word 100
    ct ← get
    send_json_object (sendto_request message ct.token sendto)
    pure (pos 0)

  unfoldable pub logout_json : C (Unit {0})
  logout_json = do ct ← get; send_json_object (logout_request ct.token)

  unfoldable pub add_friend_json : C (Unit {0})
  add_friend_json = do
    friend ← scan_word 20
    ct ← get
    send_json_object (friends_add_request ct.token friend)

  unfoldable pub register_json : C (Unit {0})
  register_json = do
    username ← scan_word 20
    password ← scan_word 20
    send_json_object (register_request username password)

  -- The result of `recv_json_object` is not looked at: with no JSON, the request that was just deleted
  -- is read.
  unfoldable pub list_my_friends : C ℤ
  list_my_friends = do
    ct ← get
    send_json_object (friends_list_request ct.token)
    (ret, json) ← recv_json_object
    elim json [ none ↦ fault | some answer ↦ pure (pos 0) ]

  unfoldable pub recv_stdin : C ℤ
  recv_stdin = do
    method ← scan_word 20
    if same method (codes "send")
        then scan_send_message
        else if same method (codes "logout")
        then (do logout_json; modify (λ ct. record ct { thread_loop = false }); pure (pos 0))
        else if same method (codes "friends")
        then list_my_friends
        else if same method (codes "addfriend")
        then (add_friend_json >> pure (pos 0))
        else if same method (codes "register")
        then (register_json >> pure (pos 0))
        else pure (pos 0)
