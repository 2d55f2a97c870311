-- ===== src/Methods/Stubs.antt =====
-- The methods that only answer: methods/com.hello.request.c, com.heartbeat.request.c,
-- com.user.info.request.c, com.user.password.request.c, com.user.changeinfo.request.c,
-- com.friends.info.request.c and com.friends.delete.request.c.
use geekchatserver.Prelude.{ℕ, Bytes, codes, ℤ, pos}
use geekchatserver.Platform.{Platform}
use geekchatserver.State.{M, pure, ◌>>◌}
use geekchatserver.Packet.Respond.{respond_json}

module _ ⦃p : Platform⦄ where
  -- The answer of all of them: the name of the method and the status.
  unfoldable pub acknowledge : Bytes → ℕ → M ℤ
  unfolding respond_json
  acknowledge method c = do
    let named = p.json_object_set_new p.json_object (codes "method") (p.json_string method)
    respond_json c (p.json_object_set_new named (codes "status") p.json_true)
    pure (pos 0)

  unfoldable pub method_com_hello_request : ℕ → p.Json → M ℤ
  unfolding acknowledge
  method_com_hello_request c json = acknowledge (codes "com.hello.respond") c

  unfoldable pub method_com_heartbeat_request : ℕ → p.Json → M ℤ
  unfolding acknowledge
  method_com_heartbeat_request c json = acknowledge (codes "com.heartbeat.respond") c

  unfoldable pub method_com_user_info_request : ℕ → p.Json → M ℤ
  unfolding acknowledge
  method_com_user_info_request c json = acknowledge (codes "com.user.info.respond") c

  unfoldable pub method_com_user_password_request : ℕ → p.Json → M ℤ
  unfolding acknowledge
  method_com_user_password_request c json = acknowledge (codes "com.user.password.respond") c

  unfoldable pub method_com_user_changeinfo_request : ℕ → p.Json → M ℤ
  unfolding acknowledge
  method_com_user_changeinfo_request c json = acknowledge (codes "com.user.changeinfo.respond") c

  unfoldable pub method_com_friends_info_request : ℕ → p.Json → M ℤ
  unfolding acknowledge
  method_com_friends_info_request c json = acknowledge (codes "com.friends.info.respond") c

  unfoldable pub method_com_friends_delete_request : ℕ → p.Json → M ℤ
  unfolding acknowledge
  method_com_friends_delete_request c json = acknowledge (codes "com.friends.delete.respond") c
