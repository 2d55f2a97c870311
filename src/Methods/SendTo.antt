-- ===== src/Methods/SendTo.antt =====
-- methods/com.message.sendto.request.c.
use geekchatserver.Prelude.{
  ℕ, ◌/◌, ◌++◌, Bytes, codes, if◌then◌else◌, Option, none, some, ℤ, pos, neg, is_neg,
}
use geekchatserver.Platform.{Platform}
use geekchatserver.State.{server_uuid_lens, M, pure, ◌>>=◌, ◌>>◌, deref, user_at, snprintf}
use geekchatserver.Mysql.{affect_one_row}
use geekchatserver.Users.Refs.{user_put}
use geekchatserver.Tokens.Registry.{is_token_effective}
use geekchatserver.Tokens.Auth.{get_usr_by_token, get_random_bytes}
use geekchatserver.Users.Load.{get_user_by_name}
use geekchatserver.Packet.Respond.{respond}
use geekchatserver.Packet.Respond.{
  serr_success, serr_err, serr_usr_not_exist, serr_force_logout, serr_arg,
}
use geekchatserver.Methods.Field.{field}
use geekchatserver.Messages.Deliver.{send_message_to}
use geekchatserver.Hex.{hex_to_ascii}

abbrev sendto_respond : Bytes
sendto_respond = codes "com.message.sendto.respond"

unfoldable pub write_message_query : Bytes → Bytes → Bytes → Bytes → Bytes
write_message_query uuid from to message =
    let sep = codes "', '" in
    snprintf 4096 (
      codes "insert into messages(uuid, from_user, to_user, message) values ('"
      ++ (uuid ++ (sep ++ (from ++ (sep ++ (to ++ (sep ++ (message ++ codes "')"))))))))

module _ ⦃p : Platform⦄ where
  unfoldable pub write_message_to_mysql : ℕ → ℕ → Bytes → Bytes → M ℤ
  unfolding affect_one_row write_message_query
  write_message_to_mysql from to uuid message = do
    f ← user_at from
    t ← user_at to
    affect_one_row (write_message_query uuid f.username t.username message) (pos 1)

  -- The result of the random read is not looked at: when it fails, uninitialised bytes are used.
  unfoldable pub allow_new_uuid : M Bytes
  unfolding get_random_bytes
  allow_new_uuid = do
    raw ← get_random_bytes (server_uuid_lens / 2)
    bytes ← deref raw
    pure (hex_to_ascii bytes)

  abbrev answer : ℕ → ℕ → M ℤ
  answer c err = respond c p.json_object sendto_respond (neg err)

  -- Both references are given back, then the answer goes out.
  abbrev pub finish : ℕ → ℕ → ℕ → ℕ → M ℤ
  finish c from to err = do user_put from; user_put to; answer c err

  -- `message` is not tested for NULL: the test names `sendto` again.
  unfoldable pub send_or_store : ℕ → ℕ → ℕ → Option Bytes → M ℤ
  unfolding allow_new_uuid write_message_to_mysql
  send_or_store c from to text = do
    uuid ← allow_new_uuid
    t ← user_at to
    message ← deref text
    elim t.client [
      | none ↦ do
        stored ← write_message_to_mysql from to uuid message
        finish c from to serr_success
      | some _ ↦ do
        sent ← send_message_to from to uuid message
        if is_neg sent then finish c from to serr_err else do
          stored ← write_message_to_mysql from to uuid message
          finish c from to serr_success
    ]

  unfoldable pub send_from : ℕ → p.Json → ℕ → M ℤ
  send_from c json from = elim (field json (codes "sendto")) [
    | none ↦ do user_put from; answer c serr_arg
    | some sendto ↦ do
      (ret, to) ← get_user_by_name sendto
      elim (if is_neg ret then none else to) [
        | none ↦ do user_put from; answer c serr_usr_not_exist
        | some t ↦ send_or_store c from t (field json (codes "message"))
      ]
  ]

  unfoldable pub method_com_message_sendto_request : ℕ → p.Json → M ℤ
  method_com_message_sendto_request c json = elim (field json (codes "token")) [
    | none ↦ answer c serr_arg
    | some token ↦ do
      (ret, usr) ← get_usr_by_token c token
      elim (if is_neg ret then none else usr) [
        | none ↦ answer c serr_force_logout
        | some from ↦ do
          effective ← is_token_effective from
          if effective then send_from c json from else do user_put from; answer c serr_force_logout
      ]
  ]
