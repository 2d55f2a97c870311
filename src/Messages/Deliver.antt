-- ===== src/Messages/Deliver.antt =====
-- messages.c: a message is sent to a bound client, and waiting messages are delivered.
use geekchatserver.Prelude.{
  ℕ, List, [], ◌∷◌, ◌++◌, Bytes, codes, if◌then◌else◌, Option, none, some, ℤ, negsuc, is_neg,
}
use geekchatserver.Platform.{Platform, Row}
use geekchatserver.State.{User, M, pure, ◌>>=◌, ◌>>◌, deref, user_at, client_at, column, snprintf}
use geekchatserver.Mysql.{mysql_real_query_result}
use geekchatserver.Users.Refs.{user_put}
use geekchatserver.Users.Load.{get_user_by_name}
use geekchatserver.Packet.Respond.{respond_json}

unfoldable pub messages_query : Bytes → Bytes
messages_query username = snprintf 200 (
    codes "select uuid, from_user, message from messages where to_user = '"
    ++ (username ++ codes "' and have_read = '0'"))

module _ ⦃p : Platform⦄ where
  unfoldable pub message_json : User → User → Bytes → Bytes → p.Json
  message_json from to uuid message =
      let set = λ (o : p.Json) (k : Bytes) (v : p.Json). p.json_object_set_new o k v in
      let j1 =
        set p.json_object (codes "method") (p.json_string (codes "com.message.recv.request")) in
      let j2 = set j1 (codes "status") p.json_true in
      let j3 = set j2 (codes "from") (p.json_string from.username) in
      let j4 = set j3 (codes "token") (p.json_string to.token) in
      let j5 = set j4 (codes "uuid") (p.json_string uuid) in
      set j5 (codes "message") (p.json_string message)

  -- The function ends with no `return`.
  unfoldable pub send_message_to : ℕ → ℕ → Bytes → Bytes → M ℤ
  unfolding message_json respond_json
  send_message_to from to uuid message = do
    f ← user_at from
    t ← user_at to
    c ← deref t.client
    respond_json c (message_json f t uuid message)
    pure p.indeterminate

  unfoldable pub get_message_from_mysql : ℕ → M (ℤ × Option (List Row))
  unfolding mysql_real_query_result messages_query
  get_message_from_mysql a = do
    u ← user_at a
    (ret, result) ← mysql_real_query_result (messages_query u.username)
    if is_neg ret then pure (ret, none) else elim result [
      | none ↦ pure (ret, none)
      | some rows ↦ elim rows [
        | [] ↦ pure (negsuc 0, none)
        | row ∷ more ↦ pure (ret, some (row ∷ more))
      ]
    ]

  -- One row: uuid, sender and text. A sender that is not found is passed over.
  unfoldable pub deliver_row : ℕ → Row → M (Unit {0})
  unfolding send_message_to
  deliver_row c row = do
    from_name ← column row 1
    (ret, from) ← get_user_by_name from_name
    if is_neg ret then pure tt else elim from [
      | none ↦ pure tt
      | some f ↦ do
        ct ← client_at c
        to ← deref ct.usr
        uuid ← column row 0
        message ← column row 2
        sent ← send_message_to f to uuid message
        user_put f
    ]

  unfoldable pub deliver_rows : ℕ → List Row → M (Unit {0})
  unfolding deliver_row
  deliver_rows c [] = pure tt
  deliver_rows c (row ∷ rows) = deliver_row c row >> deliver_rows c rows

  unfoldable pub send_message_handler : ℕ → M (Unit {0})
  unfolding get_message_from_mysql deliver_rows
  send_message_handler c = do
    ct ← client_at c
    to ← deref ct.usr
    (ret, result) ← get_message_from_mysql to
    if is_neg ret then pure tt else elim result [ none ↦ pure tt | some rows ↦ deliver_rows c rows ]
